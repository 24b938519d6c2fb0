-- ===== src/Sensors/Invariant.antt =====
-- The state that every operation on the sensors keeps.
use dccexpress_mini.Prelude.{
  ℕ, ◌+◌, ◌-◌, ◌%◌, ◌≤◌, ◌≡◌, refl, ap, ◌∙◌, sym, subst, Bool, ◌&&◌, not, List, [], ◌∷◌, ◌++◌, ltb,
  leb, ◌==◌, arith, Option-cases, inl, inr, length, map, take, drop, take-append-drop, map-append,
  length-map, length-append, ap₂, if_both,
}
use dccexpress_mini.Prelude.Keyed.{
  find_by, Absent, IsUnique, IsUnique-without, IsUnique-map, length-without, behind-lt,
}
use dccexpress_mini.Sensors.{
  Sensor, Sensors, remove, create, vpin_max, vpin_none, check_all, begin_cycle, cycle_interval,
  input_change_callback, notify, sample, settle, same,
}
use dccexpress_mini.Sensors.Lookup.{remove-without}
use dccexpress_mini.Sensors.Scan.{scan-Scanned, read_once, swept}

-- The numbers of the sensors differ, and the sensor to be read next is in the list.
pub record IsValid (m : Sensors) : Type 0 where
  pub unique : IsUnique (λ s. s.snum) m.all
  pub within : m.reading ≤ length m.all

remove-IsValid : (n : ℕ) (m : Sensors) → IsValid m → IsValid (remove n m).1
unfolding remove
remove-IsValid n m v = elim (Option-cases (find_by (λ s. s.snum) n m.all)) [
  | inl e ↦ rw (e, remove) v
  | inr (s, e) ↦
      let shorter = length-without (λ s. s.snum) n m.all {z = s} e in
      let inside = behind-lt (λ s. s.snum) n m.all {z = s} e in
      rw (e, remove)
        (record {
          unique = (IsUnique-without (λ s. s.snum) n m.all v.unique).0;
          within = ground (arith, shorter, inside, v.within);
        })
]

create-IsValid :
    (has_callback : ℕ → Bool) (memory : Bool) (snum pin pull_up : ℕ) (m : Sensors)
    → IsValid m
    → IsValid (create has_callback memory snum pin pull_up m).1
unfolding create
create-IsValid has_callback memory snum pin pull_up m v =
    let removed = remove-IsValid snum m v in
    let absent : Absent (λ s. s.snum) snum (remove snum m).1.all =
      subst (Absent (λ s. s.snum) snum) (sym (remove-without snum m))
        (IsUnique-without (λ s. s.snum) snum m.all v.unique).1 in
    if_both (λ (r : Bool × Sensors). IsValid r.1) (ltb vpin_max pin && not (pin == vpin_none)) v
      (if_both (λ (r : Bool × Sensors). IsValid r.1) (not memory) removed
        (record { unique = (absent, removed.unique); within = omega (arith, removed.within) }))

settle-snum : (s : Sensor) → (settle s).0.snum ≡ s.snum
unfolding settle
settle-snum s =
    if_both (λ (r : Sensor × Bool). r.0.snum ≡ s.snum) (same s.input_state s.active) refl
      (if_both (λ (r : Sensor × Bool). r.0.snum ≡ s.snum) (ltb 0 s.latch_delay) refl refl)

-- Reading does not change the number of a sensor.
read_once-snum : (read : ℕ → Bool) (s : Sensor) → (read_once read s).snum ≡ s.snum
unfolding settle sample
read_once-snum read s =
    if_both (λ s'. (settle s').0.snum ≡ s.snum) (s.polling_required && not (s.pin == vpin_none))
      (settle-snum (record s { input_state = read s.pin })) (settle-snum s)

swept-snum :
    (read : ℕ → Bool) (ss : List Sensor) → map (λ s. s.snum) (swept read ss) ≡ map (λ s. s.snum) ss
swept-snum read [] = refl
swept-snum read (s ∷ ss) = ap₂ (λ n l. n ∷ l) (read_once-snum read s) (swept-snum read ss)

swept-keys :
    (read : ℕ → Bool) (xs ds rs : List Sensor) {all : List Sensor}
    → all ≡ xs ++ (ds ++ rs)
    → map (λ s. s.snum) all ≡ map (λ s. s.snum) (xs ++ (swept read ds ++ rs))
swept-keys read xs ds rs {all} e =
    rw
      (
        e,
        map-append (λ s. s.snum) xs (ds ++ rs),
        map-append (λ s. s.snum) ds rs,
        map-append (λ s. s.snum) xs (swept read ds ++ rs),
        map-append (λ s. s.snum) (swept read ds) rs,
        swept-snum read ds,
      )
      refl

begin_cycle-IsValid : (micros : ℕ) (m : Sensors) → IsValid m → IsValid (begin_cycle micros m)
unfolding begin_cycle
begin_cycle-IsValid micros m v =
    if_both IsValid
      (m.reading == 0
        && not (length m.all == 0)
        && leb cycle_interval ((micros + 0x1_0000_0000 - m.last_read_cycle) % 0x1_0000_0000))
      (record { unique = v.unique; within = omega arith }) v

check_all-IsValid :
    (read : ℕ → Bool) (micros : ℕ) (m : Sensors) → IsValid m → IsValid (check_all read micros m)
unfolding check_all
check_all-IsValid read micros m v =
    let m' : Sensors = begin_cycle micros m in
    let before : ℕ = length m'.all - m'.reading in
    let t = scan-Scanned 16 read (drop before m'.all) in
    let v' = begin_cycle-IsValid micros m v in
    rw t.result (record {
      unique =
          IsUnique-map (λ s. s.snum) m'.all (take before m'.all ++ (swept read t.done ++ t.rest))
            (swept-keys read (take before m'.all) t.done t.rest
              (sym (take-append-drop before m'.all) ∙ ap (λ l. take before m'.all ++ l) t.split))
            v'.unique;
      within = omega (
        arith,
        length-append (take before m'.all) (swept read t.done ++ t.rest),
        length-append (swept read t.done) t.rest,
      );
    })

notify-snum :
    (vpin : ℕ) (state : Bool) (ss : List Sensor)
    → map (λ s. s.snum) ss ≡ map (λ s. s.snum) (notify vpin state ss)
unfolding notify
notify-snum vpin state [] = refl
notify-snum vpin state (s ∷ ss) =
    if_both (λ l. map (λ s. s.snum) (s ∷ ss) ≡ map (λ (s : Sensor). s.snum) l) (s.pin == vpin) refl
      (ap (λ l. s.snum ∷ l) (notify-snum vpin state ss))

length-notify :
    (vpin : ℕ) (state : Bool) (ss : List Sensor) → length (notify vpin state ss) ≡ length ss
length-notify vpin state ss =
    sym (length-map (notify vpin state ss) (λ s. s.snum))
    ∙ ap length (sym (notify-snum vpin state ss))
    ∙ length-map ss (λ s. s.snum)

input_change_callback-IsValid :
    (vpin : ℕ) (state : Bool) (m : Sensors)
    → IsValid m
    → IsValid (input_change_callback vpin state m)
unfolding input_change_callback
input_change_callback-IsValid vpin state m v = record {
  unique =
      IsUnique-map (λ s. s.snum) m.all (notify vpin state m.all) (notify-snum vpin state m.all)
        v.unique;
  within = omega (arith, length-notify vpin state m.all, v.within);
}

-- The operations on the sensors, in any order.
pub data Operation : Type 0 where
  make : (ℕ → Bool) → Bool → ℕ → ℕ → ℕ → Operation
  discard : ℕ → Operation
  input_changed : ℕ → Bool → Operation
  check : (ℕ → Bool) → ℕ → Operation

pub operate : List Operation → Sensors → Sensors
operate [] m = m
operate (make has_callback memory snum pin pull_up ∷ ops) m =
    operate ops (create has_callback memory snum pin pull_up m).1
operate (discard n ∷ ops) m = operate ops (remove n m).1
operate (input_changed vpin state ∷ ops) m = operate ops (input_change_callback vpin state m)
operate (check read micros ∷ ops) m = operate ops (check_all read micros m)

-- If no two sensors have the same number and the cursor of the polling is within the list, then
-- this stays so, whatever sequence of operations the sensors go through.
pub operate-IsValid : (ops : List Operation) (m : Sensors) → IsValid m → IsValid (operate ops m)
unfolding operate
operate-IsValid [] m v = v
operate-IsValid (make has_callback memory snum pin pull_up ∷ ops) m v =
    operate-IsValid ops (create has_callback memory snum pin pull_up m).1
      (create-IsValid has_callback memory snum pin pull_up m v)
operate-IsValid (discard n ∷ ops) m v = operate-IsValid ops (remove n m).1 (remove-IsValid n m v)
operate-IsValid (input_changed vpin state ∷ ops) m v =
    operate-IsValid ops (input_change_callback vpin state m)
      (input_change_callback-IsValid vpin state m v)
operate-IsValid (check read micros ∷ ops) m v =
    operate-IsValid ops (check_all read micros m) (check_all-IsValid read micros m v)

-- ===== src/Sensors/Progress.antt =====
-- That a cycle of `checkAll` reads every sensor once and ends.
use dccexpress_mini.Prelude.{
  ℕ, zero, suc, ◌-◌, ◌≤◌, ◌<◌, ◌≡◌, refl, ap, ◌∙◌, sym, Bool, List, [], ◌∷◌, ◌++◌, ◌==◌,
  if◌then◌else◌, arith, Bool-cases, inl, inr, length, take, drop, append_assoc, append-nil,
  length-append, length-drop, take-append-drop, take-append, drop-append, map-append,
}
use dccexpress_mini.Sensors.{Sensor, Sensors, Event, check_all, begin_cycle}
use dccexpress_mini.Sensors.Scan.{scan-Scanned, read_once, swept, report, report-nil, report-append}

-- The sensors that are still to be read in this cycle.
abbrev pub unread : Sensors → List Sensor
unread m = drop (length m.all - m.reading) m.all

abbrev pub already_read : Sensors → List Sensor
already_read m = take (length m.all - m.reading) m.all

-- A state in the middle of a cycle.
abbrev pub between : List Sensor → List Sensor → List Event → Sensors → Sensors
between xs ys es m = record m { all = xs ++ ys; reading = length ys; events = es }

begin_cycle-unread : (micros : ℕ) (m : Sensors) → 0 < m.reading → begin_cycle micros m ≡ m
unfolding begin_cycle
begin_cycle-unread micros m h = elim (Bool-cases (m.reading == 0)) [
  | inl e ↦ ground (arith, e)
  | inr e ↦ rw (e, begin_cycle) refl
]

-- One call in the middle of a cycle.
check_all-between :
    (read : ℕ → Bool) (micros : ℕ) (xs ys : List Sensor) (es : List Event) (m : Sensors)
    → 0 < length ys
    → let t = scan-Scanned 16 read ys in
      check_all read micros (between xs ys es m)
      ≡ between (xs ++ swept read t.done) t.rest (report read t.done es) m
unfolding check_all
check_all-between read micros xs ys es m h =
    let t = scan-Scanned 16 read ys in
    rw
      (
        begin_cycle-unread micros (between xs ys es m) h,
        drop-append xs ys,
        take-append xs ys,
        t.result,
        append_assoc xs (swept read t.done) t.rest,
        report-nil read t.done es,
        check_all,
      )
      refl

-- `checkAll` called until no sensor of the cycle is left.
pub finish : ℕ → (ℕ → Bool) → ℕ → Sensors → Sensors
finish zero read micros m = m
finish (suc fuel) read micros m =
    let rest = finish fuel read micros (check_all read micros m) in
    if m.reading == 0 then m else rest

finish-suc :
    (fuel : ℕ) (read : ℕ → Bool) (micros : ℕ) (m : Sensors)
    → 0 < m.reading
    → finish (suc fuel) read micros m ≡ finish fuel read micros (check_all read micros m)
unfolding finish
finish-suc fuel read micros m h = ground arith

finish-between :
    (fuel : ℕ) (read : ℕ → Bool) (micros : ℕ) (xs ys : List Sensor) (es : List Event) (m : Sensors)
    → length ys ≤ fuel
    → finish fuel read micros (between xs ys es m)
      ≡ between (xs ++ swept read ys) [] (report read ys es) m
unfolding finish report
finish-between zero read micros xs [] es m h = ap (λ l. between l [] es m) (sym (append-nil xs))
finish-between zero read micros xs (y ∷ ys) es m h = absurd (omega arith)
finish-between (suc fuel) read micros xs [] es m h =
    ap (λ l. between l [] es m) (sym (append-nil xs))
finish-between (suc fuel) read micros xs (y ∷ ys) es m h =
    let t = scan-Scanned 16 read (y ∷ ys) in
    let step = check_all-between read micros xs (y ∷ ys) es m (omega arith) in
    let shorter : length t.rest ≤ fuel = omega (
      arith,
      h,
      t.progress (omega arith) (omega arith),
      ap length t.split,
      length-append t.done t.rest,
    ) in
    let rest =
      finish-between fuel read micros (xs ++ swept read t.done) t.rest (report read t.done es) m
        shorter in
    let swept_all : (xs ++ swept read t.done) ++ swept read t.rest ≡ xs ++ swept read (y ∷ ys) =
      append_assoc xs (swept read t.done) (swept read t.rest)
      ∙ ap (λ l. xs ++ l)
          (sym (map-append (read_once read) t.done t.rest) ∙ ap (swept read) (sym t.split)) in
    let told_all : report read t.rest (report read t.done es) ≡ report read (y ∷ ys) es =
      sym (report-append read t.done t.rest es) ∙ ap (λ l. report read l es) (sym t.split) in
    finish-suc fuel read micros (between xs (y ∷ ys) es m) (omega arith)
    ∙ ap (finish fuel read micros) step
    ∙ rest
    ∙ (λ i. between (swept_all i) [] (told_all i) m)

-- If the cursor is within the list, and the pins read the same all the time, `checkAll` called
-- again and again, at most as often as sensors are left to be read, ends the cycle: then every
-- sensor that was left has been read just once, the others are as they were, and every change that
-- was seen is reported, in the order of the list.
pub finish-swept :
    (read : ℕ → Bool) (micros : ℕ) (m : Sensors)
    → m.reading ≤ length m.all
    → finish m.reading read micros m ≡ record m {
      all = already_read m ++ swept read (unread m);
      reading = 0;
      events = report read (unread m) m.events;
    }
finish-swept read micros m h =
    let left : length (unread m) ≡ m.reading =
      omega (arith, length-drop (length m.all - m.reading) m.all, h) in
    let cut : between (already_read m) (unread m) m.events m ≡ m = λ i. record m {
      all = take-append-drop (length m.all - m.reading) m.all i;
      reading = left i;
    } in
    ap (finish m.reading read micros) (sym cut)
    ∙ finish-between m.reading read micros (already_read m) (unread m) m.events m
        (omega (arith, left))
    ∙ ap (λ l. record m { all = l; reading = 0; events = report read (unread m) m.events })
        (append-nil (already_read m ++ swept read (unread m)))

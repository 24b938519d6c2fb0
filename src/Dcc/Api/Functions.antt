-- ===== src/Dcc/Api/Functions.antt =====
-- What `setFn` writes in the loco table, and what the readers then find.
use native.Mathlib.Nat.{one-le-pow}
use dccexpress_mini.Prelude.{
  ℕ, ◌-◌, ◌^◌, ◌≤◌, ◌<◌, ◌≡◌, ◌≢◌, inl, inr, refl, ap, ◌∙◌, sym, Bool, true, false, not, Option,
  none, some, ◌==◌, ==_iff, ltb, bit_and, if◌then◌else◌, length, arith, Bool-cases, length-set,
}
use dccexpress_mini.Prelude.Bits.{
  each_below, each_below_sound, bit_at, bit_at-lt, bit_at-bit_and, bit_at-bit_or, bit_at-pow_self,
  bit_at-pow_ne, bit_and-pow,
}
use dccexpress_mini.Dcc.State.{Loco, Dcc, max_locos, emit, schedule_main}
use dccexpress_mini.Dcc.Packets.{binary_state_packet}
use dccexpress_mini.Dcc.Table.{slot, lookup_speed_table, read_slot}
use dccexpress_mini.Dcc.Table.Laws.{find}
use dccexpress_mini.Dcc.Table.View.{
  Held, HasRoom, known, or_new, Held-find, Held-set_slot, Held-set_slot_ne, lookup-Held,
  read_slot-found, find-lookup_ne,
}
use dccexpress_mini.Dcc.Api.{switch, switch_slot, set_found_fn, set_fn, get_fn}

mask_table :
    each_below 32
      (λ j. each_below 32 (λ k. bit_at (0xffff_ffff - 2 ^ j) k == (if k == j then 0 else 1)))
    ≡ true
unfolding each_below
mask_table = refl

-- The bits of `~funcmask`.
mask_bits : (j k : ℕ) → j < 32 → k < 32 → bit_at (0xffff_ffff - 2 ^ j) k ≡ (if k == j then 0 else 1)
mask_bits j k hj hk =
    (==_iff _ _).0 (each_below_sound 32 _ k (each_below_sound 32 _ j mask_table hj) hk)

pub pow_bits : (j k : ℕ) → bit_at (2 ^ j) k ≡ (if k == j then 1 else 0)
pow_bits j k = elim (Bool-cases (k == j)) [
  | inl e ↦ rw (e, (==_iff k j).0 e) (bit_at-pow_self j)
  | inr e ↦ rw e (bit_at-pow_ne j k (ground arith))
]

-- Of the functions from F0 to F31, exactly one is switched, and the others keep their bits.
bit_at-switch :
    (f j k : ℕ) (on : Bool)
    → j < 32
    → k < 32
    → bit_at (switch f j on) k ≡ (if k == j then (if on then 1 else 0) else bit_at f k)
unfolding switch
bit_at-switch f j k true hj hk =
    ground (arith, bit_at-bit_or k f (2 ^ j), pow_bits j k, bit_at-lt f k)
bit_at-switch f j k false hj hk =
    ground (arith, bit_at-bit_and k f (0xffff_ffff - 2 ^ j), mask_bits j k, bit_at-lt f k)

-- Function k of a loco.
abbrev pub has_fn : Loco → ℕ → Bool
has_fn l k = bit_at l.functions k == 1

fn_test : (f k : ℕ) → not (bit_and f (2 ^ k) == 0) ≡ (bit_at f k == 1)
fn_test f k = elim (Bool-cases (bit_at f k == 1)) [
  | inl e ↦ rw (e, bit_and-pow k f, (==_iff _ _).0 e) (ground (arith, one-le-pow k 2 (omega arith)))
  | inr e ↦
      rw (e, bit_and-pow k f)
        (let z : bit_at f k ≡ 0 = ground (arith, bit_at-lt f k) in rw z (ground arith))
]

set_found_fn-find :
    {id reg : ℕ} {d : Dcc} (j : ℕ) (on : Bool)
    → Held id d reg
    → let (done, d') = set_found_fn j on (some reg, d) in
      (l : Loco) × (find id d'.speed_table ≡ some l)
      × (l.functions ≡ switch (slot d reg).functions j on)
      × (l.speed_code ≡ (slot d reg).speed_code)
      × (done ≡ true)
      × (length d'.speed_table ≡ max_locos)
unfolding set_found_fn emit switch_slot
set_found_fn-find {id} {reg} {d} j on h =
    elim (Bool-cases (switch (slot d reg).functions j on == (slot d reg).functions)) [
      | inl e ↦ rw e (slot d reg, (Held-find h).0, sym ((==_iff _ _).0 e), refl, refl, h.full)
      | inr e ↦ rw e (
        switch_slot j on (slot d reg),
        (Held-set_slot (switch_slot j on (slot d reg)) h (Held-find h).1).1,
        refl,
        refl,
        refl,
        length-set d.speed_table reg _ ∙ h.full,
      )
    ]

set_found_fn-find_ne :
    {id reg : ℕ} {d : Dcc} (j c : ℕ) (on : Bool)
    → Held id d reg
    → c ≢ id
    → find c (set_found_fn j on (some reg, d)).1.speed_table ≡ find c d.speed_table
unfolding set_found_fn emit switch_slot
set_found_fn-find_ne {id} {reg} {d} j c on h ne =
    elim (Bool-cases (switch (slot d reg).functions j on == (slot d reg).functions)) [
      | inl e ↦ rw e
      | inr e ↦ rw e (Held-set_slot_ne c (switch_slot j on (slot d reg)) h (Held-find h).1 ne)
    ]

-- The state in which `setFn` looks the loco up: the packet for F29 to F31 is sent by then.
abbrev announced : ℕ → ℕ → Bool → Dcc → Dcc
announced cab j on d =
    if ltb 28 j then emit (schedule_main (binary_state_packet cab j on) 4) d else d

announced-table :
    (cab j : ℕ) (on : Bool) (d : Dcc) → (announced cab j on d).speed_table ≡ d.speed_table
unfolding emit
announced-table cab j on d = ground arith

set_fn-lookup :
    (cab j : ℕ) (on : Bool) (d : Dcc)
    → 0 < cab
    → cab < 2 ^ 31
    → j ≤ 31
    → set_fn cab j on d ≡ set_found_fn j on (lookup_speed_table cab true (announced cab j on d))
unfolding set_fn
set_fn-lookup cab j on d h k l = ground arith

module _ (cab j : ℕ) (on : Bool) (d : Dcc) (full : length d.speed_table ≡ max_locos)
    (nonzero : 0 < cab) (positive : cab < 2 ^ 31) (small : j ≤ 31) (room : HasRoom cab d) where
  set_fn-find :
      let (done, d') = set_fn cab j on d in
      (l : Loco) × (find cab d'.speed_table ≡ some l)
      × (l.functions ≡ switch (known cab d).functions j on)
      × (l.speed_code ≡ (known cab d).speed_code)
      × (done ≡ true)
      × (length d'.speed_table ≡ max_locos)
  set_fn-find =
      let d1 : Dcc = announced cab j on d in
      let t : d1.speed_table ≡ d.speed_table = announced-table cab j on d in
      let (reg, d', e, held, k, _) = lookup-Held cab d1 (rw t full) (rw t room) in
      let (l, found, f, s, done, n) = set_found_fn-find j on held in
      let k' : slot d' reg ≡ known cab d = k ∙ ap (λ ls. or_new cab (find cab ls)) t in
      rw (set_fn-lookup cab j on d nonzero positive small, e)
        (l, found, f ∙ ap (λ l. switch l.functions j on) k', s ∙ ap (λ l. l.speed_code) k', done, n)

  -- No other loco is touched.
  set_fn-find_ne :
      (c : ℕ) → c ≢ cab → c ≢ 0 → find c (set_fn cab j on d).1.speed_table ≡ find c d.speed_table
  set_fn-find_ne c ne nz =
      let d1 : Dcc = announced cab j on d in
      let t : d1.speed_table ≡ d.speed_table = announced-table cab j on d in
      let (reg, d', e, held, k, _) = lookup-Held cab d1 (rw t full) (rw t room) in
      rw (set_fn-lookup cab j on d nonzero positive small, e)
        (set_found_fn-find_ne j c on held ne
          ∙ ap (λ (r : Option ℕ × Dcc). find c r.1.speed_table) (sym e)
          ∙ find-lookup_ne cab d1 (rw t full) true c ne nz
          ∙ ap (find c) t)

-- What `getFn` reads of a slot.
abbrev fn_of : ℕ → Loco → Option Bool
fn_of k l = some (not (bit_and l.functions (2 ^ k) == 0))

get_fn-read :
    (cab k : ℕ) (d : Dcc)
    → 0 < cab
    → cab < 2 ^ 31
    → k ≤ 31
    → (get_fn cab k d).0 ≡ read_slot none (fn_of k) (lookup_speed_table cab true d)
unfolding get_fn
get_fn-read cab k d h l m = ground arith

bit_test-switch :
    (f j k : ℕ) (on : Bool)
    → j < 32
    → k < 32
    → (bit_at (switch f j on) k == 1) ≡ (if k == j then on else (bit_at f k == 1))
bit_test-switch f j k true hj hk = rw (bit_at-switch f j k true hj hk) (ground arith)
bit_test-switch f j k false hj hk = rw (bit_at-switch f j k false hj hk) (ground arith)

-- `setFn` switches one function of a loco, from F0 to F31, on or off, and `getFn` then reads that
-- function as it was set and every other function as it was before; the speed is kept. The first
-- time, that is for a new loco, if the table has room for it; no other loco is touched.
pub get_fn-set_fn :
    (cab j k c : ℕ) (on : Bool) (d : Dcc)
    → length d.speed_table ≡ max_locos
    → 0 < cab
    → cab < 2 ^ 31
    → j ≤ 31
    → k ≤ 31
    → HasRoom cab d
    → c ≢ cab
    → c ≢ 0
    → let (done, d') = set_fn cab j on d in
      (done ≡ true)
      × ((get_fn cab k d').0 ≡ some (if k == j then on else has_fn (known cab d) k))
      × ((known cab d').speed_code ≡ (known cab d).speed_code)
      × (find c d'.speed_table ≡ find c d.speed_table)
get_fn-set_fn cab j k c on d full nonzero positive hj hk room ne nz =
    let (l, found, f, s, done, n) = set_fn-find cab j on d full nonzero positive hj room in
    (
      done,
      get_fn-read cab k (set_fn cab j on d).1 nonzero positive hk
          ∙ read_slot-found cab (set_fn cab j on d).1 n none (fn_of k) found
          ∙ ap some (fn_test l.functions k)
          ∙ ap (λ g. some (bit_at g k == 1)) f
          ∙ ap some (bit_test-switch (known cab d).functions j k on (omega arith) (omega arith)),
      ap (λ o. (or_new cab o).speed_code) found ∙ s,
      set_fn-find_ne cab j on d full nonzero positive hj room c ne nz,
    )

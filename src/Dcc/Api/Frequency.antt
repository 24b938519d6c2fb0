-- ===== src/Dcc/Api/Frequency.antt =====
-- What `setDCFreq` writes in the loco table.
use dccexpress_mini.Prelude.{
  ℕ, ◌+◌, ◌^◌, ◌≤◌, ◌<◌, ◌≡◌, ◌≢◌, inl, inr, refl, ap, ◌∙◌, sym, true, none, some, ◌==◌, ==_iff,
  ltb, bit_and, if◌then◌else◌, length, arith, Bool-cases,
}
use dccexpress_mini.Prelude.Bits.{
  each_below, each_below_sound, bit_at, bit_at-lt, bit_at-bit_and, bit_at-bit_or,
}
use dccexpress_mini.Dcc.State.{Loco, Dcc, max_locos, emit, broadcast_loco}
use dccexpress_mini.Dcc.Table.{slot, set_slot, lookup_speed_table}
use dccexpress_mini.Dcc.Table.Laws.{find, index_of}
use dccexpress_mini.Dcc.Table.View.{
  Held, HasRoom, known, or_new, Held-find, Held-set_slot, lookup-Held, lookup_full,
}
use dccexpress_mini.Dcc.Api.{frequency_bits, set_found_freq, set_dc_freq}
use dccexpress_mini.Dcc.Api.Functions.{pow_bits, has_fn}

kept_table : each_below 32 (λ k. bit_at 0x1fff_ffff k == (if ltb k 29 then 1 else 0)) ≡ true
unfolding each_below
kept_table = refl

kept_bits : (k : ℕ) → k < 32 → bit_at 0x1fff_ffff k ≡ (if ltb k 29 then 1 else 0)
kept_bits k h = (==_iff _ _).0 (each_below_sound 32 _ k kept_table h)

-- The frequency of a DC loco stands in the three spare bits, F29, F30 or F31 for 1, 2 or 3 and
-- none of them for 0, and the other functions keep their bits.
pub bit_at-frequency_bits :
    (f freq k : ℕ)
    → freq ≤ 3
    → k < 32
    → bit_at (frequency_bits f freq) k
      ≡ (if ltb k 29 then bit_at f k else (if k == freq + 28 then 1 else 0))
unfolding frequency_bits
bit_at-frequency_bits f freq k h l = ground (
  arith,
  kept_bits k l,
  bit_at-lt f k,
  bit_at-bit_and k f 0x1fff_ffff,
  bit_at-bit_or k (bit_and f 0x1fff_ffff) (2 ^ 29),
  bit_at-bit_or k (bit_and f 0x1fff_ffff) (2 ^ 30),
  bit_at-bit_or k (bit_and f 0x1fff_ffff) (2 ^ 31),
  pow_bits 29 k,
  pow_bits 30 k,
  pow_bits 31 k,
)

set_found_freq-find :
    {id reg : ℕ} {d : Dcc} (freq : ℕ)
    → Held id d reg
    → (d' : Dcc) × (set_found_freq freq (some reg, d) ≡ some d')
      × (find id d'.speed_table
          ≡ some (record (slot d reg) { functions = frequency_bits (slot d reg).functions freq }))
unfolding set_found_freq emit
set_found_freq-find {id} {reg} {d} freq h =
    let l : Loco = record (slot d reg) { functions = frequency_bits (slot d reg).functions freq } in
    elim (Bool-cases (frequency_bits (slot d reg).functions freq == (slot d reg).functions)) [
      | inl e ↦ rw e (
        d,
        refl,
        (Held-find h).0
            ∙ ap (λ f. some (record (slot d reg) { functions = f })) (sym ((==_iff _ _).0 e)),
      )
      | inr e ↦ rw e (
        emit (broadcast_loco reg) (set_slot reg l d),
        refl,
        (Held-set_slot l h (Held-find h).1).1,
      )
    ]

set_dc_freq-lookup :
    (cab freq : ℕ) (d : Dcc)
    → cab ≢ 0
    → freq ≤ 3
    → set_dc_freq cab freq d ≡ set_found_freq freq (lookup_speed_table cab true d)
unfolding set_dc_freq
set_dc_freq-lookup cab freq d h k = ground arith

-- `setDCFreq` stores the frequency of a loco that has room in the table, and keeps its speed and
-- its functions from F0 to F28.
set_dc_freq-find :
    (cab freq k : ℕ) (d : Dcc)
    → length d.speed_table ≡ max_locos
    → cab ≢ 0
    → freq ≤ 3
    → k < 32
    → HasRoom cab d
    → (d' : Dcc) × (set_dc_freq cab freq d ≡ some d')
      × ((known cab d').speed_code ≡ (known cab d).speed_code)
      × (has_fn (known cab d') k ≡ (if ltb k 29 then has_fn (known cab d) k else (k == freq + 28)))
set_dc_freq-find cab freq k d full nonzero h l room =
    let (reg, d1, e, held, same, _) = lookup-Held cab d full room in
    let (d', e', found) = set_found_freq-find freq held in
    let now : Loco = record (slot d1 reg) {
      functions = frequency_bits (slot d1 reg).functions freq;
    } in
    let stored : known cab d' ≡ now = ap (or_new cab) found in
    (
      d',
      set_dc_freq-lookup cab freq d nonzero h ∙ ap (set_found_freq freq) e ∙ e',
      ap (λ l. l.speed_code) stored ∙ ap (λ l. l.speed_code) same,
      ap (λ l. has_fn l k) stored
          ∙ ap (λ (b : ℕ). b == 1) (bit_at-frequency_bits (slot d1 reg).functions freq k h l)
          ∙ ap
              (λ (s : Loco).
                (if ltb k 29 then bit_at s.functions k else (if k == freq + 28 then 1 else 0)) == 1)
              same
          ∙ ground arith,
    )

-- When the table is full of other locos, `setDCFreq` reads and writes the slot before the table:
-- it uses the -1 of the search as an index.
set_dc_freq_fault :
    (cab freq : ℕ) (d : Dcc)
    → length d.speed_table ≡ max_locos
    → cab ≢ 0
    → freq ≤ 3
    → index_of cab d.speed_table ≡ max_locos
    → index_of 0 d.speed_table ≡ max_locos
    → set_dc_freq cab freq d ≡ none
unfolding set_found_freq
set_dc_freq_fault cab freq d full nonzero h absent no_room =
    set_dc_freq-lookup cab freq d nonzero h
    ∙ ap (set_found_freq freq) (lookup_full cab d full absent no_room)

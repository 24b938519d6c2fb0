-- ===== src/Dcc/Api/Speed.antt =====
-- What `setThrottle` writes in the loco table, and what the readers then find.
use dccexpress_mini.Prelude.{
  ℕ, ◌+◌, ◌%◌, ◌≡◌, ◌≢◌, inl, inr, refl, ap, ◌∙◌, sym, Bool, true, false, not, Option, none, some,
  ◌==◌, ==_iff, bit_and, if◌then◌else◌, length, length-set, arith, Bool-cases,
}
use dccexpress_mini.Prelude.Bits.{bit_and_127, bit_and-pow}
use dccexpress_mini.Dcc.State.{Loco, Dcc, max_locos, emit, set_dc_signal}
use dccexpress_mini.Dcc.Table.{slot, lookup_speed_table}
use dccexpress_mini.Dcc.Table.Laws.{find}
use dccexpress_mini.Dcc.Table.View.{
  Held, HasRoom, known, Held-find, Held-set_slot, Held-set_slot_ne, lookup-Held, read_slot-found,
  length-lookup, find-lookup_ne,
}
use dccexpress_mini.Dcc.Api.{
  set_throttle2, set_speed_code, set_found_speed, update_loco_reminder, set_throttle,
  get_throttle_speed, get_throttle_speed_byte, get_throttle_direction,
}

-- A loco with another speed code.
abbrev pub with_speed : ℕ → Loco → Loco
with_speed code l = record l { speed_code = code }

set_speed_code-find :
    {id reg : ℕ} {d : Dcc} (code : ℕ)
    → Held id d reg
    → find id (set_speed_code reg code d).speed_table ≡ some (with_speed code (slot d reg))
unfolding set_speed_code
set_speed_code-find {id} {reg} {d} code h = elim (Bool-cases ((slot d reg).speed_code == code)) [
  | inl e ↦ rw e (
      (Held-find h).0
      ∙ ap (λ s. some (record (slot d reg) { speed_code = s })) ((==_iff _ code).0 e))
  | inr e ↦ rw e (Held-set_slot (with_speed code (slot d reg)) h (Held-find h).1).1
]

set_speed_code-find_ne :
    {id reg : ℕ} {d : Dcc} (code c : ℕ)
    → Held id d reg
    → c ≢ id
    → find c (set_speed_code reg code d).speed_table ≡ find c d.speed_table
unfolding set_speed_code
set_speed_code-find_ne {id} {reg} {d} code c h ne =
    elim (Bool-cases ((slot d reg).speed_code == code)) [
      | inl e ↦ rw e
      | inr e ↦ rw e (Held-set_slot_ne c (with_speed code (slot d reg)) h (Held-find h).1 ne)
    ]

update_loco_reminder-lookup :
    (id code : ℕ) (d : Dcc)
    → id ≢ 0
    → update_loco_reminder id code d ≡ set_found_speed code (lookup_speed_table id true d)
unfolding update_loco_reminder
update_loco_reminder-lookup id code d h = ground arith

module _ (id code : ℕ) (d : Dcc) (full : length d.speed_table ≡ max_locos) (nonzero : id ≢ 0)
    (room : HasRoom id d) where
  update_loco_reminder-find :
      find id (update_loco_reminder id code d).speed_table ≡ some (with_speed code (known id d))
  unfolding set_found_speed
  update_loco_reminder-find =
      let (reg, d', e, held, l, _) = lookup-Held id d full room in
      rw (update_loco_reminder-lookup id code d nonzero, e)
        (set_speed_code-find code held ∙ ap (λ s. some (with_speed code s)) l)

  update_loco_reminder-find_ne :
      (c : ℕ)
      → c ≢ id
      → c ≢ 0
      → find c (update_loco_reminder id code d).speed_table ≡ find c d.speed_table
  unfolding set_found_speed
  update_loco_reminder-find_ne c ne nz =
      let (reg, d', e, held, l, _) = lookup-Held id d full room in
      rw (update_loco_reminder-lookup id code d nonzero, e)
        (set_speed_code-find_ne code c held ne
          ∙ ap (λ (r : Option ℕ × Dcc). find c r.1.speed_table) (sym e)
          ∙ find-lookup_ne id d full true c ne nz)

length-set_speed_code :
    (reg code : ℕ) (d : Dcc) → length (set_speed_code reg code d).speed_table ≡ length d.speed_table
unfolding set_speed_code
length-set_speed_code reg code d =
    ground (arith, length-set d.speed_table reg (with_speed code (slot d reg)))

length-set_found_speed :
    (code : ℕ) (r : Option ℕ × Dcc)
    → length (set_found_speed code r).speed_table ≡ length r.1.speed_table
unfolding set_found_speed
length-set_found_speed code (none, d) = refl
length-set_found_speed code (some reg, d) = length-set_speed_code reg code d

length-update_loco_reminder :
    (id code : ℕ) (d : Dcc)
    → id ≢ 0
    → length (update_loco_reminder id code d).speed_table ≡ length d.speed_table
length-update_loco_reminder id code d nonzero =
    ap (λ d'. length d'.speed_table) (update_loco_reminder-lookup id code d nonzero)
    ∙ length-set_found_speed code (lookup_speed_table id true d)
    ∙ length-lookup id true d

-- The byte that `setThrottle` makes of its arguments.
code_byte :
    (speed : ℕ) (forward : Bool)
    → (bit_and speed 0x7f + (if forward then 128 else 0)) % 256
      ≡ speed % 128 + (if forward then 128 else 0)
code_byte speed true = omega (arith, bit_and_127 speed)
code_byte speed false = omega (arith, bit_and_127 speed)

-- `setThrottle` stores the speed and direction of the loco, and keeps its functions; the first
-- time, that is for a new loco, if the table has room for it. No other loco is touched.
pub set_throttle-find :
    (cab speed : ℕ) (forward : Bool) (d : Dcc) (c : ℕ)
    → length d.speed_table ≡ max_locos
    → cab ≢ 0
    → HasRoom cab d
    → c ≢ cab
    → c ≢ 0
    → let d' = set_throttle cab speed forward d in
      (find cab d'.speed_table
        ≡ some (with_speed (speed % 128 + (if forward then 128 else 0)) (known cab d)))
      × (find c d'.speed_table ≡ find c d.speed_table)
unfolding set_throttle set_throttle2 emit
set_throttle-find cab speed forward d c full nonzero room ne nz =
    let d' : Dcc = emit (set_dc_signal cab _) (set_throttle2 cab _ d) in
    rw (code_byte speed forward) (
      update_loco_reminder-find cab _ d' full nonzero room,
      update_loco_reminder-find_ne cab _ d' full nonzero room c ne nz,
    )

-- What the readers return of a loco in the table.
readers :
    (id : ℕ) (d : Dcc) (l : Loco)
    → length d.speed_table ≡ max_locos
    → find id d.speed_table ≡ some l
    → ((get_throttle_speed id d).0 ≡ some (l.speed_code % 128))
      × ((get_throttle_direction id d).0 ≡ not (bit_and l.speed_code 0x80 == 0))
      × ((get_throttle_speed_byte id d).0 ≡ l.speed_code)
unfolding get_throttle_speed get_throttle_direction get_throttle_speed_byte
readers id d l full e = (
  read_slot-found id d full none (λ l. some (bit_and l.speed_code 0x7f)) e
      ∙ ap some (bit_and_127 l.speed_code),
  read_slot-found id d full true (λ l. not (bit_and l.speed_code 0x80 == 0)) e,
  read_slot-found id d full 128 (λ l. l.speed_code) e,
)

speed_bits :
    (speed : ℕ) (forward : Bool) → (speed % 128 + (if forward then 128 else 0)) % 128 ≡ speed % 128
speed_bits speed true = omega arith
speed_bits speed false = omega arith

direction_bit :
    (speed : ℕ) (forward : Bool)
    → not (bit_and (speed % 128 + (if forward then 128 else 0)) 0x80 == 0) ≡ forward
direction_bit speed true = ground (arith, bit_and-pow 7 (speed % 128 + 128))
direction_bit speed false = ground (arith, bit_and-pow 7 (speed % 128))

-- After `setThrottle` of a loco that has a slot or for which one is free, the readers return its
-- speed in seven bits, its direction, and the byte of both.
get_throttle-set_throttle :
    (cab speed : ℕ) (forward : Bool) (d : Dcc)
    → length d.speed_table ≡ max_locos
    → cab ≢ 0
    → HasRoom cab d
    → let d' = set_throttle cab speed forward d in
      ((get_throttle_speed cab d').0 ≡ some (speed % 128))
      × ((get_throttle_direction cab d').0 ≡ forward)
      × ((get_throttle_speed_byte cab d').0 ≡ speed % 128 + (if forward then 128 else 0))
unfolding set_throttle set_throttle2 emit
get_throttle-set_throttle cab speed forward d full nonzero room =
    let d' : Dcc = emit (set_dc_signal cab _) (set_throttle2 cab _ d) in
    let (s, dir, byte) =
      readers cab (set_throttle cab speed forward d) _
        (length-update_loco_reminder cab _ d' nonzero ∙ full)
        (update_loco_reminder-find cab _ d' full nonzero room) in
    (
      s ∙ ap (λ n. some (n % 128)) (code_byte speed forward) ∙ ap some (speed_bits speed forward),
      dir
          ∙ ap (λ n. not (bit_and n 0x80 == 0)) (code_byte speed forward)
          ∙ direction_bit speed forward,
      byte ∙ code_byte speed forward,
    )

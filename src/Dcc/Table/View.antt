-- ===== src/Dcc/Table/View.antt =====
-- What a caller of `lookupSpeedTable` relies on: the slot that it is given holds the loco, with
-- what was known of it, and the other locos keep theirs.
use dccexpress_mini.Prelude.{
  ℕ, ◌<◌, ◌≡◌, ◌≢◌, ◌⊎◌, inl, inr, refl, ap, ◌∙◌, sym, Bool, true, false, Option, none, some,
  length, length-set, arith,
}
use native.Mathlib.Decide.{dec_lt}
use dccexpress_mini.Dcc.State.{Loco, Dcc, max_locos}
use dccexpress_mini.Dcc.Table.{
  scan, take_slot, slot, set_slot, new_slot, lookup_speed_table, read_slot,
}
use dccexpress_mini.Dcc.Table.Laws.{
  find, index_of, index_of-le, find-index_of, find-none, find-set_self, find-set_ne,
  get_or-set_self, raise, lookup_held, lookup_missing, lookup_new,
}

-- Slot `reg` is the one in which the loco is found.
pub record Held (id : ℕ) (d : Dcc) (reg : ℕ) : Type 0 where
  pub full : length d.speed_table ≡ max_locos
  pub at : index_of id d.speed_table ≡ reg
  pub inside : reg < max_locos

-- A loco can be given a slot: it has one, or one is free.
abbrev pub HasRoom : ℕ → Dcc → Type 0
HasRoom id d = (index_of id d.speed_table < max_locos) ⊎ (index_of 0 d.speed_table < max_locos)

-- What is known of a loco, which for a new one is that it stands and looks forward.
abbrev pub or_new : ℕ → Option Loco → Loco
or_new id none = new_slot id
or_new id (some l) = l

abbrev pub known : ℕ → Dcc → Loco
known id d = or_new id (find id d.speed_table)

pub Held-find :
    {id reg : ℕ} {d : Dcc}
    → Held id d reg
    → (find id d.speed_table ≡ some (slot d reg)) × ((slot d reg).loco ≡ id)
Held-find {id} {reg} {d} h =
    rw h.at at (find-index_of id d.speed_table (omega (arith, h.full, h.at, h.inside)))

-- A write to the slot of a loco is a write to the map.
pub Held-set_slot :
    {id reg : ℕ} {d : Dcc} (l : Loco)
    → Held id d reg
    → l.loco ≡ id
    → Held id (set_slot reg l d) reg × (find id (set_slot reg l d).speed_table ≡ some l)
Held-set_slot {id} {reg} {d} l h e =
    let (at, found) =
      find-set_self id d.speed_table reg l (omega (arith, h.at)) (omega (arith, h.full, h.inside))
        e in
    (record { full = length-set d.speed_table reg l ∙ h.full; at = at; inside = h.inside }, found)

pub Held-set_slot_ne :
    {id reg : ℕ} {d : Dcc} (c : ℕ) (l : Loco)
    → Held id d reg
    → l.loco ≡ id
    → c ≢ id
    → find c (set_slot reg l d).speed_table ≡ find c d.speed_table
Held-set_slot_ne {id} {reg} {d} c l h e ne =
    find-set_ne c d.speed_table reg l (λ p. ne (sym p ∙ (Held-find h).1)) (λ p. ne (sym p ∙ e))
      (omega (arith, h.full, h.inside))

-- The table keeps its length.
pub length-lookup :
    (id : ℕ) (auto_create : Bool) (d : Dcc)
    → length (lookup_speed_table id auto_create d).1.speed_table ≡ length d.speed_table
unfolding lookup_speed_table take_slot
length-lookup id auto_create d = ground (
  arith,
  length-set d.speed_table (scan id d.speed_table 0 max_locos).0 (new_slot id),
  length-set d.speed_table (scan id d.speed_table 0 max_locos).1 (new_slot id),
)

module _ (id : ℕ) (d : Dcc) (full : length d.speed_table ≡ max_locos) where
  created :
      ¬ (index_of id d.speed_table < max_locos)
      → index_of 0 d.speed_table < max_locos
      → (reg : ℕ) × (d' : Dcc) × (lookup_speed_table id true d ≡ (some reg, d'))
        × Held id d' reg
        × (slot d' reg ≡ known id d)
        × (d'.events ≡ d.events)
  unfolding raise
  created h k =
      let absent : index_of id d.speed_table ≡ length d.speed_table =
        omega (arith, index_of-le id d.speed_table) in
      let reg : ℕ = index_of 0 d.speed_table in
      (
        reg,
        raise reg (set_slot reg (new_slot id) d),
        lookup_new id d full (omega arith) k,
        record {
          full = length-set d.speed_table reg (new_slot id) ∙ full;
          at =
              (find-set_self id d.speed_table reg (new_slot id) (omega arith) (omega arith) refl).0;
          inside = k;
        },
        rw (find-none id d.speed_table absent)
            (get_or-set_self d.speed_table reg (new_slot id) (omega arith)),
        refl,
      )

  -- With room, the search gives the loco a slot with what is known of it, and sends nothing.
  pub lookup-Held :
      HasRoom id d
      → (reg : ℕ) × (d' : Dcc) × (lookup_speed_table id true d ≡ (some reg, d'))
        × Held id d' reg
        × (slot d' reg ≡ known id d)
        × (d'.events ≡ d.events)
  unfolding raise
  lookup-Held room = elim (dec_lt (index_of id d.speed_table) max_locos) [
    | yes h ↦ (
      index_of id d.speed_table,
      raise (index_of id d.speed_table) d,
      lookup_held id d full true h,
      record { full = full; at = refl; inside = h },
      rw (find-index_of id d.speed_table (omega arith)).0,
      refl,
    )
    | no h ↦ created h (omega arith)
  ]

  -- Without, it fails and changes nothing.
  pub lookup_full :
      index_of id d.speed_table ≡ max_locos
      → index_of 0 d.speed_table ≡ max_locos
      → lookup_speed_table id true d ≡ (none, d)
  lookup_full h k = lookup_missing id d full true h (inr k)

  -- The other locos keep their slots, whatever becomes of this one.
  pub find-lookup_ne :
      (auto_create : Bool) (c : ℕ)
      → c ≢ id
      → c ≢ 0
      → find c (lookup_speed_table id auto_create d).1.speed_table ≡ find c d.speed_table
  unfolding raise
  find-lookup_ne auto_create c ne nz = elim (dec_lt (index_of id d.speed_table) max_locos) [
    | yes h ↦ rw (lookup_held id d full auto_create h)
    | no h ↦ not_held auto_create (omega (arith, index_of-le id d.speed_table))
  ]
    where
      not_held :
          (auto_create : Bool)
          → index_of id d.speed_table ≡ max_locos
          → find c (lookup_speed_table id auto_create d).1.speed_table ≡ find c d.speed_table
      not_held false e = rw (lookup_missing id d full false e (inl refl))
      not_held true e = elim (dec_lt (index_of 0 d.speed_table) max_locos) [
        | yes k ↦ rw (lookup_new id d full e k) (
            find-set_ne c d.speed_table (index_of 0 d.speed_table) (new_slot id)
              (λ p. nz (sym p ∙ (find-index_of 0 d.speed_table (omega arith)).1)) (λ p. ne (sym p))
              (omega arith))
        | no k ↦
            rw (lookup_missing id d full true e (inr (omega (arith, index_of-le 0 d.speed_table))))
      ]

  -- A loco that has a slot has room, and is found with what the slot holds.
  pub lookup-found :
      {l : Loco}
      → find id d.speed_table ≡ some l
      → (reg : ℕ) × (d' : Dcc) × (lookup_speed_table id true d ≡ (some reg, d'))
        × Held id d' reg
        × (slot d' reg ≡ l)
  lookup-found {l} e =
      let (reg, d', e', held, k, _) = lookup-Held (inl (has_slot e)) in
      (reg, d', e', held, k ∙ ap (or_new id) e)
    where
      has_slot : {l : Loco} → find id d.speed_table ≡ some l → index_of id d.speed_table < max_locos
      has_slot {l} e = elim (dec_lt (index_of id d.speed_table) max_locos) [
        | yes h ↦ h
        | no h ↦ cc (
            find-none id d.speed_table (
              let k : index_of id d.speed_table ≡ length d.speed_table =
                omega (arith, index_of-le id d.speed_table) in
              k))
      ]

  pub read_slot-found {ℓ} :
      {A : Type ℓ} (absent : A) (f : Loco → A) {l : Loco}
      → find id d.speed_table ≡ some l
      → read_slot absent f (lookup_speed_table id true d) ≡ f l
  unfolding read_slot
  read_slot-found absent f e =
      let (reg, d', e', _, k) = lookup-found e in ap (read_slot absent f) e' ∙ ap f k

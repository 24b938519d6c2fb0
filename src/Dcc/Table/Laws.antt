-- ===== src/Dcc/Table/Laws.antt =====
-- The loco table seen as a map from cab numbers to slots, and the search as a lookup in it.
use dccexpress_mini.Prelude.{
  ℕ, zero, suc, ◌+◌, ◌≤◌, ◌<◌, ◌≡◌, ◌≢◌, ◌⊎◌, refl, Bool, true, false, ◌&&◌, Option, none, some,
  List, [], ◌∷◌, ltb, ◌==◌, if◌then◌else◌, get_or, set, length, arith,
}
use dccexpress_mini.Dcc.State.{Loco, Dcc, max_locos, empty_slot}
use dccexpress_mini.Dcc.Table.{set_slot, scan, new_slot, take_slot, lookup_speed_table}

-- The slot of a cab number, the first if there were several.
pub find : ℕ → List Loco → Option Loco
find id [] = none
find id (l ∷ ls) = if l.loco == id then some l else find id ls

-- The first slot that holds a loco number, or `length` if none does.
unfoldable pub index_of : ℕ → List Loco → ℕ
index_of id [] = 0
index_of id (l ∷ ls) = if l.loco == id then 0 else index_of id ls + 1

pub index_of-le : (id : ℕ) (ls : List Loco) → index_of id ls ≤ length ls
unfolding index_of
index_of-le id [] = omega arith
index_of-le id (l ∷ ls) = ground (arith, index_of-le id ls)

get_or-add-one :
    (x : Loco) (xs : List Loco) (n : ℕ) (l : Loco) → get_or (x ∷ xs) (n + 1) l ≡ get_or xs n l
get_or-add-one x xs n l = let e : n + 1 ≡ suc n = omega arith in rw e

pub find-index_of :
    (id : ℕ) (ls : List Loco)
    → index_of id ls < length ls
    → (find id ls ≡ some (get_or ls (index_of id ls) empty_slot))
      × ((get_or ls (index_of id ls) empty_slot).loco ≡ id)
unfolding index_of find
find-index_of id [] h = absurd (omega arith)
find-index_of id (l ∷ ls) h =
    ground (arith, find-index_of id ls, get_or-add-one l ls (index_of id ls) empty_slot)

pub find-none : (id : ℕ) (ls : List Loco) → index_of id ls ≡ length ls → find id ls ≡ none
unfolding index_of find
find-none id [] h = refl
find-none id (l ∷ ls) h = ground (arith, find-none id ls)

-- The loop finds the slot of the cab number, and the first free slot if it went past one.
scan-index_of :
    (id : ℕ) (ls : List Loco) (reg fe : ℕ) → (scan id ls reg fe).0 ≡ reg + index_of id ls
unfolding scan index_of
scan-index_of id [] reg fe = omega arith
scan-index_of id (l ∷ ls) reg fe =
    ground
      (arith, scan-index_of id ls (reg + 1) (if l.loco == 0 && fe == max_locos then reg else fe))

scan-first_empty_kept :
    (id : ℕ) (ls : List Loco) (reg fe : ℕ) → fe < max_locos → (scan id ls reg fe).1 ≡ fe
unfolding scan
scan-first_empty_kept id [] reg fe h = refl
scan-first_empty_kept id (l ∷ ls) reg fe h =
    ground (arith, scan-first_empty_kept id ls (reg + 1) fe)

scan-first_empty_missing :
    (id : ℕ) (ls : List Loco) (reg : ℕ)
    → reg + length ls ≤ max_locos
    → index_of id ls ≡ length ls
    → (scan id ls reg max_locos).1
      ≡ (if ltb (index_of 0 ls) (length ls) then reg + index_of 0 ls else max_locos)
unfolding scan index_of
scan-first_empty_missing id [] reg h e = ground arith
scan-first_empty_missing id (l ∷ ls) reg h e =
    ground
      (arith, scan-first_empty_missing id ls (reg + 1), scan-first_empty_kept id ls (reg + 1) reg)

scan-first_empty_found :
    (id : ℕ) (ls : List Loco) (reg : ℕ)
    → reg + length ls ≤ max_locos
    → index_of id ls < length ls
    → (scan id ls reg max_locos).1 ≢ reg + index_of id ls
unfolding scan index_of
scan-first_empty_found id [] reg h e = absurd (omega arith)
scan-first_empty_found id (l ∷ ls) reg h e =
    ground
      (arith, scan-first_empty_found id ls (reg + 1), scan-first_empty_kept id ls (reg + 1) reg)

-- A write to the first slot that holds the number, or to an earlier one.
pub find-set_self :
    (id : ℕ) (ls : List Loco) (i : ℕ) (l : Loco)
    → i ≤ index_of id ls
    → i < length ls
    → l.loco ≡ id
    → (index_of id (set ls i l) ≡ i) × (find id (set ls i l) ≡ some l)
unfolding index_of find
find-set_self id [] i l h k e = absurd (omega arith)
find-set_self id (x ∷ ls) zero l h k e = ground arith
find-set_self id (x ∷ ls) (suc i) l h k e = ground (arith, find-set_self id ls i l)

pub find-set_ne :
    (c : ℕ) (ls : List Loco) (i : ℕ) (l : Loco)
    → (get_or ls i empty_slot).loco ≢ c
    → l.loco ≢ c
    → i < length ls
    → find c (set ls i l) ≡ find c ls
unfolding find
find-set_ne c [] i l h k e = refl
find-set_ne c (x ∷ ls) zero l h k e = ground arith
find-set_ne c (x ∷ ls) (suc i) l h k e = ground (arith, find-set_ne c ls i l h k)

pub get_or-set_self :
    (ls : List Loco) (i : ℕ) (l : Loco) → i < length ls → get_or (set ls i l) i empty_slot ≡ l
get_or-set_self [] i l h = absurd (omega arith)
get_or-set_self (x ∷ ls) zero l h = refl
get_or-set_self (x ∷ ls) (suc i) l h = get_or-set_self ls i l (omega arith)

-- `raise` of the highest slot in use.
unfoldable pub raise : ℕ → Dcc → Dcc
raise reg d = record d {
  highest_used_reg = if ltb d.highest_used_reg reg then reg else d.highest_used_reg;
}

-- The three ends of the search.
module _ (id : ℕ) (d : Dcc) (full : length d.speed_table ≡ max_locos) where
  pub lookup_held :
      (auto_create : Bool)
      → index_of id d.speed_table < max_locos
      → lookup_speed_table id auto_create d
        ≡ (some (index_of id d.speed_table), raise (index_of id d.speed_table) d)
  unfolding lookup_speed_table take_slot raise
  lookup_held auto_create h =
      ground (
        arith,
        scan-index_of id d.speed_table 0 max_locos,
        scan-first_empty_found id d.speed_table 0,
      )

  pub lookup_missing :
      (auto_create : Bool)
      → index_of id d.speed_table ≡ max_locos
      → (auto_create ≡ false) ⊎ (index_of 0 d.speed_table ≡ max_locos)
      → lookup_speed_table id auto_create d ≡ (none, d)
  unfolding lookup_speed_table
  lookup_missing auto_create h k = ground (
    arith,
    scan-index_of id d.speed_table 0 max_locos,
    scan-first_empty_missing id d.speed_table 0,
  )

  pub lookup_new :
      index_of id d.speed_table ≡ max_locos
      → index_of 0 d.speed_table < max_locos
      → lookup_speed_table id true d ≡ (
        some (index_of 0 d.speed_table),
        raise (index_of 0 d.speed_table) (set_slot (index_of 0 d.speed_table) (new_slot id) d),
      )
  unfolding lookup_speed_table take_slot raise
  lookup_new h k = ground (
    arith,
    scan-index_of id d.speed_table 0 max_locos,
    scan-first_empty_missing id d.speed_table 0,
  )

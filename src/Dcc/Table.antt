-- ===== src/Dcc/Table.antt =====
-- `lookupSpeedTable` (DCC.cpp): the search of the loco table, and what it leaves there.
pub mod Laws
pub mod View
use dccexpress_mini.Prelude.{
  ℕ, ◌+◌, Bool, ◌&&◌, not, Option, none, some, List, [], ◌∷◌, ltb, leb, ◌==◌, if◌then◌else◌, get_or,
  set,
}
use dccexpress_mini.Dcc.State.{Loco, Dcc, max_locos, empty_slot}

-- `speedTable[reg]`
abbrev pub slot : Dcc → ℕ → Loco
slot d reg = get_or d.speed_table reg empty_slot

abbrev pub set_slot : ℕ → Loco → Dcc → Dcc
set_slot reg l d = record d { speed_table = set d.speed_table reg l }

-- The loop of `lookupSpeedTable` over the rest of the table: `reg` and `firstEmpty` at its end.
unfoldable pub scan : ℕ → List Loco → ℕ → ℕ → ℕ × ℕ
scan id [] reg first_empty = (reg, first_empty)
scan id (l ∷ ls) reg first_empty =
    let rest : ℕ × ℕ =
      scan id ls (reg + 1) (if l.loco == 0 && first_empty == max_locos then reg else first_empty) in
    if l.loco == id then (reg, first_empty) else rest

-- A slot as it is given to a new loco: direction forward.
abbrev pub new_slot : ℕ → Loco
new_slot id = record { loco = id; speed_code = 128; group_flags = 0; functions = 0 }

-- The end of `lookupSpeedTable`, for the slot that was chosen.
unfoldable pub take_slot : ℕ → ℕ → ℕ → Dcc → Dcc
take_slot id first_empty reg d =
    let d' : Dcc = if reg == first_empty then set_slot reg (new_slot id) d else d in
    record d' {
      highest_used_reg = if ltb d'.highest_used_reg reg then reg else d'.highest_used_reg;
    }

-- `none` is the -1 of the code.
unfoldable pub lookup_speed_table : ℕ → Bool → Dcc → Option ℕ × Dcc
lookup_speed_table id auto_create d =
    let (reg, first_empty) = scan id d.speed_table 0 max_locos in
    if reg == max_locos && not auto_create
    then (none, d)
    else let chosen : ℕ = if reg == max_locos then first_empty else reg in
      (if leb max_locos chosen then (none, d) else (some chosen, take_slot id first_empty chosen d))

-- What a caller reads of the slot that it is given, or its answer for the lack of one.
unfoldable pub read_slot {ℓ} : {A : Type ℓ} → A → (Loco → A) → Option ℕ × Dcc → A
read_slot absent f (none, d) = absent
read_slot absent f (some reg, d) = f (slot d reg)

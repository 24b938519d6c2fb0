-- ===== src/Exrail/Program.antt =====
-- EXRAIL2.cpp: the byte code, `LookList`, and the scan for the handlers. Every loop over the code
-- ends at `OPCODE_ENDEXRAIL`; here it may also run out of fuel.
use dccexpress_mini.Prelude.{
  ℕ, zero, suc, ◌+◌, ◌-◌, ◌*◌, Bool, true, false, ◌||◌, Option, none, some, List, [], ◌∷◌, ltb,
  ◌==◌, if◌then◌else◌,
}
use dccexpress_mini.Exrail.Opcode.{byte_endexrail, byte_if_type, byte_endif, byte_else}
use dccexpress_mini.Exrail.State.{Build, LookList}
use dccexpress_mini.Exrail.State.LookList.{unchained}
use dccexpress_mini.Exrail.Lookup.{add}

-- `getOperand`: n is the number of the operand.
unfoldable pub get_operand : Build → ℕ → ℕ → ℕ
get_operand b pc n =
    let offset = pc + 1 + n * 3 in b.route_code (offset + 1) * 256 + b.route_code offset

-- The counters at which a loop `for (progCounter=0;; SKIPOP)` runs its body, from pc on, and the
-- one at which it breaks.
unfoldable pub positions : Build → ℕ → ℕ → Option (List ℕ × ℕ)
positions b zero pc = none
positions b (suc fuel) pc =
    let rest = positions b fuel (pc + 3) in
    if b.route_code pc == byte_endexrail
    then some ([], pc)
    else elim rest [ none ↦ none | some r ↦ some (pc ∷ r.0, r.1) ]

abbrev pub one_of : ℕ → ℕ → ℕ → ℕ → Bool
one_of op1 op2 op3 c = (c == op1) || ((c == op2) || (c == op3))

unfoldable pub count_handlers : Build → ℕ → ℕ → ℕ → List ℕ → ℕ
count_handlers b op1 op2 op3 [] = 0
count_handlers b op1 op2 op3 (pc ∷ pcs) =
    let rest = count_handlers b op1 op2 op3 pcs in
    if one_of op1 op2 op3 (b.route_code pc) then rest + 1 else rest

unfoldable pub add_handlers : Build → ℕ → ℕ → ℕ → List ℕ → LookList → LookList
unfolding add get_operand
add_handlers b op1 op2 op3 [] l = l
add_handlers b op1 op2 op3 (pc ∷ pcs) l =
    add_handlers b op1 op2 op3 pcs
      (if one_of op1 op2 op3 (b.route_code pc) then add (get_operand b pc 0) pc l else l)

-- `LookListLoader`, over the counters of its two loops.
unfoldable pub look_list_loader : Build → List ℕ → ℕ → ℕ → ℕ → LookList
unfolding count_handlers add_handlers
look_list_loader b pcs op1 op2 op3 =
    let list = unchained (count_handlers b op1 op2 op3 pcs) [] in
    if count_handlers b op1 op2 op3 pcs == 0 then list else add_handlers b op1 op2 op3 pcs list

-- How `skipIfBlock` ends: at the step to go on from, or killed for want of an ENDIF.
pub data Skipped : Type 0 where
  found : ℕ → Skipped
  missing_endif : ℕ → Skipped

-- What an operation code is to the nesting: the tests of the loop, in their order.
pub data Nesting : Type 0 where
  deeper no_endif shallower alternative no_change : Nesting

abbrev pub nesting_of : ℕ → Nesting
nesting_of c =
    if ltb byte_if_type c
    then deeper
    else (if c == byte_endexrail
        then no_endif
        else (if c == byte_endif
            then shallower
            else (if c == byte_else then alternative else no_change)))

-- The loop of `skipIfBlock` with its nesting.
unfoldable pub skip_from : Build → ℕ → ℕ → ℕ → Option Skipped
skip_from b zero nest pc = none
skip_from b (suc fuel) nest pc = elim (nesting_of (b.route_code (pc + 3))) [
  | deeper ↦ skip_from b fuel (nest + 1) (pc + 3)
  | no_endif ↦ some (missing_endif (pc + 3))
  | shallower ↦ elim (nest == 1) [
    | true ↦ some (found (pc + 3))
    | false ↦ skip_from b fuel (nest - 1) (pc + 3)
  ]
  | alternative ↦ elim (nest == 1) [
    | true ↦ some (found (pc + 3))
    | false ↦ skip_from b fuel nest (pc + 3)
  ]
  | no_change ↦ skip_from b fuel nest (pc + 3)
]

unfoldable pub skip_if_block : Build → ℕ → Option Skipped
unfolding skip_from
skip_if_block b pc = skip_from b b.code_size 1 pc

-- ===== src/Exrail/Step.antt =====
-- EXRAIL2.cpp: `loop2`, one instruction of a task, and `loop`, the turn of the next task.
use dccexpress_mini.Prelude.{
  ℕ, ◌+◌, ◌-◌, ◌%◌, Bool, true, false, ◌&&◌, ◌||◌, not, Option, none, some, List, [], ◌∷◌, ◌++◌,
  bit_and, ltb, leb, ◌==◌, ◌>>=◌, if◌then◌else◌,
}
use dccexpress_mini.Exrail.Opcode.{decode, feature_blink}
use dccexpress_mini.Exrail.State.{Task, Build, Inputs, Exrail, call, is_negative, has_feature}
use dccexpress_mini.Exrail.State.BlinkState.{blink_low, blink_high}
use dccexpress_mini.Exrail.State.Call.{write}
use dccexpress_mini.Exrail.Program.{get_operand, skip_if_block}
use dccexpress_mini.Exrail.Program.Skipped.{found, missing_endif}
use dccexpress_mini.Exrail.Tasks.{kill, delay_me, put}
use dccexpress_mini.Exrail.Actions.{elapsed}
use dccexpress_mini.Exrail.Switch.{Turn, switch}
use dccexpress_mini.Exrail.Switch.Turn.{advance, skip_if, stay, gone}

abbrev long_addr_marker : ℕ
long_addr_marker = 0x4000

abbrev highest_short_addr : ℕ
highest_short_addr = 127

-- A task that goes on at the next instruction.
abbrev pub step_over : Task → Task
step_over t = record t { prog_counter = t.prog_counter + 3 }

-- What is behind the `switch`: the step, or the block that is skipped.
unfoldable pub finish : Build → Turn → Option Exrail
unfolding put kill skip_if_block
finish b (advance t m) = some (put (step_over t) m)
finish b (stay t m) = some (put t m)
finish b (gone m) = some m
finish b (skip_if t m) = elim (skip_if_block b t.prog_counter) [
  | none ↦ none
  | some (missing_endif pc) ↦ some (kill t m)
  | some (found pc) ↦ some (put (step_over (record t { prog_counter = pc })) m)
]

-- A byte that is no operation code kills the task, as does one that the `switch` does not name.
unfoldable pub run_opcode : Build → Inputs → Task → Exrail → Option Exrail
unfolding decode switch finish get_operand
run_opcode b i t m = elim (decode (b.route_code t.prog_counter)) [
  | none ↦ some (kill t m)
  | some op ↦ switch b i t m (get_operand b t.prog_counter 0) op >>= finish b
]

-- A blink task that changes its pin.
abbrev pub blink : Build → Inputs → Bool → Task → Exrail → Exrail
blink b i high t m =
    put
      (delay_me (get_operand b t.prog_counter (if high then 1 else 2)) i
        (record t { blink_state = if high then blink_high else blink_low }))
      (call (write (t.timer % 0x1_0000) high) m)

unfoldable pub loop2 : Build → Inputs → Task → Exrail → Option Exrail
unfolding run_opcode put delay_me get_operand
loop2 b i t m =
    if not (t.delay_time == 0) && ltb (elapsed i.millis t.delay_start) t.delay_time
    then some m
    else (if has_feature b feature_blink
        then elim (t.blink_state) [
          | blink_low ↦ some (blink b i true t m)
          | blink_high ↦ some (blink b i false t m)
          | _ ↦ run_opcode b i t m
        ]
        else run_opcode b i t m)

abbrev pub rotate : List Task → List Task
rotate [] = []
rotate (t ∷ ts) = ts ++ (t ∷ [])

-- `loop` behind `EXRAILSensor::checkAll`, which is not modelled and may have started a task before:
-- the next task in the ring has its turn, unless another one pauses it.
unfoldable pub loop : Build → Inputs → Exrail → Option Exrail
unfolding loop2
loop b i m = elim (rotate m.ring) [
  | [] ↦ some m
  | t ∷ ts ↦
      let moved = record m { ring = t ∷ ts } in
      elim (m.pausing_task) [
        | none ↦ loop2 b i t moved
        | some a ↦ if a == t.address then loop2 b i t moved else some moved
      ]
]

-- The loco that `readLocoCallback` makes of the CV value, or -1.
abbrev pub loco_read : ℕ → ℕ
loco_read cv =
    if is_negative cv || cv == 0
    then 0xFFFF
    else (if bit_and cv long_addr_marker == 0
        then cv
        else (if leb (cv - long_addr_marker) highest_short_addr
            then 0xFFFF
            else cv - long_addr_marker))

-- `readLocoCallback`.
unfoldable pub read_loco_callback : ℕ → Exrail → Exrail
read_loco_callback cv m = record m { progtrack_loco_id = loco_read cv }

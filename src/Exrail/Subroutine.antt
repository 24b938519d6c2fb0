-- ===== src/Exrail/Subroutine.antt =====
-- EXRAIL2.cpp: CALL and RETURN.
use dccexpress_mini.Prelude.{◌+◌, ◌<◌, ◌≡◌, refl, true, false, some, ◌∷◌, ◌==◌, arith, length}
use dccexpress_mini.Exrail.Opcode.{Opcode, decode, max_stack_depth}
use dccexpress_mini.Exrail.Opcode.Opcode.{op_call, op_return}
use dccexpress_mini.Exrail.State.{Task, Build, Inputs, Exrail, is_negative}
use dccexpress_mini.Exrail.Lookup.{find}
use dccexpress_mini.Exrail.Program.{get_operand}
use dccexpress_mini.Exrail.Tasks.{put, kill}
use dccexpress_mini.Exrail.Switch.{switch, jump}
use dccexpress_mini.Exrail.Step.{finish, run_opcode}

-- The instruction at which a task stands.
abbrev pub AtOp : Build → Task → Opcode → Type 0
AtOp b t op = decode (b.route_code t.prog_counter) ≡ some op

-- A task whose stack is not full calls a sequence that exists. Then it stands at the sequence, and
-- whatever it does there, if it comes to a RETURN with the stack that the CALL left, it goes on
-- behind the CALL with the stack that it had.
pub call-return :
    (b : Build) (i j : Inputs) (t u : Task) (m n : Exrail)
    → AtOp b t op_call
    → length t.call_stack < max_stack_depth
    → is_negative (find (get_operand b t.prog_counter 0) m.lookups.route) ≡ false
    → AtOp b u op_return
    → u.call_stack ≡ (t.prog_counter + 3) ∷ t.call_stack
    → (run_opcode b i t m
        ≡ some (
            put
              (record t {
                prog_counter = find (get_operand b t.prog_counter 0) m.lookups.route;
                call_stack = (t.prog_counter + 3) ∷ t.call_stack;
              })
              m))
      × (run_opcode b j u n
          ≡ some
              (put (record u { prog_counter = t.prog_counter + 3; call_stack = t.call_stack }) n))
unfolding run_opcode switch jump finish
call-return b i j t u m n c room known r stack =
    let free : (length t.call_stack == max_stack_depth) ≡ false = ground arith in
    (rw (run_opcode, c, free, known) refl, rw (run_opcode, r, stack) refl)

-- A CALL with a full stack, or of a sequence that does not exist, and a RETURN with an empty
-- stack end the task.
pub call-kills :
    (b : Build) (i : Inputs) (t : Task) (m : Exrail)
    → AtOp b t op_call
    → length t.call_stack ≡ max_stack_depth
    → run_opcode b i t m ≡ some (kill t m)
unfolding run_opcode switch jump finish
call-kills b i t m c full =
    let e : (length t.call_stack == max_stack_depth) ≡ true = ground arith in
    rw (run_opcode, c, e) refl

-- ===== src/Exrail/Turns.antt =====
-- EXRAIL2.cpp: what every turn of `loop` keeps.
use dccexpress_mini.Prelude.{
  ℕ, ◌≡◌, ap, Bool, true, false, ◌&&◌, not, Option, none, some, List, [], ◌∷◌, ◌>>=◌, ltb, ◌==◌,
  if◌then◌else◌, if_both,
}
use dccexpress_mini.Prelude.Apart.{Each}
use dccexpress_mini.Exrail.Opcode.{Opcode, decode, section_flag, feature_blink}
use dccexpress_mini.Exrail.Opcode.Opcode.{op_free}
use dccexpress_mini.Exrail.State.{BlinkState, Task, Build, Inputs, Exrail, has_feature}
use dccexpress_mini.Exrail.State.BlinkState.{blink_low, blink_high}
use dccexpress_mini.Exrail.Program.{get_operand, skip_if_block, Skipped}
use dccexpress_mini.Exrail.Program.Skipped.{found, missing_endif}
use dccexpress_mini.Exrail.Tasks.{set_flag, delay_me, put, kill}
use dccexpress_mini.Exrail.Actions.{elapsed}
use dccexpress_mini.Exrail.Switch.{Turn, switch}
use dccexpress_mini.Exrail.Switch.Turn.{advance, skip_if, stay, gone}
use dccexpress_mini.Exrail.Step.{finish, run_opcode, blink, step_over, rotate, loop2, loop}
use dccexpress_mini.Exrail.Kept.{IsKept, Kept, some-Kept, none-Kept}
use dccexpress_mini.Exrail.Turned.{IsTask, Turned}
use dccexpress_mini.Exrail.Depth.{switch-kept}

-- A predicate that no part of an instruction breaks, and that stands when the task t is written
-- back after a turn.
pub record IsStable (P : Exrail → Type 0) (t : Task) : Type 0 where
  pub kept : IsKept P
  pub kept_put : (u : Task) (m : Exrail) → IsTask t u → P m → P (put u m)

module _ (P : Exrail → Type 0) (t : Task) (s : IsStable P t) where
  open s use {kept, kept_put}

  skipped-kept :
      (b : Build) (u : Task) (m : Exrail) (o : Option Skipped)
      → IsTask t u
      → P m
      → Kept P (elim o [
        | none ↦ none
        | some (missing_endif pc) ↦ some (kill u m)
        | some (found pc) ↦ some (put (step_over (record u { prog_counter = pc })) m)
      ])
  unfolding IsTask
  skipped-kept b u m none q p = none-Kept P
  skipped-kept b u m (some (missing_endif pc)) q p = some-Kept P (kept.kept_kill u m p)
  skipped-kept b u m (some (found pc)) q p = some-Kept P (kept_put _ m q p)

  finish-kept : (b : Build) (o : Option Turn) → Turned P t o → Kept P (o >>= finish b)
  unfolding Turned finish IsTask
  finish-kept b none h = none-Kept P
  finish-kept b (some (advance u m)) h = some-Kept P (kept_put _ m h.0 h.1)
  finish-kept b (some (stay u m)) h = some-Kept P (kept_put u m h.0 h.1)
  finish-kept b (some (skip_if u m)) h = skipped-kept b u m (skip_if_block b u.prog_counter) h.0 h.1
  finish-kept b (some (gone m)) h = some-Kept P h

  module _ (b : Build) (i : Inputs) (m : Exrail) (q : IsTask t t) (p : P m)
      (free : decode (b.route_code t.prog_counter) ≡ some op_free
        → P (set_flag (get_operand b t.prog_counter 0) 0 section_flag m)) where
    run_opcode-kept : Kept P (run_opcode b i t m)
    unfolding run_opcode
    run_opcode-kept = run_decoded-kept (decode (b.route_code t.prog_counter)) free
      where
        run_decoded-kept :
            (o : Option Opcode)
            → (o ≡ some op_free → P (set_flag (get_operand b t.prog_counter 0) 0 section_flag m))
            → Kept P (elim o [
              | none ↦ some (kill t m)
              | some op ↦ switch b i t m (get_operand b t.prog_counter 0) op >>= finish b
            ])
        run_decoded-kept none f = some-Kept P (kept.kept_kill t m p)
        run_decoded-kept (some op) f =
            finish-kept b _ (switch-kept P kept b i t m _ op p q (λ e. f (ap some e)))

    blink-kept : (high : Bool) → Kept P (some (blink b i high t m))
    unfolding delay_me IsTask
    blink-kept high = some-Kept P (kept_put _ _ q (kept.kept_call _ m p))

    pub loop2-kept : Kept P (loop2 b i t m)
    unfolding loop2
    loop2-kept =
        if_both (Kept P)
          (not (t.delay_time == 0) && ltb (elapsed i.millis t.delay_start) t.delay_time)
          (some-Kept P p)
          (if_both (Kept P) (has_feature b feature_blink) (by_state t.blink_state) run_opcode-kept)
      where
        by_state :
            (state : BlinkState)
            → Kept P (elim state [
              | blink_low ↦ some (blink b i true t m)
              | blink_high ↦ some (blink b i false t m)
              | _ ↦ run_opcode b i t m
            ])
        by_state blink_low = blink-kept true
        by_state blink_high = blink-kept false
        by_state _ = run_opcode-kept

-- A pass: the turn of the next task, unless another one pauses it.
pub loop-kept :
    (P : Exrail → Type 0) (Q : Task → Type 0) (b : Build) (i : Inputs) (m : Exrail)
    → P m
    → P (record m { ring = rotate m.ring })
    → Each Q (rotate m.ring)
    → ((t : Task) (ts : List Task)
        → Q t
        → P (record m { ring = t ∷ ts })
        → Kept P (loop2 b i t (record m { ring = t ∷ ts })))
    → Kept P (loop b i m)
unfolding loop
loop-kept P Q b i m p r q turn = served (rotate m.ring) r q
  where
    paused :
        (t : Task) (ts : List Task) (o : Option ℕ)
        → P (record m { ring = t ∷ ts })
        → Kept P (loop2 b i t (record m { ring = t ∷ ts }))
        → Kept P (elim o [
          | none ↦ loop2 b i t (record m { ring = t ∷ ts })
          | some a ↦
              if a == t.address
              then loop2 b i t (record m { ring = t ∷ ts })
              else some (record m { ring = t ∷ ts })
        ])
    paused t ts none p' k = k
    paused t ts (some a) p' k = if_both (Kept P) (a == t.address) k (some-Kept P p')

    served :
        (ts : List Task)
        → P (record m { ring = ts })
        → Each Q ts
        → Kept P (elim ts [
          | [] ↦ some m
          | t ∷ us ↦ elim (m.pausing_task) [
            | none ↦ loop2 b i t (record m { ring = t ∷ us })
            | some a ↦
                if a == t.address
                then loop2 b i t (record m { ring = t ∷ us })
                else some (record m { ring = t ∷ us })
          ]
        ])
    served [] p' q' = some-Kept P p
    served (t ∷ us) p' (h, _) = paused t us m.pausing_task p' (turn t us h p')

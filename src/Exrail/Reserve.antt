-- ===== src/Exrail/Reserve.antt =====
-- EXRAIL2.cpp: RESERVE, FREE and the sections, each of which one task at a time may hold.
use dccexpress_mini.Prelude.{
  ℕ, ◌<◌, ◌≡◌, refl, Bool, true, false, Option, none, some, List, [], ◌∷◌, ◌==◌, inl, inr, ◌>>=◌,
  leb, get_or, get_or-set_self, if◌then◌else◌, if_both, length, arith,
}
use dccexpress_mini.Prelude.Apart.{Each, Each-both}
use dccexpress_mini.Exrail.Opcode.{decode, max_flags, section_flag, task_flag}
use dccexpress_mini.Exrail.Opcode.Opcode.{op_free, op_reserve}
use dccexpress_mini.Exrail.State.{Task, Build, Inputs, Exrail}
use dccexpress_mini.Exrail.Program.{get_operand}
use dccexpress_mini.Exrail.Tasks.{
  set_flag, get_flag, start_task, drive_loco, release, kill, kill_all, delay_me, put, unused_id,
}
use dccexpress_mini.Exrail.Switch.{switch}
use dccexpress_mini.Exrail.Switch.Turn.{advance, stay}
use dccexpress_mini.Exrail.Step.{finish, run_opcode, step_over, loop}
use dccexpress_mini.Exrail.Kept.{IsKept, Kept}
use dccexpress_mini.Exrail.Turned.{IsTask}
use dccexpress_mini.Exrail.Flags.{masked, IsReserved, set_section, set_flag-IsReserved}
use dccexpress_mini.Exrail.Turns.{IsStable, loop2-kept, loop-kept}
use dccexpress_mini.Exrail.Runs.{rotate-Each}
use dccexpress_mini.Exrail.Sound.{IsSound, IsSoundTask}

module _ (x : ℕ) where
  release-IsReserved : (t : Task) (m : Exrail) → IsReserved x m → IsReserved x (release t m)
  unfolding release drive_loco IsReserved get_flag
  release-IsReserved t m h =
      set_flag-IsReserved x t.task_id 0 task_flag (drive_loco 1 t m).1 (inl refl)
        (if_both (λ (r : Task × Exrail). IsReserved x r.1) (t.loco == 0) {x = (t, m)} h h)

  kill_all-IsReserved :
      (ts : List Task) (m : Exrail) → IsReserved x m → IsReserved x (kill_all ts m)
  unfolding kill_all IsReserved get_flag
  kill_all-IsReserved [] m h = h
  kill_all-IsReserved (t ∷ ts) m h = kill_all-IsReserved ts _ (release-IsReserved t m h)

  start_task-IsReserved :
      (init : Task → Task) (pc : ℕ) (m : Exrail)
      → IsReserved x m
      → IsReserved x (start_task init pc m)
  unfolding start_task IsReserved get_flag
  start_task-IsReserved init pc m h = flagged (unused_id 0 m.flags)
    where
      flagged :
          (o : Option ℕ) → IsReserved x (elim o [ none ↦ m | some f ↦ set_flag f task_flag 0 m ])
      flagged none = h
      flagged (some f) = set_flag-IsReserved x f task_flag 0 m (inl refl) h

  IsReserved-IsKept : IsKept (IsReserved x)
  unfolding IsReserved get_flag kill
  IsReserved-IsKept = record {
    kept_call = λ c m h. h;
    kept_pausing = λ a m h. h;
    kept_loco_id = λ y m h. h;
    kept_states = λ ys m h. h;
    kept_stash = λ ys m h. h;
    kept_flag = λ id on off m e h. set_flag-IsReserved x id on off m (inl e) h;
    kept_start = λ init pc m mild h. start_task-IsReserved init pc m h;
    kept_kill = λ t m h. release-IsReserved t m h;
    kept_kill_all = λ m h. kill_all-IsReserved m.ring m h;
  }

  -- A task that stands at the FREE of the section.
  unfoldable pub Frees : Build → Task → Type 0
  Frees b t =
      (decode (b.route_code t.prog_counter) ≡ some op_free) × (get_operand b t.prog_counter 0 ≡ x)

  put-IsStable : (t : Task) → IsStable (IsReserved x) t
  unfolding IsReserved get_flag put
  put-IsStable t = record { kept = IsReserved-IsKept; kept_put = λ u m q h. h }

  -- A section that is reserved stays so in a pass of `loop` that returns, whichever task has its
  -- turn, unless a task stands at the FREE of that section.
  pub loop-IsReserved :
      (b : Build) (i : Inputs) (m : Exrail)
      → IsSound m
      → Each (λ t. ¬ Frees b t) m.ring
      → IsReserved x m
      → Kept (IsReserved x) (loop b i m)
  unfolding IsReserved get_flag Frees IsSoundTask IsTask
  loop-IsReserved b i m s free h =
      loop-kept (IsReserved x) (λ t. (¬ Frees b t) × IsSoundTask m.next_address t) b i m h h
        (rotate-Each _ m.ring (Each-both _ _ m.ring free s.sound_tasks))
        (λ t ts q h'.
          loop2-kept (IsReserved x) t (put-IsStable t) b i _ (refl, q.1.1) h'
            (λ e.
              set_flag-IsReserved x (get_operand b t.prog_counter 0) 0 section_flag _
                (inr (λ same. q.0 (e, same))) h'))

-- A section that is set is reserved.
set_flag-reserves :
    (x : ℕ) (m : Exrail)
    → x < max_flags
    → length m.flags ≡ max_flags
    → IsReserved x (set_flag x section_flag 0 m)
unfolding IsReserved get_flag set_flag
set_flag-reserves x m l n =
    let v = masked (get_or m.flags x 0) section_flag 0 in
    let e : leb max_flags x ≡ false = ground arith in
    rw (set_flag, e, get_or-set_self m.flags x v 0 (omega arith)) (set_section (get_or m.flags x 0))

-- At a RESERVE, where x is the section: if it is reserved, the task stays where it is, its loco is
-- told to stop, and the next try is 500 ms later; if it is not, the task goes on to the next
-- instruction. With the 256 flags and x one of them, x is reserved when the task goes on.
run_opcode-reserve :
    (b : Build) (i : Inputs) (t : Task) (m : Exrail) (x : ℕ)
    → decode (b.route_code t.prog_counter) ≡ some op_reserve
    → get_operand b t.prog_counter 0 ≡ x
    → x < max_flags
    → length m.flags ≡ max_flags
    → (run_opcode b i t m ≡ (
        if get_flag x section_flag m
        then (let d = drive_loco 0 t m in some (put (delay_me 500 i d.0) d.1))
        else some (put (step_over t) (set_flag x section_flag 0 m))))
      × IsReserved x (set_flag x section_flag 0 m)
unfolding run_opcode switch finish
run_opcode-reserve b i t m x e o l n =
    (rw (run_opcode, e, o) (turn (get_flag x section_flag m)), set_flag-reserves x m l n)
  where
    turn :
        (r : Bool)
        → ((if r
              then (let d = drive_loco 0 t m in some (stay (delay_me 500 i d.0) d.1))
              else some (advance t (set_flag x section_flag 0 m)))
            >>= finish b)
          ≡ (if r
              then (let d = drive_loco 0 t m in some (put (delay_me 500 i d.0) d.1))
              else some (put (step_over t) (set_flag x section_flag 0 m)))
    turn true = refl
    turn false = refl

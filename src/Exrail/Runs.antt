-- ===== src/Exrail/Runs.antt =====
-- EXRAIL2.cpp: the interpreter over its calls by other parts, in any order.
use dccexpress_mini.Prelude.{
  ℕ, ◌<◌, refl, subst, sym, Bool, Option, none, some, List, [], ◌∷◌, ◌>>=◌, if_both,
}
use dccexpress_mini.Prelude.Keyed.{IsUnique, IsUnique-replace_by}
use dccexpress_mini.Prelude.Apart.{Each, Each-append, Each-replace_by, IsUnique-swap}
use dccexpress_mini.Exrail.Opcode.{section_flag}
use dccexpress_mini.Exrail.State.{Task, Build, Inputs, Exrail, LookList}
use dccexpress_mini.Exrail.Tasks.{
  handle_event, create_new_task, put, start_task, is_handled, start_non_recursive_task,
}
use dccexpress_mini.Exrail.Signals.{
  do_signal, signal_aspect_event, turnout_event, activate_event, change_event, rotate_event,
  clock_event, power_event,
}
use dccexpress_mini.Exrail.Step.{rotate, loop2, loop, loco_read, read_loco_callback}
use dccexpress_mini.Exrail.Kept.{
  IsMild, Kept, Kept-weaken, some-Kept, bind-Kept, both-IsKept, handle_event-kept, do_signal-kept,
  signal_aspect_event-kept, Answered,
}
use dccexpress_mini.Exrail.Turned.{IsTask}
use dccexpress_mini.Exrail.Sound.{
  IsSoundTask, IsSound, IsSound-IsKept, IsGiven, IsGiven-IsKept, set_flag-IsSound, set_flag-IsGiven,
}
use dccexpress_mini.Exrail.Slash.{
  Slash, parse_slash, set_stash, create_new_task-IsSound, parse_slash-IsSound, set_stash-IsSound,
}
use dccexpress_mini.Exrail.Turns.{IsStable, loop2-kept, loop-kept}

-- Who calls: the main loop, the parsers, and the parts with events. `new_route` is `createNewTask`,
-- `show` is `doSignal` and `aspect` is `signalAspectEvent` from the commands, `sensor_task` is the
-- task that an `EXRAILSensor` starts, `lcc_event` a handler of `<L eventid>` that starts at a place
-- in the script, and `stash_loco` is `<JM id cab>`.
pub data Occasion : Type 0 where
  pass : Inputs → Occasion
  new_route : ℕ → ℕ → Occasion
  show : ℕ → ℕ → Occasion
  turnout : ℕ → Bool → Occasion
  accessory : ℕ → Bool → Occasion
  change : ℕ → Bool → Occasion
  turntable : ℕ → Bool → Occasion
  clock : ℕ → Bool → Occasion
  power : ℕ → Bool → Occasion
  loco_id : ℕ → Occasion
  aspect : ℕ → ℕ → Occasion
  sensor_task : ℕ → Occasion
  lcc_event : ℕ → Occasion
  slash : Slash → Occasion
  stash_loco : ℕ → ℕ → Occasion

-- The state behind an answer.
abbrev pub told : Option (Bool × Exrail) → Option Exrail
told none = none
told (some r) = some r.1

unfoldable pub occur : Build → Occasion → Exrail → Option Exrail
unfolding loop create_new_task do_signal turnout_event activate_event change_event rotate_event
    clock_event power_event read_loco_callback signal_aspect_event start_task
    start_non_recursive_task parse_slash set_stash
occur b (pass i) m = loop b i m
occur b (new_route route cab) m = some (create_new_task route cab m)
occur b (show id rag) m = do_signal b id rag m
occur b (turnout id closed) m = some (turnout_event id closed m)
occur b (accessory id activate) m = some (activate_event id activate m)
occur b (change id on) m = some (change_event id on m)
occur b (turntable id on) m = some (rotate_event id on m)
occur b (clock time on) m = some (clock_event time on m)
occur b (power track overload) m = some (power_event track overload m)
occur b (loco_id cv) m = some (read_loco_callback cv m)
occur b (aspect address value) m = told (signal_aspect_event b address value m)
occur b (sensor_task pc) m = some (start_task (λ t. t) pc m)
occur b (lcc_event pc) m = some (start_non_recursive_task pc m)
occur b (slash c) m = some (parse_slash c m)
occur b (stash_loco id cab) m = some (set_stash b id cab m)

unfoldable pub run : Build → List Occasion → Exrail → Option Exrail
unfolding occur
run b [] m = some m
run b (o ∷ os) m = occur b o m >>= run b os

put-IsStable : (t : Task) → IsStable (λ m. IsSound m × IsGiven t.address m) t
unfolding IsTask put IsSoundTask IsGiven
put-IsStable t = record {
  kept = both-IsKept IsSound (IsGiven t.address) IsSound-IsKept (IsGiven-IsKept t.address);
  kept_put = λ u m q h. (
    record {
      all_flags = (h.0).all_flags;
      distinct = IsUnique-replace_by (λ v. v.address) u.address u m.ring refl (h.0).distinct;
      sound_tasks =
          Each-replace_by (IsSoundTask m.next_address) (λ v. v.address) u.address u m.ring
            (subst (λ a. a < m.next_address) (sym q.0) h.1, q.1) (h.0).sound_tasks;
    },
    h.1,
  );
}

rotate-IsUnique :
    (ts : List Task) → IsUnique (λ t. t.address) ts → IsUnique (λ t. t.address) (rotate ts)
rotate-IsUnique [] u = u
rotate-IsUnique (t ∷ ts) u = IsUnique-swap (λ t. t.address) (t ∷ []) ts u

pub rotate-Each : (P : Task → Type 0) (ts : List Task) → Each P ts → Each P (rotate ts)
rotate-Each P [] h = h
rotate-Each P (t ∷ ts) (p, h) = Each-append P ts (t ∷ []) h (p, tt)

module _ (b : Build) (i : Inputs) where
  loop2-IsSound :
      (t : Task) (m : Exrail)
      → IsSound m
      → IsSoundTask m.next_address t
      → Kept IsSound (loop2 b i t m)
  unfolding IsSoundTask IsTask IsGiven
  loop2-IsSound t m s h =
      let P : Exrail → Type 0 = λ m'. IsSound m' × IsGiven t.address m' in
      Kept-weaken P IsSound (loop2 b i t m) (λ m' p. p.0)
        (loop2-kept P t (put-IsStable t) b i m (refl, h.1) (s, h.0)
          (λ e. (
            set_flag-IsSound _ 0 section_flag m s,
            set_flag-IsGiven t.address _ 0 section_flag m h.0,
          )))

  rotate-IsSound : (m : Exrail) → IsSound m → IsSound (record m { ring = rotate m.ring })
  rotate-IsSound m s = record {
    all_flags = s.all_flags;
    distinct = rotate-IsUnique m.ring s.distinct;
    sound_tasks = rotate-Each (IsSoundTask m.next_address) m.ring s.sound_tasks;
  }

  -- A pass of `loop` that returns leaves a ring of distinct tasks, each with at most four returns to
  -- make, and the 256 flags.
  pub loop-IsSound : (m : Exrail) → IsSound m → Kept IsSound (loop b i m)
  unfolding loop
  loop-IsSound m s =
      loop-kept IsSound (IsSoundTask m.next_address) b i m s (rotate-IsSound m s)
        (rotate-Each (IsSoundTask m.next_address) m.ring s.sound_tasks)
        (λ t ts h s'. loop2-IsSound t _ s' h)

handled : (id : ℕ) (l : LookList) (m : Exrail) → IsSound m → IsSound (handle_event id l m)
handled = handle_event-kept IsSound IsSound-IsKept

read_loco_callback-IsSound : (cv : ℕ) (m : Exrail) → IsSound m → IsSound (read_loco_callback cv m)
unfolding read_loco_callback
read_loco_callback-IsSound cv m s = IsSound-IsKept.kept_loco_id (loco_read cv) m s

told-IsSound :
    (o : Option (Bool × Exrail)) → Kept (Answered IsSound IsSound-IsKept) o → Kept IsSound (told o)
unfolding Kept
told-IsSound none h = tt
told-IsSound (some r) h = h

start_task-sound : (pc : ℕ) (m : Exrail) → IsSound m → IsSound (start_task (λ t. t) pc m)
unfolding IsMild
start_task-sound pc m s = IsSound-IsKept.kept_start (λ t. t) pc m (λ u. (refl, refl)) s

start_non_recursive_task-IsSound :
    (pc : ℕ) (m : Exrail) → IsSound m → IsSound (start_non_recursive_task pc m)
unfolding start_non_recursive_task IsMild
start_non_recursive_task-IsSound pc m s = if_both IsSound (is_handled pc m.ring) s (
    IsSound-IsKept.kept_start (λ t. record t { on_event_start_position = some pc }) pc m
      (λ u. (refl, refl)) s)

-- Every call, whichever part makes it, keeps the invariant.
occur-IsSound : (b : Build) (o : Occasion) (m : Exrail) → IsSound m → Kept IsSound (occur b o m)
unfolding occur turnout_event activate_event change_event rotate_event clock_event power_event
occur-IsSound b (pass i) m s = loop-IsSound b i m s
occur-IsSound b (new_route route cab) m s =
    some-Kept IsSound (create_new_task-IsSound route cab m s)
occur-IsSound b (show id rag) m s = do_signal-kept IsSound IsSound-IsKept b id rag m s
occur-IsSound b (turnout id closed) m s =
    some-Kept IsSound (
      if_both IsSound closed (handled id m.lookups.on_close m s)
        (handled id m.lookups.on_throw m s))
occur-IsSound b (accessory id activate) m s = some-Kept IsSound (
    if_both IsSound activate (handled id m.lookups.on_activate m s)
      (handled id m.lookups.on_deactivate m s))
occur-IsSound b (change id on) m s =
    some-Kept IsSound (if_both IsSound on (handled id m.lookups.on_change m s) s)
occur-IsSound b (turntable id on) m s =
    some-Kept IsSound (if_both IsSound on (handled id m.lookups.on_rotate m s) s)
occur-IsSound b (clock time on) m s =
    some-Kept IsSound
      (if_both IsSound on (handled _ m.lookups.on_clock _ (handled time m.lookups.on_clock m s)) s)
occur-IsSound b (power track overload) m s =
    some-Kept IsSound (if_both IsSound overload (handled track m.lookups.on_overload m s) s)
occur-IsSound b (loco_id cv) m s = some-Kept IsSound (read_loco_callback-IsSound cv m s)
occur-IsSound b (aspect address value) m s =
    told-IsSound (signal_aspect_event b address value m)
      (signal_aspect_event-kept IsSound IsSound-IsKept b address value m s)
occur-IsSound b (sensor_task pc) m s = some-Kept IsSound (start_task-sound pc m s)
occur-IsSound b (lcc_event pc) m s = some-Kept IsSound (start_non_recursive_task-IsSound pc m s)
occur-IsSound b (slash c) m s = some-Kept IsSound (parse_slash-IsSound c m s)
occur-IsSound b (stash_loco id cab) m s = some-Kept IsSound (set_stash-IsSound b id cab m s)

-- Over any calls in any order.
pub run-IsSound :
    (b : Build) (os : List Occasion) (m : Exrail) → IsSound m → Kept IsSound (run b os m)
unfolding run
run-IsSound b [] m s = some-Kept IsSound s
run-IsSound b (o ∷ os) m s =
    bind-Kept IsSound IsSound (occur b o m) (run b os) (occur-IsSound b o m s) (run-IsSound b os)

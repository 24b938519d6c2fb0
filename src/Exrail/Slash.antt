-- ===== src/Exrail/Slash.antt =====
-- EXRAIL2Parser.cpp: the commands that change the state of the interpreter, once their keyword and
-- parameters are read: those of `parseSlash`, and `<JM id cab>`. A parameter is a 16-bit pattern.
use dccexpress_mini.Prelude.{
  ℕ, refl, true, ◌&&◌, ◌||◌, not, Option, none, some, ltb, leb, ◌==◌, if◌then◌else◌, if_both, set,
}
use dccexpress_mini.Prelude.Keyed.{find_by}
use dccexpress_mini.Exrail.Opcode.{section_flag, latch_flag, max_flags, feature_stash}
use dccexpress_mini.Exrail.State.{Task, Build, Exrail, call, is_negative, has_feature}
use dccexpress_mini.Exrail.State.Call.{set_throttle}
use dccexpress_mini.Exrail.Lookup.{find}
use dccexpress_mini.Exrail.Tasks.{set_flag, kill, kill_all, create_new_task}
use dccexpress_mini.Exrail.Actions.{resume_all}
use dccexpress_mini.Exrail.Kept.{IsMild}
use dccexpress_mini.Exrail.Turned.{resume_all-kept}
use dccexpress_mini.Exrail.Sound.{IsSound, IsSound-IsKept, set_flag-IsSound}

-- `</ PAUSE>`, `</ RESUME>`, `</ START cab route>`, `</ KILL ALL>`, `</ KILL id>`, and RESERVE, FREE,
-- LATCH and UNLATCH of an id. RED, AMBER and GREEN are `doSignal`.
pub data Slash : Type 0 where
  pause : Slash
  resume : Slash
  start : ℕ → ℕ → Slash
  kill_every : Slash
  kill_id : ℕ → Slash
  reserve : ℕ → Slash
  free : ℕ → Slash
  latch : ℕ → Slash
  unlatch : ℕ → Slash

-- The `Impossible task address` of `</ PAUSE>`; a task has an address from 2 on.
abbrev impossible_address : ℕ
impossible_address = 1

-- The task with the id is deleted, the first from `loopTask` on.
unfoldable pub kill_task_id : ℕ → Exrail → Exrail
unfolding find_by kill
kill_task_id id m =
    if leb max_flags id
    then m
    else elim (find_by (λ (t : Task). t.task_id) id m.ring) [ none ↦ m | some t ↦ kill t m ]

unfoldable pub parse_slash : Slash → Exrail → Exrail
unfolding kill_task_id set_flag kill_all create_new_task resume_all
parse_slash pause m = record (call (set_throttle 0 1 true) m) {
  pausing_task = some impossible_address;
}
parse_slash resume m = resume_all m.ring (record m { pausing_task = none })
parse_slash (start cab route) m = create_new_task route cab m
parse_slash kill_every m = kill_all m.ring m
parse_slash (kill_id id) m = kill_task_id id m
parse_slash (reserve id) m = set_flag id section_flag 0 m
parse_slash (free id) m = set_flag id 0 section_flag m
parse_slash (latch id) m = set_flag id latch_flag 0 m
parse_slash (unlatch id) m = set_flag id 0 latch_flag m

-- `<JM id cab>`.
unfoldable pub set_stash : Build → ℕ → ℕ → Exrail → Exrail
set_stash b id cab m =
    if has_feature b feature_stash && not (is_negative id || (id == 0 || ltb m.max_stash_id id))
    then record m { stash = set m.stash id cab }
    else m

pub create_new_task-IsSound :
    (route cab : ℕ) (m : Exrail) → IsSound m → IsSound (create_new_task route cab m)
unfolding create_new_task IsMild
create_new_task-IsSound route cab m s =
    if_both IsSound (is_negative (find route m.lookups.route)) s
      (IsSound-IsKept.kept_start (λ t. record t { loco = cab }) _ m (λ u. (refl, refl)) s)

kill_found :
    (o : Option Task) (m : Exrail) → IsSound m → IsSound (elim o [ none ↦ m | some t ↦ kill t m ])
kill_found none m s = s
kill_found (some t) m s = IsSound-IsKept.kept_kill t m s

kill_task_id-IsSound : (id : ℕ) (m : Exrail) → IsSound m → IsSound (kill_task_id id m)
unfolding kill_task_id
kill_task_id-IsSound id m s =
    if_both IsSound (leb max_flags id) s
      (kill_found (find_by (λ (t : Task). t.task_id) id m.ring) m s)

pub parse_slash-IsSound : (c : Slash) (m : Exrail) → IsSound m → IsSound (parse_slash c m)
unfolding parse_slash
parse_slash-IsSound pause m s =
    IsSound-IsKept.kept_pausing (some impossible_address) _
      (IsSound-IsKept.kept_call (set_throttle 0 1 true) m s)
parse_slash-IsSound resume m s =
    resume_all-kept IsSound IsSound-IsKept m.ring _ (IsSound-IsKept.kept_pausing none m s)
parse_slash-IsSound (start cab route) m s = create_new_task-IsSound route cab m s
parse_slash-IsSound kill_every m s = IsSound-IsKept.kept_kill_all m s
parse_slash-IsSound (kill_id id) m s = kill_task_id-IsSound id m s
parse_slash-IsSound (reserve id) m s = set_flag-IsSound id section_flag 0 m s
parse_slash-IsSound (free id) m s = set_flag-IsSound id 0 section_flag m s
parse_slash-IsSound (latch id) m s = set_flag-IsSound id latch_flag 0 m s
parse_slash-IsSound (unlatch id) m s = set_flag-IsSound id 0 latch_flag m s

pub set_stash-IsSound :
    (b : Build) (id cab : ℕ) (m : Exrail) → IsSound m → IsSound (set_stash b id cab m)
unfolding set_stash
set_stash-IsSound b id cab m s =
    if_both IsSound
      (has_feature b feature_stash && not (is_negative id || (id == 0 || ltb m.max_stash_id id)))
      (IsSound-IsKept.kept_stash (set m.stash id cab) m s) s

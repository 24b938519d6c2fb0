-- ===== src/Exrail/Tasks.antt =====
-- EXRAIL2.cpp: the flags, and the tasks in their ring.
use dccexpress_mini.Prelude.{
  ℕ, zero, suc, ◌+◌, ◌%◌, Bool, true, false, ◌&&◌, ◌||◌, not, Option, none, some, List, [], ◌∷◌,
  ◌++◌, bit_and, bit_or, bit_xor, leb, ◌==◌, if◌then◌else◌, get_or, set, length,
}
use dccexpress_mini.Prelude.Keyed.{find_by, replace_by}
use dccexpress_mini.Exrail.Opcode.{task_flag, latch_flag, max_flags, feature_blink}
use dccexpress_mini.Exrail.State.{
  Task, Build, Inputs, LookList, Exrail, call, is_negative, negate, has_feature, xor,
}
use dccexpress_mini.Exrail.State.BlinkState.{not_blink_task, blink_low, blink_high}
use dccexpress_mini.Exrail.State.Call.{set_throttle}
use dccexpress_mini.Exrail.Lookup.{find, entries}

-- `setFlag` and `getFlag`. The value that `setFlag` returns is used nowhere.
unfoldable pub set_flag : ℕ → ℕ → ℕ → Exrail → Exrail
set_flag id on_mask off_mask m = if leb max_flags id then m else record m {
  flags = set m.flags id (bit_or (bit_and (get_or m.flags id 0) (bit_xor 0xff off_mask)) on_mask);
}

unfoldable pub get_flag : ℕ → ℕ → Exrail → Bool
get_flag id mask m =
    if leb max_flags id then false else not (bit_and (get_or m.flags id 0) mask == 0)

-- The search of the constructor for an unused id: i flags are passed.
unfoldable pub unused_id : ℕ → List ℕ → Option ℕ
unused_id i [] = none
unused_id i (f ∷ fs) =
    let rest = unused_id (i + 1) fs in if bit_and f task_flag == 0 then some i else rest

abbrev pub new_task : ℕ → ℕ → ℕ → Task
new_task a id pc = record {
  address = a;
  prog_counter = pc;
  delay_start = 0;
  delay_time = 0;
  timer = 0;
  task_id = id;
  blink_state = not_blink_task;
  loco = 0;
  forward = true;
  invert = false;
  speedo = 0;
  on_event_start_position = none;
  call_stack = [];
}

abbrev pub chain_in : Task → List Task → List Task
chain_in t [] = t ∷ []
chain_in t (u ∷ us) = u ∷ (t ∷ us)

-- The constructor, and what its caller then sets in the task. With every id in use the task gets
-- 255, and no flag is set.
unfoldable pub start_task : (Task → Task) → ℕ → Exrail → Exrail
unfolding unused_id set_flag
start_task init pc m =
    let unused = unused_id 0 m.flags in
    let id : ℕ = elim unused [ none ↦ 255 | some f ↦ f ] in
    let flagged : Exrail = elim unused [ none ↦ m | some f ↦ set_flag f task_flag 0 m ] in
    record flagged {
      ring = chain_in (init (new_task m.next_address id pc)) m.ring;
      next_address = m.next_address + 1;
    }

-- `driveLoco` on a task.
unfoldable pub drive_loco : ℕ → Task → Exrail → Task × Exrail
drive_loco speed t m = if t.loco == 0 then (t, m) else (
  record t { speedo = speed % 256 },
  call (set_throttle t.loco (speed % 256) (xor t.forward t.invert)) m,
)

-- The ring without the task at the address, from the task after it on.
unfoldable pub cut : ℕ → List Task → List Task → List Task
cut a before [] = before
cut a before (t ∷ ts) = elim (t.address == a) [
  | true ↦ ts ++ before
  | false ↦ cut a (before ++ (t ∷ [])) ts
]

-- The destructor up to the change of the ring.
unfoldable pub release : Task → Exrail → Exrail
unfolding drive_loco set_flag
release t m = set_flag t.task_id 0 task_flag (drive_loco 1 t m).1

-- `kill`, which deletes the task. `loopTask` is then the one after it.
unfoldable pub kill : Task → Exrail → Exrail
unfolding release cut
kill t m = record (release t m) { ring = cut t.address [] m.ring }

-- The loop of `KILLALL`: the task at `loopTask` is deleted until there is none.
unfoldable pub kill_all : List Task → Exrail → Exrail
unfolding release
kill_all [] m = record m { ring = [] }
kill_all (t ∷ ts) m = kill_all ts (release t m)

unfoldable pub delay_me : ℕ → Inputs → Task → Task
delay_me delay i t = record t { delay_time = delay; delay_start = i.millis }

abbrev pub is_blinking : Task → Bool
is_blinking t = elim (t.blink_state) [ blink_low ↦ true | blink_high ↦ true | _ ↦ false ]

abbrev pub blink_pin : Task → ℕ
blink_pin t = t.timer % 0x1_0000

abbrev pub blinks_on : ℕ → ℕ → Task → Bool
blinks_on pin last t = is_blinking t && (leb pin (blink_pin t) && leb (blink_pin t) last)

-- The pointer `next` of the task at the address.
abbrev pub next_of : ℕ → List Task → ℕ
next_of a ring = elim (cut a [] ring) [ [] ↦ a | u ∷ us ↦ u.address ]

-- The loop of `killBlinkOnVpin` at the task at the address. It ends when it comes to `stoptask`.
unfoldable pub kill_blinks : ℕ → ℕ → ℕ → ℕ → ℕ → Exrail → Option Exrail
unfolding kill
kill_blinks zero pin last stop a m = none
kill_blinks (suc fuel) pin last stop a m =
    let next = next_of a m.ring in
    let after : Exrail = elim (find_by (λ t. t.address) a m.ring) [
      | none ↦ m
      | some t ↦ if blinks_on pin last t then kill t m else m
    ] in
    elim (next == stop) [ true ↦ some after | false ↦ kill_blinks fuel pin last stop next after ]

unfoldable pub kill_blink_on_vpin : Build → ℕ → ℕ → Exrail → Option Exrail
unfolding kill_blinks
kill_blink_on_vpin b pin count m =
    if has_feature b feature_blink
    then elim (m.ring) [
      | [] ↦ some m
      | t ∷ ts ↦
          kill_blinks (length m.ring) pin ((pin + count + 0xFFFF) % 0x1_0000) t.address t.address m
    ]
    else some m

abbrev pub handles : ℕ → Task → Bool
handles pc t = elim (t.on_event_start_position) [ none ↦ false | some p ↦ p == pc ]

unfoldable pub is_handled : ℕ → List Task → Bool
is_handled pc [] = false
is_handled pc (t ∷ ts) = handles pc t || is_handled pc ts

unfoldable pub start_non_recursive_task : ℕ → Exrail → Exrail
unfolding is_handled start_task
start_non_recursive_task pc m =
    if is_handled pc m.ring
    then m
    else start_task (λ t. record t { on_event_start_position = some pc }) pc m

unfoldable pub start_handlers : ℕ → List (ℕ × ℕ) → Exrail → Exrail
unfolding start_non_recursive_task
start_handlers id [] m = m
start_handlers id ((k, pc) ∷ es) m =
    start_handlers id es (if k == id then start_non_recursive_task pc m else m)

-- `LookList::handleEvent`.
unfoldable pub handle_event : ℕ → LookList → Exrail → Exrail
unfolding start_handlers entries
handle_event id l m = start_handlers id (entries l) m

-- `createNewTask`.
unfoldable pub create_new_task : ℕ → ℕ → Exrail → Exrail
unfolding find start_task
create_new_task route cab m =
    let pc = find route m.lookups.route in
    if is_negative pc then m else start_task (λ t. record t { loco = cab }) pc m

unfoldable pub read_sensor : ℕ → Inputs → Exrail → Bool
unfolding get_flag
read_sensor x i m =
    let vpin = if is_negative x then negate x else x in
    if get_flag vpin latch_flag m then true else xor (i.read vpin) (is_negative x)

-- The task written back to its place.
unfoldable pub put : Task → Exrail → Exrail
unfolding replace_by
put t m = record m { ring = replace_by (λ u. u.address) t.address t m.ring }

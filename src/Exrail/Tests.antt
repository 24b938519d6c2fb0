-- ===== src/Exrail/Tests.antt =====
-- The theorems on the interpreter at a concrete script.
use dccexpress_mini.Prelude.{
  ℕ, ◌≡◌, refl, true, false, none, some, List, [], ◌∷◌, ◌>>=◌, inl, inr, arith, ◌==◌, if◌then◌else◌,
  get_or, replicate,
}
use dccexpress_mini.Exrail.Opcode.{decode}
use dccexpress_mini.Exrail.State.{Task, LookList, SignalDefinition, Build, Inputs, Lookups, Exrail}
use dccexpress_mini.Exrail.State.BlinkState.{not_blink_task, blink_low}
use dccexpress_mini.Exrail.State.SignalType.{sigtype_virtual, sigtype_no_more_signals}
use dccexpress_mini.Exrail.State.LookList.{unchained, chained}
use dccexpress_mini.Exrail.Lookup.{find}
use dccexpress_mini.Exrail.Program.{skip_if_block, get_operand, positions, look_list_loader}
use dccexpress_mini.Exrail.Program.Skipped.{found}
use dccexpress_mini.Exrail.Tasks.{
  put, kill_blinks, kill_blink_on_vpin, delay_me, get_flag, drive_loco,
}
use dccexpress_mini.Exrail.Step.{run_opcode, loop, loop2}
use dccexpress_mini.Exrail.Signals.{do_signal, is_signal}
use dccexpress_mini.Exrail.Begin.{begin}
use dccexpress_mini.Exrail.Kept.{Kept}
use dccexpress_mini.Exrail.Sound.{IsSound, IsSoundTask}
use dccexpress_mini.Exrail.Runs.{run, pass, new_route, turnout, slash, sensor_task}
use dccexpress_mini.Exrail.Slash.{pause, resume}
use dccexpress_mini.Exrail.Reach.{run-begin}
use dccexpress_mini.Exrail.Loading.{first_handler, find-look_list_loader}
use dccexpress_mini.Exrail.Calm.{IsCalm, Calms, is_signal-set}
use dccexpress_mini.Exrail.Passes.{AreEnding, loop-section_kept}
use dccexpress_mini.Exrail.Starts.{begin-returns}
use dccexpress_mini.Exrail.Nesting.{nil, plain, nested, is_nested, Holds, bytes, skip-block}
use dccexpress_mini.Exrail.Flags.{IsReserved}
use dccexpress_mini.Exrail.Reserve.{Frees}
use dccexpress_mini.Exrail.Cut.{Leaves}
use dccexpress_mini.Exrail.Blink.{kill_blink-sweeps, kill_blinks-hangs, unblinked}
use dccexpress_mini.Exrail.Subroutine.{call-return}
use dccexpress_mini.Exrail.Waits.{loop2-delay_me, pause-stuck, passes, turned_ring}

abbrev code : List ℕ
code =
    74 ∷ 1 ∷ 0 ∷ 46 ∷ 2 ∷ 0 ∷ 7 ∷ 5 ∷ 0 ∷ 76 ∷ 0 ∷ 0 ∷ 75 ∷ 2 ∷ 0 ∷ 47 ∷ 0 ∷ 0 ∷ 118 ∷ 3 ∷ 0 ∷ 3
    ∷ 10 ∷ 0 ∷ 125 ∷ 4 ∷ 0 ∷ 22 ∷ 0 ∷ 0 ∷ 23 ∷ 0 ∷ 0 ∷ 104 ∷ 1 ∷ 0 ∷ 107 ∷ 1 ∷ 0 ∷ 106 ∷ 0 ∷ 0 ∷ 77
    ∷ 0 ∷ 0 ∷ []

abbrev signal_at : ℕ → SignalDefinition
signal_at slot = record {
  type_of = if slot == 0 then sigtype_virtual else sigtype_no_more_signals;
  id = 9;
  redpin = 0;
  amberpin = 0;
  greenpin = 0;
}

-- An AUTOMATION that calls a SEQUENCE and reserves a section, some IFs, and a virtual signal.
abbrev script : Build
script = record {
  route_code = λ pc. get_or code pc 0;
  code_size = 15;
  signals = signal_at;
  signals_size = 2;
  compile_features = 0xff;
  word = 0x1_0000;
}

abbrev inputs_at : ℕ → Inputs
inputs_at now = record {
  millis = now;
  micros = 0;
  read = λ v. false;
  read_analogue = λ v. 0;
  is_busy = λ v. false;
  is_closed = λ v. false;
  turntable_position = λ v. 0;
  tt_moving = λ v. false;
  is_power_on = λ v. true;
  throttle_direction = λ v. true;
}

abbrev no_list : LookList
no_list = unchained 0 []

abbrev lookups : Lookups
lookups = record {
  route = chained 1 ((1, 0) ∷ []) (unchained 1 ((2, 12) ∷ []));
  on_throw = no_list;
  on_close = no_list;
  on_activate = no_list;
  on_deactivate = no_list;
  on_change = no_list;
  on_clock = no_list;
  on_rotate = no_list;
  on_overload = no_list;
  on_red = no_list;
  on_amber = no_list;
  on_green = no_list;
  signal = unchained 1 ((9, 0) ∷ []);
}

abbrev task : ℕ → ℕ → Task
task a pc = record {
  address = a;
  prog_counter = pc;
  delay_start = 0;
  delay_time = 0;
  timer = 30;
  task_id = a;
  blink_state = not_blink_task;
  loco = 3;
  forward = true;
  invert = true;
  speedo = 0;
  on_event_start_position = none;
  call_stack = [];
}

abbrev blinker : ℕ → Task
blinker a = record (task a 0) { blink_state = blink_low }

-- The section 5 is reserved.
abbrev with_tasks : List Task → Exrail
with_tasks ts = record {
  ring = ts;
  pausing_task = none;
  flags = 0 ∷ 0 ∷ 0 ∷ 0 ∷ 0 ∷ 0x80 ∷ replicate 250 0;
  lookups = lookups;
  progtrack_loco_id = 0;
  route_states = 0 ∷ [];
  stash = 0 ∷ 0 ∷ [];
  max_stash_id = 1;
  lcc_serial = false;
  calls = [];
  next_address = 9;
}

one_task-IsSound : IsSound (with_tasks (task 0 3 ∷ []))
unfolding IsSoundTask
one_task-IsSound = record {
  all_flags = refl;
  distinct = (tt, tt);
  sound_tasks = ((omega arith, omega arith), tt);
}

-- The IF at 18 fails: the inner IF and its ENDIF are passed over, and the ELSE at 30 is found.
skipped : skip_if_block script 18 ≡ some (found 30)
unfolding skip_if_block
skipped = refl

skip-block_example : skip_if_block script 18 ≡ some (found 30)
unfolding is_nested Holds bytes
skip-block_example =
    skip-block script 18 (plain 3 (nested 125 nil nil)) 23 refl (inr refl)
      (refl, (refl, (refl, (refl, tt)))) (omega arith)

-- The SEQUENCE 2 stands at 12, and there is no SEQUENCE 1.
found_sequence : first_handler script 75 77 77 2 14 0 ≡ 12
unfolding first_handler get_operand
found_sequence = refl

no_sequence : first_handler script 75 77 77 1 14 0 ≡ 0xFFFF
unfolding first_handler get_operand
no_sequence = refl

find-look_list_loader_example :
    (r : List ℕ × ℕ) × (positions script 15 0 ≡ some r)
    × (find 2 (look_list_loader script r.0 75 77 77) ≡ first_handler script 75 77 77 2 14 0)
find-look_list_loader_example = find-look_list_loader script 75 77 77 2 14 refl (omega arith)

begin-returns_example : Calms (begin script false)
begin-returns_example = begin-returns script false 14 1 refl (omega arith) refl (omega arith)

-- Two passes, a new route, a turnout that moves, a sensor, and a pause of all.
run-begin_example : Kept IsSound (
    begin script false
    >>= run script (
        new_route 1 3
        ∷ pass (inputs_at 5)
        ∷ slash pause
        ∷ turnout 4 true
        ∷ sensor_task 3
        ∷ slash resume
        ∷ pass (inputs_at 6)
        ∷ []))
run-begin_example = run-begin script false (
    new_route 1 3
    ∷ pass (inputs_at 5)
    ∷ slash pause
    ∷ turnout 4 true
    ∷ sensor_task 3
    ∷ slash resume
    ∷ pass (inputs_at 6)
    ∷ [])

abbrev called : Task
called = record (task 0 15) { call_stack = 6 ∷ [] }

call-return_example :
    (run_opcode script (inputs_at 5) (task 0 3) (with_tasks (task 0 3 ∷ []))
      ≡ some (
          put
            (record (task 0 3) { prog_counter = 12; call_stack = 6 ∷ [] })
            (with_tasks (task 0 3 ∷ []))))
    × (run_opcode script (inputs_at 9) called (with_tasks (called ∷ []))
        ≡ some (put (task 0 6) (with_tasks (called ∷ []))))
unfolding decode find get_operand
call-return_example =
    call-return script (inputs_at 5) (inputs_at 9) (task 0 3) called (with_tasks (task 0 3 ∷ []))
      (with_tasks (called ∷ [])) refl (omega arith) refl refl refl

-- The same script in a build without BLINK.
abbrev plain_script : Build
plain_script = record script { compile_features = 0xfb }

loop-section_kept_example :
    (n : Exrail) × (loop plain_script (inputs_at 5) (with_tasks (task 0 3 ∷ [])) ≡ some n)
    × IsReserved 5 n
unfolding decode IsReserved get_flag Frees AreEnding
loop-section_kept_example =
    loop-section_kept 5 plain_script (inputs_at 5) (with_tasks (task 0 3 ∷ [])) refl
      ((12, (refl, omega arith)), tt) one_task-IsSound ((λ e. cc (e.0)), tt) refl

one_task-IsCalm : IsCalm (with_tasks (task 0 3 ∷ []))
unfolding IsCalm
one_task-IsCalm = (one_task-IsSound, (refl, tt))

is_signal-set_example :
    (n : Exrail) × (do_signal script 9 8 (with_tasks (task 0 3 ∷ [])) ≡ some n)
    × (is_signal script 9 8 n ≡ true)
unfolding find
is_signal-set_example =
    is_signal-set script 9 8 8 (with_tasks (task 0 3 ∷ [])) one_task-IsCalm refl refl (omega arith)
      (inr (inl refl))

abbrev blinking : Exrail
blinking = with_tasks (task 0 3 ∷ (blinker 1 ∷ (task 2 6 ∷ [])))

kill_blink-sweeps_example :
    Leaves (kill_blink_on_vpin script 30 1 blinking) (task 0 3 ∷ (task 2 6 ∷ []))
unfolding unblinked
kill_blink-sweeps_example =
    kill_blink-sweeps script 30 1 blinking (task 0 3) (blinker 1 ∷ (task 2 6 ∷ [])) refl
      (((λ e. cc), ((λ e. cc), tt)), (((λ e. cc), tt), (tt, tt))) refl refl

kill_blinks-hangs_example :
    kill_blinks 1000 30 30 1 1 (with_tasks (blinker 1 ∷ (task 2 6 ∷ []))) ≡ none
kill_blinks-hangs_example =
    kill_blinks-hangs 1000 30 30 (with_tasks (blinker 1 ∷ (task 2 6 ∷ []))) (blinker 1) (task 2 6)
      refl (λ e. cc) refl refl

-- The clock wraps round between the start of the delay and the second try.
delayed_past_wrap :
    loop2 script
      (inputs_at 100)
      (delay_me 500 (inputs_at 0xffff_ffff) (task 0 3))
      (with_tasks (task 0 3 ∷ []))
    ≡ some (with_tasks (task 0 3 ∷ []))
delayed_past_wrap =
    loop2-delay_me script (inputs_at 0xffff_ffff) (inputs_at 100) (task 0 3)
      (with_tasks (task 0 3 ∷ [])) 500 101 refl (omega arith) (omega arith) refl

-- The task 7, which pauses the others, is at an ENDTASK; the script has no sensors.
abbrev unsensed : Build
unsensed = record script { compile_features = 0 }

abbrev ending : Exrail
ending = record (with_tasks (task 7 9 ∷ (task 0 3 ∷ []))) { pausing_task = some 7 }

pause-stuck_example :
    let is : List Inputs = inputs_at 6 ∷ inputs_at 7 ∷ [] in
    (n : Exrail) × (((run_opcode unsensed (inputs_at 5) (task 7 9) ending >>= passes unsensed is)
        ≡ some n)
      × ((n.ring ≡ turned_ring is (task 0 3 ∷ []))
          × ((n.calls ≡ (drive_loco 1 (task 7 9) ending).1.calls) × (n.pausing_task ≡ some 7))))
unfolding decode
pause-stuck_example =
    pause-stuck unsensed (inputs_at 5) (inputs_at 6 ∷ inputs_at 7 ∷ []) (task 7 9) (task 0 3 ∷ [])
      ending refl refl (((λ e. cc), tt), (tt, tt)) refl refl

-- ===== src/Exrail/Switch.antt =====
-- EXRAIL2.cpp: the `switch` of `loop2`, the effect of one instruction on a task.
use dccexpress_mini.Prelude.{
  ℕ, ◌+◌, ◌*◌, ◌/◌, ◌%◌, Bool, true, false, ◌&&◌, not, Option, none, some, [], ◌∷◌, bit_and, ltb,
  ◌==◌, ◌>>=◌, if◌then◌else◌, get_or, set, length,
}
use dccexpress_mini.Exrail.Opcode.{
  Opcode, section_flag, latch_flag, signal_red, signal_amber, signal_green, feature_stash,
  max_stack_depth,
}
use dccexpress_mini.Exrail.Opcode.Opcode.{
  op_throw, op_close, op_toggle_turnout, op_fwd, op_rev, op_speed, op_invert_direction, op_reserve,
  op_free, op_at, op_after, op_afteroverload, op_atgte, op_atlt, op_attimeout1, op_attimeout2,
  op_latch, op_unlatch, op_set, op_reset, op_blink, op_else, op_delay, op_delaymins, op_delayms,
  op_randwait, op_fon, op_foff, op_xfon, op_xfoff, op_ftoggle, op_xftoggle, op_xfwd, op_xrev,
  op_red, op_green, op_amber, op_drive, op_servo, op_signal, op_waitfor, op_follow, op_call,
  op_return, op_join, op_unjoin, op_read_loco1, op_read_loco2, op_pom, op_start, op_setloco,
  op_setfreq, op_sendloco, op_forget, op_pause, op_resume, op_poweroff, op_poweron, op_print,
  op_dccactivate, op_aspect, op_roster, op_killall, op_endtask, op_endexrail, op_set_track,
  op_set_power, op_onclocktime, op_rotate, op_waitfortt, op_lcc, op_lccx, op_acon, op_acof,
  op_route_active, op_route_inactive, op_route_hidden, op_route_disabled, op_stash, op_clear_stash,
  op_clear_all_stash, op_pickup_stash, op_neopixel, if_type_opcodes, op_ifred, op_ifamber,
  op_ifgreen, op_ifgte, op_iflt, op_iftimeout, op_if, op_ifnot, op_ifrandom, op_ifreserve,
  op_ifclosed, op_ifthrown, op_ifre, op_ifloco, op_ifttposition,
}
use dccexpress_mini.Exrail.State.{
  Task, Build, Inputs, Exrail, call, is_negative, to_long, negate, shift_right, int_less,
  has_feature, xor,
}
use dccexpress_mini.Exrail.State.BlinkState.{not_blink_task, blink_low, at_timeout}
use dccexpress_mini.Exrail.State.Call.{
  set_throttle, forget_loco, set_fn, change_fn, write_cv_byte_main, set_dc_freq, get_loco_id,
  set_accessory, set_extended_accessory, set_closed, set_position, write_analogue,
  write_analogue_range, set_power, set_main_power, set_prog_power, set_track_power, set_track_mode,
  set_join, send_lcc, send_merg, print_message,
}
use dccexpress_mini.Exrail.Lookup.{find}
use dccexpress_mini.Exrail.Program.{get_operand}
use dccexpress_mini.Exrail.Tasks.{
  set_flag, get_flag, start_task, drive_loco, cut, kill, kill_all, delay_me, kill_blink_on_vpin,
  read_sensor,
}
use dccexpress_mini.Exrail.Signals.{do_signal, is_signal, signal_aspect_event}
use dccexpress_mini.Exrail.Actions.{
  elapsed, loco_id_waiting, track_mode_dc, write_vpins, resume_all, analog_speed, random_limit,
  manage_route_state, clear_stashes, with_stash, pick_up, send_to_lcc,
}

-- How the `switch` is left: by a break, by a break with `skipIf` set, by a return, or by a return
-- from a task that was deleted.
pub data Turn : Type 0 where
  advance : Task → Exrail → Turn
  skip_if : Task → Exrail → Turn
  stay : Task → Exrail → Turn
  gone : Exrail → Turn

abbrev next : Task → Exrail → Option Turn
next t m = some (advance t m)

unfoldable pub after : Task → Option Exrail → Option Turn
after t none = none
after t (some m) = some (advance t m)

unfoldable pub driven : Task × Exrail → Option Turn
driven p = some (advance p.0 p.1)

unfoldable pub do_if : Bool → Task → Exrail → Option Turn
do_if c t m = if c then some (advance t m) else some (skip_if t m)

-- A wait: where it is not over, the instruction is tried again after a delay.
unfoldable pub wait_until : Bool → ℕ → Inputs → Task → Exrail → Option Turn
unfolding delay_me
wait_until c delay i t m = if c then some (advance t m) else some (stay (delay_me delay i t) m)

abbrev pub unblinking : Task → Task
unblinking t = record t { blink_state = not_blink_task }

abbrev with_loco : ℕ → Task → Task
with_loco cab t = record t { loco = cab; speedo = 0; forward = true; invert = false }

-- `progCounter=` a result of `find`, which kills the task where it is negative.
unfoldable pub jump : ℕ → Task → Exrail → Option Turn
unfolding kill
jump pc t m =
    if is_negative pc
    then some (gone (kill t m))
    else some (stay (record t { prog_counter = pc }) m)

-- The `switch` of `loop2` for a task, with x the operand.
unfoldable pub switch : Build → Inputs → Task → Exrail → ℕ → Opcode → Option Turn
unfolding get_operand after driven do_if wait_until jump
switch b i t m x op_throw = next t (call (set_closed x false) m)
switch b i t m x op_close = next t (call (set_closed x true) m)
switch b i t m x op_toggle_turnout = next t (call (set_closed x (not (i.is_closed x))) m)
switch b i t m x op_rotate = next t (
    call (set_position x (get_operand b t.prog_counter 1) (get_operand b t.prog_counter 2 % 256)) m)
switch b i t m x op_rev = driven (drive_loco x (record t { forward = false }) m)
switch b i t m x op_fwd = driven (drive_loco x (record t { forward = true }) m)
switch b i t m x op_speed =
    driven (drive_loco x (record t { forward = xor (i.throttle_direction t.loco) t.invert }) m)
switch b i t m x op_forget =
    if t.loco == 0 then next t m else next (record t { loco = 0 }) (call (forget_loco t.loco) m)
switch b i t m x op_invert_direction =
    driven (drive_loco t.speedo (record t { invert = not t.invert }) m)
switch b i t m x op_reserve =
    if get_flag x section_flag m
    then (let p = drive_loco 0 t m in some (stay (delay_me 500 i p.0) p.1))
    else next t (set_flag x section_flag 0 m)
switch b i t m x op_free = next t (set_flag x 0 section_flag m)
switch b i t m x op_at = wait_until (read_sensor x i m) 50 i (unblinking t) m
switch b i t m x op_atgte =
    wait_until (not (int_less b (i.read_analogue x) (get_operand b t.prog_counter 1))) 50 i
      (unblinking t) m
switch b i t m x op_atlt =
    wait_until (int_less b (i.read_analogue x) (get_operand b t.prog_counter 1)) 50 i (unblinking t)
      m
switch b i t m x op_attimeout1 =
    next (record t { timer = i.millis; blink_state = not_blink_task }) m
switch b i t m x op_attimeout2 =
    if read_sensor x i m
    then next t m
    else (if ltb (100 * get_operand b t.prog_counter 1 % b.word) (elapsed i.millis t.timer)
        then next (record t { blink_state = at_timeout }) m
        else some (stay (delay_me 50 i t) m))
switch b i t m x op_iftimeout = do_if (elim (t.blink_state) [ at_timeout ↦ true | _ ↦ false ]) t m
switch b i t m x op_after =
    if read_sensor x i m
    then some (stay (delay_me 50 i (record t { timer = i.millis })) m)
    else (if ltb (elapsed i.millis t.timer) (get_operand b t.prog_counter 1)
        then some (stay t m)
        else next t m)
switch b i t m x op_afteroverload =
    if i.is_power_on x
    then (if ltb (elapsed i.millis t.timer) 500 then some (stay t m) else next t m)
    else some (stay (delay_me 50 i (record t { timer = i.millis })) m)
switch b i t m x op_latch = next t (set_flag x latch_flag 0 m)
switch b i t m x op_unlatch = next t (set_flag x 0 latch_flag m)
switch b i t m x op_set = after t (write_vpins b (get_operand b t.prog_counter 1) x true m)
switch b i t m x op_reset = after t (write_vpins b (get_operand b t.prog_counter 1) x false m)
switch b i t m x op_blink = after t (do
  killed ← kill_blink_on_vpin b x 1 m
  some (start_task (λ u. record u { timer = x; blink_state = blink_low }) t.prog_counter killed))
switch b i t m x op_pause =
    next t (record (call (set_throttle 0 1 true) m) { pausing_task = some t.address })
switch b i t m x op_pom =
    if t.loco == 0
    then next t m
    else next t (call (write_cv_byte_main t.loco x (get_operand b t.prog_counter 1 % 256)) m)
switch b i t m x op_poweroff = next t (call (set_join false) (call (set_power false) m))
switch b i t m x op_set_power =
    if x == 0
    then next t (call (set_track_power false (get_operand b t.prog_counter 1 % 256)) m)
    else (if x == 1
        then next t (call (set_track_power true (get_operand b t.prog_counter 1 % 256)) m)
        else next t m)
switch b i t m x op_set_track =
    let mode = x / 256 in
    next t (
      call (set_track_mode (x % 16) mode (if bit_and mode track_mode_dc == 0 then 0 else t.loco)) m)
switch b i t m x op_setfreq = next t (call (set_dc_freq t.loco x) m)
switch b i t m x op_resume =
    let p = drive_loco t.speedo t (record m { pausing_task = none }) in
    next p.0 (resume_all (cut t.address [] m.ring) p.1)
switch b i t m x op_if = do_if (read_sensor x i m) t m
switch b i t m x op_else = do_if false t m
switch b i t m x op_ifgte =
    do_if (not (int_less b (i.read_analogue x) (get_operand b t.prog_counter 1))) t m
switch b i t m x op_iflt =
    do_if (int_less b (i.read_analogue x) (get_operand b t.prog_counter 1)) t m
switch b i t m x op_ifloco = do_if (t.loco == x) t m
switch b i t m x op_ifnot = do_if (not (read_sensor x i m)) t m
switch b i t m x op_ifre = do_if (i.read_analogue x == get_operand b t.prog_counter 1) t m
switch b i t m x op_ifrandom = do_if (ltb (i.micros % 256) (random_limit b x)) t m
switch b i t m x op_ifreserve =
    if get_flag x section_flag m
    then do_if false t m
    else do_if true t (set_flag x section_flag 0 m)
switch b i t m x op_ifred = do_if (is_signal b x signal_red m) t m
switch b i t m x op_ifamber = do_if (is_signal b x signal_amber m) t m
switch b i t m x op_ifgreen = do_if (is_signal b x signal_green m) t m
switch b i t m x op_ifthrown = do_if (not (i.is_closed x)) t m
switch b i t m x op_ifclosed = do_if (i.is_closed x) t m
switch b i t m x op_ifttposition =
    do_if (i.turntable_position x == get_operand b t.prog_counter 1) t m
switch b i t m x op_delayms = next (delay_me (to_long x) i t) m
switch b i t m x op_delay = next (delay_me (to_long x * 100 % 0x1_0000_0000) i t) m
switch b i t m x op_delaymins = next (delay_me (to_long x * 60_000 % 0x1_0000_0000) i t) m
switch b i t m x op_randwait =
    next (delay_me (if x == 0 then 0 else i.micros % to_long x * 100 % 0x1_0000_0000) i t) m
switch b i t m x op_red = after t (do_signal b x signal_red m)
switch b i t m x op_amber = after t (do_signal b x signal_amber m)
switch b i t m x op_green = after t (do_signal b x signal_green m)
switch b i t m x op_fon = if t.loco == 0 then next t m else next t (call (set_fn t.loco x true) m)
switch b i t m x op_foff = if t.loco == 0 then next t m else next t (call (set_fn t.loco x false) m)
switch b i t m x op_ftoggle = if t.loco == 0 then next t m else next t (call (change_fn t.loco x) m)
switch b i t m x op_drive =
    let speed = analog_speed b (i.read_analogue x) in
    if t.speedo == speed then next t m else driven (drive_loco speed t m)
switch b i t m x op_xfon = next t (call (set_fn x (get_operand b t.prog_counter 1) true) m)
switch b i t m x op_xfoff = next t (call (set_fn x (get_operand b t.prog_counter 1) false) m)
switch b i t m x op_xftoggle = next t (call (change_fn x (get_operand b t.prog_counter 1)) m)
switch b i t m x op_xfwd =
    next t (call (set_throttle x (get_operand b t.prog_counter 1 % 256) true) m)
switch b i t m x op_xrev =
    next t (call (set_throttle x (get_operand b t.prog_counter 1 % 256) false) m)
switch b i t m x op_dccactivate =
    next t (call (set_accessory (shift_right x 3) (shift_right x 1 % 4) (not (x % 2 == 0))) m)
switch b i t m x op_aspect = do
  shown ← signal_aspect_event b (shift_right x 5) (x % 32) m
  next t (
      if shown.0 then shown.1 else call (set_extended_accessory (shift_right x 5) (x % 32)) shown.1)
switch b i t m x op_follow = jump (find x m.lookups.route) t m
switch b i t m x op_call =
    if length t.call_stack == max_stack_depth
    then some (gone (kill t m))
    else jump (find x m.lookups.route)
        (record t { call_stack = (t.prog_counter + 3) ∷ t.call_stack }) m
switch b i t m x op_return = elim (t.call_stack) [
  | [] ↦ some (gone (kill t m))
  | pc ∷ pcs ↦ some (stay (record t { prog_counter = pc; call_stack = pcs }) m)
]
switch b i t m x op_endtask = some (gone (kill t m))
switch b i t m x op_endexrail = some (gone (kill t m))
switch b i t m x op_killall = some (gone (kill_all m.ring m))
switch b i t m x op_join =
    next t (call (set_prog_power true) (call (set_main_power true) (call (set_join true) m)))
switch b i t m x op_unjoin = next t (call (set_join false) m)
switch b i t m x op_read_loco1 =
    next t (call get_loco_id (record m { progtrack_loco_id = loco_id_waiting }))
switch b i t m x op_read_loco2 =
    if m.progtrack_loco_id == loco_id_waiting
    then some (stay (delay_me 100 i t) m)
    else next (with_loco m.progtrack_loco_id t) m
switch b i t m x op_poweron = next t (call (set_join false) (call (set_main_power true) m))
switch b i t m x op_start =
    let pc = find x m.lookups.route in
    if is_negative pc then next t m else next t (start_task (λ u. u) pc m)
switch b i t m x op_sendloco =
    let pc = find (get_operand b t.prog_counter 1) m.lookups.route in
    if is_negative pc then next t m else next t (start_task (λ u. record u { loco = x }) pc m)
switch b i t m x op_setloco = next (with_loco x t) m
switch b i t m x op_lcc = next t (send_to_lcc b (send_lcc (x ∷ [])) m)
switch b i t m x op_acon =
    next t (send_to_lcc b (send_merg true x (get_operand b t.prog_counter 1)) m)
switch b i t m x op_acof =
    next t (send_to_lcc b (send_merg false x (get_operand b t.prog_counter 1)) m)
switch b i t m x op_lccx = next t (
    send_to_lcc b
      (send_lcc (
        get_operand b t.prog_counter 1
        ∷ get_operand b t.prog_counter 2
        ∷ get_operand b t.prog_counter 3
        ∷ x
        ∷ []))
      m)
switch b i t m x op_servo = next t (
    call
      (write_analogue x (get_operand b t.prog_counter 1) (get_operand b t.prog_counter 2 % 256)
        (get_operand b t.prog_counter 3))
      m)
switch b i t m x op_waitfor = wait_until (not (i.is_busy x)) 100 i t m
switch b i t m x op_neopixel =
    let positive = not (is_negative x) && not (x == 0) in
    let vpin = if positive then x else negate x in
    let count = get_operand b t.prog_counter 3 in
    after t (do
      killed ← kill_blink_on_vpin b vpin count m
      some (
          call
            (write_analogue_range vpin (get_operand b t.prog_counter 1) positive
              (get_operand b t.prog_counter 2) count)
            killed))
switch b i t m x op_waitfortt = wait_until (not (i.tt_moving x)) 100 i t m
switch b i t m x op_print = next t (call (print_message x) m)
switch b i t m x op_route_hidden = next t (manage_route_state b x 2 m)
switch b i t m x op_route_inactive = next t (manage_route_state b x 0 m)
switch b i t m x op_route_active = next t (manage_route_state b x 1 m)
switch b i t m x op_route_disabled = next t (manage_route_state b x 4 m)
switch b i t m x op_stash =
    next t (with_stash b (set m.stash x (if t.invert then negate t.loco else t.loco)) m)
switch b i t m x op_clear_stash = next t (with_stash b (set m.stash x 0) m)
switch b i t m x op_clear_all_stash =
    next t (with_stash b (clear_stashes (m.max_stash_id + 1) x m.stash) m)
switch b i t m x op_pickup_stash =
    next (if has_feature b feature_stash then pick_up (get_or m.stash x 0) t else t) m
switch b i t m x op_signal = some (gone (kill t m))
switch b i t m x op_roster = some (gone (kill t m))
switch b i t m x op_onclocktime = some (gone (kill t m))
switch b i t m x if_type_opcodes = some (gone (kill t m))
switch b i t m x _ = next t m

-- ===== src/Exrail/Depth.antt =====
-- EXRAIL2.cpp: what no instruction changes, for the whole `switch` of `loop2`, and the depth of the
-- stack of calls.
use dccexpress_mini.Prelude.{
  ℕ, ◌*◌, ◌%◌, ◌≡◌, refl, true, false, ◌&&◌, not, none, [], ltb, ◌==◌, if◌then◌else◌, if_both,
  get_or,
}
use dccexpress_mini.Exrail.Opcode.{
  Opcode, section_flag, latch_flag, signal_red, signal_amber, signal_green, feature_lcc,
  feature_stash,
}
use dccexpress_mini.Exrail.Opcode.Opcode.{
  if_type_opcodes, op_acof, op_acon, op_after, op_afteroverload, op_amber, op_aspect, op_at,
  op_atgte, op_atlt, op_attimeout1, op_attimeout2, op_blink, op_call, op_clear_all_stash,
  op_clear_stash, op_close, op_dccactivate, op_delay, op_delaymins, op_delayms, op_drive, op_else,
  op_endexrail, op_endtask, op_foff, op_follow, op_fon, op_forget, op_free, op_ftoggle, op_fwd,
  op_green, op_if, op_ifamber, op_ifclosed, op_ifgreen, op_ifgte, op_ifloco, op_iflt, op_ifnot,
  op_ifrandom, op_ifre, op_ifred, op_ifreserve, op_ifthrown, op_iftimeout, op_ifttposition,
  op_invert_direction, op_join, op_killall, op_latch, op_lcc, op_lccx, op_neopixel, op_onclocktime,
  op_pause, op_pickup_stash, op_pom, op_poweroff, op_poweron, op_print, op_randwait, op_read_loco1,
  op_read_loco2, op_red, op_reserve, op_reset, op_resume, op_return, op_rev, op_roster, op_rotate,
  op_route_active, op_route_disabled, op_route_hidden, op_route_inactive, op_sendloco, op_servo,
  op_set, op_set_power, op_set_track, op_setfreq, op_setloco, op_signal, op_speed, op_start,
  op_stash, op_throw, op_toggle_turnout, op_unjoin, op_unlatch, op_waitfor, op_waitfortt, op_xfoff,
  op_xfon, op_xftoggle, op_xfwd, op_xrev,
}
use dccexpress_mini.Exrail.State.{
  Task, Build, Inputs, Exrail, has_feature, is_negative, negate, shift_right,
}
use dccexpress_mini.Exrail.State.BlinkState.{blink_low}
use dccexpress_mini.Exrail.Lookup.{find}
use dccexpress_mini.Exrail.Program.{get_operand}
use dccexpress_mini.Exrail.Tasks.{
  set_flag, get_flag, cut, delay_me, kill_blink_on_vpin, read_sensor,
}
use dccexpress_mini.Exrail.Actions.{elapsed, loco_id_waiting, analog_speed}
use dccexpress_mini.Exrail.Switch.{switch, unblinking}
use dccexpress_mini.Exrail.Kept.{
  IsMild, IsKept, some-Kept, bind-Kept, kill_blink-kept, do_signal-kept, signal_aspect_event-kept,
}
use dccexpress_mini.Exrail.Turned.{
  IsTask, Turned, next_kept, stay_kept, gone_kept, called, do_if-kept, wait_until-kept,
  write_vpins-kept, after-kept, drive_loco-kept, driven-kept, resume_all-kept, jump-kept,
  return-kept, call-kept, manage_route_state-kept, aspect-kept,
}

module _ (P : Exrail → Type 0) (k : IsKept P) where
  open k use {
    kept_call, kept_pausing, kept_loco_id, kept_states, kept_stash, kept_flag, kept_start,
    kept_kill, kept_kill_all,
  }

  -- No instruction breaks the predicate, and the stack of the task stays within its bound.
  pub switch-kept :
      (b : Build) (i : Inputs) (t : Task) (m : Exrail) (x : ℕ) (op : Opcode)
      → P m
      → IsTask t t
      → (op ≡ op_free → P (set_flag x 0 section_flag m))
      → Turned P t (switch b i t m x op)
  unfolding switch delay_me IsTask IsMild
  switch-kept b i t m x op_throw p q f = called P k t _ m q p
  switch-kept b i t m x op_close p q f = called P k t _ m q p
  switch-kept b i t m x op_toggle_turnout p q f = called P k t _ m q p
  switch-kept b i t m x op_rotate p q f = called P k t _ m q p
  switch-kept b i t m x op_setfreq p q f = called P k t _ m q p
  switch-kept b i t m x op_xfon p q f = called P k t _ m q p
  switch-kept b i t m x op_xfoff p q f = called P k t _ m q p
  switch-kept b i t m x op_xftoggle p q f = called P k t _ m q p
  switch-kept b i t m x op_xfwd p q f = called P k t _ m q p
  switch-kept b i t m x op_xrev p q f = called P k t _ m q p
  switch-kept b i t m x op_dccactivate p q f = called P k t _ m q p
  switch-kept b i t m x op_set_track p q f = called P k t _ m q p
  switch-kept b i t m x op_servo p q f = called P k t _ m q p
  switch-kept b i t m x op_print p q f = called P k t _ m q p
  switch-kept b i t m x op_unjoin p q f = called P k t _ m q p
  switch-kept b i t m x op_rev p q f = driven-kept P k x t (record t { forward = false }) m q p
  switch-kept b i t m x op_fwd p q f = driven-kept P k x t (record t { forward = true }) m q p
  switch-kept b i t m x op_speed p q f = driven-kept P k x t _ m q p
  switch-kept b i t m x op_invert_direction p q f = driven-kept P k t.speedo t _ m q p
  switch-kept b i t m x op_forget p q f =
      if_both (Turned P t) (t.loco == 0) (next_kept P k t t m q p)
        (next_kept P k t _ _ q (kept_call _ m p))
  switch-kept b i t m x op_reserve p q f =
      let d = drive_loco-kept P k 0 t t m q p in
      if_both (Turned P t) (get_flag x section_flag m) (stay_kept P k t _ _ d.0 d.1)
        (next_kept P k t t _ q (kept_flag x section_flag 0 m refl p))
  switch-kept b i t m x op_free p q f = next_kept P k t t _ q (f refl)
  switch-kept b i t m x op_at p q f = wait_until-kept P k _ 50 i t (unblinking t) m q p
  switch-kept b i t m x op_atgte p q f = wait_until-kept P k _ 50 i t (unblinking t) m q p
  switch-kept b i t m x op_atlt p q f = wait_until-kept P k _ 50 i t (unblinking t) m q p
  switch-kept b i t m x op_waitfor p q f = wait_until-kept P k _ 100 i t t m q p
  switch-kept b i t m x op_waitfortt p q f = wait_until-kept P k _ 100 i t t m q p
  switch-kept b i t m x op_iftimeout p q f = do_if-kept P k _ t m q p
  switch-kept b i t m x op_if p q f = do_if-kept P k _ t m q p
  switch-kept b i t m x op_ifgte p q f = do_if-kept P k _ t m q p
  switch-kept b i t m x op_iflt p q f = do_if-kept P k _ t m q p
  switch-kept b i t m x op_ifloco p q f = do_if-kept P k _ t m q p
  switch-kept b i t m x op_ifnot p q f = do_if-kept P k _ t m q p
  switch-kept b i t m x op_ifre p q f = do_if-kept P k _ t m q p
  switch-kept b i t m x op_ifrandom p q f = do_if-kept P k _ t m q p
  switch-kept b i t m x op_ifred p q f = do_if-kept P k _ t m q p
  switch-kept b i t m x op_ifamber p q f = do_if-kept P k _ t m q p
  switch-kept b i t m x op_ifgreen p q f = do_if-kept P k _ t m q p
  switch-kept b i t m x op_ifthrown p q f = do_if-kept P k _ t m q p
  switch-kept b i t m x op_ifclosed p q f = do_if-kept P k _ t m q p
  switch-kept b i t m x op_ifttposition p q f = do_if-kept P k _ t m q p
  switch-kept b i t m x op_ifreserve p q f =
      if_both (Turned P t) (get_flag x section_flag m) (do_if-kept P k false t m q p)
        (do_if-kept P k true t _ q (kept_flag x section_flag 0 m refl p))
  switch-kept b i t m x op_else p q f = do_if-kept P k false t m q p
  switch-kept b i t m x op_attimeout1 p q f = next_kept P k t _ m q p
  switch-kept b i t m x op_attimeout2 p q f =
      if_both (Turned P t) (read_sensor x i m) (next_kept P k t t m q p) (
        if_both (Turned P t)
          (ltb (100 * get_operand b t.prog_counter 1 % b.word) (elapsed i.millis t.timer))
          (next_kept P k t _ m q p) (stay_kept P k t _ m q p))
  switch-kept b i t m x op_after p q f =
      if_both (Turned P t) (read_sensor x i m) (stay_kept P k t _ m q p) (
        if_both (Turned P t) (ltb (elapsed i.millis t.timer) (get_operand b t.prog_counter 1))
          (stay_kept P k t _ m q p) (next_kept P k t t m q p))
  switch-kept b i t m x op_afteroverload p q f =
      if_both (Turned P t) (i.is_power_on x)
        (if_both (Turned P t) (ltb (elapsed i.millis t.timer) 500) (stay_kept P k t _ m q p)
          (next_kept P k t t m q p))
        (stay_kept P k t _ m q p)
  switch-kept b i t m x op_latch p q f = next_kept P k t t _ q (kept_flag x latch_flag 0 m refl p)
  switch-kept b i t m x op_unlatch p q f = next_kept P k t t _ q (kept_flag x 0 latch_flag m refl p)
  switch-kept b i t m x op_set p q f =
      after-kept P k t _ q (write_vpins-kept P k b (get_operand b t.prog_counter 1) x true m p)
  switch-kept b i t m x op_reset p q f =
      after-kept P k t _ q (write_vpins-kept P k b (get_operand b t.prog_counter 1) x false m p)
  switch-kept b i t m x op_blink p q f = after-kept P k t _ q (
      bind-Kept P P (kill_blink_on_vpin b x 1 m) _ (kill_blink-kept P k b x 1 m p) (λ m' p'.
        some-Kept P (
          kept_start (λ u. record u { timer = x; blink_state = blink_low }) t.prog_counter m'
            (λ u. (refl, refl)) p')))
  switch-kept b i t m x op_pause p q f = next_kept P k t t _ q (kept_pausing _ _ (kept_call _ m p))
  switch-kept b i t m x op_pom p q f =
      if_both (Turned P t) (t.loco == 0) (next_kept P k t t m q p) (called P k t _ m q p)
  switch-kept b i t m x op_fon p q f =
      if_both (Turned P t) (t.loco == 0) (next_kept P k t t m q p) (called P k t _ m q p)
  switch-kept b i t m x op_foff p q f =
      if_both (Turned P t) (t.loco == 0) (next_kept P k t t m q p) (called P k t _ m q p)
  switch-kept b i t m x op_ftoggle p q f =
      if_both (Turned P t) (t.loco == 0) (next_kept P k t t m q p) (called P k t _ m q p)
  switch-kept b i t m x op_poweroff p q f = next_kept P k t t _ q (kept_call _ _ (kept_call _ m p))
  switch-kept b i t m x op_poweron p q f = next_kept P k t t _ q (kept_call _ _ (kept_call _ m p))
  switch-kept b i t m x op_join p q f =
      next_kept P k t t _ q (kept_call _ _ (kept_call _ _ (kept_call _ m p)))
  switch-kept b i t m x op_set_power p q f =
      if_both (Turned P t) (x == 0) (called P k t _ m q p)
        (if_both (Turned P t) (x == 1) (called P k t _ m q p) (next_kept P k t t m q p))
  switch-kept b i t m x op_resume p q f =
      let d = drive_loco-kept P k t.speedo t t _ q (kept_pausing none m p) in
      next_kept P k t _ _ d.0 (resume_all-kept P k (cut t.address [] m.ring) _ d.1)
  switch-kept b i t m x op_red p q f = after-kept P k t _ q (do_signal-kept P k b x signal_red m p)
  switch-kept b i t m x op_amber p q f =
      after-kept P k t _ q (do_signal-kept P k b x signal_amber m p)
  switch-kept b i t m x op_green p q f =
      after-kept P k t _ q (do_signal-kept P k b x signal_green m p)
  switch-kept b i t m x op_delayms p q f = next_kept P k t _ m q p
  switch-kept b i t m x op_delay p q f = next_kept P k t _ m q p
  switch-kept b i t m x op_delaymins p q f = next_kept P k t _ m q p
  switch-kept b i t m x op_randwait p q f = next_kept P k t _ m q p
  switch-kept b i t m x op_setloco p q f = next_kept P k t _ m q p
  switch-kept b i t m x op_drive p q f =
      if_both (Turned P t) (t.speedo == analog_speed b (i.read_analogue x))
        (next_kept P k t t m q p) (driven-kept P k _ t t m q p)
  switch-kept b i t m x op_aspect p q f =
      aspect-kept P k t (shift_right x 5) (x % 32) _ q
        (signal_aspect_event-kept P k b (shift_right x 5) (x % 32) m p)
  switch-kept b i t m x op_follow p q f = jump-kept P k (find x m.lookups.route) t t m q p
  switch-kept b i t m x op_call p q f = call-kept P k t m (find x m.lookups.route) q p
  switch-kept b i t m x op_return p q f = return-kept P k t m t.call_stack q.1 p
  switch-kept b i t m x op_endtask p q f = gone_kept P k t _ (kept_kill t m p)
  switch-kept b i t m x op_endexrail p q f = gone_kept P k t _ (kept_kill t m p)
  switch-kept b i t m x op_signal p q f = gone_kept P k t _ (kept_kill t m p)
  switch-kept b i t m x op_roster p q f = gone_kept P k t _ (kept_kill t m p)
  switch-kept b i t m x op_onclocktime p q f = gone_kept P k t _ (kept_kill t m p)
  switch-kept b i t m x if_type_opcodes p q f = gone_kept P k t _ (kept_kill t m p)
  switch-kept b i t m x op_killall p q f = gone_kept P k t _ (kept_kill_all m p)
  switch-kept b i t m x op_read_loco1 p q f =
      next_kept P k t t _ q (kept_call _ _ (kept_loco_id _ m p))
  switch-kept b i t m x op_read_loco2 p q f =
      if_both (Turned P t) (m.progtrack_loco_id == loco_id_waiting) (stay_kept P k t _ m q p)
        (next_kept P k t _ m q p)
  switch-kept b i t m x op_start p q f =
      if_both (Turned P t) (is_negative (find x m.lookups.route)) (next_kept P k t t m q p) (
        next_kept P k t t _ q
          (kept_start (λ u. u) (find x m.lookups.route) m (λ u. (refl, refl)) p))
  switch-kept b i t m x op_sendloco p q f =
      if_both (Turned P t) (is_negative (find (get_operand b t.prog_counter 1) m.lookups.route))
        (next_kept P k t t m q p)
        (next_kept P k t t _ q (
          kept_start (λ u. record u { loco = x })
            (find (get_operand b t.prog_counter 1) m.lookups.route) m (λ u. (refl, refl)) p))
  switch-kept b i t m x op_lcc p q f =
      next_kept P k t t _ q
        (if_both P (has_feature b feature_lcc && m.lcc_serial) (kept_call _ m p) p)
  switch-kept b i t m x op_acon p q f =
      next_kept P k t t _ q
        (if_both P (has_feature b feature_lcc && m.lcc_serial) (kept_call _ m p) p)
  switch-kept b i t m x op_acof p q f =
      next_kept P k t t _ q
        (if_both P (has_feature b feature_lcc && m.lcc_serial) (kept_call _ m p) p)
  switch-kept b i t m x op_lccx p q f =
      next_kept P k t t _ q
        (if_both P (has_feature b feature_lcc && m.lcc_serial) (kept_call _ m p) p)
  switch-kept b i t m x op_neopixel p q f =
      let vpin = if not (is_negative x) && not (x == 0) then x else negate x in
      let count = get_operand b t.prog_counter 3 in
      after-kept P k t _ q (
        bind-Kept P P (kill_blink_on_vpin b vpin count m) _ (kill_blink-kept P k b vpin count m p)
          (λ m' p'. some-Kept P (kept_call _ m' p')))
  switch-kept b i t m x op_route_hidden p q f =
      next_kept P k t t _ q (manage_route_state-kept P k b x 2 m p)
  switch-kept b i t m x op_route_inactive p q f =
      next_kept P k t t _ q (manage_route_state-kept P k b x 0 m p)
  switch-kept b i t m x op_route_active p q f =
      next_kept P k t t _ q (manage_route_state-kept P k b x 1 m p)
  switch-kept b i t m x op_route_disabled p q f =
      next_kept P k t t _ q (manage_route_state-kept P k b x 4 m p)
  switch-kept b i t m x op_stash p q f =
      next_kept P k t t _ q (if_both P (has_feature b feature_stash) (kept_stash _ m p) p)
  switch-kept b i t m x op_clear_stash p q f =
      next_kept P k t t _ q (if_both P (has_feature b feature_stash) (kept_stash _ m p) p)
  switch-kept b i t m x op_clear_all_stash p q f =
      next_kept P k t t _ q (if_both P (has_feature b feature_stash) (kept_stash _ m p) p)
  switch-kept b i t m x op_pickup_stash p q f =
      next_kept P k t _ m
        (if_both (IsTask t) (has_feature b feature_stash)
          (if_both (IsTask t) (is_negative (get_or m.stash x 0)) q q) q)
        p
  switch-kept b i t m x _ p q f = next_kept P k t t m q p

-- ===== src/Motor.antt =====
-- `setPower` and `checkPowerOverload` (MotorDriver.cpp and MotorDriver.h, CommandStation-EX): the
-- power of one track, and what the firmware does about short circuits.
-- An `int` and an `unsigned long` are their 32-bit patterns, and times are microseconds.
pub mod Transitions
pub mod Sound
pub mod Short
mod Tests
use dccexpress_mini.Prelude.{
  ℕ, ◌+◌, ◌-◌, ◌*◌, ◌%◌, Bool, true, false, ◌&&◌, ◌||◌, not, List, [], ◌∷◌, ltb, leb, if◌then◌else◌,
}

-- `POWERMODE`
pub data PowerMode : Type 0 where
  off on overload alert : PowerMode

abbrev pub power_sample_overload_wait : ℕ
power_sample_overload_wait = 40_000

abbrev pub power_sample_all_good : ℕ
power_sample_all_good = 5_000_000

abbrev pub power_sample_alert_good : ℕ
power_sample_alert_good = 20_000

abbrev pub power_sample_ignore_fault_low : ℕ
power_sample_ignore_fault_low = 100_000

abbrev pub power_sample_ignore_fault_high : ℕ
power_sample_ignore_fault_high = 5_000

abbrev pub power_sample_ignore_current : ℕ
power_sample_ignore_current = 100_000

abbrev pub power_sample_retry_max : ℕ
power_sample_retry_max = 10_000_000

-- What the driver does to the hardware and to other parts.
pub data Effect : Type 0 where
  write_power_pin : Bool → Effect
  read_sense_offset clear_resets : Effect
  throttle_inrush : Bool → Effect
  invert_output : Effect
  power_event : Effect

-- What is fixed for a track while it runs: whether it has a pin to measure current, whether it is
-- the programming track, whether it shares its fault pin, and whether its mode says that its output
-- is inverted when an alert begins.
pub record Config : Type 0 where
  pub has_current_pin : Bool
  pub is_prog_track : Bool
  pub common_fault_pin : Bool
  pub auto_invert : Bool
  pub trip_value : ℕ

-- `lastPowerChange`
pub record Changes : Type 0 where
  pub at_off : ℕ
  pub at_on : ℕ
  pub at_overload : ℕ
  pub at_alert : ℕ

-- The members, with the effects so far, newest first, and the level of the power pin.
-- `globalOverloadStart` is static, one variable of all drivers: here it is what this driver finds in
-- it, and an overload of another driver changes it between two operations.
pub record MotorDriver : Type 0 where
  pub power_mode : PowerMode
  pub last_power_mode : PowerMode
  pub last_power_change : Changes
  pub last_bad_sample : ℕ
  pub global_overload_start : ℕ
  pub overload_wait : ℕ
  pub invert_phase : Bool
  pub powered : Bool
  pub effects : List Effect

-- What one run reads: `getCurrentRaw` in `checkFault` and in `checkCurrent`, and `micros` where the
-- state is looked at, in `microsSinceLastPowerChange`, after the checks, and in `setPower`.
pub record Reading : Type 0 where
  pub fault_raw : ℕ
  pub current_raw : ℕ
  pub now : ℕ
  pub since : ℕ
  pub after : ℕ
  pub change : ℕ

abbrev pub effect : Effect → MotorDriver → MotorDriver
effect e d = record d { effects = e ∷ d.effects }

abbrev pub minus : ℕ → ℕ → ℕ
minus a b = (a + 0x1_0000_0000 - b) % 0x1_0000_0000

abbrev pub changed_at : PowerMode → Changes → ℕ
changed_at off c = c.at_off
changed_at on c = c.at_on
changed_at overload c = c.at_overload
changed_at alert c = c.at_alert

abbrev pub set_changed_at : PowerMode → ℕ → Changes → Changes
set_changed_at off t c = record c { at_off = t }
set_changed_at on t c = record c { at_on = t }
set_changed_at overload t c = record c { at_overload = t }
set_changed_at alert t c = record c { at_alert = t }

abbrev pub is_same : PowerMode → PowerMode → Bool
is_same off off = true
is_same on on = true
is_same overload overload = true
is_same alert alert = true
is_same _ _ = false

abbrev pub is_on : PowerMode → Bool
is_on on = true
is_on alert = true
is_on _ = false

-- The power pin, with what goes with switching it on.
unfoldable pub switch_pin : Config → Bool → MotorDriver → MotorDriver
switch_pin c false d = effect (write_power_pin false) (record d { powered = false })
switch_pin c true d =
    let d1 : MotorDriver =
      if is_same d.power_mode off && c.has_current_pin then effect read_sense_offset d else d in
    let d2 : MotorDriver = effect (write_power_pin true) (record d1 { powered = true }) in
    if c.is_prog_track then effect clear_resets d2 else d2

unfoldable pub set_power : Config → ℕ → PowerMode → MotorDriver → MotorDriver
unfolding switch_pin
set_power c t mode d =
    let d1 : MotorDriver = record d {
      last_power_change = set_changed_at mode t d.last_power_change;
      global_overload_start = if is_same mode overload then t else d.global_overload_start;
    } in
    if is_same d.power_mode mode
    then d
    else record (switch_pin c (is_on mode) d1) { power_mode = mode }

-- `microsSinceLastPowerChange` at the time t: a change of long ago is moved on.
unfoldable pub micros_since : ℕ → PowerMode → MotorDriver → ℕ × MotorDriver
micros_since t mode d =
    let diff : ℕ = minus t (changed_at mode d.last_power_change) in
    (
      diff,
      (if ltb 0x1000_0000 diff
          then record d {
            last_power_change = set_changed_at mode (minus t 30_000_000) d.last_power_change;
          }
          else d),
    )

-- `checkFault` and `checkCurrent`; a negative current is the fault.
abbrev pub check_fault : Reading → Bool
check_fault r = leb 0x8000_0000 r.fault_raw

abbrev pub absolute : ℕ → ℕ
absolute i = if leb 0x8000_0000 i then 0x1_0000_0000 - i else i

abbrev pub check_current : Config → Reading → Bool
check_current c r = leb c.trip_value (absolute r.current_raw)

-- The branch of each mode.
unfoldable pub check_off : MotorDriver → MotorDriver
check_off d = record d { last_power_mode = off; overload_wait = power_sample_overload_wait }

unfoldable pub check_on : Config → Reading → MotorDriver → MotorDriver
unfolding set_power micros_since
check_on c r d =
    let d1 : MotorDriver = record d { last_power_mode = on } in
    let d2 : MotorDriver = set_power c r.change alert d1 in
    let (good_time, d3) = micros_since r.since on d1 in
    if check_fault r || check_current c r
    then if c.auto_invert
      then effect invert_output (record d2 { invert_phase = not d2.invert_phase })
      else d2
    else if ltb power_sample_all_good good_time
    then record d3 { overload_wait = power_sample_overload_wait }
    else d3

-- To overload, once the time to ignore the cause is over.
unfoldable pub trip : Config → Reading → ℕ → ℕ → MotorDriver → MotorDriver
unfolding set_power
trip c r elapsed timeout d =
    if ltb elapsed timeout
    then d
    else set_power c r.change overload (effect (throttle_inrush false) d)

-- The end of an alert, when neither a fault nor too much current is seen.
unfoldable pub recover : Config → Reading → MotorDriver → MotorDriver
unfolding set_power
recover c r d =
    let good_time : ℕ = minus r.after d.last_bad_sample in
    let calm : MotorDriver = effect (throttle_inrush false) d in
    if ltb power_sample_alert_good good_time
    then set_power c r.change on calm
    else if ltb 10_000 good_time
    then calm
    else d

unfoldable pub check_alert : Config → Reading → MotorDriver → MotorDriver
unfolding micros_since trip recover
check_alert c r d =
    let d1 : MotorDriver = record d {
      last_bad_sample = if is_same d.power_mode d.last_power_mode then d.last_bad_sample else r.now;
      last_power_mode = alert;
    } in
    let (elapsed, d2) = micros_since r.since alert d1 in
    let bad : MotorDriver = record d2 { last_bad_sample = r.now } in
    if check_fault r
    then trip c r elapsed
        (if check_current c r
          then power_sample_ignore_fault_high
          else power_sample_ignore_fault_low)
        (effect (throttle_inrush true) bad)
    else if check_current c r
    then trip c r elapsed power_sample_ignore_current bad
    else recover c r d2

-- Power is tried again once the wait is over; the next wait is twice as long, up to a limit.
unfoldable pub restore : Config → Reading → ℕ → MotorDriver → MotorDriver
unfolding set_power
restore c r waited d =
    let doubled : ℕ = d.overload_wait * 2 % 0x1_0000_0000 in
    let next_wait : ℕ =
      if ltb power_sample_retry_max doubled then power_sample_retry_max else doubled in
    if ltb d.overload_wait waited
    then set_power c r.change alert (effect power_event (record d { overload_wait = next_wait }))
    else d

-- With a common fault pin the wait runs from the last overload of any track.
unfoldable pub check_overload : Config → Reading → MotorDriver → MotorDriver
unfolding micros_since restore
check_overload c r d =
    let d1 : MotorDriver = record d { last_power_mode = overload } in
    let (elapsed, d2) = micros_since r.since overload d1 in
    if c.common_fault_pin
    then restore c r (minus r.since d1.global_overload_start) d1
    else restore c r elapsed d2

unfoldable pub check_mode : PowerMode → Config → Reading → MotorDriver → MotorDriver
unfolding check_off check_on check_alert check_overload
check_mode off c r d = check_off d
check_mode on c r d = check_on c r d
check_mode alert c r d = check_alert c r d
check_mode overload c r d = check_overload c r d

unfoldable pub check_power_overload : Config → Reading → MotorDriver → MotorDriver
unfolding check_mode
check_power_overload c r d = check_mode d.power_mode c r d

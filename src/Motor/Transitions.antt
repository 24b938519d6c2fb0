-- ===== src/Motor/Transitions.antt =====
-- Which changes of the power mode `checkPowerOverload` makes, against the diagram in the comment
-- above it.
use dccexpress_mini.Prelude.{
  if_both, ℕ, ◌≡◌, refl, sym, subst, true, false, Bool-cases, inl, inr, ◌*◌, ◌%◌, ltb,
  if◌then◌else◌,
}
use dccexpress_mini.Motor.{
  PowerMode, off, on, overload, alert, Config, Reading, MotorDriver, check_fault, check_current,
  is_same, set_power, effect, throttle_inrush, micros_since, trip, recover, check_off, check_on,
  check_alert, check_overload, restore, minus, power_event, power_sample_retry_max, check_mode,
  check_power_overload,
}

-- ON to ALERT, ALERT to OVERLOAD or back to ON, OVERLOAD to ALERT.
pub data Moves : PowerMode → PowerMode → Type 0 where
  stays : {m : PowerMode} → Moves m m
  alarm : Moves on alert
  cut : Moves alert overload
  calm : Moves alert on
  retry : Moves overload alert

is_same_sound : (m n : PowerMode) → is_same m n ≡ true → m ≡ n
is_same_sound off off h = refl
is_same_sound on on h = refl
is_same_sound overload overload h = refl
is_same_sound alert alert h = refl
is_same_sound off on h = cc
is_same_sound off overload h = cc
is_same_sound off alert h = cc
is_same_sound on off h = cc
is_same_sound on overload h = cc
is_same_sound on alert h = cc
is_same_sound overload off h = cc
is_same_sound overload on h = cc
is_same_sound overload alert h = cc
is_same_sound alert off h = cc
is_same_sound alert on h = cc
is_same_sound alert overload h = cc

pub set_power-mode :
    (c : Config) (t : ℕ) (mode : PowerMode) (d : MotorDriver)
    → (set_power c t mode d).power_mode ≡ mode
unfolding set_power
set_power-mode c t mode d = elim (Bool-cases (is_same d.power_mode mode)) [
  | inl e ↦ rw e (is_same_sound d.power_mode mode e)
  | inr e ↦ rw e refl
]

abbrev Leads : PowerMode → MotorDriver → Type 0
Leads m d = Moves m d.power_mode

set_power-Leads :
    {m : PowerMode} (c : Config) (t : ℕ) (mode : PowerMode) (d : MotorDriver)
    → Moves m mode
    → Leads m (set_power c t mode d)
set_power-Leads {m} c t mode d h = subst (Moves m) (sym (set_power-mode c t mode d)) h

micros_since-Leads :
    {m : PowerMode} (t : ℕ) (mode : PowerMode) (d : MotorDriver)
    → Leads m d
    → Leads m (micros_since t mode d).1
unfolding micros_since
micros_since-Leads {m} t mode d h = if_both (Leads m) _ h h

check_on-Leads :
    (c : Config) (r : Reading) (d : MotorDriver) → Leads on d → Leads on (check_on c r d)
unfolding check_on
check_on-Leads c r d h =
    let d1 : MotorDriver = record d { last_power_mode = on } in
    let d2 : MotorDriver = set_power c r.change alert d1 in
    let d3 : MotorDriver = (micros_since r.since on d1).1 in
    let raised : Leads on d2 = set_power-Leads c r.change alert d1 alarm in
    let kept : Leads on d3 = micros_since-Leads r.since on d1 h in
    if_both (Leads on) _ (if_both (Leads on) c.auto_invert raised raised)
      (if_both (Leads on) _ kept kept)

trip-Leads :
    (c : Config) (r : Reading) (elapsed timeout : ℕ) (d : MotorDriver)
    → Leads alert d
    → Leads alert (trip c r elapsed timeout d)
unfolding trip
trip-Leads c r elapsed timeout d h =
    if_both (Leads alert) _ h
      (set_power-Leads c r.change overload (effect (throttle_inrush false) d) cut)

recover-Leads :
    (c : Config) (r : Reading) (d : MotorDriver) → Leads alert d → Leads alert (recover c r d)
unfolding recover
recover-Leads c r d h =
    let calmed : MotorDriver = effect (throttle_inrush false) d in
    if_both (Leads alert) _ (set_power-Leads c r.change on calmed calm)
      (if_both (Leads alert) _ h h)

check_alert-Leads :
    (c : Config) (r : Reading) (d : MotorDriver) → Leads alert d → Leads alert (check_alert c r d)
unfolding check_alert
check_alert-Leads c r d h =
    let d1 : MotorDriver = record d {
      last_bad_sample = if is_same d.power_mode d.last_power_mode then d.last_bad_sample else r.now;
      last_power_mode = alert;
    } in
    let d2 : MotorDriver = (micros_since r.since alert d1).1 in
    let kept : Leads alert d2 = micros_since-Leads r.since alert d1 h in
    let bad : MotorDriver = record d2 { last_bad_sample = r.now } in
    if_both (Leads alert) (check_fault r)
      (trip-Leads c r _ _ (effect (throttle_inrush true) bad) kept)
      (if_both (Leads alert) (check_current c r) (trip-Leads c r _ _ bad kept)
        (recover-Leads c r d2 kept))

restore-Leads :
    (c : Config) (r : Reading) (waited : ℕ) (d : MotorDriver)
    → Leads overload d
    → Leads overload (restore c r waited d)
unfolding restore
restore-Leads c r waited d h =
    if_both (Leads overload) (ltb d.overload_wait waited)
      (set_power-Leads c r.change alert
        (effect power_event (record d { overload_wait = next_wait })) retry)
      h
  where
    next_wait : ℕ
    next_wait =
        let doubled : ℕ = d.overload_wait * 2 % 0x1_0000_0000 in
        if ltb power_sample_retry_max doubled then power_sample_retry_max else doubled

check_overload-Leads :
    (c : Config) (r : Reading) (d : MotorDriver)
    → Leads overload d
    → Leads overload (check_overload c r d)
unfolding check_overload
check_overload-Leads c r d h =
    let d1 : MotorDriver = record d { last_power_mode = overload } in
    let (elapsed, d2) = micros_since r.since overload d1 in
    if_both (Leads overload) c.common_fault_pin
      (restore-Leads c r (minus r.since d1.global_overload_start) d1 h)
      (restore-Leads c r elapsed d2 (micros_since-Leads r.since overload d1 h))

check_mode-Moves :
    (m : PowerMode) (c : Config) (r : Reading) (d : MotorDriver)
    → Leads m d
    → Moves m (check_mode m c r d).power_mode
unfolding check_mode check_off
check_mode-Moves off c r d h = h
check_mode-Moves on c r d h = check_on-Leads c r d h
check_mode-Moves alert c r d h = check_alert-Leads c r d h
check_mode-Moves overload c r d h = check_overload-Leads c r d h

-- From each mode `checkPowerOverload` leads only where the diagram in its comment does, or stays:
-- a track that is off stays off, and one that is on is never switched off without an alert.
pub check_power_overload-Moves :
    (c : Config) (r : Reading) (d : MotorDriver)
    → Moves d.power_mode (check_power_overload c r d).power_mode
unfolding check_power_overload
check_power_overload-Moves c r d = check_mode-Moves d.power_mode c r d stays

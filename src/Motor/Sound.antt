-- ===== src/Motor/Sound.antt =====
-- What holds of a track whatever happens to it: its power pin agrees with its mode, and the wait
-- after an overload keeps its bounds.
use dccexpress_mini.Prelude.{
  if_both, ℕ, ◌≡◌, ◌≤◌, refl, Bool, true, false, ◌*◌, ◌%◌, ltb, not, if◌then◌else◌, arith, List, [],
  ◌∷◌,
}
use dccexpress_mini.Motor.{
  PowerMode, off, on, overload, alert, Config, Reading, MotorDriver, Changes, Effect,
  set_changed_at, check_fault, check_current, is_same, is_on, switch_pin, set_power, effect,
  throttle_inrush, minus, power_event, power_sample_retry_max, power_sample_overload_wait,
  micros_since, trip, recover, restore, invert_output, check_off, check_on, check_alert,
  check_overload, check_mode, check_power_overload,
}

-- Power is on in the modes on and alert alone; the wait is at least 40 ms and at most 10 s.
pub record IsSound (d : MotorDriver) : Type 0 where
  pub pin : d.powered ≡ is_on d.power_mode
  pub least : power_sample_overload_wait ≤ d.overload_wait
  pub most : d.overload_wait ≤ power_sample_retry_max

-- What `IsSound` reads stays the same.
keep :
    {d : MotorDriver} (p : PowerMode) (b : ℕ) (g : ℕ) (k : Changes) (i : Bool) (es : List Effect)
    → IsSound d
    → IsSound (record d {
      last_power_mode = p;
      last_bad_sample = b;
      global_overload_start = g;
      last_power_change = k;
      invert_phase = i;
      effects = es;
    })
keep p b g k i es s = record { pin = s.pin; least = s.least; most = s.most }

switch_pin-lem :
    (c : Config) (b : Bool) (d : MotorDriver)
    → ((switch_pin c b d).powered ≡ b) × ((switch_pin c b d).overload_wait ≡ d.overload_wait)
unfolding switch_pin
switch_pin-lem c false d = (refl, refl)
switch_pin-lem c true d = (ground arith, ground arith)

set_power-IsSound :
    (c : Config) (t : ℕ) (mode : PowerMode) (d : MotorDriver)
    → IsSound d
    → IsSound (set_power c t mode d)
unfolding set_power
set_power-IsSound c t mode d s =
    let d1 : MotorDriver = record d {
      last_power_change = set_changed_at mode t d.last_power_change;
      global_overload_start = if is_same mode overload then t else d.global_overload_start;
    } in
    let (pin, wait) = switch_pin-lem c (is_on mode) d1 in
    if_both IsSound (is_same d.power_mode mode) s (record {
      pin = pin;
      least = omega (arith, s.least, wait);
      most = omega (arith, s.most, wait);
    })

micros_since-IsSound :
    (t : ℕ) (mode : PowerMode) (d : MotorDriver) → IsSound d → IsSound (micros_since t mode d).1
unfolding micros_since
micros_since-IsSound t mode d s =
    if_both IsSound _
      (keep d.last_power_mode d.last_bad_sample d.global_overload_start
        (set_changed_at mode (minus t 30_000_000) d.last_power_change) d.invert_phase d.effects s)
      s

with_wait :
    {d : MotorDriver} (w : ℕ) (es : List Effect)
    → IsSound d
    → power_sample_overload_wait ≤ w
    → w ≤ power_sample_retry_max
    → IsSound (record d { overload_wait = w; effects = es })
with_wait w es s h k = record { pin = s.pin; least = h; most = k }

-- Another last mode and another list of effects.
noted :
    (p : PowerMode) (es : List Effect) (d : MotorDriver)
    → IsSound d
    → IsSound (record d { last_power_mode = p; effects = es })
noted p es d s =
    keep p d.last_bad_sample d.global_overload_start d.last_power_change d.invert_phase es s

bad_sample :
    (b : ℕ) (p : PowerMode) (es : List Effect) (d : MotorDriver)
    → IsSound d
    → IsSound (record d { last_power_mode = p; last_bad_sample = b; effects = es })
bad_sample b p es d s = keep p b d.global_overload_start d.last_power_change d.invert_phase es s

check_on-IsSound :
    (c : Config) (r : Reading) (d : MotorDriver) → IsSound d → IsSound (check_on c r d)
unfolding check_on
check_on-IsSound c r d s =
    let d1 : MotorDriver = record d { last_power_mode = on } in
    let s1 : IsSound d1 = noted on d.effects d s in
    let d2 : MotorDriver = set_power c r.change alert d1 in
    let s2 : IsSound d2 = set_power-IsSound c r.change alert d1 s1 in
    let d3 : MotorDriver = (micros_since r.since on d1).1 in
    let s3 : IsSound d3 = micros_since-IsSound r.since on d1 s1 in
    if_both IsSound _
      (if_both IsSound c.auto_invert
        (keep d2.last_power_mode d2.last_bad_sample d2.global_overload_start d2.last_power_change
          (not d2.invert_phase) (invert_output ∷ d2.effects) s2)
        s2)
      (if_both IsSound _
        (with_wait power_sample_overload_wait d3.effects s3 (omega arith) (omega arith)) s3)

trip-IsSound :
    (c : Config) (r : Reading) (elapsed timeout : ℕ) (d : MotorDriver)
    → IsSound d
    → IsSound (trip c r elapsed timeout d)
unfolding trip
trip-IsSound c r elapsed timeout d s = if_both IsSound _ s (
    set_power-IsSound c r.change overload (effect (throttle_inrush false) d)
      (noted d.last_power_mode (throttle_inrush false ∷ d.effects) d s))

recover-IsSound : (c : Config) (r : Reading) (d : MotorDriver) → IsSound d → IsSound (recover c r d)
unfolding recover
recover-IsSound c r d s =
    let calmed : MotorDriver = effect (throttle_inrush false) d in
    let s1 : IsSound calmed = noted d.last_power_mode (throttle_inrush false ∷ d.effects) d s in
    if_both IsSound _ (set_power-IsSound c r.change on calmed s1) (if_both IsSound _ s1 s)

check_alert-IsSound :
    (c : Config) (r : Reading) (d : MotorDriver) → IsSound d → IsSound (check_alert c r d)
unfolding check_alert
check_alert-IsSound c r d s =
    let b : ℕ = if is_same d.power_mode d.last_power_mode then d.last_bad_sample else r.now in
    let d1 : MotorDriver = record d { last_bad_sample = b; last_power_mode = alert } in
    let d2 : MotorDriver = (micros_since r.since alert d1).1 in
    let s2 : IsSound d2 =
      micros_since-IsSound r.since alert d1 (bad_sample b alert d.effects d s) in
    let bad : MotorDriver = record d2 { last_bad_sample = r.now } in
    let s3 : IsSound bad = bad_sample r.now d2.last_power_mode d2.effects d2 s2 in
    if_both IsSound (check_fault r)
      (trip-IsSound c r _ _ (effect (throttle_inrush true) bad)
        (noted bad.last_power_mode (throttle_inrush true ∷ bad.effects) bad s3))
      (if_both IsSound (check_current c r) (trip-IsSound c r _ _ bad s3)
        (recover-IsSound c r d2 s2))

restore-IsSound :
    (c : Config) (r : Reading) (waited : ℕ) (d : MotorDriver)
    → IsSound d
    → IsSound (restore c r waited d)
unfolding restore
restore-IsSound c r waited d s =
    if_both IsSound (ltb d.overload_wait waited)
      (set_power-IsSound c r.change alert
        (effect power_event (record d { overload_wait = next_wait }))
        (with_wait next_wait (power_event ∷ d.effects) s (ground (arith, s.least, s.most))
          (ground (arith, s.least, s.most))))
      s
  where
    next_wait : ℕ
    next_wait =
        let doubled : ℕ = d.overload_wait * 2 % 0x1_0000_0000 in
        if ltb power_sample_retry_max doubled then power_sample_retry_max else doubled

check_overload-IsSound :
    (c : Config) (r : Reading) (d : MotorDriver) → IsSound d → IsSound (check_overload c r d)
unfolding check_overload
check_overload-IsSound c r d s =
    let d1 : MotorDriver = record d { last_power_mode = overload } in
    let s1 : IsSound d1 = noted overload d.effects d s in
    let (elapsed, d2) = micros_since r.since overload d1 in
    if_both IsSound c.common_fault_pin
      (restore-IsSound c r (minus r.since d1.global_overload_start) d1 s1)
      (restore-IsSound c r elapsed d2 (micros_since-IsSound r.since overload d1 s1))

check_mode-IsSound :
    (m : PowerMode) (c : Config) (r : Reading) (d : MotorDriver)
    → IsSound d
    → IsSound (check_mode m c r d)
unfolding check_mode check_off
check_mode-IsSound off c r d s = record { pin = s.pin; least = omega arith; most = omega arith }
check_mode-IsSound on c r d s = check_on-IsSound c r d s
check_mode-IsSound alert c r d s = check_alert-IsSound c r d s
check_mode-IsSound overload c r d s = check_overload-IsSound c r d s

-- The operations on a track, in any order, and an overload of another track at a time: the start of
-- the last overload is one variable of all tracks.
pub data Operation : Type 0 where
  power : ℕ → PowerMode → Operation
  check : Reading → Operation
  elsewhere : ℕ → Operation

pub operate : Config → List Operation → MotorDriver → MotorDriver
operate c [] d = d
operate c (power t mode ∷ ops) d = operate c ops (set_power c t mode d)
operate c (check r ∷ ops) d = operate c ops (check_power_overload c r d)
operate c (elsewhere t ∷ ops) d = operate c ops (record d { global_overload_start = t })

-- If the power pin of a track agrees with its mode, and the wait after an overload is from 40 ms to
-- 10 s, then this stays so, whatever sequence of operations the track goes through, with overloads of
-- other tracks in between.
pub operate-IsSound :
    (c : Config) (ops : List Operation) (d : MotorDriver) → IsSound d → IsSound (operate c ops d)
unfolding operate check_power_overload
operate-IsSound c [] d s = s
operate-IsSound c (power t mode ∷ ops) d s =
    operate-IsSound c ops (set_power c t mode d) (set_power-IsSound c t mode d s)
operate-IsSound c (check r ∷ ops) d s =
    operate-IsSound c ops (check_power_overload c r d) (check_mode-IsSound d.power_mode c r d s)
operate-IsSound c (elsewhere t ∷ ops) d s =
    operate-IsSound c ops (record d { global_overload_start = t })
      (record { pin = s.pin; least = s.least; most = s.most })

-- ===== src/Motor/Short.antt =====
-- A short circuit that lasts is cut off, and power is tried again ever more seldom.
use dccexpress_mini.Prelude.{ℕ, ◌≡◌, ◌≤◌, ◌<◌, sym, subst, true, false, arith, List, [], ◌∷◌, ◌++◌}
use dccexpress_mini.Motor.{
  PowerMode, on, overload, alert, Config, Reading, MotorDriver, check_fault, check_current,
  switch_pin, set_power, minus, power_sample_ignore_fault_high, micros_since, trip, check_on,
  check_alert, check_mode, check_power_overload,
}

-- The fault pin is active and the current too high.
pub record IsShort (c : Config) (r : Reading) : Type 0 where
  pub fault : check_fault r ≡ true
  pub current : check_current c r ≡ true

pub checks : Config → List Reading → MotorDriver → MotorDriver
checks c [] d = d
checks c (r ∷ rs) d = checks c rs (check_power_overload c r d)

-- Readings of a short circuit that began at t, all less than 5 ms after that.
abbrev pub AllEarly : Config → ℕ → List Reading → Type 0
AllEarly c t [] = Unit {0}
AllEarly c t (r ∷ rs) =
    IsShort c r × (minus r.since t < power_sample_ignore_fault_high) × AllEarly c t rs

-- A track in an alert that began at t.
record Alarmed (t : ℕ) (d : MotorDriver) : Type 0 where
  mode : d.power_mode ≡ alert
  began : d.last_power_change.at_alert ≡ t
  pin : d.powered ≡ true

in_mode : (d : MotorDriver) (m : PowerMode) → d.power_mode ≡ m → d ≡ record d { power_mode = m }
in_mode d m e = λ i. record d { power_mode = e i }

alarm-from_on :
    (c : Config) (r : Reading) (d : MotorDriver)
    → IsShort c r
    → Alarmed r.change (check_power_overload c r (record d { power_mode = on }))
unfolding check_power_overload check_mode check_on set_power switch_pin micros_since
alarm-from_on c r d short = record {
  mode = ground (arith, short.fault);
  began = ground (arith, short.fault);
  pin = ground (arith, short.fault);
}

early-Alarmed :
    (c : Config) (t : ℕ) (r : Reading) (d : MotorDriver)
    → IsShort c r
    → minus r.since t < power_sample_ignore_fault_high
    → d.last_power_change.at_alert ≡ t
    → d.powered ≡ true
    → Alarmed t (check_power_overload c r (record d { power_mode = alert }))
unfolding check_power_overload check_mode check_alert micros_since trip
early-Alarmed c t r d short early e p = record {
  mode = ground (arith, short.fault, short.current);
  began = ground (arith, short.fault, short.current);
  pin = ground (arith, short.fault, short.current);
}

late-cut :
    (c : Config) (t : ℕ) (r : Reading) (d : MotorDriver)
    → IsShort c r
    → power_sample_ignore_fault_high ≤ minus r.since t
    → d.last_power_change.at_alert ≡ t
    → let d' = check_power_overload c r (record d { power_mode = alert }) in
      (d'.power_mode ≡ overload) × (d'.powered ≡ false)
unfolding check_power_overload check_mode check_alert micros_since trip set_power switch_pin
late-cut c t r d short late e =
    (ground (arith, short.fault, short.current), ground (arith, short.fault, short.current))

-- A step from a state whose mode is known.
Alarmed-step :
    (c : Config) (t : ℕ) (r : Reading) (d : MotorDriver)
    → Alarmed t d
    → IsShort c r
    → minus r.since t < power_sample_ignore_fault_high
    → Alarmed t (check_power_overload c r d)
Alarmed-step c t r d a short early =
    subst (λ d'. Alarmed t (check_power_overload c r d')) (sym (in_mode d alert a.mode))
      (early-Alarmed c t r d short early a.began a.pin)

abbrev Cut : MotorDriver → Type 0
Cut d = (d.power_mode ≡ overload) × (d.powered ≡ false)

checks-cut :
    (c : Config) (t : ℕ) (rs : List Reading) (last : Reading) (d : MotorDriver)
    → Alarmed t d
    → AllEarly c t rs
    → IsShort c last
    → power_sample_ignore_fault_high ≤ minus last.since t
    → (Alarmed t (checks c rs d))
      × ((checks c (rs ++ (last ∷ [])) d).power_mode ≡ overload)
      × ((checks c (rs ++ (last ∷ [])) d).powered ≡ false)
unfolding checks
checks-cut c t [] last d a early short late =
    let (mode, pin) =
      subst (λ d'. Cut (check_power_overload c last d')) (sym (in_mode d alert a.mode))
        (late-cut c t last d short late a.began) in
    (a, mode, pin)
checks-cut c t (r ∷ rs) last d a (s, e, early) short late =
    checks-cut c t rs last (check_power_overload c r d) (Alarmed-step c t r d a s e) early short
      late

-- A short circuit on a track that is on, with the fault pin active and the current too high, raises
-- an alert. While it lasts, the alert goes on and the power pin stays on at every reading that is
-- less than 5 ms after that; the first reading at 5 ms or later, whenever it comes, cuts power off.
pub checks-short :
    (c : Config) (first last : Reading) (rs : List Reading) (d : MotorDriver)
    → d.power_mode ≡ on
    → IsShort c first
    → AllEarly c first.change rs
    → IsShort c last
    → power_sample_ignore_fault_high ≤ minus last.since first.change
    → ((checks c (first ∷ rs) d).power_mode ≡ alert)
      × ((checks c (first ∷ rs) d).powered ≡ true)
      × ((checks c (first ∷ rs ++ (last ∷ [])) d).power_mode ≡ overload)
      × ((checks c (first ∷ rs ++ (last ∷ [])) d).powered ≡ false)
unfolding checks
checks-short c first last rs d e short early short' late =
    let alarmed : Alarmed first.change (check_power_overload c first d) =
      subst (λ d'. Alarmed first.change (check_power_overload c first d')) (sym (in_mode d on e))
        (alarm-from_on c first d short) in
    let (a, mode, pin) =
      checks-cut c first.change rs last (check_power_overload c first d) alarmed early short'
        late in
    (a.mode, a.pin, mode, pin)

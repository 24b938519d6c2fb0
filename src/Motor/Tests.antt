-- ===== src/Motor/Tests.antt =====
-- A track through a short circuit of seven milliseconds.
use dccexpress_mini.Prelude.{ℕ, ◌≡◌, refl, true, false, List, [], ◌∷◌, ◌++◌, arith}
use dccexpress_mini.Motor.{
  off, on, overload, alert, Config, Reading, MotorDriver, check_power_overload,
}
use dccexpress_mini.Motor.Transitions.{Moves, check_power_overload-Moves}
use dccexpress_mini.Motor.Sound.{IsSound, power, check, elsewhere, operate, operate-IsSound}
use dccexpress_mini.Motor.Short.{IsShort, checks, checks-short}

abbrev config : Config
config = record {
  has_current_pin = true;
  is_prog_track = false;
  common_fault_pin = false;
  auto_invert = false;
  trip_value = 1000;
}

abbrev running : MotorDriver
running = record {
  power_mode = on;
  last_power_mode = on;
  last_power_change = record { at_off = 0; at_on = 0; at_overload = 0; at_alert = 0 };
  last_bad_sample = 0;
  global_overload_start = 0;
  overload_wait = 40_000;
  invert_phase = false;
  powered = true;
  effects = [];
}

-- A reading with the fault pin active and the current at 1200.
abbrev short_at : ℕ → Reading
short_at t = record {
  fault_raw = 0xffff_fb50;
  current_raw = 0xffff_fb50;
  now = t;
  since = t;
  after = t;
  change = t;
}

short_at-IsShort : (t : ℕ) → IsShort config (short_at t)
short_at-IsShort t = record { fault = refl; current = refl }

running-IsSound : IsSound running
running-IsSound = record { pin = refl; least = omega arith; most = omega arith }

check_power_overload-Moves_example :
    Moves on (check_power_overload config (short_at 1000) running).power_mode
check_power_overload-Moves_example = check_power_overload-Moves config (short_at 1000) running

operate-IsSound_example :
    IsSound (operate config (check (short_at 1000) ∷ elsewhere 1500 ∷ power 2000 off ∷ []) running)
operate-IsSound_example =
    operate-IsSound config (check (short_at 1000) ∷ elsewhere 1500 ∷ power 2000 off ∷ []) running
      running-IsSound

checks-short_example :
    let rs : List Reading = short_at 1000 ∷ short_at 3000 ∷ [] in
    ((checks config rs running).power_mode ≡ alert)
    × ((checks config rs running).powered ≡ true)
    × ((checks config (rs ++ (short_at 8000 ∷ [])) running).power_mode ≡ overload)
    × ((checks config (rs ++ (short_at 8000 ∷ [])) running).powered ≡ false)
checks-short_example =
    checks-short config (short_at 1000) (short_at 8000) (short_at 3000 ∷ []) running refl
      (short_at-IsShort 1000) (short_at-IsShort 3000, omega arith, tt) (short_at-IsShort 8000)
      (omega arith)

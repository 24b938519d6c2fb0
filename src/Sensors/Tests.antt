-- ===== src/Sensors/Tests.antt =====
-- The theorems on the sensors at concrete inputs.
use dccexpress_mini.Prelude.{
  ℕ, ◌≡◌, refl, Bool, true, false, [], ◌∷◌, ◌==◌, arith, ◌++◌, reverse, map,
}
use dccexpress_mini.Sensors.{
  Sensor, Sensors, new_sensor, check_all, create_multiple, create_from, broadcast_sensor,
  configure_input,
}
use dccexpress_mini.Sensors.Debounce.{poll, stable, poll-stable_lem}
use dccexpress_mini.Sensors.Invariant.{
  IsValid, make, discard, input_changed, check, operate, operate-IsValid,
}
use dccexpress_mini.Sensors.Progress.{finish, finish-swept, already_read, unread}
use dccexpress_mini.Sensors.Saved.{Eeprom, load, store, anew, load-store-reverse}
use dccexpress_mini.Sensors.Scan.{swept, report}
use dccexpress_mini.Prelude.Keyed.{IsUnique}

abbrev no_callback : ℕ → Bool
no_callback pin = false

abbrev no_sensors : Sensors
no_sensors = record { all = []; reading = 0; last_read_cycle = 0; events = [] }

-- Two sensors, on the pins 164 and 165.
abbrev pair : Sensors
pair = record {
  all = new_sensor no_callback 7 164 1 ∷ new_sensor no_callback 8 165 1 ∷ [];
  reading = 2;
  last_read_cycle = 0;
  events = [];
}

abbrev high : ℕ → Bool
high pin = pin == 165

made : create_multiple no_callback true 2 164 no_sensors ≡ record {
  all = new_sensor no_callback 165 165 1 ∷ new_sensor no_callback 164 164 1 ∷ [];
  reading = 0;
  last_read_cycle = 0;
  events = configure_input 165 1 ∷ configure_input 164 1 ∷ [];
}
unfolding create_multiple create_from
made = refl

-- The second reading of the active input is reported.
reported :
    (check_all high 20_000 (check_all high 10_000 (check_all high 0 pair))).events
    ≡ broadcast_sensor 8 true ∷ []
unfolding check_all
reported = refl

poll-stable_lem_example :
    poll (true ∷ true ∷ false ∷ true ∷ false ∷ false ∷ []) (new_sensor no_callback 7 164 1)
    ≡ stable false (true ∷ true ∷ false ∷ true ∷ false ∷ false ∷ [])
poll-stable_lem_example =
    poll-stable_lem (new_sensor no_callback 7 164 1)
      (true ∷ true ∷ false ∷ true ∷ false ∷ false ∷ []) refl refl refl

pair-IsUnique : IsUnique (λ (s : Sensor). s.snum) pair.all
pair-IsUnique = (((λ e. cc), tt), (tt, tt))

operate-IsValid_example : IsValid (
    operate
      (make no_callback true 7 170 1 ∷ check high 10_000 ∷ discard 8 ∷ input_changed 170 true ∷ [])
      pair)
operate-IsValid_example =
    operate-IsValid
      (make no_callback true 7 170 1 ∷ check high 10_000 ∷ discard 8 ∷ input_changed 170 true ∷ [])
      pair (record { unique = pair-IsUnique; within = omega arith })

finish-swept_example : finish 2 high 10_000 pair ≡ record pair {
  all = already_read pair ++ swept high (unread pair);
  reading = 0;
  events = report high (unread pair) [];
}
finish-swept_example = finish-swept high 10_000 pair (omega arith)

abbrev blank_eeprom : Eeprom
blank_eeprom = record {
  n_sensors = 0;
  pointer = 40;
  memory = λ a. record { snum = 0; pin = 0; pull_up = 0 };
}

load-store-reverse_example :
    (load no_callback true 7 no_sensors (record (store 7 pair blank_eeprom) { pointer = 40 })).0.all
    ≡ reverse (map (anew no_callback) pair.all)
load-store-reverse_example =
    load-store-reverse no_callback 7 pair no_sensors blank_eeprom (omega arith)
      ((omega arith, refl), ((omega arith, refl), tt)) (((λ e. cc), tt), (tt, tt)) refl

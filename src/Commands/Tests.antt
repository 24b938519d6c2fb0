-- ===== src/Commands/Tests.antt =====
-- The theorems on commands at concrete inputs.
use dccexpress_mini.Prelude.{◌≡◌, true, false, some, [], ◌∷◌, ◌==◌, arith, map}
use dccexpress_mini.Outputs
use dccexpress_mini.Turnouts
use dccexpress_mini.Parser.Reading.{written}
use dccexpress_mini.Parser.Numbers.{number}
use dccexpress_mini.Commands.{Config, Station, parse_one, finished}
use dccexpress_mini.Commands.Text.{
  outputs, handled, parameters, parse_one-written, Moved, parse_one-turnout,
}

abbrev config : Config
config = record { memory = true; has_callback = λ pin. false; rcn_213 = false }

abbrev small_station : Station
small_station = record {
  outputs = record {
    all = [];
    eeprom = record { n_outputs = 0; pointer = 0; memory = λ a. Outputs.empty_data };
    pins = [];
  };
  sensors = record { all = []; reading = 0; last_read_cycle = 0; events = [] };
  turnouts = record {
    all =
        record {
          id = 7;
          closed = true;
          hidden = false;
          kind = Turnouts.vpin 40;
          eeprom_address = 0;
        }
        ∷ [];
    hash = 0;
    eeprom = record { n_turnouts = 0; pointer = 0; memory = λ a. Turnouts.specific Turnouts.lcn };
    events = [];
  };
  replies = [];
}

parse_one-written_example :
    parse_one config (90 ∷ written (map number (7 ∷ 30 ∷ 1 ∷ []))) small_station
    ≡ some (finished (handled config outputs 3 (parameters (7 ∷ 30 ∷ 1 ∷ [])) small_station))
parse_one-written_example =
    parse_one-written config outputs (7 ∷ 30 ∷ 1 ∷ []) small_station
      (omega arith, (omega arith, (omega arith, tt))) (omega arith)

parse_one-turnout_example :
    Moved config 7
      (1 == 0)
      7
      small_station
      (parse_one config (84 ∷ written (map number (7 ∷ 1 ∷ []))) small_station)
parse_one-turnout_example = parse_one-turnout config 7 1 7 small_station (omega arith) (omega arith)

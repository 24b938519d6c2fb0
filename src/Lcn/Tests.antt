-- ===== src/Lcn/Tests.antt =====
-- The theorem on LCN messages at a concrete input.
use dccexpress_mini.Prelude.{◌≡◌, refl, true, false, some, none, [], ◌∷◌, arith}
use dccexpress_mini.Sensors
use dccexpress_mini.Sensors.{Sensor}
use dccexpress_mini.Turnouts
use dccexpress_mini.Turnouts.{get}
use dccexpress_mini.Lcn.{Lcn, loop, receive_all}
use dccexpress_mini.Lcn.Messages.{state_message, noted, receive_all-state_message}

abbrev bus : Lcn
bus = record {
  id = 0;
  turnouts = record {
    all =
        record {
          id = 7;
          closed = true;
          hidden = false;
          kind = Turnouts.vpin 40;
          eeprom_address = 0;
        }
        ∷ [];
    hash = 0;
    eeprom = record { n_turnouts = 0; pointer = 0; memory = λ a. Turnouts.specific Turnouts.lcn };
    events = [];
  };
  sensors = record { all = []; reading = 0; last_read_cycle = 0; events = [] };
  first_loop = true;
}

-- The first run reads nothing.
first_run : loop false true (55 ∷ 84 ∷ []) bus ≡ some (record bus { first_loop = false })
unfolding loop
first_run = refl

-- A message about a sensor finds no memory for it.
fault : receive_all false false (57 ∷ 83 ∷ []) bus ≡ none
unfolding receive_all Sensors.get Sensors.create
fault = refl

receive_all-state_message_example :
    (l' : Lcn) × (receive_all false true (state_message 7 false) bus ≡ some l')
    × (get 7 l'.turnouts ≡ noted 7 false bus.turnouts 7)
    × (l'.id ≡ 0)
receive_all-state_message_example =
    receive_all-state_message false true 7 false 7 bus refl (omega arith)

-- ===== src/Outputs/Tests.antt =====
-- The theorems on the outputs at concrete inputs.
use dccexpress_mini.Prelude.{◌≡◌, refl, true, false, [], ◌∷◌, arith, none, some}
use dccexpress_mini.Outputs.{Outputs, Eeprom, create, load, store, empty_data, print_all}
use dccexpress_mini.Outputs.Saved.{restarted, reloaded_from, load-store}

abbrev blank_eeprom : Eeprom
blank_eeprom = record { n_outputs = 0; pointer = 40; memory = λ a. empty_data }

-- Two outputs: one that is active, and an inverted one that starts active by default.
abbrev lamps : Outputs
lamps = record {
  all =
      record { data_of = record { flags = 0; active = true; id = 5; pin = 22 }; num = 0 }
      ∷ record { data_of = record { flags = 7; active = false; id = 6; pin = 23 }; num = 0 }
      ∷ [];
  eeprom = blank_eeprom;
  pins = [];
}

listed : print_all (create true 7 24 6 true lamps).1.all ≡ (5, true) ∷ (6, false) ∷ (7, true) ∷ []
unfolding create print_all
listed = refl

-- Without memory for it, an output that is stored leaves `load` without a result.
fault : load false 5 (restarted 40 (store 5 lamps).eeprom) ≡ none
unfolding load store
fault = refl

load-store_example :
    (m' : Outputs) × (load true 5 (restarted 40 (store 5 lamps).eeprom) ≡ some m')
    × (m'.all ≡ reloaded_from 5 40 lamps.all)
load-store_example =
    load-store 5 lamps (omega arith) ((omega arith, omega arith), ((omega arith, omega arith), tt))
      (((λ e. cc), tt), (tt, tt))

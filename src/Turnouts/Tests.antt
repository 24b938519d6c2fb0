-- ===== src/Turnouts/Tests.antt =====
-- The theorems on the turnouts at concrete inputs.
use dccexpress_mini.Prelude.{◌≡◌, refl, true, false, [], ◌∷◌}
use dccexpress_mini.Turnouts.{
  Turnouts, specific, lcn, create_servo, create_dcc, create_lcn, get, exists, set_closed, store,
}
use dccexpress_mini.Turnouts.Lookup.{
  AreUnique, make_servo, make_dcc, make_lcn, discard, switch, operate, operate-AreUnique,
}
use dccexpress_mini.Turnouts.Switching.{switched, told, get-set_closed}

abbrev no_turnouts : Turnouts
no_turnouts = record {
  all = [];
  hash = 0;
  eeprom = record { n_turnouts = 0; pointer = 20; memory = λ a. specific lcn };
  events = [];
}

-- A servo, an accessory and an LCN turnout.
abbrev yard : Turnouts
yard = create_lcn 3 true (create_dcc 2 10 1 (create_servo 1 100 400 200 2 true no_turnouts))

-- An LCN turnout is counted and not written: three turnouts, and the 3 + 6 + 3 + 2 bytes of two.
counted : (store yard).eeprom.n_turnouts ≡ 3
unfolding store create_lcn create_dcc create_servo
counted = refl

written : (store yard).eeprom.pointer ≡ 34
unfolding store create_lcn create_dcc create_servo
written = refl

get-set_closed_example :
    ((set_closed false 2 true yard).0 ≡ exists 2 yard)
    × (get 2 (set_closed false 2 true yard).1 ≡ switched 2 true yard 2)
    × ((set_closed false 2 true yard).1.events ≡ told false 2 true yard)
get-set_closed_example = get-set_closed false 2 true 2 yard

operate-AreUnique_example : AreUnique (
    operate false
      (make_servo 1 100 400 200 2 true
        ∷ make_dcc 1 10 1
        ∷ make_lcn 2 true
        ∷ switch 1 true
        ∷ discard 2
        ∷ [])
      no_turnouts)
operate-AreUnique_example =
    operate-AreUnique false
      (make_servo 1 100 400 200 2 true
        ∷ make_dcc 1 10 1
        ∷ make_lcn 2 true
        ∷ switch 1 true
        ∷ discard 2
        ∷ [])
      no_turnouts tt

-- ===== src/Lcn.antt =====
-- LCN.cpp (CommandStation-EX): the messages of an LCN bus, which change turnouts and sensors. A
-- message is a number in decimal and a letter behind it. The stream is a list of bytes; the number
-- is the 32-bit pattern of an `int`. The stream is set. The first run of `loop` only sends an X.
pub mod Messages
mod Tests
use dccexpress_mini.Prelude.{
  ℕ, ◌+◌, ◌-◌, ◌*◌, ◌%◌, Bool, true, false, ◌&&◌, ◌||◌, Option, none, some, List, [], ◌∷◌, ltb, leb,
  ◌==◌, if◌then◌else◌,
}
use dccexpress_mini.Prelude.Keyed.{replace_by}
use dccexpress_mini.Sensors
use dccexpress_mini.Sensors.{Sensor}
use dccexpress_mini.Turnouts

-- What `loop` changes: its number, the turnouts and the sensors, and whether this is the first run.
pub record Lcn : Type 0 where
  pub id : ℕ
  pub turnouts : Turnouts.Turnouts
  pub sensors : Sensors.Sensors
  pub first_loop : Bool

-- Letters t and T: the state of a turnout, which is made if there is none.
unfoldable pub receive_turnout : Bool → Lcn → Lcn
receive_turnout close l =
    let n : ℕ = l.id % 0x1_0000 in
    let there : Turnouts.Turnouts =
      if Turnouts.exists n l.turnouts then l.turnouts else Turnouts.create_lcn n true l.turnouts in
    record l { id = 0; turnouts = (Turnouts.set_closed_state_only n close there).1 }

-- Letters y and Y: a turnout is moved.
unfoldable pub receive_move : Bool → Bool → Lcn → Lcn
receive_move rcn_213 close l = record l {
  id = 0;
  turnouts = (Turnouts.set_closed rcn_213 (l.id % 0x1_0000) close l.turnouts).1;
}

abbrev pub set_sensor : Bool → Sensor → Sensors.Sensors → Sensors.Sensors
set_sensor value s m = record m {
  all = replace_by (λ x. x.snum) s.snum (Sensors.set_state value s) m.all;
}

-- Letters S and s: the input of a sensor, which is made if there is none. There is no result if
-- there is no memory for it.
unfoldable pub receive_sensor : Bool → Bool → Lcn → Option Lcn
receive_sensor memory value l =
    let m : Sensors.Sensors = elim (Sensors.get l.id l.sensors.all) [
      | some s ↦ l.sensors
      | none ↦ (Sensors.create (λ pin. false) memory l.id Sensors.vpin_none 0 l.sensors).1
    ] in
    elim (Sensors.get l.id m.all) [
      | none ↦ none
      | some s ↦ some (record l { id = 0; sensors = set_sensor value s m })
    ]

-- One byte.
unfoldable pub receive : Bool → Bool → ℕ → Lcn → Option Lcn
unfolding receive_turnout receive_move receive_sensor
receive rcn_213 memory ch l =
    if leb 48 ch && leb ch 57
    then some (record l { id = (10 * l.id + (ch - 48)) % 0x1_0000_0000 })
    else if ch == 116 || ch == 84
    then some (receive_turnout (ch == 116) l)
    else if ch == 121 || ch == 89
    then some (receive_move rcn_213 (ch == 121) l)
    else if ch == 83 || ch == 115
    then receive_sensor memory (ch == 83) l
    else some (record l { id = 0 })

-- The loop over the bytes that are there.
unfoldable pub receive_all : Bool → Bool → List ℕ → Lcn → Option Lcn
unfolding receive
receive_all rcn_213 memory [] l = some l
receive_all rcn_213 memory (ch ∷ chs) l = elim (receive rcn_213 memory ch l) [
  | none ↦ none
  | some l' ↦ receive_all rcn_213 memory chs l'
]

-- `loop` with the bytes that are there: the first run reads none of them.
unfoldable pub loop : Bool → Bool → List ℕ → Lcn → Option Lcn
unfolding receive_all
loop rcn_213 memory chs l =
    let all = receive_all rcn_213 memory chs l in
    if l.first_loop then some (record l { first_loop = false }) else all

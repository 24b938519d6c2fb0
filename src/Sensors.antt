-- ===== src/Sensors.antt =====
-- Sensors.cpp and Sensors.h (CommandStation-EX): the list of sensors, and the polling that reports
-- the changes of their inputs. The linked list is a list from `firstSensor` on. `readingSensor`
-- points into it: it is given by the number of sensors from there to the end, 0 for NULL.
-- `lastSensor` and `firstPollSensor` are never set but to follow a removal, and read nowhere else:
-- they are left out.
pub mod Debounce
pub mod Invariant
pub mod Lookup
pub mod Progress
pub mod Saved
pub mod Scan
mod Tests
use dccexpress_mini.Prelude.{
  ℕ, zero, suc, ◌+◌, ◌-◌, ◌%◌, Bool, true, false, ◌&&◌, ◌||◌, not, Option, none, some, List, [],
  ◌∷◌, ◌++◌, ltb, leb, ◌==◌, if◌then◌else◌, length, take, drop,
}
use dccexpress_mini.Prelude.Keyed.{find_by, without, behind}

abbrev pub vpin_max : ℕ
vpin_max = 32767

abbrev pub vpin_none : ℕ
vpin_none = 65535

abbrev pub min_read_count : ℕ
min_read_count = 1

abbrev pub cycle_interval : ℕ
cycle_interval = 10_000

-- `Sensor` with its `SensorData`. The numbers are the 32-bit pattern of an `int`.
pub record Sensor : Type 0 where
  pub snum : ℕ
  pub pin : ℕ
  pub pull_up : ℕ
  pub active : Bool
  pub input_state : Bool
  pub latch_delay : ℕ
  pub polling_required : Bool

-- What other parts are told: the input to configure, and the news for the clients.
pub data Event : Type 0 where
  configure_input : ℕ → ℕ → Event
  broadcast_sensor : ℕ → Bool → Event

-- The static members, with the events so far, newest first.
pub record Sensors : Type 0 where
  pub all : List Sensor
  pub reading : ℕ
  pub last_read_cycle : ℕ
  pub events : List Event

-- `get`: the first sensor with the number.
unfoldable pub get : ℕ → List Sensor → Option Sensor
unfolding find_by
get n ss = find_by (λ s. s.snum) n ss

-- A sensor that is removed at or behind the one to be read next leaves one less to read.
unfoldable pub remove : ℕ → Sensors → Bool × Sensors
unfolding find_by without behind
remove n m = elim (find_by (λ s. s.snum) n m.all) [
  | none ↦ (false, m)
  | some s ↦ (
    true,
    record m {
      all = without (λ s. s.snum) n m.all;
      reading = if ltb (behind (λ s. s.snum) n m.all) m.reading then m.reading - 1 else m.reading;
    },
  )
]

abbrev pub new_sensor : (ℕ → Bool) → ℕ → ℕ → ℕ → Sensor
new_sensor has_callback snum pin pull_up = record {
  snum = snum;
  pin = pin;
  pull_up = pull_up % 256;
  active = false;
  input_state = false;
  latch_delay = min_read_count;
  polling_required = not (pin == vpin_none) && not (has_callback pin);
}

abbrev pub link : ℕ → Sensor → Sensors → Sensors
link pull_up s m = record m {
  all = s ∷ m.all;
  events = if s.pin == vpin_none then m.events else configure_input s.pin pull_up ∷ m.events;
}

-- Whether a sensor was made. `has_callback` is `IODevice::hasCallback`, and `memory` tells whether
-- `calloc` finds room.
unfoldable pub create : (ℕ → Bool) → Bool → ℕ → ℕ → ℕ → Sensors → Bool × Sensors
unfolding remove
create has_callback memory snum pin pull_up m =
    let m' : Sensors = (remove snum m).1 in
    if ltb vpin_max pin && not (pin == vpin_none)
    then (false, m)
    else if not memory
    then (false, m')
    else (true, link pull_up (new_sensor has_callback snum pin pull_up) m')

-- The loop of `createMultiple` from i on, for so many sensors. The number of a sensor is the `int`
-- sum, of 32 bits; its pin has 16 bits.
unfoldable pub create_from : (ℕ → Bool) → Bool → ℕ → ℕ → ℕ → Sensors → Sensors
unfolding create
create_from has_callback memory zero first_pin i m = m
create_from has_callback memory (suc count) first_pin i m =
    create_from has_callback memory count first_pin (i + 1)
      (create has_callback memory (first_pin + i) ((first_pin + i) % 0x1_0000) 1 m).1

unfoldable pub create_multiple : (ℕ → Bool) → Bool → ℕ → ℕ → Sensors → Sensors
unfolding create_from
create_multiple has_callback memory count first_pin m =
    create_from has_callback memory count first_pin 0 m

unfoldable pub set_state : Bool → Sensor → Sensor
set_state value s = record s { input_state = value; latch_delay = 0 }

-- The first sensor on the pin is given the state.
unfoldable pub notify : ℕ → Bool → List Sensor → List Sensor
notify vpin state [] = []
notify vpin state (s ∷ ss) =
    let rest = notify vpin state ss in
    if s.pin == vpin then record s { input_state = state } ∷ ss else s ∷ rest

unfoldable pub input_change_callback : ℕ → Bool → Sensors → Sensors
unfolding notify
input_change_callback vpin state m = record m { all = notify vpin state m.all }

-- `IODevice::read` where it is called.
unfoldable pub sample : (ℕ → Bool) → Sensor → Sensor
sample read s =
    if s.polling_required && not (s.pin == vpin_none)
    then record s { input_state = read s.pin }
    else s

abbrev pub same : Bool → Bool → Bool
same a b = if a then b else not b

-- One sensor in the loop of `checkAll`: the new sensor, and whether a change is reported.
unfoldable pub settle : Sensor → Sensor × Bool
settle s =
    if same s.input_state s.active
    then (record s { latch_delay = min_read_count }, false)
    else if ltb 0 s.latch_delay
    then (record s { latch_delay = s.latch_delay - 1 }, false)
    else (record s { active = s.input_state; latch_delay = min_read_count }, true)

-- The loop over the sensors that are left, for n more of them at most: the sensors, how many are
-- still left, and the news.
unfoldable pub scan : ℕ → (ℕ → Bool) → List Sensor → List Sensor × ℕ × List Event
unfolding sample settle
scan zero read ss = (ss, length ss, [])
scan (suc n) read [] = ([], 0, [])
scan (suc n) read (s ∷ ss) =
    let (s', changed) = settle (sample read s) in
    elim changed [
      | true ↦ (s' ∷ ss, length ss, broadcast_sensor s'.snum s'.active ∷ [])
      | false ↦ let (ss', left, news) = scan n read ss in (s' ∷ ss', left, news)
    ]

-- The start of `checkAll`: a new cycle begins at the time `micros` once the last is long
-- enough ago. Without sensors nothing happens.
unfoldable pub begin_cycle : ℕ → Sensors → Sensors
begin_cycle micros m =
    if m.reading == 0
      && not (length m.all == 0)
      && leb cycle_interval ((micros + 0x1_0000_0000 - m.last_read_cycle) % 0x1_0000_0000)
    then record m { reading = length m.all; last_read_cycle = micros }
    else m

unfoldable pub check_all : (ℕ → Bool) → ℕ → Sensors → Sensors
unfolding begin_cycle scan
check_all read micros m =
    let m' : Sensors = begin_cycle micros m in
    let before : ℕ = length m'.all - m'.reading in
    let (ss, left, news) = scan 16 read (drop before m'.all) in
    record m' { all = take before m'.all ++ ss; reading = left; events = news ++ m'.events }

-- `printAll`: which letter each sensor is listed with.
unfoldable pub print_all : List Sensor → List (Bool × ℕ)
print_all [] = []
print_all (s ∷ ss) = (s.active, s.snum) ∷ print_all ss

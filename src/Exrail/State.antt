-- ===== src/Exrail/State.antt =====
-- EXRAIL2.h: a task, the members of `RMFT2`, and what the tasks read and do.
-- The ring of tasks is the list that starts at `loopTask`. A task has an address, 2 or more, so that a
-- pointer to one that was deleted is told from a pointer to another. It is assumed that `new` gives
-- each task an address not used before, where the heap may give a freed one again. An `int16_t` and a `uint16_t` are their 16-bit pattern, an `unsigned long` is 32 bits.
use dccexpress_mini.Prelude.{
  ℕ, ◌+◌, ◌-◌, ◌*◌, ◌/◌, ◌%◌, ◌^◌, Bool, not, Option, List, ◌∷◌, bit_and, ltb, leb, ◌==◌,
  if◌then◌else◌,
}

pub data BlinkState : Type 0 where
  not_blink_task blink_low blink_high at_timeout : BlinkState

-- An object of class `RMFT2`. `timer` is the union of `waitAfter`, `timeoutStart` and `blinkPin`,
-- and `call_stack` holds the used part of `callStack`, the newest entry first.
pub record Task : Type 0 where
  pub address : ℕ
  pub prog_counter : ℕ
  pub delay_start : ℕ
  pub delay_time : ℕ
  pub timer : ℕ
  pub task_id : ℕ
  pub blink_state : BlinkState
  pub loco : ℕ
  pub forward : Bool
  pub invert : Bool
  pub speedo : ℕ
  pub on_event_start_position : Option ℕ
  pub call_stack : List ℕ

-- `LookList`: `m_size`, the loaded pairs of `m_lookupArray` and `m_resultArray`, and `m_chain`,
-- which is NULL or another list.
pub data LookList : Type 0 where
  unchained : ℕ → List (ℕ × ℕ) → LookList
  chained : ℕ → List (ℕ × ℕ) → LookList → LookList

pub data SignalType : Type 0 where
  sigtype_virtual sigtype_signal sigtype_signalh sigtype_dcc sigtype_dccx sigtype_servo
        sigtype_neopixel sigtype_continuation sigtype_no_more_signals :
      SignalType

pub record SignalDefinition : Type 0 where
  pub type_of : SignalType
  pub id : ℕ
  pub redpin : ℕ
  pub amberpin : ℕ
  pub greenpin : ℕ

-- What the build makes from the user's macros: `RouteCode`, `SignalDefinitions`, the number of
-- their entries, and `compileFeatures`. `word` is 2 to the number of bits of an `int`.
pub record Build : Type 0 where
  pub route_code : ℕ → ℕ
  pub code_size : ℕ
  pub signals : ℕ → SignalDefinition
  pub signals_size : ℕ
  pub compile_features : ℕ
  pub word : ℕ

-- What a pass reads: the clock, the inputs and the other parts. The clock stands during a pass.
pub record Inputs : Type 0 where
  pub millis : ℕ
  pub micros : ℕ
  pub read : ℕ → Bool
  pub read_analogue : ℕ → ℕ
  pub is_busy : ℕ → Bool
  pub is_closed : ℕ → Bool
  pub turntable_position : ℕ → ℕ
  pub tt_moving : ℕ → Bool
  pub is_power_on : ℕ → Bool
  pub throttle_direction : ℕ → Bool

-- The calls of other parts.
pub data Call : Type 0 where
  set_throttle : ℕ → ℕ → Bool → Call
  forget_loco : ℕ → Call
  set_fn : ℕ → ℕ → Bool → Call
  change_fn : ℕ → ℕ → Call
  write_cv_byte_main : ℕ → ℕ → ℕ → Call
  set_dc_freq : ℕ → ℕ → Call
  get_loco_id : Call
  set_accessory : ℕ → ℕ → Bool → Call
  set_extended_accessory : ℕ → ℕ → Call
  set_closed : ℕ → Bool → Call
  set_position : ℕ → ℕ → ℕ → Call
  write : ℕ → Bool → Call
  write_analogue : ℕ → ℕ → ℕ → ℕ → Call
  write_analogue_range : ℕ → ℕ → Bool → ℕ → ℕ → Call
  set_power : Bool → Call
  set_main_power : Bool → Call
  set_prog_power : Bool → Call
  set_track_power : Bool → ℕ → Call
  set_track_mode : ℕ → ℕ → ℕ → Call
  set_join : Bool → Call
  send_lcc : List ℕ → Call
  send_merg : Bool → ℕ → ℕ → Call
  print_message : ℕ → Call
  broadcast_route_state : ℕ → ℕ → Call
  configure_input : ℕ → Call
  configure_analog_in : ℕ → Call
  create_sensor : ℕ → ℕ → Bool → Call
  create_dcc_turnout : ℕ → ℕ → ℕ → Call
  create_servo_turnout : ℕ → ℕ → ℕ → ℕ → ℕ → Call
  create_vpin_turnout : ℕ → ℕ → Call
  create_dcc_turntable : ℕ → Call
  create_ext_turntable : ℕ → ℕ → Call
  add_position : ℕ → ℕ → ℕ → ℕ → Call

-- The lookups that `begin` loads.
pub record Lookups : Type 0 where
  pub route : LookList
  pub on_throw : LookList
  pub on_close : LookList
  pub on_activate : LookList
  pub on_deactivate : LookList
  pub on_change : LookList
  pub on_clock : LookList
  pub on_rotate : LookList
  pub on_overload : LookList
  pub on_red : LookList
  pub on_amber : LookList
  pub on_green : LookList
  pub signal : LookList

-- The static members, the calls made, newest first, and the address that `new` gives next.
-- `lcc_serial` tells whether `LCCSerial` is set.
pub record Exrail : Type 0 where
  pub ring : List Task
  pub pausing_task : Option ℕ
  pub flags : List ℕ
  pub lookups : Lookups
  pub progtrack_loco_id : ℕ
  pub route_states : List ℕ
  pub stash : List ℕ
  pub max_stash_id : ℕ
  pub lcc_serial : Bool
  pub calls : List Call
  pub next_address : ℕ

abbrev pub call : Call → Exrail → Exrail
call c m = record m { calls = c ∷ m.calls }

-- The sign of an `int16_t`, and its widening to 32 bits.
abbrev pub is_negative : ℕ → Bool
is_negative x = leb 0x8000 x

abbrev pub to_long : ℕ → ℕ
to_long x = if is_negative x then x + 0xFFFF0000 else x

abbrev pub negate : ℕ → ℕ
negate x = (0x1_0000 - x) % 0x1_0000

-- `>>` of an `int16_t` by n bits.
abbrev pub shift_right : ℕ → ℕ → ℕ
shift_right x n = if is_negative x then (x + 0x1_0000 * (2 ^ n - 1)) / 2 ^ n else x / 2 ^ n

-- `<` of two values of type `int`.
abbrev pub int_less : Build → ℕ → ℕ → Bool
int_less b x y = ltb ((x + b.word / 2) % b.word) ((y + b.word / 2) % b.word)

abbrev pub has_feature : Build → ℕ → Bool
has_feature b f = not (bit_and b.compile_features f == 0)

abbrev pub xor : Bool → Bool → Bool
xor a b = if a then not b else b

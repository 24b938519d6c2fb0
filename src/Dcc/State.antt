-- ===== src/Dcc/State.antt =====
-- The data of the class `DCC`. An `int` is its 32-bit pattern, an `int16_t` its 16-bit pattern.
use dccexpress_mini.Prelude.{ℕ, ◌/◌, ◌%◌, Bool, List, ◌∷◌, ltb, leb, ◌==◌, ◌||◌, ◌&&◌, replicate}

-- `int` comparisons with 0, and the `highByte` and `lowByte` of an `int`.
abbrev pub is_negative : ℕ → Bool
is_negative c = leb 0x8000_0000 c

abbrev pub is_negative16 : ℕ → Bool
is_negative16 c = leb 0x8000 c

abbrev pub is_at_most_0 : ℕ → Bool
is_at_most_0 c = c == 0 || is_negative c

abbrev pub is_positive : ℕ → Bool
is_positive c = ltb 0 c && ltb c 0x8000_0000

abbrev pub high_byte : ℕ → ℕ
high_byte w = w / 256 % 256

abbrev pub low_byte : ℕ → ℕ
low_byte w = w % 256

-- `MAX_LOCOS` on a processor with enough memory, as the ESP32.
abbrev pub max_locos : ℕ
max_locos = 50

-- `struct LOCO`
pub record Loco : Type 0 where
  pub loco : ℕ
  pub speed_code : ℕ
  pub group_flags : ℕ
  pub functions : ℕ

-- The calls of other parts that the class makes: packets for the main track with their repeats,
-- the signal of DC tracks, and news for the clients and for EXRAIL.
pub data Event : Type 0 where
  schedule_main : List ℕ → ℕ → Event
  set_dc_signal : ℕ → ℕ → Event
  broadcast_loco : ℕ → Event
  broadcast_forget_loco : ℕ → Event
  activate_event : ℕ → Bool → Event

-- The static members, and the calls made so far, newest first.
pub record Dcc : Type 0 where
  pub speed_table : List Loco
  pub highest_used_reg : ℕ
  pub last_loco_reminder : ℕ
  pub loop_status : ℕ
  pub global_speedsteps : ℕ
  pub events : List Event

abbrev pub empty_slot : Loco
empty_slot = record { loco = 0; speed_code = 0; group_flags = 0; functions = 0 }

-- The state before `begin`: static members are zero, but for the speed steps.
abbrev pub fresh : Dcc
fresh = record {
  speed_table = replicate max_locos empty_slot;
  highest_used_reg = 0;
  last_loco_reminder = 0;
  loop_status = 0;
  global_speedsteps = 128;
  events = List.[];
}

unfoldable pub emit : Event → Dcc → Dcc
emit e d = record d { events = e ∷ d.events }

-- ===== src/Dcc/Api.antt =====
-- The calls of the class `DCC` on locos: speed, functions, and the reminders. `events` records the
-- packets and the news that each call sends.
pub mod Speed
pub mod Functions
pub mod Frequency
use dccexpress_mini.Prelude.{
  ℕ, zero, suc, ◌+◌, ◌-◌, ◌*◌, ◌/◌, ◌%◌, ◌^◌, Bool, true, false, ◌&&◌, ◌||◌, not, Option, none,
  some, List, [], ◌∷◌, bit_and, bit_or, ltb, leb, ◌==◌, if◌then◌else◌, get_or, set,
}
use dccexpress_mini.Dcc.State.{
  Loco, Dcc, Event, schedule_main, set_dc_signal, broadcast_loco, broadcast_forget_loco,
  activate_event, emit, max_locos, is_at_most_0, is_positive, is_negative16,
}
use dccexpress_mini.Dcc.Packets.{
  throttle_packet, function_packet, binary_state_packet, accessory_packet,
  extended_accessory_packet, write_cv_byte_packet, write_cv_bit_packet,
}
use dccexpress_mini.Dcc.Table.{slot, set_slot, lookup_speed_table, read_slot}

unfoldable pub set_throttle2 : ℕ → ℕ → Dcc → Dcc
unfolding emit
set_throttle2 cab speed_code d =
    emit (schedule_main (throttle_packet d.global_speedsteps cab speed_code) 0) d

unfoldable pub set_function_internal : ℕ → ℕ → ℕ → ℕ → Dcc → Dcc
unfolding emit
set_function_internal cab byte1 byte2 count d =
    emit (schedule_main (function_packet cab byte1 byte2) count) d

-- A change of a slot's speed, with news for the clients if it is one.
unfoldable pub set_speed_code : ℕ → ℕ → Dcc → Dcc
unfolding emit
set_speed_code reg speed_code d =
    if (slot d reg).speed_code == speed_code
    then d
    else emit (broadcast_loco reg)
        (set_slot reg (record (slot d reg) { speed_code = speed_code }) d)

-- The loop of `updateLocoReminder` for loco 0, over n slots from `reg` on.
unfoldable pub broadcast_speed : ℕ → ℕ → ℕ → Dcc → Dcc
unfolding set_speed_code
broadcast_speed zero reg speed_code d = d
broadcast_speed (suc n) reg speed_code d = broadcast_speed n (reg + 1) speed_code (
    if (slot d reg).loco == 0
    then d
    else set_speed_code reg
        (bit_or (bit_and (slot d reg).speed_code 0x80) (bit_and speed_code 0x7f)) d)

-- What is done with the slot that was found, if one was.
unfoldable pub set_found_speed : ℕ → Option ℕ × Dcc → Dcc
unfolding set_speed_code
set_found_speed speed_code (none, d) = d
set_found_speed speed_code (some reg, d) = set_speed_code reg speed_code d

unfoldable pub update_loco_reminder : ℕ → ℕ → Dcc → Dcc
unfolding broadcast_speed set_found_speed
update_loco_reminder loco speed_code d =
    if loco == 0
    then broadcast_speed (d.highest_used_reg + 1) 0 speed_code d
    else set_found_speed speed_code (lookup_speed_table loco true d)

unfoldable pub set_throttle : ℕ → ℕ → Bool → Dcc → Dcc
unfolding emit set_throttle2
set_throttle cab t_speed t_direction d =
    let speed_code : ℕ = (bit_and t_speed 0x7f + (if t_direction then 128 else 0)) % 256 in
    update_loco_reminder cab speed_code
      (emit (set_dc_signal cab speed_code) (set_throttle2 cab speed_code d))

-- The four readers. A loco without a slot is given one by each of them.
unfoldable pub get_throttle_speed : ℕ → Dcc → Option ℕ × Dcc
unfolding read_slot
get_throttle_speed cab d =
    let found : Option ℕ × Dcc = lookup_speed_table cab true d in
    (read_slot none (λ l. some (bit_and l.speed_code 0x7f)) found, found.1)

unfoldable pub get_throttle_speed_byte : ℕ → Dcc → ℕ × Dcc
unfolding read_slot
get_throttle_speed_byte cab d =
    let found : Option ℕ × Dcc = lookup_speed_table cab true d in
    (read_slot 128 (λ l. l.speed_code) found, found.1)

unfoldable pub get_throttle_frequency : ℕ → Dcc → ℕ × Dcc
unfolding read_slot
get_throttle_frequency cab d =
    let found : Option ℕ × Dcc = lookup_speed_table cab true d in
    (read_slot 0 (λ l. l.functions / 2 ^ 29 % 256) found, found.1)

unfoldable pub get_throttle_direction : ℕ → Dcc → Bool × Dcc
unfolding read_slot
get_throttle_direction cab d =
    let found : Option ℕ × Dcc = lookup_speed_table cab true d in
    (read_slot true (λ l. not (bit_and l.speed_code 0x80 == 0)) found, found.1)

-- `updateGroupflags`
unfoldable pub update_groupflags : ℕ → ℕ → ℕ
update_groupflags flags function_number = bit_or flags (
    if leb function_number 4
    then 0x01
    else if leb function_number 8
    then 0x02
    else if leb function_number 12
    then 0x04
    else if leb function_number 20
    then 0x08
    else 0x10)

-- The functions of a slot with one switched.
unfoldable pub switch : ℕ → ℕ → Bool → ℕ
switch functions function_number on =
    if on
    then bit_or functions (2 ^ function_number)
    else bit_and functions (0xffff_ffff - 2 ^ function_number)

-- A slot with one function switched.
unfoldable pub switch_slot : ℕ → Bool → Loco → Loco
unfolding switch update_groupflags
switch_slot function_number on l = record l {
  functions = switch l.functions function_number on;
  group_flags =
      if leb function_number 28
      then update_groupflags l.group_flags function_number
      else l.group_flags;
}

-- The end of `setFn`, with the slot that was found.
unfoldable pub set_found_fn : ℕ → Bool → Option ℕ × Dcc → Bool × Dcc
unfolding switch_slot emit
set_found_fn function_number on (none, d) = (false, d)
set_found_fn function_number on (some reg, d) =
    if switch (slot d reg).functions function_number on == (slot d reg).functions
    then (true, d)
    else (
      true,
      emit (broadcast_loco reg) (set_slot reg (switch_slot function_number on (slot d reg)) d),
    )

unfoldable pub set_fn : ℕ → ℕ → Bool → Dcc → Bool × Dcc
unfolding set_found_fn emit
set_fn cab function_number on d =
    if is_at_most_0 cab || is_negative16 function_number
    then (false, d)
    else let d' : Dcc =
        if ltb 28 function_number
        then emit (schedule_main (binary_state_packet cab function_number on) 4) d
        else d in
      (if ltb 31 function_number
        then (true, d')
        else set_found_fn function_number on (lookup_speed_table cab true d'))

-- `none` is the -1. The number is not negative: a shift by such a one is undefined in the code.
unfoldable pub get_fn : ℕ → ℕ → Dcc → Option Bool × Dcc
unfolding read_slot
get_fn cab function_number d =
    if is_at_most_0 cab || ltb 31 function_number
    then (none, d)
    else let found : Option ℕ × Dcc = lookup_speed_table cab true d in
      (
        read_slot none (λ l. some (not (bit_and l.functions (2 ^ function_number) == 0))) found,
        found.1,
      )

unfoldable pub change_fn : ℕ → ℕ → Dcc → Dcc
change_fn cab function_number d =
    let (value, d') = get_fn cab function_number d in
    elim value [ none ↦ d' | some v ↦ (set_fn cab function_number (not v) d').1 ]

unfoldable pub get_function_map : ℕ → Dcc → ℕ × Dcc
unfolding read_slot
get_function_map cab d =
    if is_at_most_0 cab
    then (0, d)
    else let found : Option ℕ × Dcc = lookup_speed_table cab true d in
      (read_slot 0 (λ l. l.functions) found, found.1)

-- The functions with the frequency in the three spare bits.
unfoldable pub frequency_bits : ℕ → ℕ → ℕ
frequency_bits functions freq =
    let kept : ℕ = bit_and functions 0x1fff_ffff in
    if freq == 1
    then bit_or kept (2 ^ 29)
    else if freq == 2
    then bit_or kept (2 ^ 30)
    else if freq == 3
    then bit_or kept (2 ^ 31)
    else kept

-- The end of `setDCFreq`, with what the search returned. `none` is an access outside the table:
-- the code does not test for the -1.
unfoldable pub set_found_freq : ℕ → Option ℕ × Dcc → Option Dcc
unfolding frequency_bits emit
set_found_freq freq (none, d) = none
set_found_freq freq (some reg, d) =
    let functions : ℕ = frequency_bits (slot d reg).functions freq in
    some (
      if functions == (slot d reg).functions
      then d
      else emit (broadcast_loco reg)
          (set_slot reg (record (slot d reg) { functions = functions }) d))

unfoldable pub set_dc_freq : ℕ → ℕ → Dcc → Option Dcc
unfolding set_found_freq
set_dc_freq cab freq d =
    if cab == 0 || ltb 3 freq then some d else set_found_freq freq (lookup_speed_table cab true d)

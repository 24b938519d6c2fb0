-- ===== src/Dcc/Main.antt =====
-- The calls of the class `DCC` for accessories and for CVs on the main track: each sends packets
-- and keeps the table as it is.
pub mod Decode
use dccexpress_mini.Prelude.{
  ℕ, ◌*◌, Bool, true, false, not, ◌||◌, Option, none, some, bit_and, bit_or, ◌==◌, if◌then◌else◌,
}
use dccexpress_mini.Dcc.State.{Dcc, Event, schedule_main, activate_event, emit}
use dccexpress_mini.Dcc.Packets.{
  accessory_packet, extended_accessory_packet, write_cv_byte_packet, write_cv_bit_packet,
}

-- The on packet of `setAccessory`, and the event for EXRAIL; and its off packet.
unfoldable pub accessory_on : ℕ → ℕ → Bool → Dcc → Dcc
unfolding emit
accessory_on address port gate d =
    emit (activate_event (bit_or (address * 4) port) gate)
      (emit (schedule_main (accessory_packet address port gate true) 3) d)

unfoldable pub accessory_off : ℕ → ℕ → Bool → Dcc → Dcc
unfolding emit
accessory_off address port gate d =
    emit (schedule_main (accessory_packet address port gate false) 3) d

unfoldable pub set_accessory : ℕ → ℕ → Bool → ℕ → Dcc → Dcc
unfolding accessory_on accessory_off
set_accessory address port gate onoff d =
    if not (address == bit_and address 511) || not (port == bit_and port 3)
    then d
    else let d' : Dcc = if onoff == 0 then d else accessory_on address port gate d in
      (if onoff == 1 then d' else accessory_off address port gate d')

unfoldable pub set_extended_accessory : ℕ → ℕ → ℕ → Dcc → Bool × Dcc
unfolding emit
set_extended_accessory address value repeats d = elim (extended_accessory_packet address value) [
  | none ↦ (false, d)
  | some bytes ↦ (true, emit (schedule_main bytes repeats) d)
]

unfoldable pub write_cv_byte_main : ℕ → ℕ → ℕ → Dcc → Dcc
unfolding emit
write_cv_byte_main cab cv value d = emit (schedule_main (write_cv_byte_packet cab cv value) 4) d

unfoldable pub write_cv_bit_main : ℕ → ℕ → ℕ → Bool → Dcc → Dcc
unfolding emit
write_cv_bit_main cab cv bit_num value d =
    emit (schedule_main (write_cv_bit_packet cab cv bit_num value) 4) d

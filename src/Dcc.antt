-- ===== src/Dcc.antt =====
-- DCC.cpp and DCC.h (CommandStation-EX): the layer that turns calls into packets for the waveform
-- generator, and keeps the table of locos for the reminders.
pub mod State
pub mod Packets
pub mod Address
pub mod Table
pub mod Api
pub mod Main
pub mod Reminders
mod Tests

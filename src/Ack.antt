-- ===== src/Ack.antt =====
-- DCCACK.cpp and DCCACK.h (CommandStation-EX): the manager that works through a programming
-- sequence on the programming track, its answers to the caller, and the detection of the pulses
-- with which a decoder acknowledges.
pub mod Op
pub mod Manager
pub mod Programs
pub mod Rounds
pub mod Read
pub mod Silent
pub mod Pulse
mod Tests

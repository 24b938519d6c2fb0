-- ===== src/Exrail.antt =====
-- EXRAIL2.cpp and EXRAIL2.h (CommandStation-EX): the interpreter of the automation scripts, which
-- the macros compile to byte code.
pub mod Opcode
pub mod State
pub mod Lookup
pub mod Program
pub mod Nesting
pub mod Loading
pub mod Tasks
pub mod Signals
pub mod Actions
pub mod Switch
pub mod Step
pub mod Begin
pub mod Kept
pub mod Turned
pub mod Depth
pub mod Sound
pub mod Turns
pub mod Flags
pub mod Slash
pub mod Runs
pub mod Reach
pub mod Calm
pub mod Starts
pub mod Returns
pub mod Passes
pub mod Reserve
pub mod Aspects
pub mod Cut
pub mod Blink
pub mod Subroutine
pub mod Waits
mod Tests

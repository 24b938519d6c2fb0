-- ===== src/Lib.antt =====
-- The firmware of DCCExpress-Mini (CommandStation-EX): the generation of the DCC signal, the layer
-- that builds packets and keeps the table of locos, the programming of decoders, the overload
-- protection of the tracks, the commands for sensors, outputs and turnouts, and the interpreter of
-- the automation scripts.
--
-- How the parts interact. The command layer calls the functions of `DCC` (CommandStation-EX/DCC.cpp).
-- These build packets, schedule them on the main track, and record what each loco was told in the
-- loco table, from which the reminders are sent again and again. `DCCWaveform`
-- (CommandStation-EX/DCCWaveform.cpp) holds one pending and one current packet for each track, and
-- turns them into levels of the signal pin, one at each timer interrupt. `DCCACK`
-- (CommandStation-EX/DCCACK.cpp) runs programs of opcodes that send packets on the programming track
-- and watch its current for the acknowledgements of a decoder; the programs stand in DCC.cpp.
-- `MotorDriver` (CommandStation-EX/MotorDriver.cpp) switches the power of a track and cuts it off
-- when its current is too high. `DCCEXParser` (CommandStation-EX/DCCEXParser.cpp) splits a command
-- into its opcode and parameters and calls all other parts. `Sensor`, `Output` and `Turnout`
-- (CommandStation-EX/Sensors.cpp, Outputs.cpp, Turnouts.cpp) are lists that commands change; the
-- main loop calls `Sensor::checkAll`, which reports the changes of the inputs. `RMFT2`
-- (CommandStation-EX/EXRAIL2.cpp) runs the scripts of the user, which macros compile to byte code:
-- one instruction of one task in each pass of the main loop. Its tasks call all other parts, and
-- these call it back when a turnout, an accessory, a sensor, a turntable or the clock changes.
--
-- Files.
--   Prelude, Prelude/Lists, Prelude/Tests, Prelude/Bits, Prelude/Keyed, Prelude/Apart,
--     Prelude/Rotated: names of the libraries, Boolean tests on numbers, facts about lists, about the
--     bits of a number, about linked lists of objects that are found by a key, and about rings.
--   Waveform: DCCWaveform.cpp and DCCWaveform.h without the ESP32 variant. A `Track` is one
--     instance; `interrupt2`, `promotePendingPacket`, `schedulePacket` and `interruptHandler` are
--     functions on it. Waveform/Checksum is about scheduling, Frame and Cycle about the bits of a
--     packet cycle, Levels about the levels of the pins, Repeats about the choice of packets.
--   Dcc: DCC.cpp and DCC.h. Dcc/State holds the static members, with the calls of other parts as a
--     list of events, newest first; Dcc/Packets the bytes of each packet; Dcc/Table the search of
--     the loco table; Dcc/Api the calls for locos; Dcc/Main those for accessories and CVs;
--     Dcc/Reminders the refresh cycle. Dcc/Address and Dcc/Main/Decode hold decoders written from
--     the bit layouts of the DCC standard, against which packets are read; Dcc/Table/View is
--     what callers rely on in the table, a map from cab numbers to locos.
--   Ack: DCCACK.cpp and DCCACK.h, with the programs of DCC.cpp in Ack/Programs. Ack/Manager has
--     `Setup`, `loop` and `callback`; Ack/Pulse `checkAck`; Ack/Rounds and Ack/Read put the manager
--     together with a decoder that acknowledges, Ack/Silent with none.
--   RingStream: RingStream.cpp and RingStream.h, the ring in which replies to network clients are
--     collected. RingStream/Queue sees it as a queue of bytes, Print is about printing, Message about
--     whole messages, Reading about taking them out.
--   Motor: MotorDriver.cpp and MotorDriver.h, `setPower` and `checkPowerOverload`. Motor/Transitions
--     is about the changes of the power mode, Motor/Sound about the power pin and the wait after an
--     overload, Motor/Short about a short circuit that stays.
--   Parser: DCCEXParser.cpp (`splitValues`) and KeywordHasher.h. A turn of the loop is `step`, and
--     its four states are `State`. Parser/Fuel is about the end of the loop, Parser/Bounds about
--     the array, Parser/Reading about one word, Parser/Words and Parser/Numbers about all
--     the parameters of a command.
--   Sensors: Sensors.cpp and Sensors.h. Sensors/Debounce is about one sensor, Scan and Progress
--     about a cycle over all of them, Lookup and Invariant about the list, Saved about `load` and
--     `store`.
--   Outputs: Outputs.cpp and Outputs.h. Outputs/Lookup is about the list, Outputs/Saved about the
--     EEPROM.
--   Turnouts: Turnouts.cpp and Turnouts.h without `load`. Turnouts/Switching is about `setClosed`,
--     Turnouts/Lookup about the list.
--   Commands: `parseOne` in DCCEXParser.cpp for the opcodes Z, S and T, which puts the parser
--     together with the outputs, sensors and turnouts. Commands/Text is about whole commands.
--   Exrail: EXRAIL2.cpp, EXRAIL2.h and EXRAIL2Parser.cpp. Exrail/Opcode and State hold the data,
--     Lookup the class `LookList`, Program the byte code with `skipIfBlock` and the loader of the
--     lookups, Tasks the flags and the ring of tasks, Signals `doSignal` and the events, Actions and
--     Switch the switch of `loop2`, Step `loop2` and `loop` behind the polling of its sensors, Begin
--     `begin`, Slash the commands of EXRAIL2Parser.cpp that change tasks, flags and the stash.
--     Nesting is about `skipIfBlock`, Loading about the lookups, Starts about `begin`, Subroutine about CALL and RETURN, Flags,
--     Reserve and Aspects about sections and signals, Cut and Blink about `killBlinkOnVpin`, Calm
--     about signals that are set while no task blinks, Waits about delays, PAUSE and the stash.
--     Kept has the predicates that no part of an instruction breaks, Turned and Depth the whole
--     switch, Turns whole turns, Sound the invariant, Runs and Reach all calls in any order,
--     Returns and Passes the passes of `loop`, which return in a build without BLINK. A call of
--     another part is a value in a list, newest first, and the event that it may raise in turn is
--     a step of its own; what a task reads from other parts is a record of functions.
--   Lcn: LCN.cpp, whose messages change turnouts and sensors. Lcn/Messages is about whole messages.
--   Commands/Tests, Exrail/Tests, Lcn/Tests, Turnouts/Tests, Motor/Tests, Outputs/Tests,
--     Parser/Tests, Sensors/Tests, Waveform/Tests, Dcc/Tests, Ack/Tests, RingStream/Tests:
--     concrete runs.
--
-- Numbers. A `byte` is a number below 256, an `int` and an `unsigned long` the pattern of 32 bits, an
-- `int16_t` the pattern of 16; wrap-around is written out. An answer of -1 to a caller of the table
-- is `none`. The table has the 50 slots of a processor with enough memory; reminders of functions
-- are compiled in, and so are the events of EXRAIL. A script of EXRAIL has fewer than 32768 bytes, which
-- its lookups can hold.
--
-- Loops and fuel. The loop of `DCCACK::loop` moves on in its program in each round, so that the
-- length of the program is enough fuel, and it is given that much. The loop of `splitValues` passes a
-- byte, ends a parameter or goes on to the next state in each turn, so that three turns for a byte
-- and for a parameter are enough. The loops of EXRAIL over the byte code are given the number
-- of its instructions, and the sweep over the ring of tasks the number of tasks: `none` stands for a
-- loop that goes on behind the end of the code, or for ever. All other loops are structural.
-- Where `schedulePacket` spins until the interrupt has taken the pending packet, the result is
-- `none`: the caller is still in the loop, in the same state.
--
-- Not modelled: timers, pins, analogue inputs and displays, which are hardware; the ESP32 variant
-- of the waveform, which hands packets to the RMT peripheral; diagnostics; the parts of the firmware
-- above this core, namely the commands of all other opcodes, the throttle protocols, turntables and
-- the track manager; the polling of sensors, the reports and the texts of the automation; and the web interface.
pub mod Prelude
pub mod Waveform
pub mod Commands
pub mod Dcc
pub mod Exrail
pub mod Ack
pub mod RingStream
pub mod Lcn
pub mod Motor
pub mod Outputs
pub mod Parser
pub mod Sensors
pub mod Turnouts

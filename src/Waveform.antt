-- ===== src/Waveform.antt =====
-- DCCWaveform.cpp and DCCWaveform.h (CommandStation-EX), the timer-driven waveform generator: one
-- track's transmit and pending buffers, and what each interrupt does to them.
-- A `byte` is a number below 256; the packet arrays are lists of six.
pub mod Checksum
pub mod Frame
pub mod Cycle
pub mod Levels
pub mod Repeats
mod Tests
use dccexpress_mini.Prelude.{
  ℕ, ◌+◌, ◌-◌, Bool, true, false, ◌&&◌, not, Option, none, some, List, [], ◌∷◌, ◌++◌, bit_and,
  bit_xor, ltb, leb, ◌==◌, if◌then◌else◌, length, get_or, set, drop,
}

abbrev pub preamble_bits_main : ℕ
preamble_bits_main = 16

abbrev pub preamble_bits_prog : ℕ
preamble_bits_prog = 22

abbrev pub max_packet_size : ℕ
max_packet_size = 5

pub data WaveState : Type 0 where
  wave_start wave_mid_1 wave_high_0 wave_mid_0 wave_low_0 wave_pending : WaveState

-- `stateTransform`
unfoldable pub state_transform : WaveState → WaveState
state_transform wave_start = wave_pending
state_transform wave_mid_1 = wave_start
state_transform wave_high_0 = wave_mid_0
state_transform wave_mid_0 = wave_low_0
state_transform wave_low_0 = wave_start
state_transform wave_pending = wave_pending

-- `signalTransform`: whether the signal pin is HIGH.
unfoldable pub signal_transform : WaveState → Bool
signal_transform wave_start = true
signal_transform wave_mid_1 = false
signal_transform wave_high_0 = true
signal_transform wave_mid_0 = false
signal_transform wave_low_0 = false
signal_transform wave_pending = false

-- `bitMask`: nine entries, as each byte is sent as a zero and eight bits.
abbrev pub bit_mask : List ℕ
bit_mask = 0x00 ∷ 0x80 ∷ 0x40 ∷ 0x20 ∷ 0x10 ∷ 0x08 ∷ 0x04 ∷ 0x02 ∷ 0x01 ∷ []

abbrev pub idle_packet : List ℕ
idle_packet = 0xff ∷ 0x00 ∷ 0xff ∷ []

abbrev pub reset_packet : List ℕ
reset_packet = 0x00 ∷ 0x00 ∷ 0x00 ∷ []

-- The calls of `DCCTimer` that the generator makes.
pub data TimerCall : Type 0 where
  ack_railcom_timer start_railcom_timer update_minimum_free_memory : TimerCall

-- `railcomActive` and `railcomDebug`, which both tracks share.
pub record Railcom : Type 0 where
  pub active : Bool
  pub debug : Bool

-- The members of `DCCWaveform`, and the timer calls made so far, newest first.
pub record Track : Type 0 where
  pub is_main : Bool
  pub packet_pending : Bool
  pub reminder_window_open : Bool
  pub sent_resets : ℕ
  pub transmit_packet : List ℕ
  pub transmit_length : ℕ
  pub transmit_repeats : ℕ
  pub remaining_preambles : ℕ
  pub required_preambles : ℕ
  pub bits_sent : ℕ
  pub bytes_sent : ℕ
  pub state : WaveState
  pub pending_packet : List ℕ
  pub pending_length : ℕ
  pub pending_repeats : ℕ
  pub timer : List TimerCall

-- The constructor. The tracks are static objects: what it does not set is zero.
unfoldable pub init : ℕ → Bool → Track
init preamble_bits is_main = record {
  is_main = is_main;
  packet_pending = false;
  reminder_window_open = false;
  sent_resets = 0;
  transmit_packet = idle_packet ++ (0 ∷ 0 ∷ 0 ∷ []);
  transmit_length = 0;
  transmit_repeats = 0;
  remaining_preambles = 0;
  required_preambles = preamble_bits + 1;
  bits_sent = 0;
  bytes_sent = 0;
  state = wave_start;
  pending_packet = 0 ∷ 0 ∷ 0 ∷ 0 ∷ 0 ∷ 0 ∷ [];
  pending_length = 0;
  pending_repeats = 0;
  timer = [];
}

unfoldable pub set_railcom : Bool → Bool → Railcom × Bool
set_railcom true debug = (record { active = true; debug = debug }, true)
set_railcom false debug = (record { active = false; debug = false }, false)

unfoldable pub clear_repeats : Track → Track
clear_repeats t = record t { transmit_repeats = 0 }

unfoldable pub clear_resets : Track → Track
clear_resets t = record t { sent_resets = 0 }

unfoldable pub get_resets : Track → ℕ
get_resets t = t.sent_resets

unfoldable pub is_reminder_window_open : Track → Bool
is_reminder_window_open t = t.reminder_window_open && not t.packet_pending

-- The loop of `schedulePacket`: copies the bytes to `pendingPacket` from index b on.
unfoldable pub copy_bytes : List ℕ → ℕ → ℕ → List ℕ → ℕ × List ℕ
copy_bytes [] b checksum packet = (checksum, packet)
copy_bytes (x ∷ xs) b checksum packet = copy_bytes xs (b + 1) (bit_xor checksum x) (set packet b x)

-- The rest of `schedulePacket`, once no packet is pending.
unfoldable pub fill_pending : List ℕ → ℕ → Track → Track
fill_pending buffer repeats t =
    let (checksum, packet) = copy_bytes buffer 0 0 t.pending_packet in
    clear_resets (record t {
      pending_packet = set packet (length buffer) checksum;
      pending_length = length buffer + 1;
      pending_repeats = repeats;
      packet_pending = true;
    })

-- `none` while the caller spins on `packetPending`. The list has the `byteCount` bytes.
unfoldable pub schedule_packet : List ℕ → ℕ → Track → Option Track
schedule_packet buffer repeats t =
    if ltb max_packet_size (length buffer)
    then some t
    else if t.packet_pending
    then none
    else some (fill_pending buffer repeats t)

-- The idle or reset packet overwrites three bytes of the buffer.
unfoldable pub send_filler : Railcom → Track → Track
send_filler rc t = record t {
  transmit_packet =
      (if t.is_main && not rc.debug then idle_packet else reset_packet) ++ drop 3 t.transmit_packet;
  transmit_length = 3;
  transmit_repeats = 0;
  sent_resets = if ltb (get_resets t) 250 then t.sent_resets + 1 else t.sent_resets;
}

unfoldable pub promote_pending_packet : Railcom → Track → Track
promote_pending_packet rc t =
    if ltb 0 t.transmit_repeats
    then record t { transmit_repeats = t.transmit_repeats - 1 }
    else if t.packet_pending
    then clear_resets (record t {
      transmit_packet = t.pending_packet;
      transmit_length = t.pending_length;
      transmit_repeats = t.pending_repeats;
      packet_pending = false;
    })
    else send_filler rc t

unfoldable pub call_timer : TimerCall → Track → Track
call_timer c t = record t { timer = c ∷ t.timer }

-- The first branch of `interrupt2`: one more preamble bit.
unfoldable pub preamble_step : Railcom → Track → Track
preamble_step rc t =
    let left : ℕ = t.remaining_preambles - 1 in
    let t' : Track = record t {
      state = wave_mid_1;
      remaining_preambles = left;
      reminder_window_open = t.transmit_repeats == 0 && ltb left 4 && ltb 1 left;
    } in
    if left == 1
    then promote_pending_packet rc t'
    else if left == 10 && t.is_main && rc.active
    then call_timer ack_railcom_timer t'
    else call_timer update_minimum_free_memory t'

-- The end of a packet: back to its first byte, behind a new preamble.
unfoldable pub end_packet : Railcom → Track → Track
end_packet rc t =
    let t' : Track = record t { bytes_sent = 0; remaining_preambles = t.required_preambles } in
    if t.is_main && rc.active then call_timer start_railcom_timer t' else t'

-- The end of a byte, and of the packet if it is the last.
unfoldable pub end_byte : Railcom → Track → Track
end_byte rc t =
    let t' : Track = record t { bits_sent = 0; bytes_sent = t.bytes_sent + 1 } in
    if leb t'.transmit_length t'.bytes_sent then end_packet rc t' else t'

-- The second branch of `interrupt2`: one more bit of the packet.
unfoldable pub data_step : Railcom → Track → Track
data_step rc t =
    let t' : Track = record t {
      state =
          if bit_and (get_or t.transmit_packet t.bytes_sent 0) (get_or bit_mask t.bits_sent 0) == 0
          then wave_high_0
          else wave_mid_1;
      bits_sent = t.bits_sent + 1;
    } in
    if t'.bits_sent == 9 then end_byte rc t' else t'

unfoldable pub interrupt2 : Railcom → Track → Track
interrupt2 rc t = if ltb 0 t.remaining_preambles then preamble_step rc t else data_step rc t

-- What one timer interrupt does to one track: drive the pin, move the wave on, and find the next
-- bit once a wave is complete. The result holds the level that was driven.
unfoldable pub advance : Railcom → Track → Bool × Track
advance rc t =
    let t' : Track = record t { state = state_transform t.state } in
    (signal_transform t.state, elim t'.state [ wave_pending ↦ interrupt2 rc t' | _ ↦ t' ])

-- What `interruptHandler` drives on the two tracks and whether it lets `DCCACK::checkAck` sample.
pub record Tick : Type 0 where
  pub main_signal : Bool
  pub prog_signal : Bool
  pub main : Track
  pub prog : Track
  pub checks_ack : Bool

unfoldable pub interrupt_handler : Railcom → Bool → Track → Track → Tick
interrupt_handler rc sync main prog =
    let (sig_main, main') = advance rc main in
    let (sig_prog, prog') = advance rc prog in
    record {
      main_signal = sig_main;
      prog_signal = if sync then sig_main else sig_prog;
      main = main';
      prog = prog';
      checks_ack = elim (state_transform prog.state) [ wave_pending ↦ false | _ ↦ true ];
    }

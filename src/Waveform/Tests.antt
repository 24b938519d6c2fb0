-- ===== src/Waveform/Tests.antt =====
-- The waveform theorems at a track with a packet to send.
use dccexpress_mini.Prelude.{
  ℕ, zero, suc, ◌<◌, ◌≡◌, refl, true, false, some, List, [], ◌∷◌, ◌++◌, arith, get_or, replicate,
  length,
}
use dccexpress_mini.Waveform.{
  Track, Railcom, init, wave_start, schedule_packet, clear_resets, promote_pending_packet,
}
use dccexpress_mini.Waveform.Checksum.{pending_bytes, current_bytes, schedule_packet_lem, xor_all}
use dccexpress_mini.Waveform.Frame.{frame, send, SameBuffers}
use dccexpress_mini.Waveform.Cycle.{IsBetween, IsPacket, send-cycle}
use dccexpress_mini.Waveform.Levels.{levels, drive, drive-levels}

abbrev quiet : Railcom
quiet = record { active = false; debug = false }

-- The main track with a speed packet for loco 3 pending, at the start of a preamble.
abbrev ready : Track
ready = record (init 16 true) {
  remaining_preambles = 17;
  pending_packet = 0x03 ∷ 0x3f ∷ 0x85 ∷ 0xb9 ∷ 0 ∷ 0 ∷ [];
  pending_length = 4;
  pending_repeats = 2;
  packet_pending = true;
}

abbrev speed_packet : List ℕ
speed_packet = 0x03 ∷ 0x3f ∷ 0x85 ∷ 0xb9 ∷ []

ready-IsBetween : IsBetween ready
unfolding init
ready-IsBetween = record {
  at = record { preambles = refl; bits = refl; bytes = refl };
  long = omega arith;
}

ready-IsPacket : IsPacket (promote_pending_packet quiet ready)
unfolding init promote_pending_packet clear_resets
ready-IsPacket = record { some_bytes = omega arith; in_buffer = omega arith; are_bytes = are_bytes }
  where
    are_bytes : (i : ℕ) → get_or (0x03 ∷ 0x3f ∷ 0x85 ∷ 0xb9 ∷ 0 ∷ 0 ∷ []) i 0 < 256
    are_bytes zero = omega arith
    are_bytes (suc zero) = omega arith
    are_bytes (suc (suc zero)) = omega arith
    are_bytes (suc (suc (suc zero))) = omega arith
    are_bytes (suc (suc (suc (suc zero)))) = omega arith
    are_bytes (suc (suc (suc (suc (suc zero))))) = omega arith
    are_bytes (suc (suc (suc (suc (suc (suc i)))))) = omega arith

send-cycle_example :
    let (bits, t') = send 53 quiet ready in
    (bits ≡ replicate 17 true ++ frame speed_packet)
    × SameBuffers (promote_pending_packet quiet ready) t'
    × IsBetween t'
unfolding init promote_pending_packet clear_resets
send-cycle_example = send-cycle quiet ready ready-IsBetween ready-IsPacket

drive-levels_example :
    let (bits, t') = send 20 quiet ready in
    drive (length (levels bits)) quiet ready ≡ (levels bits, record t' { state = wave_start })
unfolding init
drive-levels_example = drive-levels 20 quiet ready refl

schedule_packet_lem_example :
    (t' : Track) × (schedule_packet (0x03 ∷ 0x3f ∷ 0x85 ∷ []) 2 (init 16 true) ≡ some t')
    × (pending_bytes t' ≡ speed_packet)
    × (xor_all 0 (pending_bytes t') ≡ 0)
    × (t'.packet_pending ≡ true)
    × (t'.pending_repeats ≡ 2)
    × (t'.sent_resets ≡ 0)
    × (current_bytes t' ≡ [])
unfolding init
schedule_packet_lem_example =
    schedule_packet_lem (0x03 ∷ 0x3f ∷ 0x85 ∷ []) 2 (init 16 true) (omega arith) refl refl

-- ===== src/Waveform/Repeats.antt =====
-- Which packet each cycle of a track sends.
use dccexpress_mini.Prelude.{
  ℕ, zero, suc, ◌+◌, ◌-◌, ◌≤◌, ◌≡◌, refl, ap, ◌∙◌, true, false, arith, if◌then◌else◌, ◌&&◌, not,
}
use Prim.Native.Nat.{min}
use dccexpress_mini.Waveform.{
  Track, Railcom, promote_pending_packet, send_filler, clear_resets, get_resets, idle_packet,
  reset_packet,
}
use dccexpress_mini.Waveform.Checksum.{current_bytes, pending_bytes}

-- The choices of n cycles.
pub promote : ℕ → Railcom → Track → Track
promote zero rc t = t
promote (suc n) rc t = promote n rc (promote_pending_packet rc t)

repeat-step :
    (rc : Railcom) (t : Track) (n : ℕ)
    → t.transmit_repeats ≡ suc n
    → promote_pending_packet rc t ≡ record t { transmit_repeats = n }
unfolding promote_pending_packet
repeat-step rc t n e = ground arith

repeat-all :
    (n k : ℕ) (rc : Railcom) (t : Track)
    → t.transmit_repeats ≡ n + k
    → promote n rc t ≡ record t { transmit_repeats = k }
unfolding promote
repeat-all zero k rc t e = λ i. record t { transmit_repeats = e' i }
  where
    e' : t.transmit_repeats ≡ k
    e' = omega arith
repeat-all (suc n) k rc t e =
    ap (promote n rc) (repeat-step rc t (n + k) (omega arith))
    ∙ repeat-all n k rc (record t { transmit_repeats = n + k }) refl

abbrev taken : Track → Track
taken t = record t {
  transmit_packet = t.pending_packet;
  transmit_length = t.pending_length;
  transmit_repeats = t.pending_repeats;
  packet_pending = false;
  sent_resets = 0;
}

take_pending :
    (rc : Railcom) (t : Track)
    → t.transmit_repeats ≡ 0
    → t.packet_pending ≡ true
    → promote_pending_packet rc t ≡ taken t
unfolding promote_pending_packet clear_resets
take_pending rc t empty waits = ground arith

promote-taken :
    (rc : Railcom) (t : Track) (k : ℕ)
    → t.transmit_repeats ≡ 0
    → t.packet_pending ≡ true
    → k ≤ t.pending_repeats
    → promote (suc k) rc t ≡ record (taken t) { transmit_repeats = t.pending_repeats - k }
unfolding promote
promote-taken rc t k empty waits h =
    ap (promote k rc) (take_pending rc t empty waits)
    ∙ repeat-all k (t.pending_repeats - k) rc (taken t) (omega arith)

-- A pending packet with r repeats is what the next r + 1 cycles send, once the present packet has
-- no repeats left; the buffer is then free for another packet from the first of them on.
promote-pending :
    (rc : Railcom) (t : Track) (k : ℕ)
    → t.transmit_repeats ≡ 0
    → t.packet_pending ≡ true
    → k ≤ t.pending_repeats
    → let t' = promote (suc k) rc t in
      (current_bytes t' ≡ pending_bytes t)
      × (t'.packet_pending ≡ false)
      × (t'.transmit_repeats ≡ t.pending_repeats - k)
promote-pending rc t k empty waits h = rw (promote-taken rc t k empty waits h) (refl, refl, refl)

-- With nothing to repeat and nothing pending, a cycle sends the idle packet on the main track, and
-- the reset packet on the programming track or while RailCom is debugged; and the count of such
-- packets goes up to 250 at most.
promote-idle :
    (rc : Railcom) (t : Track)
    → t.transmit_repeats ≡ 0
    → t.packet_pending ≡ false
    → t.sent_resets ≤ 250
    → let t' = promote_pending_packet rc t in
      (current_bytes t' ≡ (if t.is_main && not rc.debug then idle_packet else reset_packet))
      × (t'.transmit_repeats ≡ 0)
      × (t'.sent_resets ≡ min (t.sent_resets + 1) 250)
unfolding promote_pending_packet send_filler get_resets
promote-idle rc t e w h = ground arith

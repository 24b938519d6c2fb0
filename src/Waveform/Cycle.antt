-- ===== src/Waveform/Cycle.antt =====
-- A whole packet cycle of a track: the preamble, at whose end the next packet is chosen, and the
-- packet's bytes.
use dccexpress_mini.Prelude.{
  ℕ, zero, suc, ◌+◌, ◌-◌, ◌*◌, ◌≤◌, ◌<◌, ◌≡◌, ap, ◌∙◌, sym, Bool, true, [], ◌≢◌, ◌∷◌, ◌++◌, arith,
  length, get_or, take, replicate,
}
use dccexpress_mini.Waveform.{
  Track, Railcom, interrupt2, preamble_step, call_timer, promote_pending_packet, send_filler,
  clear_resets, get_resets,
}
use dccexpress_mini.Waveform.Checksum.{current_bytes}
use dccexpress_mini.Waveform.Frame.{
  SameBuffers, SameBuffers-trans, AtPreamble, frame, frame_from, send, send-add, send_rest,
  wave_bit, frame_from-eq-frame,
}

-- A step of the preamble that does not end it leaves the buffers alone.
preamble_early :
    (rc : Railcom) (t : Track) (n : ℕ)
    → t.remaining_preambles ≡ suc n
    → n ≢ 1
    → let t' = interrupt2 rc t in
      (wave_bit t'.state ≡ true)
      × SameBuffers t t'
      × (t'.remaining_preambles ≡ n)
      × (t'.bits_sent ≡ t.bits_sent)
      × (t'.bytes_sent ≡ t.bytes_sent)
unfolding interrupt2 preamble_step call_timer
preamble_early rc t n e h = ground arith

-- Ones, until two are left.
preamble_ones :
    (k : ℕ) (rc : Railcom) (t : Track)
    → t.remaining_preambles ≡ k + 2
    → let (bits, t') = send k rc t in
      (bits ≡ replicate k true)
      × SameBuffers t t'
      × (t'.remaining_preambles ≡ 2)
      × (t'.bits_sent ≡ t.bits_sent)
      × (t'.bytes_sent ≡ t.bytes_sent)
unfolding send
preamble_ones zero rc t e = ground arith
preamble_ones (suc k) rc t e =
    ground (arith, preamble_early rc t (k + 2), preamble_ones k rc (interrupt2 rc t))

-- The last two bits of the preamble: the next packet is chosen at the first of them.
preamble_end :
    (rc : Railcom) (t : Track)
    → t.remaining_preambles ≡ 2
    → let (bits, t') = send 2 rc t in
      (bits ≡ true ∷ true ∷ [])
      × SameBuffers (promote_pending_packet rc t) t'
      × (t'.remaining_preambles ≡ 0)
      × (t'.bits_sent ≡ t.bits_sent)
      × (t'.bytes_sent ≡ t.bytes_sent)
unfolding send interrupt2 preamble_step call_timer promote_pending_packet send_filler clear_resets
    get_resets
preamble_end rc t e = ground arith

promote-SameBuffers :
    (rc : Railcom) {t u : Track}
    → SameBuffers t u
    → SameBuffers (promote_pending_packet rc t) (promote_pending_packet rc u)
unfolding promote_pending_packet send_filler clear_resets get_resets
promote-SameBuffers rc s = ground arith

replicate-add : (m n : ℕ) (b : Bool) → replicate (m + n) b ≡ replicate m b ++ replicate n b
replicate-add zero n b = ap (λ k. replicate k b) (let e : 0 + n ≡ n = omega arith in e)
replicate-add (suc m) n b =
    let e : suc m + n ≡ suc (m + n) = omega arith in rw e (ap (λ l. b ∷ l) (replicate-add m n b))

-- The whole preamble.
send-preamble :
    (k : ℕ) (rc : Railcom) (t : Track)
    → t.remaining_preambles ≡ k + 2
    → let (bits, t') = send (k + 2) rc t in
      (bits ≡ replicate (k + 2) true)
      × SameBuffers (promote_pending_packet rc t) t'
      × (t'.remaining_preambles ≡ 0)
      × (t'.bits_sent ≡ t.bits_sent)
      × (t'.bytes_sent ≡ t.bytes_sent)
send-preamble k rc t e =
    let (ones, s, left, bits, bytes) = preamble_ones k rc t e in
    let (two, s', left', bits', bytes') = preamble_end rc (send k rc t).1 left in
    rw (send-add k 2 rc t, replicate-add k 2 true)
      (
        rw (ones, two),
        SameBuffers-trans (promote-SameBuffers rc s) s',
        left',
        bits' ∙ bits,
        bytes' ∙ bytes,
      )

send-preamble_all :
    (m : ℕ) (rc : Railcom) (t : Track)
    → t.remaining_preambles ≡ m
    → 2 ≤ m
    → let (bits, t') = send m rc t in
      (bits ≡ replicate m true)
      × SameBuffers (promote_pending_packet rc t) t'
      × (t'.remaining_preambles ≡ 0)
      × (t'.bits_sent ≡ t.bits_sent)
      × (t'.bytes_sent ≡ t.bytes_sent)
send-preamble_all m rc t e h =
    let k : m - 2 + 2 ≡ m = omega arith in rw k at (send-preamble (m - 2) rc t (omega arith))

promote-required_preambles :
    (rc : Railcom) (t : Track)
    → (promote_pending_packet rc t).required_preambles ≡ t.required_preambles
unfolding promote_pending_packet send_filler clear_resets get_resets
promote-required_preambles rc t = ground arith

-- A track between two packets, with a preamble to send of two bits at least.
pub record IsBetween (t : Track) : Type 0 where
  pub at : AtPreamble t
  pub long : 2 ≤ t.required_preambles

-- The next packet fits the buffer, and holds bytes.
pub record IsPacket (t : Track) : Type 0 where
  pub some_bytes : 1 ≤ t.transmit_length
  pub in_buffer : t.transmit_length ≤ length t.transmit_packet
  pub are_bytes : (i : ℕ) → get_or t.transmit_packet i 0 < 256

IsPacket-SameBuffers : {t u : Track} → SameBuffers t u → IsPacket t → IsPacket u
IsPacket-SameBuffers {t} {u} s ok = record {
  some_bytes = omega arith;
  in_buffer = rw (s.transmit_packet, s.transmit_length) ok.in_buffer;
  are_bytes = rw s.transmit_packet ok.are_bytes;
}

send-packet :
    (rc : Railcom) (t : Track)
    → IsPacket t
    → t.remaining_preambles ≡ 0
    → t.bits_sent ≡ 0
    → t.bytes_sent ≡ 0
    → let (bits, t') = send (9 * t.transmit_length) rc t in
      (bits ≡ frame (current_bytes t)) × SameBuffers t t' × AtPreamble t'
send-packet rc t ok e0 e1 e2 =
    let m : t.transmit_length ≡ suc (t.transmit_length - 1) = omega arith in
    let (bits, s, at) = send_rest (t.transmit_length - 1) rc t ok.are_bytes e0 e1 (omega arith) in
    let n : 9 * t.transmit_length ≡ 9 * suc (t.transmit_length - 1) = omega arith in
    let start : frame_from t.transmit_packet t.bytes_sent (suc (t.transmit_length - 1))
        ≡ frame (current_bytes t) =
      ap (λ k. frame_from t.transmit_packet k (suc (t.transmit_length - 1))) e2
      ∙ frame_from-eq-frame t.transmit_packet 0 (suc (t.transmit_length - 1)) (omega arith)
      ∙ ap (λ k. frame (take k t.transmit_packet)) (sym m) in
    rw n (bits ∙ start, s, at)

-- The interrupts of one cycle put on the track the preamble, all ones, and then the frame of the
-- packet that is chosen during it, and leave the track between packets with the chosen buffers.
pub send-cycle :
    (rc : Railcom) (t : Track)
    → IsBetween t
    → IsPacket (promote_pending_packet rc t)
    → let p = promote_pending_packet rc t in
      let (bits, t') = send (t.required_preambles + 9 * p.transmit_length) rc t in
      (bits ≡ replicate t.required_preambles true ++ frame (current_bytes p))
      × SameBuffers p t'
      × IsBetween t'
send-cycle rc t b ok =
    let m : ℕ = t.required_preambles in
    let p : Track = promote_pending_packet rc t in
    let u : Track = (send m rc t).1 in
    let (ones, s, left, bits, bytes) = send-preamble_all m rc t b.at.preambles b.long in
    let (packet, s', at) =
      send-packet rc u (IsPacket-SameBuffers s ok) left (bits ∙ b.at.bits) (bytes ∙ b.at.bytes) in
    let l : 9 * p.transmit_length ≡ 9 * u.transmit_length =
      ap (λ n. 9 * n) (sym s.transmit_length) in
    rw (l, send-add m (9 * u.transmit_length) rc t)
      (
        rw (ones, packet)
            (ap (λ q. replicate m true ++ frame q)
              (λ i. take (s.transmit_length i) (s.transmit_packet i))),
        SameBuffers-trans s s',
        record { at = at; long = omega (arith, promote-required_preambles rc t) },
      )

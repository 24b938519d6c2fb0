-- ===== src/Waveform/Frame.antt =====
-- The bits that `interrupt2` puts on the track for the bytes of one packet.
use dccexpress_mini.Prelude.{
  ℕ, zero, suc, ◌+◌, ◌*◌, ◌/◌, ◌%◌, ◌≤◌, ◌<◌, ◌≡◌, refl, ap, ◌∙◌, Bool, true, false, ◌&&◌, not,
  List, [], ◌∷◌, ◌++◌, arith, bit_and, length, get_or, take, ◌==◌, if◌then◌else◌, drop,
}
use dccexpress_mini.Prelude.Bits.{each_below, each_below_sound}
use dccexpress_mini.Waveform.{
  Track, Railcom, WaveState, wave_mid_1, wave_high_0, interrupt2, data_step, end_byte, end_packet,
  call_timer,
}

-- A byte on the track: a zero, then its bits, the highest first.
abbrev pub byte_frame : ℕ → List Bool
byte_frame b =
    false
    ∷ (b / 128 % 2 == 1)
    ∷ (b / 64 % 2 == 1)
    ∷ (b / 32 % 2 == 1)
    ∷ (b / 16 % 2 == 1)
    ∷ (b / 8 % 2 == 1)
    ∷ (b / 4 % 2 == 1)
    ∷ (b / 2 % 2 == 1)
    ∷ (b % 2 == 1)
    ∷ []

abbrev pub frame : List ℕ → List Bool
frame [] = []
frame (b ∷ bs) = byte_frame b ++ frame bs

-- The bit that a new wave stands for.
abbrev pub wave_bit : WaveState → Bool
wave_bit wave_mid_1 = true
wave_bit _ = false

-- The next n bits, and the track behind them.
unfoldable pub send : ℕ → Railcom → Track → List Bool × Track
send zero rc t = ([], t)
send (suc n) rc t =
    let t' : Track = interrupt2 rc t in
    let rest : List Bool × Track = send n rc t' in (wave_bit t'.state ∷ rest.0, rest.1)

pub send-add :
    (m n : ℕ) (rc : Railcom) (t : Track)
    → send (m + n) rc t
      ≡ ((send m rc t).0 ++ (send n rc (send m rc t).1).0, (send n rc (send m rc t).1).1)
unfolding send
send-add zero n rc t = ap (λ k. send k rc t) (let e : 0 + n ≡ n = omega arith in e)
send-add (suc m) n rc t =
    ap (λ k. send k rc t) (let e : suc m + n ≡ suc (m + n) = omega arith in e)
    ∙ ap (λ (r : List Bool × Track). (wave_bit (interrupt2 rc t).state ∷ r.0, r.1))
        (send-add m n rc (interrupt2 rc t))

-- The wave that starts for a byte under a mask, as `interrupt2` chooses it.
abbrev new_wave : ℕ → ℕ → WaveState
new_wave b mask = if bit_and b mask == 0 then wave_high_0 else wave_mid_1

same : Bool → Bool → Bool
same true b = b
same false b = not b

same-eq : (a b : Bool) → same a b ≡ true → a ≡ b
unfolding same
same-eq a b h = ground arith

bit_table :
    each_below 256 (λ b.
      same (wave_bit (new_wave b 0x00)) false
      && same (wave_bit (new_wave b 0x80)) (b / 128 % 2 == 1)
      && same (wave_bit (new_wave b 0x40)) (b / 64 % 2 == 1)
      && same (wave_bit (new_wave b 0x20)) (b / 32 % 2 == 1)
      && same (wave_bit (new_wave b 0x10)) (b / 16 % 2 == 1)
      && same (wave_bit (new_wave b 0x08)) (b / 8 % 2 == 1)
      && same (wave_bit (new_wave b 0x04)) (b / 4 % 2 == 1)
      && same (wave_bit (new_wave b 0x02)) (b / 2 % 2 == 1)
      && same (wave_bit (new_wave b 0x01)) (b % 2 == 1))
    ≡ true
unfolding each_below same
bit_table = refl

-- The nine bits that the masks pick are the byte's frame.
masked_bits : ℕ → List Bool
masked_bits b =
    wave_bit (new_wave b 0x00)
    ∷ wave_bit (new_wave b 0x80)
    ∷ wave_bit (new_wave b 0x40)
    ∷ wave_bit (new_wave b 0x20)
    ∷ wave_bit (new_wave b 0x10)
    ∷ wave_bit (new_wave b 0x08)
    ∷ wave_bit (new_wave b 0x04)
    ∷ wave_bit (new_wave b 0x02)
    ∷ wave_bit (new_wave b 0x01)
    ∷ []

nine :
    {a0 a1 a2 a3 a4 a5 a6 a7 a8 b0 b1 b2 b3 b4 b5 b6 b7 b8 : Bool}
    → (same a0 b0
        && same a1 b1
        && same a2 b2
        && same a3 b3
        && same a4 b4
        && same a5 b5
        && same a6 b6
        && same a7 b7
        && same a8 b8)
      ≡ true
    → a0 ∷ a1 ∷ a2 ∷ a3 ∷ a4 ∷ a5 ∷ a6 ∷ a7 ∷ a8 ∷ []
      ≡ b0 ∷ b1 ∷ b2 ∷ b3 ∷ b4 ∷ b5 ∷ b6 ∷ b7 ∷ b8 ∷ []
nine {a0} {a1} {a2} {a3} {a4} {a5} {a6} {a7} {a8} {b0} {b1} {b2} {b3} {b4} {b5} {b6} {b7} {b8} h =
    ground (
      arith,
      same-eq a0 b0,
      same-eq a1 b1,
      same-eq a2 b2,
      same-eq a3 b3,
      same-eq a4 b4,
      same-eq a5 b5,
      same-eq a6 b6,
      same-eq a7 b7,
      same-eq a8 b8,
    )

masked_bits-byte_frame : (b : ℕ) → b < 256 → masked_bits b ≡ byte_frame b
unfolding masked_bits
masked_bits-byte_frame b h = nine (each_below_sound 256 _ b bit_table h)

-- A track at the start of a byte.
abbrev at_byte : Track → Track
at_byte t = record t { remaining_preambles = 0; bits_sent = 0 }

end_byte-state : (rc : Railcom) (t : Track) → (end_byte rc t).state ≡ t.state
unfolding end_byte end_packet call_timer
end_byte-state rc t = ground arith

-- The byte that is due, and the track when its last wave has been started.
abbrev due : Track → ℕ
due t = get_or t.transmit_packet t.bytes_sent 0

abbrev at_last_bit : Track → Track
at_last_bit t = record t { remaining_preambles = 0; bits_sent = 9; state = new_wave (due t) 0x01 }

send_nine :
    (rc : Railcom) (t : Track)
    → send 9 rc (at_byte t) ≡ (masked_bits (due t), end_byte rc (at_last_bit t))
unfolding send interrupt2 data_step masked_bits
send_nine rc t = rw end_byte-state

-- What the sending of a packet leaves alone.
pub record SameBuffers (t u : Track) : Type 0 where
  pub transmit_packet : u.transmit_packet ≡ t.transmit_packet
  pub transmit_length : u.transmit_length ≡ t.transmit_length
  pub transmit_repeats : u.transmit_repeats ≡ t.transmit_repeats
  pub packet_pending : u.packet_pending ≡ t.packet_pending
  pub pending_packet : u.pending_packet ≡ t.pending_packet
  pub pending_length : u.pending_length ≡ t.pending_length
  pub pending_repeats : u.pending_repeats ≡ t.pending_repeats
  pub sent_resets : u.sent_resets ≡ t.sent_resets
  pub required_preambles : u.required_preambles ≡ t.required_preambles
  pub is_main : u.is_main ≡ t.is_main

pub SameBuffers-trans : {t u v : Track} → SameBuffers t u → SameBuffers u v → SameBuffers t v
SameBuffers-trans a b = ground arith

-- The start of a preamble: all bits of the last packet are sent.
pub record AtPreamble (t : Track) : Type 0 where
  pub preambles : t.remaining_preambles ≡ t.required_preambles
  pub bits : t.bits_sent ≡ 0
  pub bytes : t.bytes_sent ≡ 0

-- The end of a byte that is not the last, and of one that is.
end_byte_more :
    (rc : Railcom) (t : Track)
    → t.bytes_sent + 1 < t.transmit_length
    → end_byte rc t ≡ record t { bits_sent = 0; bytes_sent = t.bytes_sent + 1 }
unfolding end_byte
end_byte_more rc t h = ground arith

end_byte_last :
    (rc : Railcom) (t : Track)
    → t.transmit_length ≤ t.bytes_sent + 1
    → let t' = end_byte rc (at_last_bit t) in SameBuffers t t' × AtPreamble t'
unfolding end_byte end_packet call_timer
end_byte_last rc t h = ground arith

pub frame_from : List ℕ → ℕ → ℕ → List Bool
frame_from p k zero = []
frame_from p k (suc m) = byte_frame (get_or p k 0) ++ frame_from p (k + 1) m

send_byte :
    (rc : Railcom) (t : Track)
    → due t < 256
    → t.remaining_preambles ≡ 0
    → t.bits_sent ≡ 0
    → send 9 rc t ≡ (byte_frame (due t), end_byte rc (at_last_bit t))
send_byte rc t small e0 e1 =
    ap (send 9 rc) (λ i. record t { remaining_preambles = e0 i; bits_sent = e1 i })
    ∙ send_nine rc t
    ∙ ap (λ (bits : List Bool). (bits, end_byte rc (at_last_bit t)))
        (masked_bits-byte_frame (due t) small)

-- A byte that is not the last.
send_inner :
    (n : ℕ) (rc : Railcom) (t : Track)
    → due t < 256
    → t.remaining_preambles ≡ 0
    → t.bits_sent ≡ 0
    → t.bytes_sent + 1 < t.transmit_length
    → let v : Track = record (at_last_bit t) { bits_sent = 0; bytes_sent = t.bytes_sent + 1 } in
      send (9 + n) rc t ≡ (byte_frame (due t) ++ (send n rc v).0, (send n rc v).1)
send_inner n rc t small e0 e1 h =
    send-add 9 n rc t
    ∙ ap (λ (r : List Bool × Track). (r.0 ++ (send n rc r.1).0, (send n rc r.1).1))
        (send_byte rc t small e0 e1)
    ∙ ap (λ w. (byte_frame (due t) ++ (send n rc w).0, (send n rc w).1))
        (end_byte_more rc (at_last_bit t) h)

-- From any byte on, the rest of the packet is sent, and then a preamble is due.
pub send_rest :
    (m : ℕ) (rc : Railcom) (t : Track)
    → ((i : ℕ) → get_or t.transmit_packet i 0 < 256)
    → t.remaining_preambles ≡ 0
    → t.bits_sent ≡ 0
    → t.bytes_sent + suc m ≡ t.transmit_length
    → let (bits, t') = send (9 * suc m) rc t in
      (bits ≡ frame_from t.transmit_packet t.bytes_sent (suc m)) × SameBuffers t t' × AtPreamble t'
unfolding frame_from
send_rest zero rc t bytes e0 e1 e2 =
    rw (send_byte rc t (bytes t.bytes_sent) e0 e1)
      (refl, (end_byte_last rc t (omega arith)).0, (end_byte_last rc t (omega arith)).1)
send_rest (suc m) rc t bytes e0 e1 e2 =
    let v : Track = record (at_last_bit t) { bits_sent = 0; bytes_sent = t.bytes_sent + 1 } in
    let (bits, same_buffers, at) = send_rest m rc v bytes refl refl (omega arith) in
    let nine_more : 9 * suc (suc m) ≡ 9 + 9 * suc m = omega arith in
    rw (nine_more, send_inner (9 * suc m) rc t (bytes t.bytes_sent) e0 e1 (omega arith))
      (ap (λ rest. byte_frame (due t) ++ rest) bits, ground arith, at)

drop-get_or : (p : List ℕ) (k : ℕ) → k < length p → drop k p ≡ get_or p k 0 ∷ drop (k + 1) p
drop-get_or [] k h = absurd (omega arith)
drop-get_or (x ∷ p) zero h = refl
drop-get_or (x ∷ p) (suc k) h =
    let e : suc k + 1 ≡ suc (k + 1) = omega arith in rw e (drop-get_or p k (omega arith))

pub frame_from-eq-frame :
    (p : List ℕ) (k m : ℕ) → k + m ≤ length p → frame_from p k m ≡ frame (take m (drop k p))
unfolding frame_from
frame_from-eq-frame p k zero h = refl
frame_from-eq-frame p k (suc m) h =
    rw (drop-get_or p k (omega arith)) (
      ap (λ rest. byte_frame (get_or p k 0) ++ rest)
        (frame_from-eq-frame p (k + 1) m (omega arith)))

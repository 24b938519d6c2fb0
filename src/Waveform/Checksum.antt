-- ===== src/Waveform/Checksum.antt =====
-- What `schedulePacket` leaves in the pending buffer.
use dccexpress_mini.Prelude.{
  ℕ, zero, suc, ◌+◌, ◌≤◌, ◌<◌, ◌≡◌, refl, ap, ◌∙◌, sym, true, false, some, List, [], ◌∷◌, ◌++◌,
  arith, bit_xor, length, length-append, set, take, drop, append_assoc, length-set,
}
use dccexpress_mini.Prelude.Bits.{bit_xor_cancel}
use dccexpress_mini.Waveform.{
  Track, copy_bytes, fill_pending, schedule_packet, clear_resets, max_packet_size,
}

-- The exclusive or of all bytes, as a receiver computes it.
abbrev pub xor_all : ℕ → List ℕ → ℕ
xor_all c [] = c
xor_all c (x ∷ xs) = xor_all (bit_xor c x) xs

xor_all-append : (c : ℕ) (xs ys : List ℕ) → xor_all c (xs ++ ys) ≡ xor_all (xor_all c xs) ys
xor_all-append c [] ys = refl
xor_all-append c (x ∷ xs) ys = xor_all-append (bit_xor c x) xs ys

pub copy_bytes-checksum :
    (xs : List ℕ) (b c : ℕ) (p : List ℕ) → (copy_bytes xs b c p).0 ≡ xor_all c xs
unfolding copy_bytes
copy_bytes-checksum [] b c p = refl
copy_bytes-checksum (x ∷ xs) b c p = copy_bytes-checksum xs (b + 1) (bit_xor c x) (set p b x)

set-append :
    (pre : List ℕ) (y x : ℕ) (rest : List ℕ) (b : ℕ)
    → b ≡ length pre
    → set (pre ++ (y ∷ rest)) b x ≡ pre ++ (x ∷ rest)
set-append [] y x rest b e = rw e
set-append (z ∷ pre) y x rest zero e = absurd (omega arith)
set-append (z ∷ pre) y x rest (suc b) e = ap (λ l. z ∷ l) (set-append pre y x rest b (omega arith))

-- The loop replaces as many bytes as it is given, behind those already copied.
pub copy_bytes-append :
    (xs pre rest : List ℕ) (b c : ℕ)
    → b ≡ length pre
    → length xs ≤ length rest
    → (copy_bytes xs b c (pre ++ rest)).1 ≡ pre ++ (xs ++ drop (length xs) rest)
unfolding copy_bytes
copy_bytes-append [] pre rest b c e h = refl
copy_bytes-append (x ∷ xs) pre [] b c e h = absurd (omega arith)
copy_bytes-append (x ∷ xs) pre (y ∷ rest) b c e h =
    ap (λ p. (copy_bytes xs (b + 1) (bit_xor c x) p).1)
      (set-append pre y x rest b e ∙ sym (append_assoc pre (x ∷ []) rest))
    ∙ copy_bytes-append xs (pre ++ (x ∷ [])) rest (b + 1) (bit_xor c x)
        (omega (arith, length-append pre (x ∷ []))) (omega arith)
    ∙ append_assoc pre (x ∷ []) (xs ++ drop (length xs) rest)

take-length-append : (xs ys : List ℕ) → take (length xs) (xs ++ ys) ≡ xs
take-length-append [] ys = refl
take-length-append (x ∷ xs) ys = ap (λ l. x ∷ l) (take-length-append xs ys)

-- The bytes that wait to be sent, and those that are being sent.
abbrev pub pending_bytes : Track → List ℕ
pending_bytes t = take t.pending_length t.pending_packet

abbrev pub current_bytes : Track → List ℕ
current_bytes t = take t.transmit_length t.transmit_packet

drop-cons : (n : ℕ) (l : List ℕ) → n < length l → (y : ℕ) × (r : List ℕ) × (drop n l ≡ y ∷ r)
drop-cons n [] h = absurd (omega arith)
drop-cons zero (y ∷ l) h = (y, l, refl)
drop-cons (suc n) (y ∷ l) h = drop-cons n l (omega arith)

length-copy_bytes : (xs : List ℕ) (b c : ℕ) (p : List ℕ) → length (copy_bytes xs b c p).1 ≡ length p
unfolding copy_bytes
length-copy_bytes [] b c p = refl
length-copy_bytes (x ∷ xs) b c p =
    length-copy_bytes xs (b + 1) (bit_xor c x) (set p b x) ∙ length-set p b x

-- The buffer after the loop, where a byte at least is left for the checksum.
store_checksum :
    (xs rest : List ℕ) (c : ℕ)
    → length xs < length rest
    → (take (length xs + 1) (set (copy_bytes xs 0 0 rest).1 (length xs) c) ≡ xs ++ (c ∷ []))
      × (length (set (copy_bytes xs 0 0 rest).1 (length xs) c) ≡ length rest)
store_checksum xs rest c h =
    let (y, r, e) = drop-cons (length xs) rest h in
    let written : set (copy_bytes xs 0 0 rest).1 (length xs) c ≡ (xs ++ (c ∷ [])) ++ r =
      ap (λ p. set p (length xs) c)
        (copy_bytes-append xs [] rest 0 0 refl (omega arith) ∙ ap (λ d. xs ++ d) e)
      ∙ set-append xs y c r (length xs) refl
      ∙ sym (append_assoc xs (c ∷ []) r) in
    let count : length xs + 1 ≡ length (xs ++ (c ∷ [])) =
      omega (arith, length-append xs (c ∷ [])) in
    (
      ap (λ p. take (length xs + 1) p) written
          ∙ ap (λ n. take n ((xs ++ (c ∷ [])) ++ r)) count
          ∙ take-length-append (xs ++ (c ∷ [])) r,
      length-set (copy_bytes xs 0 0 rest).1 (length xs) c ∙ length-copy_bytes xs 0 0 rest,
    )

-- A packet that fits is accepted when nothing is pending: the buffer then holds its bytes and their
-- checksum, all of which together have the exclusive or 0, to be sent once and then `repeats`
-- times. What is being sent goes on, and the count of reset packets starts again.
pub schedule_packet_lem :
    (buffer : List ℕ) (repeats : ℕ) (t : Track)
    → length buffer ≤ max_packet_size
    → t.packet_pending ≡ false
    → length t.pending_packet ≡ 6
    → (t' : Track) × (schedule_packet buffer repeats t ≡ some t')
      × (pending_bytes t' ≡ buffer ++ (xor_all 0 buffer ∷ []))
      × (xor_all 0 (pending_bytes t') ≡ 0)
      × (t'.packet_pending ≡ true)
      × (t'.pending_repeats ≡ repeats)
      × (t'.sent_resets ≡ 0)
      × (current_bytes t' ≡ current_bytes t)
unfolding schedule_packet fill_pending clear_resets
schedule_packet_lem buffer repeats t fits free six = (
  fill_pending buffer repeats t,
  ground arith,
  copied,
  ap (xor_all 0) copied
      ∙ xor_all-append 0 buffer (xor_all 0 buffer ∷ [])
      ∙ bit_xor_cancel (xor_all 0 buffer),
  refl,
  refl,
  refl,
  refl,
)
  where
    copied :
        take (length buffer + 1) (
          set
            (copy_bytes buffer 0 0 t.pending_packet).1
            (length buffer)
            (copy_bytes buffer 0 0 t.pending_packet).0)
        ≡ buffer ++ (xor_all 0 buffer ∷ [])
    copied =
        (store_checksum buffer t.pending_packet _ (omega arith)).0
        ∙ ap (λ c. buffer ++ (c ∷ [])) (copy_bytes-checksum buffer 0 0 t.pending_packet)

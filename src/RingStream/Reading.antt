-- ===== src/RingStream/Reading.antt =====
-- How a message is read: the client, the length, and that many bytes.
use dccexpress_mini.Prelude.{
  ℕ, zero, suc, ◌+◌, ◌<◌, ◌≡◌, refl, ap, ◌∙◌, sym, subst, false, Option, some, List, [], ◌∷◌, ◌++◌,
  ◌==◌, if◌then◌else◌, get_or, length, map, arith,
}
use dccexpress_mini.Dcc.State.{high_byte, low_byte}
use dccexpress_mini.RingStream.{
  RingStream, next, read_raw_byte, read, read_count, flash_insert_marker,
}
use dccexpress_mini.RingStream.Queue.{place, Holds}

unfoldable pub read_bytes : ℕ → RingStream → List (Option ℕ) × RingStream
read_bytes zero r = ([], r)
read_bytes (suc n) r =
    let (b, r') = read r in
    let rest : List (Option ℕ) × RingStream = read_bytes n r' in (b ∷ rest.0, rest.1)

-- What `read` returns for a byte.
abbrev pub shown : ℕ → Option ℕ
shown b = some (if b == flash_insert_marker then 63 else b)

place-next :
    (len pos i : ℕ) → pos < len → i + 1 < len → place len pos (suc i) ≡ place len (next len pos) i
place-next len pos i h k = ground arith

read_raw_byte-Holds :
    (b : ℕ) (bs : List ℕ) (r : RingStream)
    → Holds r (b ∷ bs)
    → ((read_raw_byte r).0 ≡ b) × Holds (read_raw_byte r).1 bs
unfolding read_raw_byte
read_raw_byte-Holds b bs r h =
    let len : ℕ = r.len in
    let room : suc (length bs) < len = h.keeps.room in
    let start : place len r.pos_read 0 ≡ r.pos_read = ground (arith, h.keeps.reader) in
    (
      ap (λ p. get_or r.buffer p 0) (sym start) ∙ h.keeps.byte 0 (omega arith),
      record {
        keeps = record {
          size = h.keeps.size;
          reader = ground (arith, h.keeps.reader);
          room = omega arith;
          byte = λ i l.
              ap (λ p. get_or r.buffer p 0)
                (sym (place-next len r.pos_read i h.keeps.reader (omega arith)))
              ∙ h.keeps.byte (suc i) (omega arith);
        };
        writer = h.writer ∙ place-next len r.pos_read (length bs) h.keeps.reader (omega arith);
        clear = refl;
      },
    )

not_empty :
    (b : ℕ) (bs : List ℕ) (r : RingStream) → Holds r (b ∷ bs) → (r.pos_read == r.pos_write) ≡ false
not_empty b bs r h = ground (arith, h.writer, h.keeps.reader, h.keeps.room)

read-Holds :
    (b : ℕ) (bs : List ℕ) (r : RingStream)
    → Holds r (b ∷ bs)
    → ((read r).0 ≡ shown b) × Holds (read r).1 bs
unfolding read
read-Holds b bs r h =
    let (e, h') = read_raw_byte-Holds b bs r h in rw (not_empty b bs r h) (ap shown e, h')

read_bytes-Holds :
    (bs q : List ℕ) (r : RingStream)
    → Holds r (bs ++ q)
    → let (t, r') = read_bytes (length bs) r in (t ≡ map shown bs) × Holds r' q
unfolding read_bytes
read_bytes-Holds [] q r h = (refl, h)
read_bytes-Holds (b ∷ bs) q r h =
    let (e, h') = read-Holds b (bs ++ q) r h in
    let (t, h'') = read_bytes-Holds bs q (read r).1 h' in
    (
      ap (λ (x : Option ℕ). x ∷ (read_bytes (length bs) (read r).1).0) e
          ∙ ap (λ (l : List (Option ℕ)). shown b ∷ l) t,
      h'',
    )

-- A message at the front of the ring is read as it was sent: the client's number, the number of
-- its bytes, and the bytes, of which each that is the marker is read as a question mark; the ring
-- then holds what stood behind the message.
pub read_bytes-message :
    (client : ℕ) (bs q : List ℕ) (r : RingStream)
    → Holds r (client ∷ high_byte (length bs) ∷ low_byte (length bs) ∷ bs ++ q)
    → length bs < 0x1_0000
    → let (c, r1) = read r in
      let (n, r2) = read_count r1 in
      let (text, r3) = read_bytes n r2 in
      (c ≡ shown client) × (n ≡ length bs) × (text ≡ map shown bs) × Holds r3 q
unfolding read_count
read_bytes-message client bs q r h l =
    let hi : ℕ = high_byte (length bs) in
    let lo : ℕ = low_byte (length bs) in
    let (c, h1) = read-Holds client (hi ∷ lo ∷ bs ++ q) r h in
    let r1 : RingStream = (read r).1 in
    let (a, h2) = read_raw_byte-Holds hi (lo ∷ bs ++ q) r1 h1 in
    let (b, h3) = read_raw_byte-Holds lo (bs ++ q) (read_raw_byte r1).1 h2 in
    let n : (read_count r1).0 ≡ length bs = omega (arith, a, b) in
    let (t, h4) = read_bytes-Holds bs q (read_count r1).1 h3 in
    let r2 : RingStream = (read_count r1).1 in
    (c, n, ap (λ k. (read_bytes k r2).0) n ∙ t, subst (λ k. Holds (read_bytes k r2).1 q) (sym n) h4)

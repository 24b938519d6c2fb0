-- ===== src/RingStream/Print.antt =====
-- What the printing of some bytes leaves in the ring, whether they fit or not.
use dccexpress_mini.Prelude.{
  ℕ, ◌+◌, ◌≤◌, ◌<◌, ◌≡◌, refl, ◌∙◌, subst, true, List, [], ◌∷◌, ◌++◌, length, length-append,
  append-nil, append_assoc, arith,
}
use native.Mathlib.Decide.{dec_lt}
use dccexpress_mini.RingStream.{RingStream, write, print}
use dccexpress_mini.RingStream.Queue.{
  Keeps, Holds, stored, stored-Keeps, write-fits, write-full, Holds-stored, get_or-append,
}

-- What writing leaves alone.
pub record Same (r r' : RingStream) : Type 0 where
  pub len : r'.len ≡ r.len
  pub pos_read : r'.pos_read ≡ r.pos_read
  pub mark : r'.mark ≡ r.mark

pub print-fits :
    (bs : List ℕ) (r : RingStream) (q : List ℕ)
    → Holds r q
    → length q + length bs < r.len
    → let r' = (print bs r).1 in Holds r' (q ++ bs) × Same r r' × (r'.count ≡ r.count + length bs)
unfolding print
print-fits [] r q h l =
    (rw (append-nil q) h, record { len = refl; pos_read = refl; mark = refl }, omega arith)
print-fits (b ∷ bs) r q h l =
    let m : length q + 1 < r.len = omega arith in
    let r' : RingStream = record (stored b r) { count = r.count + 1 } in
    let (h', same, n) =
      print-fits bs r' (q ++ (b ∷ [])) (Holds-stored b r q h m)
        (omega (arith, length-append q (b ∷ []))) in
    rw (write-fits b r q h m) (
      subst (Holds (print bs r').1) (append_assoc q (b ∷ []) bs) h',
      record { len = same.len; pos_read = same.pos_read; mark = same.mark },
      omega (arith, n),
    )

write-stopped : (b : ℕ) (r : RingStream) → r.overflow ≡ true → write b r ≡ (0, r)
unfolding write
write-stopped b r h = ground arith

pub print-stopped : (bs : List ℕ) (r : RingStream) → r.overflow ≡ true → (print bs r).1 ≡ r
unfolding print
print-stopped [] r h = refl
print-stopped (b ∷ bs) r h = rw (write-stopped b r h) (print-stopped bs r h)

pub Keeps-prefix : {r : RingStream} (q bs : List ℕ) → Keeps r (q ++ bs) → Keeps r q
Keeps-prefix {r} q bs k = record {
  size = k.size;
  reader = k.reader;
  room = omega (arith, k.room, length-append q bs);
  byte = λ i l. k.byte i (omega (arith, length-append q bs)) ∙ get_or-append q bs i ∙ ground arith;
}

pub print-drops :
    (bs : List ℕ) (r : RingStream) (q : List ℕ)
    → Holds r q
    → r.len ≤ length q + length bs
    → let r' = (print bs r).1 in Keeps r' q × Same r r' × (r'.overflow ≡ true)
unfolding print
print-drops [] r q h l = absurd (omega (arith, h.keeps.room))
print-drops (b ∷ bs) r q h l = elim (dec_lt (length q + 1) r.len) [
  | yes m ↦
      let r' : RingStream = record (stored b r) { count = r.count + 1 } in
      let (k, same, o) =
        print-drops bs r' (q ++ (b ∷ [])) (Holds-stored b r q h m)
          (omega (arith, length-append q (b ∷ []))) in
      rw (write-fits b r q h m) (
        Keeps-prefix q (b ∷ []) k,
        record { len = same.len; pos_read = same.pos_read; mark = same.mark },
        o,
      )
  | no m ↦
      let full : length q + 1 ≡ r.len = omega (arith, h.keeps.room) in
      let r' : RingStream = record (stored b r) { overflow = true } in
      let k : Keeps (stored b r) q = stored-Keeps b r q h in
      rw (write-full b r q h full, print-stopped bs r' refl)
        (
          record { size = k.size; reader = k.reader; room = k.room; byte = k.byte },
          record { len = refl; pos_read = refl; mark = refl },
          refl,
        )
]

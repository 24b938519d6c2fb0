-- ===== src/RingStream/Queue.antt =====
-- The ring as a queue of bytes: a write behind the bytes that it holds.
use dccexpress_mini.Prelude.{
  ℕ, zero, suc, ◌+◌, ◌-◌, ◌≤◌, ◌<◌, ◌≡◌, refl, ap, ◌∙◌, sym, true, false, List, [], ◌∷◌, ◌++◌, ltb,
  ◌==◌, if◌then◌else◌, get_or, set, length, length-set, length-append, arith,
}
use native.Mathlib.Decide.{dec_lt}
use dccexpress_mini.RingStream.{RingStream, next, write}

pub get_or-set :
    (bs : List ℕ) (i j v : ℕ)
    → i < length bs
    → get_or (set bs i v) j 0 ≡ (if j == i then v else get_or bs j 0)
get_or-set [] i j v h = absurd (omega arith)
get_or-set (b ∷ bs) zero zero v h = refl
get_or-set (b ∷ bs) zero (suc j) v h = ground arith
get_or-set (b ∷ bs) (suc i) zero v h = ground arith
get_or-set (b ∷ bs) (suc i) (suc j) v h = get_or-set bs i j v (omega arith) ∙ ground arith

pub get_or-append :
    (bs cs : List ℕ) (i : ℕ)
    → get_or (bs ++ cs) i 0
      ≡ (if ltb i (length bs) then get_or bs i 0 else get_or cs (i - length bs) 0)
get_or-append [] cs i = ground arith
get_or-append (b ∷ bs) cs zero = ground arith
get_or-append (b ∷ bs) cs (suc i) = get_or-append bs cs i ∙ ground arith

-- The place of byte i behind a position.
abbrev pub place : ℕ → ℕ → ℕ → ℕ
place len pos i = if ltb (pos + i) len then pos + i else pos + i - len

-- The bytes from the reader on are these, whatever comes behind them.
pub record Keeps (r : RingStream) (bs : List ℕ) : Type 0 where
  pub size : length r.buffer ≡ r.len
  pub reader : r.pos_read < r.len
  pub room : length bs < r.len
  pub byte : (i : ℕ) → i < length bs → get_or r.buffer (place r.len r.pos_read i) 0 ≡ get_or bs i 0

-- And they are all that is there.
pub record Holds (r : RingStream) (bs : List ℕ) : Type 0 where
  pub keeps : Keeps r bs
  pub writer : r.pos_write ≡ place r.len r.pos_read (length bs)
  pub clear : r.overflow ≡ false

-- A write behind the bytes.
Keeps-set :
    {r : RingStream} {bs : List ℕ} (b n : ℕ)
    → Keeps r bs
    → length bs ≤ n
    → n < r.len
    → (i : ℕ) → i < length bs
    → get_or (set r.buffer (place r.len r.pos_read n) b) (place r.len r.pos_read i) 0
      ≡ get_or bs i 0
Keeps-set {r} {bs} b n k h l i m =
    get_or-set r.buffer (place r.len r.pos_read n) (place r.len r.pos_read i) b
      (ground (arith, k.size, k.reader))
    ∙ ground (arith, k.byte i m, k.reader)

abbrev pub stored : ℕ → RingStream → RingStream
stored b r = record r { buffer = set r.buffer r.pos_write b; pos_write = next r.len r.pos_write }

module _ (b : ℕ) (r : RingStream) (bs : List ℕ) (h : Holds r bs) where
  writer-next : next r.len r.pos_write ≡ place r.len r.pos_read (length bs + 1)
  writer-next = ground (arith, h.writer, h.keeps.reader, h.keeps.room)

  stored-byte :
      (i : ℕ)
      → i < length bs
      → get_or (set r.buffer r.pos_write b) (place r.len r.pos_read i) 0 ≡ get_or bs i 0
  stored-byte = rw h.writer (Keeps-set b (length bs) h.keeps (omega arith) h.keeps.room)

  stored-last : get_or (set r.buffer r.pos_write b) (place r.len r.pos_read (length bs)) 0 ≡ b
  stored-last = rw h.writer (
      get_or-set r.buffer (place r.len r.pos_read (length bs)) (place r.len r.pos_read (length bs))
        b (ground (arith, h.keeps.size, h.keeps.reader, h.keeps.room))
      ∙ ground arith)

  pub stored-Keeps : Keeps (stored b r) bs
  stored-Keeps = record {
    size = length-set r.buffer r.pos_write b ∙ h.keeps.size;
    reader = h.keeps.reader;
    room = h.keeps.room;
    byte = stored-byte;
  }

  stored-all :
      (i : ℕ)
      → i < length (bs ++ (b ∷ []))
      → get_or (set r.buffer r.pos_write b) (place r.len r.pos_read i) 0
        ≡ get_or (bs ++ (b ∷ [])) i 0
  stored-all i l = elim (dec_lt i (length bs)) [
    | yes k ↦ stored-byte i k ∙ sym (get_or-append bs (b ∷ []) i ∙ ground arith)
    | no k ↦
        let e : i ≡ length bs = omega (arith, length-append bs (b ∷ [])) in
        rw e (stored-last ∙ sym (get_or-append bs (b ∷ []) (length bs) ∙ zeroth (length bs)))
  ]
    where
      zeroth : (n : ℕ) → (if ltb n n then get_or bs n 0 else get_or (b ∷ []) (n - n) 0) ≡ b
      zeroth n = let e : n - n ≡ 0 = omega arith in rw e (ground arith)

  -- With room for one more, the byte is added.
  pub write-fits :
      length bs + 1 < r.len → write b r ≡ (1, record (stored b r) { count = r.count + 1 })
  unfolding write
  write-fits l = ground (arith, writer-next, h.clear, h.keeps.reader)

  -- Without, the stream overflows.
  pub write-full : length bs + 1 ≡ r.len → write b r ≡ (0, record (stored b r) { overflow = true })
  unfolding write
  write-full l = ground (arith, writer-next, h.clear, h.keeps.reader)

  pub Holds-stored :
      length bs + 1 < r.len → Holds (record (stored b r) { count = r.count + 1 }) (bs ++ (b ∷ []))
  Holds-stored l = record {
    keeps = record {
      size = stored-Keeps.size;
      reader = h.keeps.reader;
      room = omega (arith, length-append bs (b ∷ []));
      byte = stored-all;
    };
    writer = writer-next ∙ ap (place r.len r.pos_read) (sym (length-append bs (b ∷ [])));
    clear = h.clear;
  }

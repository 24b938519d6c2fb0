-- ===== src/RingStream/Message.antt =====
-- Messages in the ring: one is read with its client and its length, in order, and one that does not
-- fit leaves no trace.
use dccexpress_mini.Prelude.{
  ℕ, suc, ◌+◌, ◌≤◌, ◌<◌, ◌≡◌, refl, ap, ◌∙◌, sym, subst, Bool, true, false, List, [], ◌∷◌, ◌++◌,
  set, length, length-set, length-append, append_assoc, arith,
}
use native.Mathlib.Decide.{dec_lt}
use dccexpress_mini.Dcc.State.{high_byte, low_byte}
use dccexpress_mini.RingStream.{RingStream, next, print, start_message, commit, no_client}
use dccexpress_mini.RingStream.Queue.{place, Keeps, Holds, get_or-set}
use dccexpress_mini.RingStream.Print.{print-fits, print-stopped, print-drops, Keeps-prefix}

-- A reply is collected: the client's number, its bytes, and the end of the message.
abbrev pub send : ℕ → List ℕ → RingStream → Bool × RingStream
send client bs r = commit (print bs (start_message client r)).1

Keeps-other :
    {r : RingStream} {q : List ℕ} (w m n c : ℕ) (o : Bool)
    → Keeps r q
    → Keeps (record r { pos_write = w; mark = m; count = n; ring_client = c; overflow = o }) q
Keeps-other w m n c o k = record { size = k.size; reader = k.reader; room = k.room; byte = k.byte }

Holds-other :
    {r : RingStream} {q : List ℕ} (m n c : ℕ)
    → Holds r q
    → Holds (record r { mark = m; count = n; ring_client = c }) q
Holds-other {r} m n c h = record {
  keeps = Keeps-other r.pos_write m n c r.overflow h.keeps;
  writer = h.writer;
  clear = h.clear;
}

abbrev marked : ℕ → RingStream → RingStream
marked client r = record r { mark = r.pos_write; count = r.count; ring_client = client }

start-fits :
    (client : ℕ) (r : RingStream) (q : List ℕ)
    → Holds r q
    → length q + 3 < r.len
    → let r' = start_message client r in
      Holds r' (q ++ (client ∷ 0 ∷ 0 ∷ []))
      × (r'.len ≡ r.len)
      × (r'.pos_read ≡ r.pos_read)
      × (r'.mark ≡ r.pos_write)
      × (r'.count ≡ 0)
unfolding start_message
start-fits client r q h l =
    let (h', same, n) =
      print-fits (client ∷ 0 ∷ 0 ∷ []) (marked client r) q
        (Holds-other r.pos_write r.count client h) (omega arith) in
    let r' : RingStream = (print (client ∷ 0 ∷ 0 ∷ []) (marked client r)).1 in
    (Holds-other r'.mark 0 r'.ring_client h', same.len, same.pos_read, same.mark, refl)

-- The end of a message that has overflowed.
commit-dropped :
    (r : RingStream) (q : List ℕ)
    → Keeps r q
    → r.overflow ≡ true
    → r.mark ≡ place r.len r.pos_read (length q)
    → ((commit r).0 ≡ false) × Holds (commit r).1 q
unfolding commit
commit-dropped r q k o m =
    let e : commit r ≡ (false, record r { pos_write = r.mark; overflow = false }) = ground arith in
    rw e (
      refl,
      record {
        keeps = Keeps-other r.mark r.mark r.count r.ring_client false k;
        writer = m;
        clear = refl;
      },
    )

-- The place of the end of the bytes, as seen from another state of the same reader.
same_place : {l l' p p' : ℕ} (n : ℕ) → l' ≡ l → p' ≡ p → place l p n ≡ place l' p' n
same_place {l} {l'} {p} {p'} n e f = ap (λ x. place x p n) (sym e) ∙ ap (λ x. place l' x n) (sym f)

-- A message that does not fit is dropped whole, wherever the ring overflowed: the ring holds again
-- what it held before.
pub send-dropped :
    (client : ℕ) (bs : List ℕ) (r : RingStream) (q : List ℕ)
    → Holds r q
    → r.len ≤ length q + 3 + length bs
    → ((send client bs r).0 ≡ false) × Holds (send client bs r).1 q
unfolding start_message
send-dropped client bs r q h l = elim (dec_lt (length q + 3) r.len) [
  | yes m ↦
      let (h', e, f, g, _) = start-fits client r q h m in
      let r' : RingStream = start_message client r in
      let (k, same, o) =
        print-drops bs r' (q ++ (client ∷ 0 ∷ 0 ∷ [])) h'
          (omega (arith, e, length-append q (client ∷ 0 ∷ 0 ∷ []))) in
      commit-dropped (print bs r').1 q (Keeps-prefix q (client ∷ 0 ∷ 0 ∷ []) k) o
        (same.mark ∙ g ∙ h.writer ∙ same_place (length q) (same.len ∙ e) (same.pos_read ∙ f))
  | no m ↦
      let header : List ℕ = client ∷ 0 ∷ 0 ∷ [] in
      let (k, same, o) =
        print-drops header (marked client r) q (Holds-other r.pos_write r.count client h)
          (omega arith) in
      let r' : RingStream = start_message client r in
      let p : RingStream = (print header (marked client r)).1 in
      rw (print-stopped bs r' o) (
        commit-dropped r' q (Keeps-other p.pos_write p.mark 0 p.ring_client p.overflow k) o
          (same.mark ∙ h.writer ∙ same_place (length q) same.len same.pos_read))
]

set-append : (q bs : List ℕ) (i v : ℕ) → set (q ++ bs) (length q + i) v ≡ q ++ set bs i v
set-append [] bs i v = ap (λ n. set bs n v) (let e : 0 + i ≡ i = omega arith in e)
set-append (b ∷ q) bs i v =
    let e : suc (length q) + i ≡ suc (length q + i) = omega arith in
    rw e (ap (λ (l : List ℕ). b ∷ l) (set-append q bs i v))

-- A byte that is there is overwritten.
Holds-set :
    (r : RingStream) (bs : List ℕ) (n v : ℕ)
    → Holds r bs
    → n < length bs
    → Holds (record r { buffer = set r.buffer (place r.len r.pos_read n) v }) (set bs n v)
Holds-set r bs n v h l = record {
  keeps = record {
    size = length-set r.buffer (place r.len r.pos_read n) v ∙ h.keeps.size;
    reader = h.keeps.reader;
    room = omega (arith, length-set bs n v, h.keeps.room);
    byte = λ i m.
        get_or-set r.buffer (place r.len r.pos_read n) (place r.len r.pos_read i) v
          (ground (arith, h.keeps.size, h.keeps.reader, h.keeps.room))
        ∙ ground (
          arith,
          h.keeps.byte i (omega (arith, length-set bs n v)),
          h.keeps.reader,
          h.keeps.room,
          length-set bs n v,
          get_or-set bs n i v l,
        );
  };
  writer = h.writer ∙ ap (place r.len r.pos_read) (sym (length-set bs n v));
  clear = h.clear;
}

next-place :
    (len pos i : ℕ) → pos < len → i + 1 < len → next len (place len pos i) ≡ place len pos (i + 1)
next-place len pos i h k = ground arith

commit-kept :
    (r : RingStream) (q bs : List ℕ) (client : ℕ)
    → Holds r (q ++ (client ∷ 0 ∷ 0 ∷ bs))
    → r.mark ≡ place r.len r.pos_read (length q)
    → r.count ≡ length bs
    → 0 < length bs
    → ((commit r).0 ≡ true)
      × Holds (commit r).1 (q ++ (client ∷ high_byte (length bs) ∷ low_byte (length bs) ∷ bs))
unfolding commit
commit-kept r q bs client h m n some_bytes =
    let all : List ℕ = q ++ (client ∷ 0 ∷ 0 ∷ bs) in
    let size : length all ≡ length q + 3 + length bs =
      omega (arith, length-append q (client ∷ 0 ∷ 0 ∷ bs)) in
    let room : length q + 3 + length bs < r.len = omega (arith, size, h.keeps.room) in
    let place1 = place r.len r.pos_read (length q + 1) in
    let place2 = place r.len r.pos_read (length q + 2) in
    let hi : ℕ = high_byte (length bs) in
    let lo : ℕ = low_byte (length bs) in
    let e1 : next r.len r.mark ≡ place1 =
      ap (next r.len) m ∙ next-place r.len r.pos_read (length q) h.keeps.reader (omega arith) in
    let two : length q + 1 + 1 ≡ length q + 2 = omega arith in
    let e2 : next r.len place1 ≡ place2 =
      next-place r.len r.pos_read (length q + 1) h.keeps.reader (omega arith)
      ∙ ap (place r.len r.pos_read) two in
    let r1 : RingStream = record r { buffer = set r.buffer place1 hi } in
    let r2 : RingStream = record r { buffer = set (set r.buffer place1 hi) place2 lo } in
    let h1 : Holds r1 (set all (length q + 1) hi) =
      Holds-set r all (length q + 1) hi h (omega arith) in
    let h2 : Holds r2 (set (set all (length q + 1) hi) (length q + 2) lo) =
      Holds-set r1 (set all (length q + 1) hi) (length q + 2) lo h1
        (omega (arith, length-set all (length q + 1) hi)) in
    let written : set (set all (length q + 1) hi) (length q + 2) lo ≡ q ++ (client ∷ hi ∷ lo ∷ bs) =
      ap (λ l. set l (length q + 2) lo) (set-append q (client ∷ 0 ∷ 0 ∷ bs) 1 hi)
      ∙ set-append q (client ∷ hi ∷ 0 ∷ bs) 2 lo in
    let e : commit r ≡ (true, record r2 { mark = place2; ring_client = no_client }) =
      rw (h.clear, e1, e2, n) (ground arith) in
    rw e (refl, Holds-other place2 r.count no_client (subst (Holds r2) written h2))

-- A message of at least one byte that fits is kept: behind what the ring held, it holds the
-- client's number, the high and the low byte of the length, and the bytes.
pub send-kept :
    (client : ℕ) (bs : List ℕ) (r : RingStream) (q : List ℕ)
    → Holds r q
    → length q + 3 + length bs < r.len
    → 0 < length bs
    → ((send client bs r).0 ≡ true)
      × Holds
          (send client bs r).1
          (q ++ (client ∷ high_byte (length bs) ∷ low_byte (length bs) ∷ bs))
send-kept client bs r q h l some_bytes =
    let (h', e, f, g, c) = start-fits client r q h (omega arith) in
    let r' : RingStream = start_message client r in
    let header : List ℕ = client ∷ 0 ∷ 0 ∷ [] in
    let (k, same, n) =
      print-fits bs r' (q ++ header) h' (omega (arith, e, length-append q header)) in
    commit-kept (print bs r').1 q bs client
      (subst (Holds (print bs r').1) (append_assoc q header bs) k)
      (same.mark ∙ g ∙ h.writer ∙ same_place (length q) (same.len ∙ e) (same.pos_read ∙ f))
      (omega (arith, n, c)) some_bytes

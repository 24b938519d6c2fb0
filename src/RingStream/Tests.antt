-- ===== src/RingStream/Tests.antt =====
-- A ring of sixteen bytes with a reply in it, and one that a reply does not fit.
use dccexpress_mini.Prelude.{ℕ, ◌≡◌, refl, true, false, some, List, [], ◌∷◌, arith, replicate, map}
use dccexpress_mini.RingStream.{create, read, read_count}
use dccexpress_mini.RingStream.Queue.{Holds}
use dccexpress_mini.RingStream.Message.{send, send-kept, send-dropped}
use dccexpress_mini.RingStream.Reading.{read_bytes, shown, read_bytes-message}

create-Holds : Holds (create 16) []
unfolding create
create-Holds = record {
  keeps = record {
    size = refl;
    reader = omega arith;
    room = omega arith;
    byte = λ i h. absurd (omega arith);
  };
  writer = refl;
  clear = refl;
}

abbrev reply : List ℕ
reply = 60 ∷ 49 ∷ 62 ∷ []

-- The reply of client 2, with the reader at its start.
kept-Holds : Holds (send 2 reply (create 16)).1 (2 ∷ 0 ∷ 3 ∷ 60 ∷ 49 ∷ 62 ∷ [])
unfolding create
kept-Holds = (send-kept 2 reply (create 16) [] create-Holds (omega arith) (omega arith)).1

send-kept_example :
    ((send 2 reply (create 16)).0 ≡ true)
    × Holds (send 2 reply (create 16)).1 (2 ∷ 0 ∷ 3 ∷ 60 ∷ 49 ∷ 62 ∷ [])
unfolding create
send-kept_example = send-kept 2 reply (create 16) [] create-Holds (omega arith) (omega arith)

send-dropped_example :
    ((send 2 (replicate 13 65) (create 16)).0 ≡ false)
    × Holds (send 2 (replicate 13 65) (create 16)).1 []
unfolding create
send-dropped_example = send-dropped 2 (replicate 13 65) (create 16) [] create-Holds (omega arith)

read_bytes-message_example :
    let (c, r1) = read (send 2 reply (create 16)).1 in
    let (n, r2) = read_count r1 in
    let (text, r3) = read_bytes n r2 in
    (c ≡ some 2) × (n ≡ 3) × (text ≡ map shown reply) × Holds r3 []
read_bytes-message_example =
    read_bytes-message 2 reply [] (send 2 reply (create 16)).1 kept-Holds (omega arith)

-- ===== src/Exrail/Cut.antt =====
-- EXRAIL2.cpp: the ring of tasks when one is taken out of it.
use dccexpress_mini.Prelude.{
  ℕ, ◌≡◌, ◌≢◌, refl, sym, ap, ◌∙◌, subst, false, Option, some, List, [], ◌∷◌, ◌++◌, append-nil,
  append_assoc, ◌==◌, ==_iff, arith, Bool-cases, inl, inr,
}
use dccexpress_mini.Prelude.Apart.{Absent-split}
use dccexpress_mini.Prelude.Keyed.{Absent, IsUnique, find_by}
use dccexpress_mini.Prelude.Rotated.{IsRotation, IsRotation-IsUnique}
use dccexpress_mini.Exrail.State.{Task, Exrail}
use dccexpress_mini.Exrail.Tasks.{cut}

abbrev pub address : Task → ℕ
address t = t.address

-- The ring is cut at a task that is not in the part in front of it.
cut-append :
    (a : ℕ) (before xs ys : List Task) (t : Task)
    → t.address ≡ a
    → Absent address a xs
    → cut a before (xs ++ (t ∷ ys)) ≡ ys ++ (before ++ xs)
unfolding cut
cut-append a before [] ys t e h = rw (cut, (==_iff t.address a).1 e, append-nil before) refl
cut-append a before (x ∷ xs) ys t e (ne, h) = elim (Bool-cases (x.address == a)) [
  | inl q ↦ absurd (ne ((==_iff x.address a).0 q))
  | inr q ↦
      rw (cut, q)
        (cut-append a (before ++ (x ∷ [])) xs ys t e h
          ∙ ap (λ l. ys ++ l) (append_assoc before (x ∷ []) xs))
]

find_by-append_key :
    (a : ℕ) (xs ys : List Task) (t : Task)
    → t.address ≡ a
    → Absent address a xs
    → find_by address a (xs ++ (t ∷ ys)) ≡ some t
unfolding find_by
find_by-append_key a [] ys t e h = ground (arith, e)
find_by-append_key a (x ∷ xs) ys t e (ne, h) = ground (arith, find_by-append_key a xs ys t e h)

-- In a ring that starts at a task from another place on: it is found, and the others follow it.
pub rotation-cut :
    (r : List Task) (c : Task) (l : List Task)
    → IsUnique address r
    → IsRotation r (c ∷ l)
    → (cut c.address [] r ≡ l) × (find_by address c.address r ≡ some c)
rotation-cut r c l u h = by_parts h.front h.back h.parts h.joined
  where
    by_parts :
        (xs ys : List Task)
        → r ≡ xs ++ ys
        → c ∷ l ≡ ys ++ xs
        → (cut c.address [] r ≡ l) × (find_by address c.address r ≡ some c)
    by_parts xs [] p j =
        let whole : r ≡ c ∷ l = p ∙ (append-nil xs ∙ sym j) in
        rw whole (
          cut-append c.address [] [] l c refl tt ∙ append-nil l,
          find_by-append_key c.address [] l c refl tt,
        )
    by_parts xs (y ∷ ys) p j =
        let first : y ≡ c = cc in
        let rest : l ≡ ys ++ xs = cc in
        let whole : r ≡ xs ++ (c ∷ ys) = p ∙ ap (λ z. xs ++ (z ∷ ys)) first in
        let unique : IsUnique address (c ∷ l) = IsRotation-IsUnique address r (c ∷ l) h u in
        let absent =
          (Absent-split address c.address ys xs
            (subst (Absent address c.address) rest unique.0)).1 in
        rw whole (
          cut-append c.address [] xs ys c refl absent ∙ sym rest,
          find_by-append_key c.address xs ys c refl absent,
        )

pub differs : (t u : Task) → (t.address ≢ u.address) → (t.address == u.address) ≡ false
differs t u ne = ground (arith, ne)

-- The sweep returns, and what is left is the ring as said.
unfoldable pub Leaves : Option Exrail → List Task → Type 0
Leaves o ts = (m : Exrail) × ((o ≡ some m) × IsRotation m.ring ts)

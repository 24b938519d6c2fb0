-- ===== src/Prelude/Rotated.antt =====
-- Rings: a list and the same list from another element on.
use Prim.Native.Nat.{ℕ}
use mathlib.Core.Path.{◌≡◌, refl, sym, ap, ◌∙◌, subst}
use mathlib.Core.List.{List, [], ◌∷◌, ◌++◌, append-nil, append_assoc}
use dccexpress_mini.Prelude.Keyed.{IsUnique}
use dccexpress_mini.Prelude.Apart.{IsUnique-swap}

-- The two lists are one ring: the second starts where the first is cut.
pub record IsRotation {ℓ} {A : Type ℓ} (r s : List A) : Type ℓ where
  pub front : List A
  pub back : List A
  pub parts : r ≡ front ++ back
  pub joined : s ≡ back ++ front

module _ {ℓ} {A : Type ℓ} where
  pub IsRotation-self : (xs : List A) → IsRotation xs xs
  IsRotation-self xs = record { front = []; back = xs; parts = refl; joined = sym (append-nil xs) }

  pub IsRotation-IsUnique :
      (key : A → ℕ) (r s : List A) → IsRotation r s → IsUnique key r → IsUnique key s
  IsRotation-IsUnique key r s h u =
      subst (IsUnique key) (sym h.joined)
        (IsUnique-swap key h.front h.back (subst (IsUnique key) h.parts u))

  -- The ring from its second element on.
  pub IsRotation-next :
      (r : List A) (c : A) (l : List A) → IsRotation r (c ∷ l) → IsRotation r (l ++ (c ∷ []))
  IsRotation-next r c l h = next h.front h.back h.parts h.joined
    where
      next : (xs ys : List A) → r ≡ xs ++ ys → c ∷ l ≡ ys ++ xs → IsRotation r (l ++ (c ∷ []))
      next xs [] p j = record {
        front = c ∷ [];
        back = l;
        parts = p ∙ (append-nil xs ∙ sym j);
        joined = refl;
      }
      next xs (y ∷ ys) p j =
          let first : y ≡ c = cc in
          let rest : l ≡ ys ++ xs = cc in
          record {
            front = xs ++ (c ∷ []);
            back = ys;
            parts = p ∙ (ap (λ z. xs ++ (z ∷ ys)) first ∙ sym (append_assoc xs (c ∷ []) ys));
            joined = ap (λ m. m ++ (c ∷ [])) rest ∙ append_assoc ys xs (c ∷ []);
          }

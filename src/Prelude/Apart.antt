-- ===== src/Prelude/Apart.antt =====
-- Lists whose keys differ, when they are cut and joined again, and what holds of each element.
use Prim.Native.Nat.{ℕ, ◌<◌}
use mathlib.Core.Path.{sym}
use mathlib.Core.List.{List, [], ◌∷◌, ◌++◌}
use native.Mathlib.Omega.{arith}
use mathlib.Core.Logic.{inl, inr}
use dccexpress_mini.Prelude.Tests.{◌==◌, Bool-cases}
use dccexpress_mini.Prelude.Keyed.{Absent, IsUnique, Absent-append, replace_by}

module _ {ℓ} {A : Type ℓ} where
  -- Each element has the property.
  abbrev pub Each : (A → Type 0) → List A → Type 0
  Each P [] = Unit
  Each P (x ∷ xs) = P x × Each P xs

module _ {ℓ} {A : Type ℓ} (P : A → Type 0) where
  pub Each-append : (xs ys : List A) → Each P xs → Each P ys → Each P (xs ++ ys)
  Each-append [] ys h k = k
  Each-append (x ∷ xs) ys (p, h) k = (p, Each-append xs ys h k)

  pub Each-replace_by :
      (key : A → ℕ) (n : ℕ) (y : A) (xs : List A) → P y → Each P xs → Each P (replace_by key n y xs)
  unfolding replace_by
  Each-replace_by key n y [] p h = tt
  Each-replace_by key n y (x ∷ xs) p (q, h) = elim (Bool-cases (key x == n)) [
    | inl e ↦ rw (e, replace_by) (p, h)
    | inr e ↦ rw (e, replace_by) (q, Each-replace_by key n y xs p h)
  ]

  pub Each-weaken : (Q : A → Type 0) (xs : List A) → ((x : A) → P x → Q x) → Each P xs → Each Q xs
  Each-weaken Q [] f h = tt
  Each-weaken Q (x ∷ xs) f (p, h) = (f x p, Each-weaken Q xs f h)

module _ {ℓ} {A : Type ℓ} (P Q : A → Type 0) where
  pub Each-both : (xs : List A) → Each P xs → Each Q xs → Each (λ x. P x × Q x) xs
  Each-both [] h k = tt
  Each-both (x ∷ xs) (p, h) (q, k) = ((p, q), Each-both xs h k)

module _ {ℓ} {A : Type ℓ} (key : A → ℕ) where
  -- No key of the one list is in the other.
  Apart : List A → List A → Type 0
  Apart [] ys = Unit
  Apart (x ∷ xs) ys = Absent key (key x) ys × Apart xs ys

  Apart-cons : (y : A) (ys xs : List A) → Absent key (key y) xs → Apart xs ys → Apart xs (y ∷ ys)
  unfolding Apart
  Apart-cons y ys [] h k = tt
  Apart-cons y ys (x ∷ xs) (ne, h) (a, k) = (((λ e. ne (sym e)), a), Apart-cons y ys xs h k)

  Apart-nil : (xs : List A) → Apart xs []
  unfolding Apart
  Apart-nil [] = tt
  Apart-nil (x ∷ xs) = (tt, Apart-nil xs)

  Apart-sym : (xs ys : List A) → Apart xs ys → Apart ys xs
  unfolding Apart
  Apart-sym [] ys h = Apart-nil ys
  Apart-sym (x ∷ xs) ys (a, h) = Apart-cons x xs ys a (Apart-sym xs ys h)

  pub Absent-split :
      (n : ℕ) (xs ys : List A) → Absent key n (xs ++ ys) → Absent key n xs × Absent key n ys
  Absent-split n [] ys h = (tt, h)
  Absent-split n (x ∷ xs) ys (ne, h) = let (a, b) = Absent-split n xs ys h in ((ne, a), b)

  IsUnique-split :
      (xs ys : List A) → IsUnique key (xs ++ ys) → IsUnique key xs × (IsUnique key ys × Apart xs ys)
  unfolding Apart
  IsUnique-split [] ys u = (tt, (u, tt))
  IsUnique-split (x ∷ xs) ys (a, u) =
      let (b, c) = Absent-split (key x) xs ys a in
      let (ux, (uy, d)) = IsUnique-split xs ys u in ((b, ux), (uy, (c, d)))

  IsUnique-append :
      (xs ys : List A) → IsUnique key xs → IsUnique key ys → Apart xs ys → IsUnique key (xs ++ ys)
  unfolding Apart
  IsUnique-append [] ys u v h = v
  IsUnique-append (x ∷ xs) ys (a, u) v (b, h) =
      (Absent-append key (key x) xs ys a b, IsUnique-append xs ys u v h)

  -- The parts of a list in the other order.
  pub IsUnique-swap : (xs ys : List A) → IsUnique key (xs ++ ys) → IsUnique key (ys ++ xs)
  IsUnique-swap xs ys u =
      let (ux, (uy, h)) = IsUnique-split xs ys u in IsUnique-append ys xs uy ux (Apart-sym xs ys h)

  pub IsUnique-drop_middle :
      (xs : List A) (y : A) (ys : List A) → IsUnique key (xs ++ (y ∷ ys)) → IsUnique key (xs ++ ys)
  IsUnique-drop_middle [] y ys (a, u) = u
  IsUnique-drop_middle (x ∷ xs) y ys (a, u) =
      let (b, c) = Absent-split (key x) xs (y ∷ ys) a in
      (Absent-append key (key x) xs ys b c.1, IsUnique-drop_middle xs y ys u)

  -- A key above all that are there is absent.
  pub above-Absent : (n : ℕ) (xs : List A) → Each (λ x. key x < n) xs → Absent key n xs
  above-Absent n [] h = tt
  above-Absent n (x ∷ xs) (p, h) = ((λ e. absurd (omega arith)), above-Absent n xs h)

-- ===== src/Prelude/Keyed.antt =====
-- Lists of objects with a key, as the linked lists of the program are: the first object with a key,
-- and the list without it.
use Prim.Native.Nat.{ℕ, suc, ◌<◌}
use mathlib.Core.Path.{◌≡◌, refl, ◌∙◌, sym, subst}
use mathlib.Core.Logic.{◌≢◌, inl, inr}
use mathlib.Core.Bool.{true, false}
use mathlib.Core.Option.{Option, none, some}
use mathlib.Core.List.{List, [], ◌∷◌, ◌++◌, map}
use native.Mathlib.Omega.{arith}
use dccexpress_mini.Prelude.Tests.{◌==◌, ==_iff, Bool-cases, if◌then◌else◌}
use dccexpress_mini.Prelude.Lists.{length}

module _ {ℓ} {A : Type ℓ} where
  unfoldable pub find_by : (A → ℕ) → ℕ → List A → Option A
  find_by key n [] = none
  find_by key n (x ∷ xs) = elim (key x == n) [ true ↦ some x | false ↦ find_by key n xs ]

  unfoldable pub without : (A → ℕ) → ℕ → List A → List A
  without key n [] = []
  without key n (x ∷ xs) = elim (key x == n) [ true ↦ xs | false ↦ x ∷ without key n xs ]

  -- How many objects stand behind the one with the key.
  unfoldable pub behind : (A → ℕ) → ℕ → List A → ℕ
  behind key n [] = 0
  behind key n (x ∷ xs) = elim (key x == n) [ true ↦ length xs | false ↦ behind key n xs ]

  -- The object with the key replaced by another.
  unfoldable pub replace_by : (A → ℕ) → ℕ → A → List A → List A
  replace_by key n y [] = []
  replace_by key n y (x ∷ xs) = elim (key x == n) [
    | true ↦ y ∷ xs
    | false ↦ x ∷ replace_by key n y xs
  ]

module _ {ℓ} {A : Type ℓ} where
  abbrev pub Absent : (A → ℕ) → ℕ → List A → Type 0
  Absent key n [] = Unit
  Absent key n (x ∷ xs) = (key x ≢ n) × Absent key n xs

  -- No two objects have the same key.
  abbrev pub IsUnique : (A → ℕ) → List A → Type 0
  IsUnique key [] = Unit
  IsUnique key (x ∷ xs) = Absent key (key x) xs × IsUnique key xs

module _ {ℓ} {A : Type ℓ} (key : A → ℕ) where
  pub find_by-Absent : (n : ℕ) (xs : List A) → Absent key n xs → find_by key n xs ≡ none
  unfolding find_by
  find_by-Absent n [] h = refl
  find_by-Absent n (x ∷ xs) (ne, h) = ground (arith, find_by-Absent n xs h)

  pub Absent-find_by : (n : ℕ) (xs : List A) → find_by key n xs ≡ none → Absent key n xs
  unfolding find_by
  Absent-find_by n [] h = tt
  Absent-find_by n (x ∷ xs) h = elim (Bool-cases (key x == n)) [
    | inl e ↦ let h' : some x ≡ none = rw (e, find_by) at h in cc
    | inr e ↦ ((λ p. cc (e, (==_iff (key x) n).1 p)), Absent-find_by n xs (rw (e, find_by) at h))
  ]

  pub Absent-without : (n k : ℕ) (xs : List A) → Absent key k xs → Absent key k (without key n xs)
  unfolding without
  Absent-without n k [] h = tt
  Absent-without n k (x ∷ xs) (ne, h) = elim (Bool-cases (key x == n)) [
    | inl e ↦ rw (e, without) h
    | inr e ↦ rw (e, without) (ne, Absent-without n k xs h)
  ]

  pub IsUnique-without :
      (n : ℕ) (xs : List A)
      → IsUnique key xs
      → IsUnique key (without key n xs) × Absent key n (without key n xs)
  unfolding without
  IsUnique-without n [] u = (tt, tt)
  IsUnique-without n (x ∷ xs) (a, u) = elim (Bool-cases (key x == n)) [
    | inl e ↦ rw (e, without) (u, rw (sym ((==_iff (key x) n).0 e)) a)
    | inr e ↦
        let (u', a') = IsUnique-without n xs u in
        rw (e, without)
          ((Absent-without n (key x) xs a, u'), ((λ p. cc (e, (==_iff (key x) n).1 p)), a'))
  ]

  pub find_by-without_ne :
      (n k : ℕ) (xs : List A) → k ≢ n → find_by key k (without key n xs) ≡ find_by key k xs
  unfolding find_by without
  find_by-without_ne n k [] ne = refl
  find_by-without_ne n k (x ∷ xs) ne = ground (arith, find_by-without_ne n k xs ne)

  pub length-without :
      (n : ℕ) (xs : List A) {z : A}
      → find_by key n xs ≡ some z
      → length xs ≡ suc (length (without key n xs))
  unfolding find_by without
  length-without n [] h = cc
  length-without n (x ∷ xs) {z} h = ground (arith, length-without n xs {z = z})

  pub behind-lt :
      (n : ℕ) (xs : List A) {z : A} → find_by key n xs ≡ some z → behind key n xs < length xs
  unfolding find_by behind
  behind-lt n [] h = cc
  behind-lt n (x ∷ xs) {z} h = ground (arith, behind-lt n xs {z = z})

  -- What is found has the key.
  pub find_by-key : (n : ℕ) (xs : List A) {z : A} → find_by key n xs ≡ some z → key z ≡ n
  unfolding find_by
  find_by-key n [] h = cc
  find_by-key n (x ∷ xs) {z} h = elim (Bool-cases (key x == n)) [
    | inl e ↦
        let h' : some x ≡ some z = rw (e, find_by) at h in
        let k : key x ≡ n = (==_iff (key x) n).0 e in grind (arith, h', k)
    | inr e ↦ find_by-key n xs (rw (e, find_by) at h)
  ]

  pub Absent-append :
      (n : ℕ) (xs ys : List A) → Absent key n xs → Absent key n ys → Absent key n (xs ++ ys)
  Absent-append n [] ys h k = k
  Absent-append n (x ∷ xs) ys (ne, h) k = (ne, Absent-append n xs ys h k)

  pub IsUnique-snoc :
      (xs : List A) (y : A)
      → IsUnique key xs
      → Absent key (key y) xs
      → IsUnique key (xs ++ (y ∷ []))
  IsUnique-snoc [] y u a = (tt, tt)
  IsUnique-snoc (x ∷ xs) y (b, u) (ne, a) =
      (Absent-append (key x) xs (y ∷ []) b ((λ p. ne (sym p)), tt), IsUnique-snoc xs y u a)

  pub find_by-replace_by :
      (n k : ℕ) (y : A) (xs : List A) (z : A)
      → key y ≡ n
      → find_by key n xs ≡ some z
      → find_by key k (replace_by key n y xs) ≡ (if k == n then some y else find_by key k xs)
  unfolding find_by replace_by
  find_by-replace_by n k y [] z e h = cc
  find_by-replace_by n k y (x ∷ xs) z e h = elim (Bool-cases (key x == n)) [
    | inl q ↦
        let same : key x ≡ n = (==_iff (key x) n).0 q in rw (q, replace_by) (ground (arith, same))
    | inr q ↦
        let rest = find_by-replace_by n k y xs z e (rw (q, find_by) at h) in
        rw (q, replace_by) (ground (arith, rest))
  ]

  pub Absent-replace_by :
      (n k : ℕ) (y : A) (xs : List A)
      → key y ≡ n
      → Absent key k xs
      → Absent key k (replace_by key n y xs)
  unfolding replace_by
  Absent-replace_by n k y [] e h = tt
  Absent-replace_by n k y (x ∷ xs) e (ne, h) = elim (Bool-cases (key x == n)) [
    | inl q ↦ rw (q, replace_by) (rw (e ∙ sym ((==_iff (key x) n).0 q)) ne, h)
    | inr q ↦ rw (q, replace_by) (ne, Absent-replace_by n k y xs e h)
  ]

  pub IsUnique-replace_by :
      (n : ℕ) (y : A) (xs : List A)
      → key y ≡ n
      → IsUnique key xs
      → IsUnique key (replace_by key n y xs)
  unfolding replace_by
  IsUnique-replace_by n y [] e u = tt
  IsUnique-replace_by n y (x ∷ xs) e (a, u) = elim (Bool-cases (key x == n)) [
    | inl q ↦ rw (q, replace_by) (rw (e ∙ sym ((==_iff (key x) n).0 q)) a, u)
    | inr q ↦
        rw (q, replace_by) (Absent-replace_by n (key x) y xs e a, IsUnique-replace_by n y xs e u)
  ]

  -- That the keys differ depends on the keys only.
  Absent→map : (n : ℕ) (xs : List A) → Absent key n xs → Absent (λ k. k) n (map key xs)
  Absent→map n [] h = tt
  Absent→map n (x ∷ xs) (ne, h) = (ne, Absent→map n xs h)

  map→Absent : (n : ℕ) (xs : List A) → Absent (λ k. k) n (map key xs) → Absent key n xs
  map→Absent n [] h = tt
  map→Absent n (x ∷ xs) (ne, h) = (ne, map→Absent n xs h)

  IsUnique→map : (xs : List A) → IsUnique key xs → IsUnique (λ k. k) (map key xs)
  IsUnique→map [] u = tt
  IsUnique→map (x ∷ xs) (a, u) = (Absent→map (key x) xs a, IsUnique→map xs u)

  map→IsUnique : (xs : List A) → IsUnique (λ k. k) (map key xs) → IsUnique key xs
  map→IsUnique [] u = tt
  map→IsUnique (x ∷ xs) (a, u) = (map→Absent (key x) xs a, map→IsUnique xs u)

  pub IsUnique-map : (xs ys : List A) → map key xs ≡ map key ys → IsUnique key xs → IsUnique key ys
  IsUnique-map xs ys e u = map→IsUnique ys (subst (IsUnique (λ k. k)) e (IsUnique→map xs u))

  pub without-Absent : (n : ℕ) (xs : List A) → Absent key n xs → without key n xs ≡ xs
  unfolding without
  without-Absent n [] h = refl
  without-Absent n (x ∷ xs) (ne, h) = ground (arith, without-Absent n xs h)

  pub find_by-cons :
      (n : ℕ) (x : A) (xs : List A)
      → find_by key n (x ∷ xs) ≡ (if n == key x then some x else find_by key n xs)
  unfolding find_by
  find_by-cons n x xs = ground arith

  pub replace_by-append :
      (n : ℕ) (y x : A) (xs : List A)
      → key x ≡ n
      → Absent key n xs
      → replace_by key n y (xs ++ (x ∷ [])) ≡ xs ++ (y ∷ [])
  unfolding replace_by
  replace_by-append n y x [] e h = ground (arith, e)
  replace_by-append n y x (z ∷ xs) e (ne, h) = ground (arith, replace_by-append n y x xs e h)

  pub find_by-snoc :
      (n k : ℕ) (y : A) (xs : List A)
      → key y ≡ n
      → Absent key n xs
      → find_by key k (xs ++ (y ∷ [])) ≡ (if k == n then some y else find_by key k xs)
  unfolding find_by
  find_by-snoc n k y [] e h = ground (arith, e)
  find_by-snoc n k y (x ∷ xs) e (ne, h) = ground (arith, find_by-snoc n k y xs e h)

-- ===== src/Exrail/Nesting.antt =====
-- EXRAIL2.cpp: `skipIfBlock` on code that is well nested, which is what the IF macros make.
use dccexpress_mini.Prelude.{
  ℕ, suc, ◌+◌, ◌-◌, ◌*◌, ◌<◌, ◌≡◌, refl, ap, subst, ◌∙◌, ◌⊎◌, inl, inr, Bool, true, false, ◌&&◌,
  some, List, [], ◌∷◌, ◌++◌, arith, ltb, length, append_assoc,
}
use dccexpress_mini.Exrail.Opcode.{byte_if_type, byte_endif, byte_else}
use dccexpress_mini.Exrail.State.{Build}
use dccexpress_mini.Exrail.Program.{nesting_of, skip_from, skip_if_block}
use dccexpress_mini.Exrail.Program.Skipped.{found}
use dccexpress_mini.Exrail.Program.Nesting.{no_change}

-- The instructions between an IF and its end. A block holds plain instructions and whole IFs, with
-- an ELSE or without.
pub data Code : Type 0 where
  nil : Code
  plain : ℕ → Code → Code
  nested : ℕ → Code → Code → Code
  nested_else : ℕ → Code → Code → Code → Code

-- The bytes of the instructions.
unfoldable pub bytes : Code → List ℕ
bytes nil = []
bytes (plain c rest) = c ∷ bytes rest
bytes (nested c body rest) = c ∷ (bytes body ++ (byte_endif ∷ bytes rest))
bytes (nested_else c body other rest) =
    c ∷ (bytes body ++ (byte_else ∷ (bytes other ++ (byte_endif ∷ bytes rest))))

abbrev is_plain : ℕ → Bool
is_plain c = elim (nesting_of c) [ no_change ↦ true | _ ↦ false ]

-- The IFs are IFs, and the plain instructions are none of those that nest.
unfoldable pub is_nested : Code → Bool
is_nested nil = true
is_nested (plain c rest) = is_plain c && is_nested rest
is_nested (nested c body rest) = ltb byte_if_type c && (is_nested body && is_nested rest)
is_nested (nested_else c body other rest) =
    ltb byte_if_type c && (is_nested body && (is_nested other && is_nested rest))

-- The code at a counter.
unfoldable pub Holds : Build → ℕ → List ℕ → Type 0
Holds b pc [] = Unit
Holds b pc (c ∷ cs) = (b.route_code pc ≡ c) × Holds b (pc + 3) cs

module _ (b : Build) (f pc c : ℕ) where
  skip-plain :
      (nest : ℕ)
      → b.route_code (pc + 3) ≡ c
      → is_plain c ≡ true
      → skip_from b (suc f) nest pc ≡ skip_from b f nest (pc + 3)
  unfolding skip_from
  skip-plain nest e h = ground (arith, e)

  skip-if :
      (nest : ℕ)
      → b.route_code (pc + 3) ≡ c
      → ltb byte_if_type c ≡ true
      → skip_from b (suc f) nest pc ≡ skip_from b f (nest + 1) (pc + 3)
  unfolding skip_from
  skip-if nest e h = ground (arith, e)

  skip-endif :
      (nest : ℕ)
      → b.route_code (pc + 3) ≡ byte_endif
      → skip_from b (suc f) (nest + 1 + 1) pc ≡ skip_from b f (nest + 1) (pc + 3)
  unfolding skip_from
  skip-endif nest e = ground (arith, e)

  skip-else :
      (nest : ℕ)
      → b.route_code (pc + 3) ≡ byte_else
      → skip_from b (suc f) (nest + 1 + 1) pc ≡ skip_from b f (nest + 1 + 1) (pc + 3)
  unfolding skip_from
  skip-else nest e = ground (arith, e)

skip-end :
    (b : Build) (f pc end : ℕ)
    → b.route_code (pc + 3) ≡ end
    → (end ≡ byte_endif) ⊎ (end ≡ byte_else)
    → skip_from b (suc f) 1 pc ≡ some (found (pc + 3))
unfolding skip_from
skip-end b f pc end e (inl t) = ground (arith, e, t)
skip-end b f pc end e (inr t) = ground (arith, e, t)

-- The counter past some instructions, and the fuel with one more for each.
past : ℕ → List ℕ → ℕ
past pc [] = pc
past pc (c ∷ cs) = past (pc + 3) cs

more : List ℕ → ℕ → ℕ
more [] f = f
more (c ∷ cs) f = suc (more cs f)

past-length : (pc : ℕ) (cs : List ℕ) → past pc cs ≡ pc + 3 * length cs
unfolding past
past-length pc [] = omega arith
past-length pc (c ∷ cs) = omega (arith, past-length (pc + 3) cs)

more-length : (cs : List ℕ) (f : ℕ) → more cs f ≡ length cs + f
unfolding more
more-length [] f = omega arith
more-length (c ∷ cs) f = omega (arith, more-length cs f)

past-append : (pc : ℕ) (xs ys : List ℕ) → past pc (xs ++ ys) ≡ past (past pc xs) ys
unfolding past
past-append pc [] ys = refl
past-append pc (x ∷ xs) ys = past-append (pc + 3) xs ys

more-append : (xs ys : List ℕ) (f : ℕ) → more (xs ++ ys) f ≡ more xs (more ys f)
unfolding more
more-append [] ys f = refl
more-append (x ∷ xs) ys f = ap suc (more-append xs ys f)

-- From the instruction at pc the skip passes over the instructions behind it, and its nesting goes
-- from one to another.
Goes : Build → (ℕ → ℕ) → (ℕ → ℕ) → List ℕ → Type 0
Goes b from to cs =
    (f nest pc : ℕ) (rest : List ℕ)
    → Holds b (pc + 3) (cs ++ rest)
    → (skip_from b (more cs f) (from nest) pc ≡ skip_from b f (to nest) (past pc cs))
      × Holds b (past pc cs + 3) rest

Steps : Build → (ℕ → ℕ) → (ℕ → ℕ) → ℕ → Type 0
Steps b from to c =
    (f nest pc : ℕ)
    → b.route_code (pc + 3) ≡ c
    → skip_from b (suc f) (from nest) pc ≡ skip_from b f (to nest) (pc + 3)

abbrev outer : ℕ → ℕ
outer nest = nest + 1

abbrev inner : ℕ → ℕ
inner nest = nest + 1 + 1

module _ (b : Build) where
  Goes-nil : (d : ℕ → ℕ) → Goes b d d []
  unfolding Goes past more
  Goes-nil d f nest pc rest k = (refl, k)

  Goes-cons :
      (d e g : ℕ → ℕ) (c : ℕ) (cs : List ℕ) → Steps b d e c → Goes b e g cs → Goes b d g (c ∷ cs)
  unfolding Goes Steps past more Holds
  Goes-cons d e g c cs s p f nest pc rest k =
      let (q, k') = p f nest (pc + 3) rest k.1 in (s (more cs f) nest pc k.0 ∙ q, k')

  Goes-append :
      (d e g : ℕ → ℕ) (xs ys : List ℕ) → Goes b d e xs → Goes b e g ys → Goes b d g (xs ++ ys)
  unfolding Goes
  Goes-append d e g xs ys p q f nest pc rest k =
      let k1 = subst (Holds b (pc + 3)) (append_assoc xs ys rest) k in
      let (e1, k2) = p (more ys f) nest pc (ys ++ rest) k1 in
      let (e2, k3) = q f nest (past pc xs) rest k2 in
      rw (more-append xs ys f, past-append pc xs ys) (e1 ∙ e2, k3)

  Goes-inner : (cs : List ℕ) → Goes b outer outer cs → Goes b inner inner cs
  unfolding Goes
  Goes-inner cs p f nest = p f (nest + 1)

  -- A block and the instruction at its end.
  Goes-block :
      (g : ℕ → ℕ) (c : ℕ) (xs ys : List ℕ)
      → Steps b inner g c
      → Goes b outer outer xs
      → Goes b g outer ys
      → Goes b inner outer (xs ++ (c ∷ ys))
  Goes-block g c xs ys s p q =
      Goes-append _ _ _ xs (c ∷ ys) (Goes-inner xs p) (Goes-cons _ _ _ c ys s q)

  Steps-endif : Steps b inner outer byte_endif
  unfolding Steps
  Steps-endif f nest pc e = skip-endif b f pc 0 nest e

  Steps-else : Steps b inner inner byte_else
  unfolding Steps
  Steps-else f nest pc e = skip-else b f pc 0 nest e

  Steps-plain : (c : ℕ) → is_plain c ≡ true → Steps b outer outer c
  unfolding Steps
  Steps-plain c h f nest pc e = skip-plain b f pc c (nest + 1) e h

  Steps-if : (c : ℕ) → ltb byte_if_type c ≡ true → Steps b outer inner c
  unfolding Steps
  Steps-if c h f nest pc e = skip-if b f pc c (nest + 1) e h

  Goes-bytes : (c : Code) → is_nested c ≡ true → Goes b outer outer (bytes c)
  unfolding bytes is_nested
  Goes-bytes nil h = Goes-nil outer
  Goes-bytes (plain c rest) h =
      Goes-cons _ _ _ c (bytes rest) (Steps-plain c (ground arith)) (Goes-bytes rest (ground arith))
  Goes-bytes (nested c body rest) h =
      Goes-cons _ _ _ c (bytes body ++ (byte_endif ∷ bytes rest)) (Steps-if c (ground arith)) (
        Goes-block _ byte_endif (bytes body) (bytes rest) Steps-endif
          (Goes-bytes body (ground arith)) (Goes-bytes rest (ground arith)))
  Goes-bytes (nested_else c body other rest) h =
      Goes-cons _ _ _ c (bytes body ++ (byte_else ∷ (bytes other ++ (byte_endif ∷ bytes rest))))
        (Steps-if c (ground arith))
        (Goes-block _ byte_else (bytes body) (bytes other ++ (byte_endif ∷ bytes rest)) Steps-else
          (Goes-bytes body (ground arith))
          (Goes-block _ byte_endif (bytes other) (bytes rest) Steps-endif
            (Goes-bytes other (ground arith)) (Goes-bytes rest (ground arith))))

-- From an IF or an ELSE whose block is well nested and ends with ENDIF, or with an ELSE of its own,
-- the skip finds the end of the block, given fuel for it: a block within the block does not end it.
pub skip-block :
    (b : Build) (pc : ℕ) (block : Code) (end : ℕ)
    → is_nested block ≡ true
    → (end ≡ byte_endif) ⊎ (end ≡ byte_else)
    → Holds b (pc + 3) (bytes block ++ (end ∷ []))
    → length (bytes block) < b.code_size
    → skip_if_block b pc ≡ some (found (pc + 3 + 3 * length (bytes block)))
unfolding skip_if_block Goes Holds
skip-block b pc block end h t k f =
    let cs = bytes block in
    let f' = b.code_size - length cs - 1 in
    let (e, k') = Goes-bytes b block h (suc f') 0 pc (end ∷ []) k in
    let size : b.code_size ≡ more cs (suc f') = omega (arith, more-length cs (suc f')) in
    let there : pc + 3 + 3 * length cs ≡ past pc cs + 3 = omega (arith, past-length pc cs) in
    rw (size, there) (e ∙ skip-end b f' (past pc cs) end k'.0 t)

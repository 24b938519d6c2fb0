-- ===== src/Exrail/Blink.antt =====
-- EXRAIL2.cpp: the sweep of `killBlinkOnVpin` round the ring.
use dccexpress_mini.Prelude.{
  ℕ, zero, suc, ◌+◌, ◌<◌, ◌≡◌, ◌%◌, ◌≢◌, refl, sym, ap₂, ◌∙◌, subst, Bool, true, false, Option,
  none, some, List, [], ◌∷◌, ◌++◌, append-nil, append_assoc, ◌==◌, ==_iff, if◌then◌else◌, length,
  arith, Bool-cases, inl, inr,
}
use dccexpress_mini.Prelude.Apart.{Absent-split}
use dccexpress_mini.Prelude.Keyed.{IsUnique, find_by}
use dccexpress_mini.Prelude.Rotated.{
  IsRotation, IsRotation-self, IsRotation-IsUnique, IsRotation-next,
}
use dccexpress_mini.Exrail.Opcode.{feature_blink}
use dccexpress_mini.Exrail.State.{Task, Build, Exrail, has_feature}
use dccexpress_mini.Exrail.Tasks.{cut, kill, blinks_on, kill_blinks, kill_blink_on_vpin}
use dccexpress_mini.Exrail.Cut.{address, rotation-cut, differs, Leaves}

module _ (pin last : ℕ) where
  -- The tasks that are left.
  unfoldable pub unblinked : List Task → List Task
  unblinked [] = []
  unblinked (t ∷ ts) = let rest = unblinked ts in if blinks_on pin last t then rest else t ∷ rest

  abbrev swept : Task → Exrail → Exrail
  swept c m = if blinks_on pin last c then kill c m else m

  abbrev first_of : Task → List Task → Task
  first_of c [] = c
  first_of c (n ∷ os) = n

  -- One turn of the loop, with the ring known from the task c on.
  kill_blinks-step :
      (f stop : ℕ) (c : Task) (l : List Task) (m : Exrail)
      → cut c.address [] m.ring ≡ l
      → find_by address c.address m.ring ≡ some c
      → kill_blinks (suc f) pin last stop c.address m
        ≡ elim ((first_of c l).address == stop) as (λ x. Option Exrail) [
          | true ↦ some (swept c m)
          | false ↦ kill_blinks f pin last stop (first_of c l).address (swept c m)
        ]
  unfolding kill_blinks
  kill_blinks-step f stop c l m e g = ap₂ turn e g ∙ named l
    where
      turn : List Task → Option Task → Option Exrail
      turn l o =
          let next : ℕ = elim l [ [] ↦ c.address | u ∷ us ↦ u.address ] in
          let after : Exrail = elim o [
            | none ↦ m
            | some t ↦ if blinks_on pin last t then kill t m else m
          ] in
          elim (next == stop) [ true ↦ some after | false ↦ kill_blinks f pin last stop next after ]

      named :
          (l : List Task)
          → turn l (some c) ≡ elim ((first_of c l).address == stop) as (λ x. Option Exrail) [
            | true ↦ some (swept c m)
            | false ↦ kill_blinks f pin last stop (first_of c l).address (swept c m)
          ]
      named [] = refl
      named (n ∷ os) = refl

  -- The ring after it, from the next task on.
  swept-ring :
      (c n : Task) (os : List Task) (m : Exrail)
      → IsUnique address m.ring
      → IsRotation m.ring (c ∷ (n ∷ os))
      → IsUnique address (swept c m).ring
        × IsRotation
            (swept c m).ring
            (if blinks_on pin last c then n ∷ os else n ∷ (os ++ (c ∷ [])))
  unfolding kill
  swept-ring c n os m u r = elim (Bool-cases (blinks_on pin last c)) [
    | inl e ↦
        let cut_ring : (kill c m).ring ≡ n ∷ os = (rotation-cut m.ring c (n ∷ os) u r).0 in
        rw e (
          subst (IsUnique address) (sym cut_ring)
              (IsRotation-IsUnique address m.ring (c ∷ (n ∷ os)) r u).1,
          subst (λ x. IsRotation x (n ∷ os)) (sym cut_ring) (IsRotation-self (n ∷ os)),
        )
    | inr e ↦ rw e (u, IsRotation-next m.ring c (n ∷ os) r)
  ]

  -- From the task c on, with the tasks `todo` between it and the one at which the sweep stops.
  kill_blinks-from :
      (todo done : List Task) (fuel : ℕ) (c s : Task) (m : Exrail)
      → IsUnique address m.ring
      → IsRotation m.ring (c ∷ (todo ++ (s ∷ done)))
      → length todo < fuel
      → Leaves
          (kill_blinks fuel pin last s.address c.address m)
          (s ∷ (done ++ unblinked (c ∷ todo)))
  unfolding Leaves unblinked
  kill_blinks-from todo done zero c s m u r f = absurd (omega arith)
  kill_blinks-from [] done (suc fuel) c s m u r f =
      let (others, found) = rotation-cut m.ring c (s ∷ done) u r in
      let step = kill_blinks-step fuel s.address c (s ∷ done) m others found in
      let same : (s.address == s.address) ≡ true = (==_iff s.address s.address).1 refl in
      let (u', r') = swept-ring c s done m u r in
      (
        swept c m,
        (
          rw (step, same) refl,
          elim (Bool-cases (blinks_on pin last c)) [
            | inl e ↦ rw (e, append-nil done) (rw e at r')
            | inr e ↦ rw e (rw e at r')
          ],
        ),
      )
  kill_blinks-from (n ∷ os) done (suc fuel) c s m u r f =
      let l = os ++ (s ∷ done) in
      let (others, found) = rotation-cut m.ring c (n ∷ l) u r in
      let step = kill_blinks-step fuel s.address c (n ∷ l) m others found in
      let (u', r') = swept-ring c n l m u r in
      let after : Bool → Type 0 =
        λ x. IsRotation (swept c m).ring (if x then n ∷ l else n ∷ (l ++ (c ∷ []))) in
      let unique = IsRotation-IsUnique address m.ring (c ∷ (n ∷ l)) r u in
      let absent = Absent-split address n.address os (s ∷ done) unique.1.0 in
      rw (step, differs n s (λ e. absent.1.0 (sym e)))
        (elim (Bool-cases (blinks_on pin last c)) [
          | inl e ↦
              let (m', (q, left)) =
                kill_blinks-from os done fuel n s (swept c m) u' (subst after e r') (omega arith) in
              (m', (q, rw e left))
          | inr e ↦
              let last_c =
                subst (λ x. IsRotation (swept c m).ring (n ∷ x))
                  (append_assoc os (s ∷ done) (c ∷ [])) (subst after e r') in
              let (m', (q, left)) =
                kill_blinks-from os (done ++ (c ∷ [])) fuel n s (swept c m) u' last_c
                  (omega arith) in
              (
                m',
                (
                  q,
                  rw e (
                      subst (λ x. IsRotation m'.ring (s ∷ x))
                        (append_assoc done (c ∷ []) (unblinked (n ∷ os))) left),
                ),
              )
        ])

-- In a build with BLINK, where the task at `loopTask` does not blink on the pins, and no two tasks
-- share an address, the sweep returns with the fuel given, and the ring is then the same without the
-- tasks that blink on the pins.
pub kill_blink-sweeps :
    (b : Build) (pin count : ℕ) (m : Exrail) (s : Task) (ts : List Task)
    → has_feature b feature_blink ≡ true
    → IsUnique address m.ring
    → m.ring ≡ s ∷ ts
    → blinks_on pin ((pin + count + 0xFFFF) % 0x1_0000) s ≡ false
    → Leaves
        (kill_blink_on_vpin b pin count m)
        (unblinked pin ((pin + count + 0xFFFF) % 0x1_0000) m.ring)
unfolding kill_blink_on_vpin Leaves unblinked
kill_blink-sweeps b pin count m s ts f u e q =
    rw f (subst from_ring (sym e) (sweep ts (subst (IsRotation m.ring) e (IsRotation-self m.ring))))
  where
    last : ℕ
    last = (pin + count + 0xFFFF) % 0x1_0000

    from_ring : List Task → Type 0
    from_ring r =
        Leaves
          (elim r as (λ x. Option Exrail) [
            | [] ↦ some m
            | t ∷ us ↦ kill_blinks (length r) pin last t.address t.address m
          ])
          (unblinked pin last r)

    same : (s.address == s.address) ≡ true
    same = (==_iff s.address s.address).1 refl

    sweep :
        (us : List Task)
        → IsRotation m.ring (s ∷ us)
        → Leaves
            (kill_blinks (length (s ∷ us)) pin last s.address s.address m)
            (unblinked pin last (s ∷ us))
    sweep [] r =
        let (others, found) = rotation-cut m.ring s [] u r in
        let step = kill_blinks-step pin last 0 s.address s [] m others found in
        (swept pin last s m, (rw (step, same) refl, rw q r))
    sweep (n ∷ os) r =
        let (others, found) = rotation-cut m.ring s (n ∷ os) u r in
        let step =
          kill_blinks-step pin last (suc (length os)) s.address s (n ∷ os) m others found in
        let (u', r') = swept-ring pin last s n os m u r in
        let unique = IsRotation-IsUnique address m.ring (s ∷ (n ∷ os)) r u in
        let after : Bool → Type 0 =
          λ x. IsRotation (swept pin last s m).ring (if x then n ∷ os else n ∷ (os ++ (s ∷ []))) in
        let (m', (returned, left)) =
          kill_blinks-from pin last os [] (suc (length os)) n s (swept pin last s m) u'
            (subst after q r') (omega arith) in
        (m', (rw (step, differs n s unique.0.0) returned, rw q left))

-- With one task in the ring that is not the one to stop at, nor deleted, the sweep goes on for ever.
lone-hangs :
    (fuel pin last stop : ℕ) (m : Exrail) (n : Task)
    → m.ring ≡ n ∷ []
    → n.address ≢ stop
    → blinks_on pin last n ≡ false
    → kill_blinks fuel pin last stop n.address m ≡ none
unfolding kill_blinks
lone-hangs zero pin last stop m n e ne q = refl
lone-hangs (suc fuel) pin last stop m n e ne q =
    let u : IsUnique address m.ring = rw e (tt, tt) in
    let r = subst (IsRotation m.ring) e (IsRotation-self m.ring) in
    let (others, found) = rotation-cut m.ring n [] u r in
    let other : (n.address == stop) ≡ false = ground (arith, ne) in
    kill_blinks-step pin last fuel stop n [] m others found
    ∙ rw (other, q) (lone-hangs fuel pin last stop m n e ne q)

-- Where the task at `loopTask` is a blink task on the pins and the one other task is not, the sweep
-- never returns: the task at which it would stop has been deleted.
pub kill_blinks-hangs :
    (fuel pin last : ℕ) (m : Exrail) (s n : Task)
    → m.ring ≡ s ∷ (n ∷ [])
    → s.address ≢ n.address
    → blinks_on pin last s ≡ true
    → blinks_on pin last n ≡ false
    → kill_blinks fuel pin last s.address s.address m ≡ none
unfolding kill_blinks kill
kill_blinks-hangs zero pin last m s n e ne p q = refl
kill_blinks-hangs (suc fuel) pin last m s n e ne p q =
    let u : IsUnique address m.ring = rw e (((λ h. ne (sym h)), tt), (tt, tt)) in
    let r = subst (IsRotation m.ring) e (IsRotation-self m.ring) in
    let (others, found) = rotation-cut m.ring s (n ∷ []) u r in
    kill_blinks-step pin last fuel s.address s (n ∷ []) m others found
    ∙ rw (differs n s (λ h. ne (sym h)), p)
        (lone-hangs fuel pin last s.address (kill s m) n others (λ h. ne (sym h)) q)

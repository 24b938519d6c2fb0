-- ===== src/Sensors/Debounce.antt =====
-- When the polling of a sensor reports a change.
use dccexpress_mini.Prelude.{
  ℕ, ◌≡◌, refl, ap, ◌∙◌, Bool, true, false, List, [], ◌∷◌, ◌==◌, if◌then◌else◌,
}
use dccexpress_mini.Sensors.{Sensor, settle, sample, same, vpin_none}

-- A sensor polled again and again, its pin reading these values: the changes that are reported.
pub poll : List Bool → Sensor → List Bool
poll [] s = []
poll (b ∷ bs) s =
    let (s', changed) = settle (sample (λ pin. b) s) in
    let rest : List Bool = poll bs s' in if changed then s'.active ∷ rest else rest

-- A value is reported once it was read twice in a row and is not the one that was reported last.
mutual
  pub stable : Bool → List Bool → List Bool
  stable a [] = []
  stable a (b ∷ bs) = elim (same b a) [ true ↦ stable a bs | false ↦ doubtful a bs ]

  pub doubtful : Bool → List Bool → List Bool
  doubtful a [] = []
  doubtful a (b ∷ bs) = elim (same b a) [ true ↦ stable a bs | false ↦ b ∷ stable b bs ]

abbrev polled : Bool → Bool → ℕ → Sensor → Sensor
polled input active delay s = record s {
  input_state = input;
  active = active;
  latch_delay = delay;
  polling_required = true;
}

module _ (s : Sensor) (pin : (s.pin == vpin_none) ≡ false) where
  mutual
    unfolding poll stable doubtful settle sample

    poll-stable : (bs : List Bool) (i a : Bool) → poll bs (polled i a 1 s) ≡ stable a bs
    poll-stable [] i a = refl
    poll-stable (true ∷ bs) i true = rw pin (poll-stable bs true true)
    poll-stable (true ∷ bs) i false = rw pin (poll-doubtful bs true false)
    poll-stable (false ∷ bs) i true = rw pin (poll-doubtful bs false true)
    poll-stable (false ∷ bs) i false = rw pin (poll-stable bs false false)

    poll-doubtful : (bs : List Bool) (i a : Bool) → poll bs (polled i a 0 s) ≡ doubtful a bs
    poll-doubtful [] i a = refl
    poll-doubtful (true ∷ bs) i true = rw pin (poll-stable bs true true)
    poll-doubtful (true ∷ bs) i false = rw pin (ap (λ l. true ∷ l) (poll-stable bs true true))
    poll-doubtful (false ∷ bs) i true = rw pin (ap (λ l. false ∷ l) (poll-stable bs false false))
    poll-doubtful (false ∷ bs) i false = rw pin (poll-stable bs false false)

-- A sensor that is polled on a pin, and is at the start of its delay, reports a value once its pin
-- has read it twice in a row and it is not the one that was reported last; a value that is read
-- once only is never reported.
pub poll-stable_lem :
    (s : Sensor) (bs : List Bool)
    → s.polling_required ≡ true
    → (s.pin == vpin_none) ≡ false
    → s.latch_delay ≡ 1
    → poll bs s ≡ stable s.active bs
poll-stable_lem s bs required pin delay =
    ap (poll bs) (λ i. record s { latch_delay = delay i; polling_required = required i })
    ∙ poll-stable s pin bs s.input_state s.active

-- Each report differs from the one before it.
abbrev pub Alternates : Bool → List Bool → Type 0
Alternates a [] = Unit {0}
Alternates a (b ∷ bs) = (same b a ≡ false) × Alternates b bs

mutual
  unfolding stable doubtful

  stable-Alternates : (a : Bool) (bs : List Bool) → Alternates a (stable a bs)
  stable-Alternates a [] = tt
  stable-Alternates true (true ∷ bs) = stable-Alternates true bs
  stable-Alternates true (false ∷ bs) = doubtful-Alternates true bs
  stable-Alternates false (true ∷ bs) = doubtful-Alternates false bs
  stable-Alternates false (false ∷ bs) = stable-Alternates false bs

  doubtful-Alternates : (a : Bool) (bs : List Bool) → Alternates a (doubtful a bs)
  doubtful-Alternates a [] = tt
  doubtful-Alternates true (true ∷ bs) = stable-Alternates true bs
  doubtful-Alternates true (false ∷ bs) = (refl, stable-Alternates false bs)
  doubtful-Alternates false (true ∷ bs) = (refl, stable-Alternates true bs)
  doubtful-Alternates false (false ∷ bs) = stable-Alternates false bs

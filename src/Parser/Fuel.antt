-- ===== src/Parser/Fuel.antt =====
-- That the loop of `splitValues` ends, within the fuel that it is given.
use dccexpress_mini.Prelude.{
  ℕ, zero, suc, ◌+◌, ◌-◌, ◌*◌, ◌<◌, ◌≡◌, ◌⊎◌, inl, inr, refl, ap, subst, Bool, true, false, ◌&&◌,
  not, some, List, [], ◌∷◌, ltb, ◌==◌, ltb→lt, length, arith, if_both, if_cases,
}
use dccexpress_mini.Parser.{
  State, blank, sign, building, text, Outcome, overrun, Machine, Next, go, stop, head_or_end, rest,
  is_digit, is_hex, is_keyword, upper, skip_blank, begin_text, check_sign, build_parameter,
  skip_text, turn, step, run, start, fuel, split_values, max_command_params,
}

-- How many turns a state of the machine takes at most in all.
abbrev rank : State → ℕ
rank blank = 2
rank sign = 1
rank building = 0
rank text = 0

abbrev potential : Machine → ℕ
potential m = 3 * length m.remaining + 3 * (10 - m.count) + rank m.state

abbrev Falls : ℕ → Next → Type 0
Falls p (go m) = potential m < p
Falls p (stop o m) = Unit

pub Next-cases :
    (n : Next) → ((m : Machine) × (n ≡ go m)) ⊎ ((o : Outcome) × (m : Machine) × (n ≡ stop o m))
Next-cases (go m) = inl (m, refl)
Next-cases (stop o m) = inr (o, m, refl)

and_false : (b : Bool) → (b && false) ≡ false
and_false true = refl
and_false false = refl

-- A byte that passes a test which the end does not is there to be passed.
passed :
    (test : ℕ → Bool) (cs : List ℕ)
    → test 0 ≡ false
    → test (head_or_end cs) ≡ true
    → suc (length (rest cs)) ≡ length cs
passed test [] e h = cc
passed test (c ∷ cs) e h = refl

module _ (m : Machine) (p : ℕ) (room : m.count < 10) where
  skip_blank-Falls :
      rank m.state ≡ 2 → potential m ≡ p → Falls p (skip_blank (head_or_end m.remaining) m)
  unfolding skip_blank
  skip_blank-Falls s e =
      if_cases (Falls p) (head_or_end m.remaining == 32)
        (λ h. omega (arith, passed (λ c. c == 32) m.remaining refl h, e))
        (λ h.
          if_both (Falls p) (head_or_end m.remaining == 0) tt
            (if_both (Falls p) (head_or_end m.remaining == 62) tt (omega (arith, s, e))))

  check_sign-Falls :
      rank m.state ≡ 1 → potential m ≡ p → Falls p (check_sign (head_or_end m.remaining) m)
  unfolding check_sign begin_text
  check_sign-Falls s e =
      if_cases (Falls p) (head_or_end m.remaining == 34)
        (λ h.
          if_both (Falls p) (ltb (m.count + 1) max_command_params)
            (omega (arith, passed (λ c. c == 34) m.remaining refl h, s, e)) tt)
        (λ h.
          if_cases (Falls p) (head_or_end m.remaining == 45)
            (λ h'. omega (arith, passed (λ c. c == 45) m.remaining refl h', s, e))
            (λ h'. omega (arith, s, e)))

  build_parameter-Falls :
      (usehex : Bool)
      → rank m.state ≡ 0
      → potential m ≡ p
      → Falls p (build_parameter usehex (head_or_end m.remaining) m)
  unfolding build_parameter
  build_parameter-Falls usehex s e =
      if_cases (Falls p) (is_digit (head_or_end m.remaining))
        (λ h. omega (arith, passed is_digit m.remaining refl h, s, e))
        (λ h.
          if_cases (Falls p) (usehex && is_hex (upper (head_or_end m.remaining)))
            (λ h. omega (
              arith,
              passed (λ c. usehex && is_hex (upper c)) m.remaining (and_false usehex) h,
              s,
              e,
            ))
            (λ h.
              if_cases (Falls p) (is_keyword (upper (head_or_end m.remaining)))
                (λ h. omega (arith, passed (λ c. is_keyword (upper c)) m.remaining refl h, s, e))
                (λ h.
                  if_both (Falls p) (ltb m.count max_command_params) (omega (arith, room, s, e))
                    tt)))

  skip_text-Falls :
      rank m.state ≡ 0 → potential m ≡ p → Falls p (skip_text (head_or_end m.remaining) m)
  unfolding skip_text
  skip_text-Falls s e =
      if_cases (Falls p) (head_or_end m.remaining == 0) (λ h. tt)
        (λ h.
          let shorter = passed (λ c. not (c == 0)) m.remaining refl (ap not h) in
          if_both (Falls p) (head_or_end m.remaining == 34) (omega (arith, shorter, s, e))
            (omega (arith, shorter, s, e)))

turn-Falls :
    (usehex : Bool) (s : State) (m : Machine)
    → m.count < 10
    → m.state ≡ s
    → Falls (potential m) (turn usehex s (head_or_end m.remaining) m)
unfolding turn
turn-Falls usehex blank m room e = skip_blank-Falls m (potential m) room (ap rank e) refl
turn-Falls usehex sign m room e = check_sign-Falls m (potential m) room (ap rank e) refl
turn-Falls usehex building m room e =
    build_parameter-Falls m (potential m) room usehex (ap rank e) refl
turn-Falls usehex text m room e = skip_text-Falls m (potential m) room (ap rank e) refl

step-Falls : (usehex : Bool) (m : Machine) → Falls (potential m) (step usehex m)
unfolding step
step-Falls usehex m =
    if_cases (Falls (potential m)) (ltb m.count max_command_params)
      (λ h. turn-Falls usehex m.state m (ltb→lt m.count 10 h) refl) (λ h. tt)

run-some :
    (n : ℕ) (usehex : Bool) (m : Machine)
    → potential m < n
    → (r : Outcome × Machine) × (run n usehex m ≡ some r)
unfolding run
run-some zero usehex m h = absurd (omega arith)
run-some (suc n) usehex m h = elim (Next-cases (step usehex m)) [
  | inl (m', e) ↦
      let falls = subst (Falls (potential m)) e (step-Falls usehex m) in
      rw (e, run) (run-some n usehex m' (omega (arith, falls, h)))
  | inr (o, m', e) ↦ rw (e, run) ((o, m'), refl)
]

-- The fuel is enough: `splitValues` comes to its end on every command, well formed or not.
pub split_values-some :
    (usehex : Bool) (command : List ℕ)
    → (r : Outcome × Machine) × (split_values usehex command ≡ some r)
unfolding split_values
split_values-some usehex [] = ((overrun, start []), refl)
split_values-some usehex (opcode ∷ bytes) = run-some (fuel bytes) usehex (start bytes) (omega arith)

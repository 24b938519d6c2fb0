-- ===== src/Parser/Bounds.antt =====
-- What `splitValues` returns is within its bounds, and when it writes behind its array.
use dccexpress_mini.Prelude.{
  ℕ, zero, suc, ◌+◌, ◌%◌, ◌≤◌, ◌<◌, ◌≡◌, ◌≢◌, refl, ap, ◌∙◌, sym, subst, Bool, false, ◌&&◌, Option,
  some, List, [], ◌∷◌, ltb, ◌==◌, ltb→lt, lt→ltb, true≢false, length, length-set, set, arith,
  if_both, if_cases, inl, inr,
}
use dccexpress_mini.Parser.{
  State, blank, sign, building, text, Outcome, done, broken, overrun, Machine, Next, go, stop,
  head_or_end, rest, is_digit, is_hex, is_keyword, upper, skip_blank, begin_text, check_sign,
  build_parameter, skip_text, turn, step, run, start, fuel, split_values, max_command_params,
  finish, signed,
}
use dccexpress_mini.Parser.Fuel.{Next-cases}

-- The count is within the array, which keeps its length.
pub record IsBounded (m : Machine) : Type 0 where
  pub counted : m.count ≤ 10
  pub sized : length m.result ≡ 10

-- A property of the machine that every turn keeps, and what it says where the machine stops.
abbrev Keeps : (Machine → Type 0) → (Outcome → Machine → Type 0) → Next → Type 0
Keeps P Q (go m) = P m
Keeps P Q (stop o m) = Q o m

run-invariant :
    (P : Machine → Type 0) (Q : Outcome → Machine → Type 0) (usehex : Bool)
    → ((m : Machine) → P m → Keeps P Q (step usehex m))
    → (n : ℕ) (m : Machine) {o : Outcome} {m' : Machine} → P m
    → run n usehex m ≡ some (o, m')
    → Q o m'
unfolding run
run-invariant P Q usehex keep zero m p r = cc
run-invariant P Q usehex keep (suc n) m {o} {m'} p r = elim (Next-cases (step usehex m)) [
  | inl (m1, e) ↦
      run-invariant P Q usehex keep n m1 (subst (Keeps P Q) e (keep m p)) (rw (e, run) at r)
  | inr (o1, m1, e) ↦
      let stopped : ◌≡◌ {A = Option (Outcome × Machine)} (some (o1, m1)) (some (o, m')) =
        rw (e, run) at r in
      let same_o : o1 ≡ o = cc in
      let same_m : m1 ≡ m' = cc in
      subst (λ o2. Q o2 m') same_o (subst (Q o1) same_m (subst (Keeps P Q) e (keep m p)))
]

abbrev pub InRange : Outcome → Machine → Type 0
InRange (done n) m = (n ≤ 10) × (length m.result ≡ 10)
InRange broken m = length m.result ≡ 10
InRange overrun m = length m.result ≡ 10

module _ (m : Machine) (b : IsBounded m) (room : m.count < 10) where
  same : {m' : Machine} → m'.count ≡ m.count → m'.result ≡ m.result → IsBounded m'
  same e r = record { counted = omega (arith, e, b.counted); sized = ap length r ∙ b.sized }

  finish-Keeps : Keeps IsBounded InRange (finish m)
  finish-Keeps =
      if_both (Keeps IsBounded InRange) (ltb m.count max_command_params)
        (record {
          counted = omega (arith, room);
          sized = length-set m.result m.count (signed m.negative m.running) ∙ b.sized;
        })
        b.sized

  skip_blank-Keeps : (c : ℕ) → Keeps IsBounded InRange (skip_blank c m)
  unfolding skip_blank
  skip_blank-Keeps c = if_both (Keeps IsBounded InRange) (c == 32) (same refl refl) (
      if_both (Keeps IsBounded InRange) (c == 0) b.sized
        (if_both (Keeps IsBounded InRange) (c == 62) (b.counted, b.sized) (same refl refl)))

  check_sign-Keeps : (c : ℕ) → Keeps IsBounded InRange (check_sign c m)
  unfolding check_sign begin_text
  check_sign-Keeps c =
      if_both (Keeps IsBounded InRange) (c == 34)
        (if_cases (Keeps IsBounded InRange) (ltb (m.count + 1) max_command_params)
          (λ h. record {
            counted = omega (arith, ltb→lt (m.count + 1) 10 h);
            sized =
                length-set (set m.result m.count 0x7777) (m.count + 1) ((m.position + 1) % 0x1_0000)
                ∙ length-set m.result m.count 0x7777
                ∙ b.sized;
          })
          (λ h. b.sized))
        (if_both (Keeps IsBounded InRange) (c == 45) (same refl refl) (same refl refl))

  build_parameter-Keeps :
      (usehex : Bool) (c : ℕ) → Keeps IsBounded InRange (build_parameter usehex c m)
  unfolding build_parameter
  build_parameter-Keeps usehex c = if_both (Keeps IsBounded InRange) (is_digit c) (same refl refl) (
      if_both (Keeps IsBounded InRange) (usehex && is_hex (upper c)) (same refl refl)
        (if_both (Keeps IsBounded InRange) (is_keyword (upper c)) (same refl refl) finish-Keeps))

  skip_text-Keeps : (c : ℕ) → Keeps IsBounded InRange (skip_text c m)
  unfolding skip_text
  skip_text-Keeps c =
      if_both (Keeps IsBounded InRange) (c == 0) b.sized
        (if_both (Keeps IsBounded InRange) (c == 34) (same refl refl) (same refl refl))

  turn-Keeps : (usehex : Bool) (s : State) (c : ℕ) → Keeps IsBounded InRange (turn usehex s c m)
  unfolding turn
  turn-Keeps usehex blank c = skip_blank-Keeps c
  turn-Keeps usehex sign c = check_sign-Keeps c
  turn-Keeps usehex building c = build_parameter-Keeps usehex c
  turn-Keeps usehex text c = skip_text-Keeps c

step-Keeps : (usehex : Bool) (m : Machine) → IsBounded m → Keeps IsBounded InRange (step usehex m)
unfolding step
step-Keeps usehex m b =
    if_cases (Keeps IsBounded InRange) (ltb m.count max_command_params)
      (λ h. turn-Keeps m b (ltb→lt m.count 10 h) usehex m.state (head_or_end m.remaining))
      (λ h. (b.counted, b.sized))

-- No byte is a quotation mark.
abbrev pub IsPlain : List ℕ → Type 0
IsPlain [] = Unit
IsPlain (c ∷ cs) = ((c == 34) ≡ false) × IsPlain cs

abbrev PlainMachine : Machine → Type 0
PlainMachine m = IsPlain m.remaining

abbrev NoOverrun : Outcome → Machine → Type 0
NoOverrun o m = o ≢ overrun

IsPlain-rest : (cs : List ℕ) → IsPlain cs → IsPlain (rest cs)
IsPlain-rest [] p = tt
IsPlain-rest (c ∷ cs) (h, p) = p

IsPlain-head : (cs : List ℕ) → IsPlain cs → (head_or_end cs == 34) ≡ false
IsPlain-head [] p = refl
IsPlain-head (c ∷ cs) (h, p) = h

module _ (m : Machine) (room : m.count < 10) (p : PlainMachine m) where
  plain_turn :
      (usehex : Bool) (s : State)
      → Keeps PlainMachine NoOverrun (turn usehex s (head_or_end m.remaining) m)
  unfolding turn skip_blank check_sign build_parameter skip_text
  plain_turn usehex blank =
      if_both (Keeps PlainMachine NoOverrun) (head_or_end m.remaining == 32)
        (IsPlain-rest m.remaining p)
        (if_both (Keeps PlainMachine NoOverrun) (head_or_end m.remaining == 0) (λ e. cc)
          (if_both (Keeps PlainMachine NoOverrun) (head_or_end m.remaining == 62) (λ e. cc) p))
  plain_turn usehex sign =
      if_cases (Keeps PlainMachine NoOverrun) (head_or_end m.remaining == 34)
        (λ h. absurd (true≢false (sym h ∙ IsPlain-head m.remaining p)))
        (λ h.
          if_both (Keeps PlainMachine NoOverrun) (head_or_end m.remaining == 45)
            (IsPlain-rest m.remaining p) p)
  plain_turn usehex building =
      let c = head_or_end m.remaining in
      if_both (Keeps PlainMachine NoOverrun) (is_digit c) (IsPlain-rest m.remaining p) (
        if_both (Keeps PlainMachine NoOverrun) (usehex && is_hex (upper c))
          (IsPlain-rest m.remaining p)
          (if_both (Keeps PlainMachine NoOverrun) (is_keyword (upper c))
            (IsPlain-rest m.remaining p)
            (if_cases (Keeps PlainMachine NoOverrun) (ltb m.count max_command_params) (λ h. p)
              (λ h. absurd (true≢false (sym (lt→ltb m.count 10 room) ∙ h))))))
  plain_turn usehex text =
      if_both (Keeps PlainMachine NoOverrun) (head_or_end m.remaining == 0) (λ e. cc)
        (if_both (Keeps PlainMachine NoOverrun) (head_or_end m.remaining == 34)
          (IsPlain-rest m.remaining p) (IsPlain-rest m.remaining p))

plain_step :
    (usehex : Bool) (m : Machine) → PlainMachine m → Keeps PlainMachine NoOverrun (step usehex m)
unfolding step
plain_step usehex m p =
    if_cases (Keeps PlainMachine NoOverrun) (ltb m.count max_command_params)
      (λ h. plain_turn m (ltb→lt m.count 10 h) p usehex m.state) (λ h. λ e. cc)

-- For a command without a quotation mark behind its opcode, whatever else is in it,
-- `splitValues` never writes behind its array: each parameter is stored at an index below 10, and no
-- write is an overrun. It returns at most 10 where it returns a number of
-- parameters, and the array keeps its ten values.
pub split_values-InRange :
    (usehex : Bool) (opcode : ℕ) (bytes : List ℕ) (o : Outcome) (m : Machine)
    → IsPlain bytes
    → split_values usehex (opcode ∷ bytes) ≡ some (o, m)
    → InRange o m × (o ≢ overrun)
unfolding split_values
split_values-InRange usehex opcode bytes o m p e = (
  run-invariant IsBounded InRange usehex (step-Keeps usehex) (fuel bytes) (start bytes)
      (record { counted = omega arith; sized = refl }) e,
  run-invariant PlainMachine NoOverrun usehex (plain_step usehex) (fuel bytes) (start bytes) p e,
)

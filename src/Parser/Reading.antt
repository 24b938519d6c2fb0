-- ===== src/Parser/Reading.antt =====
-- How `splitValues` reads one word: a sign, and letters, digits and underscores.
use dccexpress_mini.Prelude.{
  ℕ, zero, suc, ◌+◌, ◌-◌, ◌<◌, ◌≡◌, refl, Bool, true, false, ◌||◌, some, List, [], ◌∷◌, ◌++◌,
  lt→ltb, if◌then◌else◌, length, arith, inl, inr, map, set,
}
use dccexpress_mini.Parser.{
  State, blank, sign, building, Outcome, Machine, go, head_or_end, is_digit, is_keyword, upper,
  skip_blank, check_sign, build_parameter, turn, step, run, build, finish, digit_value, hash_value,
  signed, compiletime_keyword_hasher,
}
use dccexpress_mini.Parser.Fuel.{Next-cases}

-- The machine stops with this outcome and these parameters, after some number of turns.
abbrev pub Gives : Machine → Outcome → List ℕ → Type 0
Gives m o res = (n : ℕ) × (m' : Machine) × (run n false m ≡ some (o, m')) × (m'.result ≡ res)

after_turn :
    (m m1 : Machine) {o : Outcome} {res : List ℕ}
    → m.count < 10
    → turn false m.state (head_or_end m.remaining) m ≡ go m1
    → Gives m1 o res
    → Gives m o res
unfolding run step
after_turn m m1 room e (n, m', r, q) = (suc n, m', rw (lt→ltb m.count 10 room, e, run, step) r, q)

-- The fuel does not change where the machine stops.
pub run_unique :
    (n k : ℕ) (m : Machine) {r s : Outcome × Machine}
    → run n false m ≡ some r
    → run k false m ≡ some s
    → r ≡ s
unfolding run
run_unique zero k m p q = cc
run_unique (suc n) zero m p q = cc
run_unique (suc n) (suc k) m {r} {s} p q = elim (Next-cases (step false m)) [
  | inl (m', e) ↦ run_unique n k m' (rw (e, run) at p) (rw (e, run) at q)
  | inr (o, m', e) ↦
      let p' : some (o, m') ≡ some r = rw (e, run) at p in
      let q' : some (o, m') ≡ some s = rw (e, run) at q in cc
]

-- A word: a sign, and letters, digits and underscores.
pub record Word : Type 0 where
  pub negative : Bool
  pub characters : List ℕ

abbrev pub is_word_character : ℕ → Bool
is_word_character c = is_digit c || is_keyword (upper c)

abbrev pub AreCharacters : List ℕ → Type 0
AreCharacters [] = Unit
AreCharacters (c ∷ cs) = (is_word_character c ≡ true) × AreCharacters cs

abbrev pub IsWord : Word → Type 0
IsWord w = AreCharacters w.characters × (0 < length w.characters)

abbrev pub AreWords : List Word → Type 0
AreWords [] = Unit
AreWords (w ∷ ws) = IsWord w × AreWords ws

-- How the words are written, each behind a blank, and the end of the command.
abbrev pub written : List Word → List ℕ
written [] = 62 ∷ []
written (w ∷ ws) =
    32 ∷ (if w.negative then 45 ∷ (w.characters ++ written ws) else w.characters ++ written ws)

-- The value of a word: the hash of KeywordHasher.h of its capital letters, negated if there is a
-- sign.
abbrev pub value : Word → ℕ
value w = signed w.negative (compiletime_keyword_hasher (map upper w.characters) 0)

-- One word character.
build_parameter-character :
    (c : ℕ) (m : Machine)
    → is_word_character c ≡ true
    → build_parameter false c m
      ≡ go (
          build
            (if is_digit (upper c)
              then digit_value false m.running (upper c - 48)
              else hash_value m.running (upper c))
            m)
unfolding build_parameter
build_parameter-character c m h = ground arith

abbrev pub machine : State → ℕ → ℕ → Bool → ℕ → List ℕ → List ℕ → List ℕ → Machine
machine state count running negative position remaining result cleared = record {
  state = state;
  count = count;
  running = running;
  negative = negative;
  position = position;
  remaining = remaining;
  result = result;
  cleared = cleared;
}

skip_blank-character :
    (c : ℕ) (m : Machine)
    → is_word_character c ≡ true
    → skip_blank c m ≡ go (record m { state = sign })
unfolding skip_blank
skip_blank-character c m h = ground arith

check_sign-character :
    (c : ℕ) (m : Machine)
    → is_word_character c ≡ true
    → check_sign c m ≡ go (record m { negative = false; running = 0; state = building })
unfolding check_sign
check_sign-character c m h = ground arith

-- The end of a parameter for which there is room.
finish-go :
    (m : Machine)
    → m.count < 10
    → finish m
      ≡ go (record m {
        result = set m.result m.count (signed m.negative m.running);
        count = m.count + 1;
        state = blank;
      })
finish-go m room = rw (lt→ltb m.count 10 room) refl

module _ (n : ℕ) (room : n < 10) (res cl : List ℕ) {o : Outcome} {out : List ℕ} where
  characters :
      (cs after : List ℕ) (r : ℕ) (negative : Bool) (p : ℕ)
      → AreCharacters cs
      → ((p' : ℕ)
          → Gives
              (machine building n
                (compiletime_keyword_hasher (map upper cs) r)
                negative
                p'
                after
                res
                cl)
              o
              out)
      → Gives (machine building n r negative p (cs ++ after) res cl) o out
  unfolding turn compiletime_keyword_hasher
  characters [] after r negative p h k = k p
  characters (c ∷ cs) after r negative p (h, hs) k =
      let r' =
        if is_digit (upper c) then digit_value false r (upper c - 48) else hash_value r (upper c) in
      after_turn (machine building n r negative p (c ∷ (cs ++ after)) res cl)
        (machine building n r' negative (p + 1) (cs ++ after) res cl) room
        (build_parameter-character c (machine building n r negative p (c ∷ (cs ++ after)) res cl) h)
        (characters cs after r' negative (p + 1) hs k)

  -- What follows a word ends it.
  end_of_word :
      (ws : List Word) (r : ℕ) (negative : Bool) (p : ℕ)
      → Gives
          (machine blank (n + 1) r negative p (written ws) (set res n (signed negative r)) cl)
          o
          out
      → Gives (machine building n r negative p (written ws) res cl) o out
  unfolding turn build_parameter
  end_of_word [] r negative p k =
      after_turn (machine building n r negative p (written []) res cl)
        (machine blank (n + 1) r negative p (written []) (set res n (signed negative r)) cl) room
        (finish-go (machine building n r negative p (written []) res cl) room) k
  end_of_word (w ∷ ws) r negative p k =
      after_turn (machine building n r negative p (written (w ∷ ws)) res cl)
        (machine blank (n + 1) r negative p (written (w ∷ ws)) (set res n (signed negative r)) cl)
        room (finish-go (machine building n r negative p (written (w ∷ ws)) res cl) room) k

  signless :
      (cs after : List ℕ) (r : ℕ) (negative : Bool) (p : ℕ)
      → AreCharacters cs
      → 0 < length cs
      → Gives (machine building n 0 false p (cs ++ after) res cl) o out
      → Gives (machine blank n r negative p (cs ++ after) res cl) o out
  unfolding turn
  signless [] after r negative p h l k = absurd (omega arith)
  signless (c ∷ cs) after r negative p (h, hs) l k =
      let m = machine blank n r negative p (c ∷ (cs ++ after)) res cl in
      let m1 = machine sign n r negative p (c ∷ (cs ++ after)) res cl in
      after_turn m m1 room (skip_blank-character c m h) (
        after_turn m1 (machine building n 0 false p (c ∷ (cs ++ after)) res cl) room
          (check_sign-character c m1 h) k)

  -- A word behind its blank.
  pub word :
      (negative : Bool) (cs : List ℕ) (ws : List Word) (r : ℕ) (negative' : Bool) (p : ℕ)
      → AreCharacters cs
      → 0 < length cs
      → ((r' : ℕ) (negative'' : Bool) (p' : ℕ)
          → Gives
              (machine blank
                (n + 1)
                r'
                negative''
                p'
                (written ws)
                (set res n (value (record { negative = negative; characters = cs })))
                cl)
              o
              out)
      → Gives
          (machine blank n r negative' p
            (written (record { negative = negative; characters = cs } ∷ ws))
            res
            cl)
          o
          out
  unfolding turn skip_blank check_sign
  word true cs ws r negative' p h l k =
      let bytes = cs ++ written ws in
      after_turn (machine blank n r negative' p (32 ∷ 45 ∷ bytes) res cl)
        (machine blank n r negative' (p + 1) (45 ∷ bytes) res cl) room refl
        (after_turn (machine blank n r negative' (p + 1) (45 ∷ bytes) res cl)
          (machine sign n r negative' (p + 1) (45 ∷ bytes) res cl) room refl
          (after_turn (machine sign n r negative' (p + 1) (45 ∷ bytes) res cl)
            (machine building n 0 true (p + 1 + 1) bytes res cl) room refl
            (characters cs (written ws) 0 true (p + 1 + 1) h
              (λ p'. end_of_word ws _ true p' (k _ true p')))))
  word false cs ws r negative' p h l k =
      let bytes = cs ++ written ws in
      after_turn (machine blank n r negative' p (32 ∷ bytes) res cl)
        (machine blank n r negative' (p + 1) bytes res cl) room refl
        (signless cs (written ws) r negative' (p + 1) h l (
          characters cs (written ws) 0 false (p + 1) h
            (λ p'. end_of_word ws _ false p' (k _ false p'))))

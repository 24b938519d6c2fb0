-- ===== src/Parser/Numbers.antt =====
-- The numbers in a command: what is written in decimal digits is read back.
use dccexpress_mini.Prelude.{
  ℕ, zero, suc, ◌+◌, ◌-◌, ◌*◌, ◌/◌, ◌%◌, ◌≤◌, ◌<◌, ◌≡◌, refl, ap, ◌∙◌, Bool, true, false, some,
  List, [], ◌∷◌, ◌++◌, ltb, if◌then◌else◌, length, arith, map, replicate, length-append, length-map,
  if_cases, ap₂, ltb→lt,
}
use dccexpress_mini.Parser.{
  done, Machine, split_values, max_command_params, digit_value, signed, compiletime_keyword_hasher,
  is_digit, upper,
}
use dccexpress_mini.Parser.Reading.{Word, written, value, AreWords, IsWord, AreCharacters}
use dccexpress_mini.Parser.Words.{split_values-written}

-- The decimal digits, at least one and at most n + 1 of them.
pub decimal : ℕ → ℕ → List ℕ
decimal zero v = (48 + v % 10) ∷ []
decimal (suc n) v =
    let more = decimal n (v / 10) in
    if ltb v 10 then (48 + v) ∷ [] else more ++ ((48 + v % 10) ∷ [])

abbrev pub AreDigits : List ℕ → Type 0
AreDigits [] = Unit
AreDigits (c ∷ cs) = (is_digit c ≡ true) × AreDigits cs

AreDigits-append : (xs ys : List ℕ) → AreDigits xs → AreDigits ys → AreDigits (xs ++ ys)
AreDigits-append [] ys h k = k
AreDigits-append (x ∷ xs) ys (h, hs) k = (h, AreDigits-append xs ys hs k)

digit-Is : (v : ℕ) → v < 10 → is_digit (48 + v) ≡ true
digit-Is v h = ground arith

pub decimal-AreDigits : (n v : ℕ) → AreDigits (decimal n v)
unfolding decimal
decimal-AreDigits zero v = (digit-Is (v % 10) (omega arith), tt)
decimal-AreDigits (suc n) v =
    if_cases AreDigits (ltb v 10) (λ h. (digit-Is v (ltb→lt v 10 h), tt))
      (λ h.
        AreDigits-append (decimal n (v / 10)) ((48 + v % 10) ∷ []) (decimal-AreDigits n (v / 10))
          (digit-Is (v % 10) (omega arith), tt))

compiletime_keyword_hasher-append :
    (xs ys : List ℕ) (r : ℕ)
    → compiletime_keyword_hasher (xs ++ ys) r
      ≡ compiletime_keyword_hasher ys (compiletime_keyword_hasher xs r)
unfolding compiletime_keyword_hasher
compiletime_keyword_hasher-append [] ys r = refl
compiletime_keyword_hasher-append (x ∷ xs) ys r = compiletime_keyword_hasher-append xs ys _

upper-digit : (c : ℕ) → is_digit c ≡ true → upper c ≡ c
upper-digit c h = ground (arith, h)

map-upper : (cs : List ℕ) → AreDigits cs → map upper cs ≡ cs
map-upper [] h = refl
map-upper (c ∷ cs) (h, hs) = ap₂ (λ x l. x ∷ l) (upper-digit c h) (map-upper cs hs)

-- The hash of a number is the number.
hasher-digit :
    (v r : ℕ)
    → v < 10
    → r * 10 + v < 0x1_0000
    → compiletime_keyword_hasher ((48 + v) ∷ []) r ≡ 10 * r + v
unfolding compiletime_keyword_hasher digit_value
hasher-digit v r h l =
    let exact : (10 * r + (48 + v - 48)) % 0x1_0000 ≡ 10 * r + v = omega arith in
    rw (digit-Is v h, digit_value) exact

-- What n + 1 digits can hold.
abbrev pub limit : ℕ → ℕ
limit zero = 10
limit (suc n) = 10 * limit n

pub hasher-decimal :
    (n v : ℕ) → v < limit n → v < 0x1_0000 → compiletime_keyword_hasher (decimal n v) 0 ≡ v
unfolding decimal
hasher-decimal zero v h l = hasher-digit (v % 10) 0 (omega arith) (omega arith) ∙ omega (arith, h)
hasher-decimal (suc n) v h l =
    if_cases (λ cs. compiletime_keyword_hasher cs 0 ≡ v) (ltb v 10)
      (λ small. hasher-digit v 0 (ltb→lt v 10 small) (omega arith) ∙ omega arith)
      (λ large.
        let before : compiletime_keyword_hasher (decimal n (v / 10)) 0 ≡ v / 10 =
          hasher-decimal n (v / 10) (omega (arith, h)) (omega (arith, l)) in
        compiletime_keyword_hasher-append (decimal n (v / 10)) ((48 + v % 10) ∷ []) 0
        ∙ ap (compiletime_keyword_hasher ((48 + v % 10) ∷ [])) before
        ∙ hasher-digit (v % 10) (v / 10) (omega arith) (omega (arith, l))
        ∙ omega arith)

-- The word for a 16-bit value, with a minus sign for the negative ones.
abbrev pub number : ℕ → Word
number v =
    if ltb v 0x8000
    then record { negative = false; characters = decimal 4 v }
    else record { negative = true; characters = decimal 4 (0x1_0000 - v) }

AreDigits→AreCharacters : (cs : List ℕ) → AreDigits cs → AreCharacters cs
AreDigits→AreCharacters [] h = tt
AreDigits→AreCharacters (c ∷ cs) (h, hs) = (ground (arith, h), AreDigits→AreCharacters cs hs)

length-decimal : (n v : ℕ) → 0 < length (decimal n v)
unfolding decimal
length-decimal zero v = omega arith
length-decimal (suc n) v =
    if_cases (λ (cs : List ℕ). 0 < length cs) (ltb v 10) (λ h. omega arith)
      (λ h. omega (arith, length-append (decimal n (v / 10)) ((48 + v % 10) ∷ [])))

decimal-IsWord :
    (negative : Bool) (v : ℕ) → IsWord (record { negative = negative; characters = decimal 4 v })
decimal-IsWord negative v =
    (AreDigits→AreCharacters (decimal 4 v) (decimal-AreDigits 4 v), length-decimal 4 v)

number-IsWord : (v : ℕ) → IsWord (number v)
number-IsWord v =
    if_cases IsWord (ltb v 0x8000) (λ h. decimal-IsWord false v)
      (λ h. decimal-IsWord true (0x1_0000 - v))

value-decimal :
    (negative : Bool) (v : ℕ)
    → v < 0x1_0000
    → value (record { negative = negative; characters = decimal 4 v }) ≡ signed negative v
value-decimal negative v h =
    ap (λ cs. signed negative (compiletime_keyword_hasher cs 0))
      (map-upper (decimal 4 v) (decimal-AreDigits 4 v))
    ∙ ap (signed negative) (hasher-decimal 4 v (omega (arith, h)) h)

value-number : (v : ℕ) → v < 0x1_0000 → value (number v) ≡ v
unfolding signed
value-number v h =
    if_cases (λ (w : Word). value w ≡ v) (ltb v 0x8000)
      (λ small. value-decimal false v h ∙ omega (arith, h))
      (λ large.
        let big : 0x8000 ≤ v = ground (arith, large) in
        value-decimal true (0x1_0000 - v) (omega (arith, big)) ∙ omega (arith, big, h))

abbrev pub AreWide : List ℕ → Type 0
AreWide [] = Unit
AreWide (v ∷ vs) = (v < 0x1_0000) × AreWide vs

numbers-AreWords : (vs : List ℕ) → AreWords (map number vs)
numbers-AreWords [] = tt
numbers-AreWords (v ∷ vs) = (number-IsWord v, numbers-AreWords vs)

values-numbers : (vs : List ℕ) → AreWide vs → map value (map number vs) ≡ vs
values-numbers [] h = refl
values-numbers (v ∷ vs) (h, hs) = ap₂ (λ x l. x ∷ l) (value-number v h) (values-numbers vs hs)

-- At most ten 16-bit values, written in decimal behind an opcode, are read back by `splitValues`:
-- it returns their number, and the array holds them, with 0 behind the last one.
pub split_values-numbers :
    (opcode : ℕ) (vs : List ℕ)
    → AreWide vs
    → length vs ≤ 10
    → (m : Machine) × (split_values false (opcode ∷ written (map number vs))
        ≡ some (done (length vs), m))
      × (m.result ≡ vs ++ replicate (max_command_params - length vs) 0)
split_values-numbers opcode vs wide l =
    let (m, s, r) =
      split_values-written opcode (map number vs) (numbers-AreWords vs)
        (omega (arith, l, length-map vs number)) in
    (
      m,
      s ∙ ap (λ n. some (done n, m)) (length-map vs number),
      r ∙ (λ i.
          values-numbers vs wide i ++ replicate (max_command_params - length-map vs number i) 0),
    )

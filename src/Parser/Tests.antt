-- ===== src/Parser/Tests.antt =====
-- The theorems on the parser at concrete inputs.
use dccexpress_mini.Prelude.{ℕ, ◌≡◌, ◌≢◌, refl, true, false, List, [], ◌∷◌, Option, none, some, ◌-◌}
use dccexpress_mini.Parser.{
  Outcome, done, broken, overrun, Machine, start, split_values, compiletime_keyword_hasher,
}
use dccexpress_mini.Parser.Fuel.{split_values-some}
use dccexpress_mini.Parser.Reading.{Word}
use dccexpress_mini.Parser.Bounds.{InRange, split_values-InRange}

-- The static assertions of KeywordHasher.h: MAIN is 11339, and SLOW is -17209.
main_hash : compiletime_keyword_hasher (77 ∷ 65 ∷ 73 ∷ 78 ∷ []) 0 ≡ 11_339
unfolding compiletime_keyword_hasher
main_hash = refl

slow_hash : compiletime_keyword_hasher (83 ∷ 76 ∷ 79 ∷ 87 ∷ []) 0 ≡ 0x1_0000 - 17_209
unfolding compiletime_keyword_hasher
slow_hash = refl

-- Nine parameters, and then a string: the parameter behind the ninth is the marker, and the next
-- one would be written behind the array.
abbrev nine_and_text : List ℕ
nine_and_text =
    90 ∷ 32 ∷ 49 ∷ 32 ∷ 49 ∷ 32 ∷ 49 ∷ 32 ∷ 49 ∷ 32 ∷ 49 ∷ 32 ∷ 49 ∷ 32 ∷ 49 ∷ 32 ∷ 49 ∷ 32 ∷ 49
    ∷ 32 ∷ 34 ∷ 120 ∷ 34 ∷ 62 ∷ []

outcome : Option (Outcome × Machine) → Outcome
outcome none = broken
outcome (some (o, m)) = o

abbrev found : List ℕ → Machine
found command = elim (split_values false command) [ none ↦ start [] | some (o, m) ↦ m ]

string_overrun : outcome (split_values false nine_and_text) ≡ overrun
unfolding split_values outcome
string_overrun = refl

blank_overrun : outcome (split_values false []) ≡ overrun
unfolding split_values outcome
blank_overrun = refl

-- `<T 7 -x_2>` in part.
abbrev two_words : List Word
two_words =
    record { negative = false; characters = 55 ∷ [] }
    ∷ record { negative = true; characters = 120 ∷ 95 ∷ 50 ∷ [] }
    ∷ []

-- `<T 7>`.
abbrev one_number : List ℕ
one_number = 84 ∷ 32 ∷ 55 ∷ 62 ∷ []

split_values-InRange_example : InRange (done 1) (found one_number) × (done 1 ≢ overrun)
unfolding split_values
split_values-InRange_example =
    split_values-InRange false 84 (32 ∷ 55 ∷ 62 ∷ []) (done 1) (found one_number)
      (refl, (refl, (refl, tt))) refl

split_values-some_example : (r : Outcome × Machine) × (split_values true nine_and_text ≡ some r)
split_values-some_example = split_values-some true nine_and_text

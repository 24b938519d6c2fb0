-- ===== src/Exrail/Lookup.antt =====
-- EXRAIL2.cpp: the class `LookList`.
use dccexpress_mini.Prelude.{
  ℕ, ◌+◌, Option, none, some, List, [], ◌∷◌, ◌++◌, ◌==◌, if◌then◌else◌, length,
}
use dccexpress_mini.Exrail.State.{LookList}
use dccexpress_mini.Exrail.State.LookList.{unchained, chained}

unfoldable pub size : LookList → ℕ
size (unchained n es) = n
size (chained n es l) = n

-- `add`: a list that is full forgets the pair.
unfoldable pub add : ℕ → ℕ → LookList → LookList
add k v (unchained n es) =
    if length es == n then unchained n es else unchained n (es ++ ((k, v) ∷ []))
add k v (chained n es l) =
    if length es == n then chained n es l else chained n (es ++ ((k, v) ∷ [])) l

unfoldable pub first_result : ℕ → List (ℕ × ℕ) → Option ℕ
first_result k [] = none
first_result k ((k', v) ∷ es) = if k' == k then some v else first_result k es

-- `find`: -1 where no list of the chain has the value.
unfoldable pub find : ℕ → LookList → ℕ
unfolding first_result
find k (unchained n es) = elim (first_result k es) [ none ↦ 0xFFFF | some v ↦ v ]
find k (chained n es l) =
    let rest = find k l in elim (first_result k es) [ none ↦ rest | some v ↦ v ]

unfoldable pub chain : LookList → LookList → LookList
chain l (unchained n es) = chained n es l
chain l (chained n es l') = chained n es l

unfoldable pub entries : LookList → List (ℕ × ℕ)
entries (unchained n es) = es
entries (chained n es l) = es

-- The loop of `findPosition`, i entries in.
unfoldable pub position_from : ℕ → ℕ → List (ℕ × ℕ) → Option ℕ
position_from i k [] = none
position_from i k ((k', v) ∷ es) = if k' == k then some i else position_from (i + 1) k es

unfoldable pub find_position : ℕ → LookList → Option ℕ
unfolding position_from entries
find_position k l = position_from 0 k (entries l)

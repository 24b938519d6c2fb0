-- ===== src/Parser/Words.antt =====
-- The parameters that `splitValues` finds in a command of words.
use dccexpress_mini.Prelude.{
  ℕ, zero, suc, ◌+◌, ◌-◌, ◌≤◌, ◌≡◌, refl, ap, ◌∙◌, sym, Bool, false, some, List, [], ◌∷◌, ◌++◌, ltb,
  length, arith, Bool-cases, inl, inr, map, set, replicate, append_assoc, length-append, length-map,
}
use dccexpress_mini.Parser.{
  blank, done, Machine, skip_blank, turn, step, run, start, fuel, split_values, max_command_params,
  clear_here,
}
use dccexpress_mini.Parser.Fuel.{split_values-some}
use dccexpress_mini.Parser.Reading.{
  Gives, run_unique, Word, AreWords, written, value, machine, word,
}

-- The parameters from a position on.
pub filled : ℕ → List ℕ → List ℕ → List ℕ
filled n [] result = result
filled n (v ∷ vs) result = filled (n + 1) vs (set result n v)

words :
    (ws : List Word) (n t : ℕ) (r : ℕ) (negative : Bool) (p : ℕ) (res cl : List ℕ)
    → AreWords ws
    → t ≡ n + length ws
    → t ≤ 10
    → Gives
        (machine blank n r negative p (written ws) res cl)
        (done t)
        (filled n (map value ws) res)
unfolding filled run step turn skip_blank
words [] n t r negative p res cl h e l =
    let m = machine blank n r negative p (written []) res cl in
    let same : n ≡ t = omega (arith, e) in
    elim (Bool-cases (ltb n max_command_params)) [
      | inl room ↦
          (1, clear_here m, rw (room, run, step) (ap (λ k. some (done k, clear_here m)) same), refl)
      | inr full ↦ (1, m, rw (full, run, step) (ap (λ k. some (done k, m)) same), refl)
    ]
words (w ∷ ws) n t r negative p res cl ((h, long), hs) e l =
    word n (omega (arith, e, l)) res cl w.negative w.characters ws r negative p h long
      (λ r' negative'' p'.
        words ws (n + 1) t r' negative'' p' (set res n (value w)) cl hs (omega (arith, e)) l)

set-append :
    (xs zs : List ℕ) (n y v : ℕ) → n ≡ length xs → set (xs ++ (y ∷ zs)) n v ≡ xs ++ (v ∷ zs)
set-append [] zs zero y v e = refl
set-append [] zs (suc n) y v e = absurd (omega arith)
set-append (x ∷ xs) zs zero y v e = absurd (omega arith)
set-append (x ∷ xs) zs (suc n) y v e = ap (λ l. x ∷ l) (set-append xs zs n y v (omega arith))

-- The array filled behind its first part, up to the end of the values.
filled-zeros :
    (vs xs : List ℕ) (n k t : ℕ)
    → n ≡ length xs
    → t ≡ length vs + k
    → filled n vs (xs ++ replicate t 0) ≡ xs ++ (vs ++ replicate k 0)
unfolding filled
filled-zeros [] xs n k t e e' =
    let same : t ≡ k = omega (arith, e') in ap (λ j. xs ++ replicate j 0) same
filled-zeros (v ∷ vs) xs n k zero e e' = absurd (omega (arith, e'))
filled-zeros (v ∷ vs) xs n k (suc t) e e' =
    ap (filled (n + 1) vs)
      (set-append xs (replicate t 0) n 0 v e ∙ sym (append_assoc xs (v ∷ []) (replicate t 0)))
    ∙ filled-zeros vs (xs ++ (v ∷ [])) (n + 1) k t (omega (arith, e, length-append xs (v ∷ [])))
        (omega (arith, e'))
    ∙ append_assoc xs (v ∷ []) (vs ++ replicate k 0)

pub split_values-written :
    (opcode : ℕ) (ws : List Word)
    → AreWords ws
    → length ws ≤ 10
    → (m : Machine) × (split_values false (opcode ∷ written ws) ≡ some (done (length ws), m))
      × (m.result ≡ map value ws ++ replicate (max_command_params - length ws) 0)
unfolding split_values
split_values-written opcode ws h l =
    let (n, m, r, q) =
      words ws 0 (length ws) 0 false 1 (replicate max_command_params 0) [] h (omega arith) l in
    let (found, s) = split_values-some false (opcode ∷ written ws) in
    (
      m,
      s ∙ ap some (run_unique (fuel (written ws)) n (start (written ws)) s r),
      q
          ∙ filled-zeros (map value ws) [] 0 (max_command_params - length ws) 10 refl
              (omega (arith, length-map ws value, l)),
    )

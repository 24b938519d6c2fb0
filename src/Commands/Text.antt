-- ===== src/Commands/Text.antt =====
-- Whole commands, from their bytes to what they do.
use dccexpress_mini.Prelude.{
  ℕ, zero, suc, ◌-◌, ◌<◌, ◌≡◌, refl, ap, ◌∙◌, sym, subst, Bool, true, false, ◌||◌, Option, none,
  some, List, [], ◌∷◌, ◌++◌, leb, ◌==◌, if◌then◌else◌, if_both, arith, length, map, replicate,
}
use dccexpress_mini.Turnouts.{exists, get, set_closed}
use dccexpress_mini.Turnouts.Switching.{switched, get-set_closed}
use dccexpress_mini.Parser.{max_command_params}
use dccexpress_mini.Parser.Reading.{written}
use dccexpress_mini.Parser.Numbers.{number, AreWide, split_values-numbers}
use dccexpress_mini.Commands.{
  Config, Station, parse_one, parse_stripped, dispatch, finished, strip, parse_z, parse_s, parse_t,
  switch_turnout, move_turnout, hk, refused_reply,
}

-- The opcodes whose commands are read here.
abbrev IsOpcode : ℕ → Type 0
IsOpcode opcode =
    ((opcode == 60 || opcode == 32) ≡ false) × ((opcode == 77 || opcode == 80) ≡ false)

abbrev carried_out : Option (Bool × Station) → Option Station
carried_out none = none
carried_out (some r) = some (finished r)

-- The array of parameters that numbers are read into.
abbrev pub parameters : List ℕ → List ℕ
parameters ps = ps ++ replicate (max_command_params - length ps) 0

-- A written command reaches the dispatch with its numbers.
parse_one-dispatch :
    (c : Config) (opcode : ℕ) (ps : List ℕ) (m : Station)
    → IsOpcode opcode
    → AreWide ps
    → length ps < 10
    → parse_one c (opcode ∷ written (map number ps)) m
      ≡ carried_out (dispatch c opcode (length ps) (parameters ps) m)
unfolding parse_one strip
parse_one-dispatch c opcode ps m (plain, decimal) wide few =
    let (s, e, r) = split_values-numbers opcode ps wide (omega (arith, few)) in
    let fits : leb max_command_params (length ps) ≡ false = ground (arith, few) in
    let stripped : strip (opcode ∷ written (map number ps)) ≡ opcode ∷ written (map number ps) =
      rw (plain, strip) refl in
    ap (λ command. parse_stripped c command m) stripped
    ∙ rw (decimal, e, parse_stripped) (rw (fits, r) refl)

-- The opcodes Z, S and T, and what handles each.
pub data Family : Type 0 where
  outputs : Family
  sensors : Family
  turnouts : Family

abbrev pub letter : Family → ℕ
letter outputs = 90
letter sensors = 83
letter turnouts = 84

abbrev pub handled : Config → Family → ℕ → List ℕ → Station → Bool × Station
handled c outputs params p m = parse_z c params p m
handled c sensors params p m = parse_s c params p m
handled c turnouts params p m = parse_t c params p m

-- A command Z, S or T with fewer than ten 16-bit numbers in decimal, each behind a blank, does what
-- `parseZ`, `parseS` or `parseT` does with the count of these numbers and the array that holds them,
-- filled up with zeros; if the handler refuses the command, the answer `<X>` is added.
pub parse_one-written :
    (c : Config) (family : Family) (ps : List ℕ) (m : Station)
    → AreWide ps
    → length ps < 10
    → parse_one c (letter family ∷ written (map number ps)) m
      ≡ some (finished (handled c family (length ps) (parameters ps) m))
unfolding dispatch
parse_one-written c outputs ps m wide few = parse_one-dispatch c 90 ps m (refl, refl) wide few
parse_one-written c sensors ps m wide few = parse_one-dispatch c 83 ps m (refl, refl) wide few
parse_one-written c turnouts ps m wide few = parse_one-dispatch c 84 ps m (refl, refl) wide few

-- What a command that moves a turnout leaves.
abbrev pub Moved : Config → ℕ → Bool → ℕ → Station → Option Station → Type 0
Moved c n close k m r =
    (m' : Station) × (r ≡ some m')
    × (get k m'.turnouts ≡ switched n close m.turnouts k)
    × (m'.replies ≡ (if exists n m.turnouts then m.replies else refused_reply ∷ m.replies))

finished-replies :
    (ok : Bool) (m : Station)
    → (finished (ok, m)).replies ≡ (if ok then m.replies else refused_reply ∷ m.replies)
finished-replies true m = refl
finished-replies false m = refl

finished-Moved :
    (c : Config) (n : ℕ) (close : Bool) (k : ℕ) (m : Station)
    → Moved c n close k m (some (finished (move_turnout c n close m)))
unfolding get
finished-Moved c n close k m =
    let (ok, state, told) = get-set_closed c.rcn_213 n close k m.turnouts in
    (
      _,
      refl,
      if_both (λ (r : Station). get k r.turnouts ≡ switched n close m.turnouts k)
          (set_closed c.rcn_213 n close m.turnouts).0 state state,
      finished-replies (set_closed c.rcn_213 n close m.turnouts).0
            (record m { turnouts = (set_closed c.rcn_213 n close m.turnouts).1 })
          ∙ ap (λ b. if b then m.replies else refused_reply ∷ m.replies) ok,
    )

-- For an id n of 16 bits, the command `<T n 0>` closes the turnout with this id, and `<T n 1>`
-- throws it: then it has this state, and all other ids keep their turnouts. The answer is `<X>` if
-- there is no such turnout, and there is no answer if there is one.
pub parse_one-turnout :
    (c : Config) (n v k : ℕ) (m : Station)
    → n < 0x1_0000
    → v < 2
    → Moved c n (v == 0) k m (parse_one c (84 ∷ written (map number (n ∷ v ∷ []))) m)
unfolding dispatch parse_t switch_turnout hk
parse_one-turnout c n zero k m h l =
    subst (Moved c n true k m)
      (sym
        (parse_one-dispatch c 84 (n ∷ 0 ∷ []) m (refl, refl) (h, (omega arith, tt)) (omega arith)))
      (finished-Moved c n true k m)
parse_one-turnout c n (suc zero) k m h l =
    subst (Moved c n false k m)
      (sym
        (parse_one-dispatch c 84 (n ∷ 1 ∷ []) m (refl, refl) (h, (omega arith, tt)) (omega arith)))
      (finished-Moved c n false k m)
parse_one-turnout c n (suc (suc v)) k m h l = absurd (omega arith)

-- ===== src/Lcn/Messages.antt =====
-- Whole messages about turnouts.
use dccexpress_mini.Prelude.{
  ℕ, ◌+◌, ◌-◌, ◌*◌, ◌%◌, ◌<◌, ◌≡◌, refl, ap, ◌∙◌, sym, Bool, true, false, Option, none, some, List,
  [], ◌∷◌, ◌++◌, ◌==◌, ==_iff, if◌then◌else◌, if_same, Option-cases, arith, inl, inr,
}
use dccexpress_mini.Prelude.Keyed.{find_by-snoc, Absent-find_by}
use dccexpress_mini.Turnouts.{
  Turnout, Turnouts, lcn, get, exists, create, create_lcn, new_turnout, with_state,
}
use dccexpress_mini.Turnouts.Switching.{get-set_closed_state_only}
use dccexpress_mini.Parser.{compiletime_keyword_hasher, digit_value}
use dccexpress_mini.Parser.Numbers.{decimal, AreDigits, decimal-AreDigits, hasher-decimal}
use dccexpress_mini.Lcn.{Lcn, receive, receive_all, receive_turnout}

-- The number that digits add up to in `id`.
abbrev pub number_of : List ℕ → ℕ → ℕ
number_of [] r = r
number_of (c ∷ cs) r = number_of cs ((10 * r + (c - 48)) % 0x1_0000_0000)

-- Its low 16 bits are the hash of the digits.
number_of-hash :
    (cs : List ℕ) (r : ℕ)
    → AreDigits cs
    → compiletime_keyword_hasher cs (r % 0x1_0000) ≡ number_of cs r % 0x1_0000
unfolding compiletime_keyword_hasher digit_value
number_of-hash [] r h = refl
number_of-hash (c ∷ cs) r (h, hs) =
    let step : (10 * (r % 0x1_0000) + (c - 48)) % 0x1_0000
        ≡ (10 * r + (c - 48)) % 0x1_0000_0000 % 0x1_0000 =
      omega arith in
    rw (h, digit_value)
      (ap (compiletime_keyword_hasher cs) step
        ∙ number_of-hash cs ((10 * r + (c - 48)) % 0x1_0000_0000) hs)

receive_all-digits :
    (rcn memory : Bool) (cs after : List ℕ) (l : Lcn)
    → AreDigits cs
    → receive_all rcn memory (cs ++ after) l
      ≡ receive_all rcn memory after (record l { id = number_of cs l.id })
unfolding receive_all receive
receive_all-digits rcn memory [] after l h = refl
receive_all-digits rcn memory (c ∷ cs) after l (h, hs) =
    rw (h, receive_all, receive)
      (receive_all-digits rcn memory cs after
        (record l { id = (10 * l.id + (c - 48)) % 0x1_0000_0000 }) hs)

-- What an id stands for once the bus has told the state of a turnout.
abbrev pub noted : ℕ → Bool → Turnouts → ℕ → Option Turnout
noted n close m k =
    if k == n
    then some (with_state close (elim (get n m) [ none ↦ new_turnout n lcn true | some t ↦ t ]))
    else get k m

get-created :
    (n k : ℕ) (m : Turnouts)
    → get n m ≡ none
    → get k (create_lcn n true m) ≡ (if k == n then some (new_turnout n lcn true) else get k m)
unfolding get create_lcn create
get-created n k m e =
    rw (e, create_lcn, create)
      (find_by-snoc (λ t. t.id) n k (new_turnout n lcn true) m.all refl
        (Absent-find_by (λ t. t.id) n m.all e))

get-created_self :
    (n : ℕ) (m : Turnouts)
    → get n m ≡ none
    → get n (create_lcn n true m) ≡ some (new_turnout n lcn true)
get-created_self n m e = get-created n n m e ∙ rw ((==_iff n n).1 refl) refl

get-receive_turnout :
    (close : Bool) (n k : ℕ) (l : Lcn)
    → l.id % 0x1_0000 ≡ n
    → get k (receive_turnout close l).turnouts ≡ noted n close l.turnouts k
unfolding receive_turnout
get-receive_turnout close n k l q =
    let made : Turnout = new_turnout n lcn true in
    let there : Turnouts = create_lcn n true l.turnouts in
    rw q (elim (Option-cases (get n l.turnouts)) [
      | inl e ↦
          rw (e, exists, noted)
            (get-set_closed_state_only close made there n k (get-created_self n l.turnouts e)
              ∙ if_same (k == n) (some (with_state close made)) (get k l.turnouts) (some made)
                  (get-created n k l.turnouts e))
      | inr (t, e) ↦ rw (e, exists, noted) (get-set_closed_state_only close t l.turnouts n k e)
    ])

-- The letter of a message about the state of a turnout: t for closed, T for thrown.
abbrev pub letter : Bool → ℕ
letter close = if close then 116 else 84

abbrev pub state_message : ℕ → Bool → List ℕ
state_message n close = decimal 4 n ++ (letter close ∷ [])

last_byte :
    (rcn memory close : Bool) (l : Lcn)
    → receive_all rcn memory (letter close ∷ []) l ≡ some (receive_turnout close l)
unfolding receive_all receive
last_byte rcn memory true l = refl
last_byte rcn memory false l = refl

receive_turnout-id : (close : Bool) (l : Lcn) → (receive_turnout close l).id ≡ 0
unfolding receive_turnout
receive_turnout-id close l = refl

-- What is received, at the beginning of a message, of a message of the bus about the state of a
-- turnout, whose id is any 16-bit number: the turnout with the id has this state; if there was
-- none, it is a new LCN turnout. All other ids keep their turnouts, and the next message begins
-- anew.
pub receive_all-state_message :
    (rcn memory : Bool) (n : ℕ) (close : Bool) (k : ℕ) (l : Lcn)
    → l.id ≡ 0
    → n < 0x1_0000
    → (l' : Lcn) × (receive_all rcn memory (state_message n close) l ≡ some l')
      × (get k l'.turnouts ≡ noted n close l.turnouts k)
      × (l'.id ≡ 0)
unfolding receive_all receive
receive_all-state_message rcn memory n close k l fresh h =
    let cs = decimal 4 n in
    let read = decimal-AreDigits 4 n in
    let l1 : Lcn = record l { id = number_of cs l.id } in
    let low : l1.id % 0x1_0000 ≡ n =
      sym (number_of-hash cs l.id read)
      ∙ ap (λ r. compiletime_keyword_hasher cs (r % 0x1_0000)) fresh
      ∙ hasher-decimal 4 n (omega (arith, h)) h in
    (
      receive_turnout close l1,
      receive_all-digits rcn memory cs (letter close ∷ []) l read ∙ last_byte rcn memory close l1,
      get-receive_turnout close n k l1 low,
      receive_turnout-id close l1,
    )

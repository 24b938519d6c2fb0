-- ===== src/Turnouts/Switching.antt =====
-- What `setClosed` does to the turnouts, and what it reports.
use dccexpress_mini.Prelude.{
  ℕ, ◌≡◌, refl, ap, ◌∙◌, sym, subst, Bool, true, false, ◌&&◌, Option, none, some, List, [], ◌∷◌,
  ◌++◌, ltb, ◌==◌, ==_iff, if◌then◌else◌, if_both, if_cases, Option-cases, Bool-cases, inl, inr,
}
use dccexpress_mini.Prelude.Keyed.{find_by, replace_by, find_by-key, find_by-replace_by}
use dccexpress_mini.Turnouts.{
  Turnout, Turnouts, Event, get, set_closed, set_closed_state_only, set_closed_internal,
  change_state, with_state, same, exists, event, broadcast_turnout, turnout_event, save_flags,
}

same→≡ : (a b : Bool) → same a b ≡ true → a ≡ b
same→≡ true true h = refl
same→≡ true false h = sym h
same→≡ false true h = h
same→≡ false false h = refl

-- The turnout that an id stands for when another has been given a state.
abbrev pub switched : ℕ → Bool → Turnouts → ℕ → Option Turnout
switched n close m k =
    if k == n then elim (get n m) [ none ↦ none | some t ↦ some (with_state close t) ] else get k m

change_state-get :
    (close : Bool) (t : Turnout) (m : Turnouts) (n k : ℕ)
    → get n m ≡ some t
    → get k (change_state close t m) ≡ (if k == n then some (with_state close t) else get k m)
unfolding get change_state
change_state-get close t m n k e =
    let id : t.id ≡ n = find_by-key (λ s. s.id) n m.all {z = t} e in
    elim (Bool-cases (same t.closed close)) [
      | inl s ↦
          let unchanged : t ≡ with_state close t =
            λ i. record t { closed = same→≡ t.closed close s i } in
          rw (s, change_state)
            (if_cases (λ o. find_by (λ s. s.id) k m.all ≡ o) (k == n)
              (λ q.
                ap (λ j. find_by (λ s. s.id) j m.all) ((==_iff k n).0 q) ∙ e ∙ ap some unchanged)
              (λ q. refl))
      | inr s ↦
          rw (s, change_state)
            (subst
              (λ j.
                find_by (λ s. s.id) k (replace_by (λ s. s.id) j (with_state close t) m.all)
                ≡ (if k == n then some (with_state close t) else find_by (λ s. s.id) k m.all))
              (sym id) (find_by-replace_by (λ s. s.id) n k (with_state close t) m.all t id e))
    ]

pub get-set_closed_state_only :
    (close : Bool) (t : Turnout) (m : Turnouts) (n k : ℕ)
    → get n m ≡ some t
    → get k (set_closed_state_only n close m).1
      ≡ (if k == n then some (with_state close t) else get k m)
unfolding get set_closed_state_only
get-set_closed_state_only close t m n k e =
    rw (e, set_closed_state_only) (change_state-get close t m n k e)

-- The reports of one change of state, newest first.
abbrev pub reports : ℕ → Bool → Turnout → List Event
reports n close t =
    turnout_event n close ∷ (if same t.closed close then [] else broadcast_turnout n close ∷ [])

abbrev pub told : Bool → ℕ → Bool → Turnouts → List Event
told rcn_213 n close m = elim (get n m) [
  | none ↦ m.events
  | some t ↦ reports n close t ++ (set_closed_internal rcn_213 close t ∷ m.events)
]

change_state-events :
    (close : Bool) (t : Turnout) (m : Turnouts) (n : ℕ)
    → t.id ≡ n
    → turnout_event n close ∷ (change_state close t m).events ≡ reports n close t ++ m.events
unfolding change_state
change_state-events close t m n e = elim (Bool-cases (same t.closed close)) [
  | inl s ↦ rw (s, change_state) refl
  | inr s ↦
      rw (s, change_state)
        (ap (λ j. turnout_event n close ∷ broadcast_turnout j close ∷ m.events) e)
]

save_flags-get :
    (close : Bool) (t : Turnout) (k : ℕ) (m : Turnouts) → get k (save_flags close t m) ≡ get k m
unfolding save_flags get
save_flags-get close t k m =
    if_both (λ (r : Turnouts). get k r ≡ get k m)
      (ltb 0 m.eeprom.n_turnouts && ltb 0 t.eeprom_address) refl refl

save_flags-events :
    (close : Bool) (t : Turnout) (m : Turnouts) → (save_flags close t m).events ≡ m.events
unfolding save_flags
save_flags-events close t m =
    if_both (λ (r : Turnouts). r.events ≡ m.events)
      (ltb 0 m.eeprom.n_turnouts && ltb 0 t.eeprom_address) refl refl

-- With a turnout that is found.
pub set_closed-found :
    (rcn_213 : Bool) (n : ℕ) (close : Bool) (m : Turnouts) (t : Turnout)
    → get n m ≡ some t
    → set_closed rcn_213 n close m ≡ (
      true,
      save_flags close t (
          event
            (turnout_event n close)
            (change_state close t (event (set_closed_internal rcn_213 close t) m))),
    )
unfolding set_closed set_closed_state_only get
set_closed-found rcn_213 n close m t e =
    let moved : Turnouts = event (set_closed_internal rcn_213 close t) m in
    let again : get n moved ≡ some t = e in
    let changed : set_closed_state_only n close moved
        ≡ (true, event (turnout_event n close) (change_state close t moved)) =
      rw (again, set_closed_state_only) refl in
    rw (e, set_closed) (λ i. (true, save_flags close t (changed i).1))

-- `setClosed` succeeds just if there is a turnout with the id; this turnout then has the state, and
-- every other id keeps its turnout. The turnout is moved; the change of its state is broadcast if
-- there is one, and the automation is told in any case. Without such a turnout nothing is done.
pub get-set_closed :
    (rcn_213 : Bool) (n : ℕ) (close : Bool) (k : ℕ) (m : Turnouts)
    → ((set_closed rcn_213 n close m).0 ≡ exists n m)
      × (get k (set_closed rcn_213 n close m).1 ≡ switched n close m k)
      × ((set_closed rcn_213 n close m).1.events ≡ told rcn_213 n close m)
unfolding set_closed set_closed_state_only get
get-set_closed rcn_213 n close k m = elim (Option-cases (get n m)) [
  | inl e ↦
      rw (e, set_closed, switched, exists, told)
        (
          refl,
          if_cases (λ o. get k m ≡ o) (k == n) (λ q. ap (λ j. get j m) ((==_iff k n).0 q) ∙ e)
              (λ q. refl),
          refl,
        )
  | inr (t, e) ↦
      let m1 : Turnouts = event (set_closed_internal rcn_213 close t) m in
      let m2 : Turnouts = event (turnout_event n close) (change_state close t m1) in
      let id : t.id ≡ n = find_by-key (λ s. s.id) n m.all {z = t} e in
      let found = set_closed-found rcn_213 n close m t e in
      rw (e, switched, exists, told)
        (
          (λ i. (found i).0),
          (λ i. get k (found i).1)
              ∙ save_flags-get close t k m2
              ∙ change_state-get close t m1 n k e,
          (λ i. (found i).1.events)
              ∙ save_flags-events close t m2
              ∙ change_state-events close t m1 n id,
        )
]

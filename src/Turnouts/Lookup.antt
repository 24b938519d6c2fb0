-- ===== src/Turnouts/Lookup.antt =====
-- The list of turnouts: no two of them have the same id.
use dccexpress_mini.Prelude.{
  ℕ, ◌%◌, refl, Bool, false, ◌&&◌, List, [], ◌∷◌, ltb, if_both, Option-cases, inl, inr,
}
use dccexpress_mini.Prelude.Keyed.{
  find_by-key, Absent, IsUnique, IsUnique-without, IsUnique-replace_by, IsUnique-snoc,
  Absent-find_by,
}
use dccexpress_mini.Turnouts.{
  Turnout, Turnouts, Kind, get, remove, create, create_servo, create_dcc, create_vpin, create_lcn,
  set_closed, new_turnout, event, type_of, is_type, set_closed_internal, change_state, save_flags,
  turnout_event, with_state, same, is_servo, servo,
}
use dccexpress_mini.Turnouts.Switching.{set_closed-found}

abbrev pub AreUnique : Turnouts → Type 0
AreUnique m = IsUnique (λ t. t.id) m.all

-- The list without an id, which is then new.
remove-AreUnique :
    (n : ℕ) (m : Turnouts)
    → AreUnique m
    → AreUnique (remove n m).1 × Absent (λ t. t.id) n (remove n m).1.all
unfolding remove get
remove-AreUnique n m u = elim (Option-cases (get n m)) [
  | inl e ↦ rw (e, remove) (u, Absent-find_by (λ t. t.id) n m.all e)
  | inr (t, e) ↦ rw (e, remove) (IsUnique-without (λ t. t.id) n m.all u)
]

create-AreUnique :
    (n : ℕ) (k : Kind) (close : Bool) (m : Turnouts) → AreUnique m → AreUnique (create n k close m)
unfolding create get
create-AreUnique n k close m u = elim (Option-cases (get n m)) [
  | inl e ↦
      rw (e, create)
        (IsUnique-snoc (λ t. t.id) m.all (new_turnout n k close) u
          (Absent-find_by (λ t. t.id) n m.all e))
  | inr (t, e) ↦
      let (removed, absent) = remove-AreUnique n m u in
      rw (e, create)
        (if_both AreUnique (is_type (type_of k) t)
          (IsUnique-replace_by (λ t. t.id) n (record t { kind = k }) m.all
            (find_by-key (λ s. s.id) n m.all {z = t} e) u)
          (IsUnique-snoc (λ t. t.id) (remove n m).1.all (new_turnout n k close) removed absent))
]

change_state-AreUnique :
    (close : Bool) (t : Turnout) (m : Turnouts) → AreUnique m → AreUnique (change_state close t m)
unfolding change_state
change_state-AreUnique close t m u =
    if_both AreUnique (same t.closed close) u
      (IsUnique-replace_by (λ s. s.id) t.id (with_state close t) m.all refl u)

save_flags-AreUnique :
    (close : Bool) (t : Turnout) (m : Turnouts) → AreUnique m → AreUnique (save_flags close t m)
unfolding save_flags
save_flags-AreUnique close t m u =
    if_both AreUnique (ltb 0 m.eeprom.n_turnouts && ltb 0 t.eeprom_address) u u

set_closed-AreUnique :
    (rcn_213 : Bool) (n : ℕ) (close : Bool) (m : Turnouts)
    → AreUnique m
    → AreUnique (set_closed rcn_213 n close m).1
unfolding set_closed
set_closed-AreUnique rcn_213 n close m u = elim (Option-cases (get n m)) [
  | inl e ↦ rw (e, set_closed) u
  | inr (t, e) ↦
      let moved : Turnouts = event (set_closed_internal rcn_213 close t) m in
      let changed = change_state-AreUnique close t moved u in
      rw (set_closed-found rcn_213 n close m t e) (
        save_flags-AreUnique close t (event (turnout_event n close) (change_state close t moved))
          changed)
]

-- The operations on the turnouts, in any order.
pub data Operation : Type 0 where
  make_servo : ℕ → ℕ → ℕ → ℕ → ℕ → Bool → Operation
  make_dcc : ℕ → ℕ → ℕ → Operation
  make_vpin : ℕ → ℕ → Bool → Operation
  make_lcn : ℕ → Bool → Operation
  discard : ℕ → Operation
  switch : ℕ → Bool → Operation

pub operate : Bool → List Operation → Turnouts → Turnouts
operate rcn [] m = m
operate rcn (make_servo n v t c p close ∷ ops) m = operate rcn ops (create_servo n v t c p close m)
operate rcn (make_dcc n a s ∷ ops) m = operate rcn ops (create_dcc n a s m)
operate rcn (make_vpin n v close ∷ ops) m = operate rcn ops (create_vpin n v close m)
operate rcn (make_lcn n close ∷ ops) m = operate rcn ops (create_lcn n close m)
operate rcn (discard n ∷ ops) m = operate rcn ops (remove n m).1
operate rcn (switch n close ∷ ops) m = operate rcn ops (set_closed rcn n close m).1

create_servo-AreUnique :
    (n v t c p : ℕ) (close : Bool) (m : Turnouts)
    → AreUnique m
    → AreUnique (create_servo n v t c p close m)
unfolding create_servo
create_servo-AreUnique n v t c p close m u =
    let made = create-AreUnique n (servo v (t % 4096) (c % 4096) (p % 256)) close m u in
    if_both AreUnique (is_servo n m) made made

-- If no two turnouts have the same id, then this stays so, whatever turnouts of the four kinds are
-- made, made anew, removed and switched, in whatever order.
pub operate-AreUnique :
    (rcn : Bool) (ops : List Operation) (m : Turnouts) → AreUnique m → AreUnique (operate rcn ops m)
unfolding operate create_dcc create_vpin create_lcn
operate-AreUnique rcn [] m u = u
operate-AreUnique rcn (make_servo n v t c p close ∷ ops) m u =
    operate-AreUnique rcn ops (create_servo n v t c p close m)
      (create_servo-AreUnique n v t c p close m u)
operate-AreUnique rcn (make_dcc n a s ∷ ops) m u =
    operate-AreUnique rcn ops (create_dcc n a s m) (create-AreUnique n _ false m u)
operate-AreUnique rcn (make_vpin n v close ∷ ops) m u =
    operate-AreUnique rcn ops (create_vpin n v close m) (create-AreUnique n _ close m u)
operate-AreUnique rcn (make_lcn n close ∷ ops) m u =
    operate-AreUnique rcn ops (create_lcn n close m) (create-AreUnique n _ close m u)
operate-AreUnique rcn (discard n ∷ ops) m u =
    operate-AreUnique rcn ops (remove n m).1 (remove-AreUnique n m u).0
operate-AreUnique rcn (switch n close ∷ ops) m u =
    operate-AreUnique rcn ops (set_closed rcn n close m).1 (set_closed-AreUnique rcn n close m u)

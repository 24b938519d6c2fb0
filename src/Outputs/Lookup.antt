-- ===== src/Outputs/Lookup.antt =====
-- The list of outputs as a map from ids to outputs.
use dccexpress_mini.Prelude.{
  ℕ, ◌≡◌, refl, ap, ◌∙◌, Bool, true, false, Option, none, some, List, [], ◌∷◌, ◌++◌, ltb, ◌==◌,
  ==_iff, if◌then◌else◌, if_both, if_cases, Option-cases, Bool-cases, inl, inr,
}
use dccexpress_mini.Prelude.Keyed.{
  find_by, IsUnique, Absent-find_by, find_by-snoc, find_by-replace_by, IsUnique-without,
  IsUnique-snoc, IsUnique-replace_by,
}
use dccexpress_mini.Outputs.{
  Output, Outputs, id_of, vpin_max, get, create, remove, activate, configure, empty_data,
  with_state, write_pin,
}

-- What `create` leaves at its id, if the pin is valid.
abbrev pub configured : Bool → ℕ → ℕ → ℕ → Bool → Outputs → Option Output
configured memory id pin flags v m = elim (get id m.all) [
  | some old ↦ some (configure id pin flags v old.data_of)
  | none ↦ if memory then some (configure id pin flags v empty_data) else none
]

-- The list with the new output, if there is memory for it.
get-append :
    (memory : Bool) (k : ℕ) (o : Output) (m : Outputs)
    → find_by id_of (id_of o) m.all ≡ none
    → let r : Option Output × Outputs =
        if memory
        then (some o, write_pin o (record m { all = m.all ++ (o ∷ []) }))
        else (none, m) in
      find_by id_of k r.1.all
      ≡ (if k == id_of o then (if memory then some o else none) else get k m.all)
unfolding get
get-append true k o m e =
    find_by-snoc id_of (id_of o) k o m.all refl (Absent-find_by id_of (id_of o) m.all e)
get-append false k o m e =
    if_cases (λ found. find_by id_of k m.all ≡ found) (k == id_of o)
      (λ q. ap (λ j. find_by id_of j m.all) ((==_iff k (id_of o)).0 q) ∙ e) (λ q. refl)

-- `create` with a pin above `VPIN_MAX` changes no output. With any other pin the id stands for the
-- new output, or for the old one changed, or for none if a new one finds no memory. All other ids
-- keep their outputs.
get-create_output :
    (memory : Bool) (id pin flags : ℕ) (v : Bool) (k : ℕ) (m : Outputs)
    → get k (create memory id pin flags v m).1.all ≡ (
        if ltb vpin_max pin
        then get k m.all
        else if k == id
        then configured memory id pin flags v m
        else get k m.all)
unfolding get create configure
get-create_output memory id pin flags v k m = elim (Bool-cases (ltb vpin_max pin)) [
  | inl p ↦ rw (p, create) refl
  | inr p ↦ elim (Option-cases (find_by id_of id m.all)) [
    | inr (old, e) ↦
        rw (p, e, create, get, configured)
          (find_by-replace_by id_of id k (configure id pin flags v old.data_of) m.all old refl e)
    | inl e ↦
        rw (p, e, create, get, configured)
          (get-append memory k (configure id pin flags v empty_data) m e)
  ]
]

remove-IsUnique : (n : ℕ) (m : Outputs) → IsUnique id_of m.all → IsUnique id_of (remove n m).1.all
unfolding remove
remove-IsUnique n m u = elim (Option-cases (find_by id_of n m.all)) [
  | inl e ↦ rw (e, remove) u
  | inr (o, e) ↦ rw (e, remove) (IsUnique-without id_of n m.all u).0
]

create-IsUnique :
    (memory : Bool) (id pin flags : ℕ) (v : Bool) (m : Outputs)
    → IsUnique id_of m.all
    → IsUnique id_of (create memory id pin flags v m).1.all
unfolding create configure
create-IsUnique memory id pin flags v m u = elim (Bool-cases (ltb vpin_max pin)) [
  | inl p ↦ rw (p, create) u
  | inr p ↦ elim (Option-cases (find_by id_of id m.all)) [
    | inr (old, e) ↦
        rw (p, e, create)
          (IsUnique-replace_by id_of id (configure id pin flags v old.data_of) m.all refl u)
    | inl e ↦
        rw (p, e, create)
          (if_both (λ (r : Option Output × Outputs). IsUnique id_of r.1.all) memory
            (IsUnique-snoc id_of m.all (configure id pin flags v empty_data) u
              (Absent-find_by id_of id m.all e))
            u)
  ]
]

activate-IsUnique :
    (s : ℕ) (o : Output) (m : Outputs) → IsUnique id_of m.all → IsUnique id_of (activate s o m).all
unfolding activate
activate-IsUnique s o m u =
    IsUnique-replace_by id_of (id_of o) (with_state (ltb 0 s) o) m.all refl u

-- The operations on the outputs, in any order. An output that is to be activated is found first.
pub data Operation : Type 0 where
  make : Bool → ℕ → ℕ → ℕ → Bool → Operation
  discard : ℕ → Operation
  switch : ℕ → ℕ → Operation

pub operate : List Operation → Outputs → Outputs
operate [] m = m
operate (make memory id pin flags v ∷ ops) m = operate ops (create memory id pin flags v m).1
operate (discard n ∷ ops) m = operate ops (remove n m).1
operate (switch n s ∷ ops) m = elim (get n m.all) [
  | none ↦ operate ops m
  | some o ↦ operate ops (activate s o m)
]

-- Whatever sequence of operations the outputs go through, no two of them have the same id.
operate-IsUnique :
    (ops : List Operation) (m : Outputs) → IsUnique id_of m.all → IsUnique id_of (operate ops m).all
unfolding operate
operate-IsUnique [] m u = u
operate-IsUnique (make memory id pin flags v ∷ ops) m u =
    operate-IsUnique ops (create memory id pin flags v m).1
      (create-IsUnique memory id pin flags v m u)
operate-IsUnique (discard n ∷ ops) m u = operate-IsUnique ops (remove n m).1 (remove-IsUnique n m u)
operate-IsUnique (switch n s ∷ ops) m u = elim (Option-cases (get n m.all)) [
  | inl e ↦ rw (e, operate) (operate-IsUnique ops m u)
  | inr (o, e) ↦ rw (e, operate) (operate-IsUnique ops (activate s o m) (activate-IsUnique s o m u))
]

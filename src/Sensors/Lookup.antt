-- ===== src/Sensors/Lookup.antt =====
-- The list of sensors as a map from numbers to sensors.
use dccexpress_mini.Prelude.{
  ℕ, ◌≡◌, refl, ap, ◌∙◌, sym, Bool, true, false, ◌&&◌, not, Option, none, some, ltb, ◌==◌, ==_iff,
  if◌then◌else◌, Bool-cases, Option-cases, if_cases, if_same, inl, inr,
}
use dccexpress_mini.Prelude.Keyed.{
  find_by, without, IsUnique, find_by-Absent, find_by-without_ne, IsUnique-without, without-Absent,
  Absent-find_by, find_by-cons,
}
use dccexpress_mini.Sensors.{Sensor, Sensors, get, remove, create, new_sensor, vpin_max, vpin_none}

-- The sensors that are left, whether or not the number was found.
pub remove-without : (n : ℕ) (m : Sensors) → (remove n m).1.all ≡ without (λ s. s.snum) n m.all
unfolding remove
remove-without n m = elim (Option-cases (find_by (λ s. s.snum) n m.all)) [
  | inl e ↦
      rw (e, remove)
        (sym (without-Absent (λ s. s.snum) n m.all (Absent-find_by (λ s. s.snum) n m.all e)))
  | inr (s, e) ↦ rw (e, remove) refl
]

-- Where no two sensors have the same number, `remove` takes away the sensor with this number, and
-- all other numbers keep theirs.
get-remove :
    (n k : ℕ) (m : Sensors)
    → IsUnique (λ s. s.snum) m.all
    → get k (remove n m).1.all ≡ (if k == n then none else get k m.all)
unfolding get
get-remove n k m u = rw (remove-without n m) (
    if_cases (λ o. find_by (λ s. s.snum) k (without (λ s. s.snum) n m.all) ≡ o) (k == n)
      (λ e.
        ap (λ j. find_by (λ s. s.snum) j (without (λ s. s.snum) n m.all)) ((==_iff k n).0 e)
        ∙ find_by-Absent (λ s. s.snum) n (without (λ s. s.snum) n m.all)
            (IsUnique-without (λ s. s.snum) n m.all u).1)
      (λ e. find_by-without_ne (λ s. s.snum) n k m.all (λ p. cc (e, (==_iff k n).1 p))))

abbrev pub is_valid_pin : ℕ → Bool
is_valid_pin pin = not (ltb vpin_max pin && not (pin == vpin_none))

-- What a number stands for after `create`.
abbrev pub created : Bool → Bool → Sensor → Sensors → ℕ → Option Sensor
created valid memory s m k =
    if not valid
    then get k m.all
    else if k == s.snum
    then (if memory then some s else none)
    else get k m.all

-- Where no two sensors have the same number, `create` makes a sensor just if the pin is valid and
-- there is memory: then the number has the new sensor. With an invalid pin nothing is changed;
-- without memory the number has no sensor any more. All other numbers keep theirs.
get-create :
    (has_callback : ℕ → Bool) (memory : Bool) (snum pin pull_up k : ℕ) (m : Sensors)
    → IsUnique (λ s. s.snum) m.all
    → ((create has_callback memory snum pin pull_up m).0 ≡ (is_valid_pin pin && memory))
      × (get k (create has_callback memory snum pin pull_up m).1.all
          ≡ created (is_valid_pin pin) memory (new_sensor has_callback snum pin pull_up) m k)
unfolding create get
get-create has_callback false snum pin pull_up k m u =
    elim (Bool-cases (ltb vpin_max pin && not (pin == vpin_none))) [
      | inl e ↦ rw (e, create) (refl, refl)
      | inr e ↦ rw (e, create) (refl, get-remove snum k m u)
    ]
get-create has_callback true snum pin pull_up k m u =
    elim (Bool-cases (ltb vpin_max pin && not (pin == vpin_none))) [
      | inl e ↦ rw (e, create) (refl, refl)
      | inr e ↦
          rw (e, create)
            (
              refl,
              find_by-cons (λ s. s.snum) k (new_sensor has_callback snum pin pull_up)
                    (remove snum m).1.all
                  ∙ if_same (k == snum) (some (new_sensor has_callback snum pin pull_up))
                      (get k m.all) none (get-remove snum k m u),
            )
    ]

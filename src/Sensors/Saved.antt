-- ===== src/Sensors/Saved.antt =====
-- Sensors.cpp: `store` and `load`. The EEPROM holds a `SensorData` at an address; what `EEStore` and
-- `EEPROM` are called for are the fields of `Eeprom`.
use dccexpress_mini.Prelude.{
  ℕ, zero, suc, ◌+◌, ◌%◌, ◌<◌, ◌≡◌, refl, sym, ap, ap₂, ◌∙◌, subst, Bool, true, false, ◌&&◌, not,
  ltb, List, [], ◌∷◌, ◌++◌, ◌==◌, if◌then◌else◌, length, map, reverse, reverse-cons, append-nil,
  append_assoc, arith,
}
use dccexpress_mini.Prelude.Keyed.{Absent, IsUnique, without-Absent}
use dccexpress_mini.Sensors.{
  Sensor, Sensors, min_read_count, vpin_max, vpin_none, new_sensor, create, remove,
}
use dccexpress_mini.Sensors.Lookup.{is_valid_pin, remove-without}

pub record SensorData : Type 0 where
  pub snum : ℕ
  pub pin : ℕ
  pub pull_up : ℕ

pub record Eeprom : Type 0 where
  pub n_sensors : ℕ
  pub pointer : ℕ
  pub memory : ℕ → SensorData

abbrev pub data_of : Sensor → SensorData
data_of s = record { snum = s.snum; pin = s.pin; pull_up = s.pull_up }

-- One turn of the loop of `store`: `size` is `sizeof(SensorData)`.
abbrev pub store_next : ℕ → Sensor → Eeprom → Eeprom
store_next size s e = record {
  n_sensors = e.n_sensors + 1;
  pointer = e.pointer + size;
  memory = λ a. if a == e.pointer then data_of s else e.memory a;
}

unfoldable pub store_all : ℕ → List Sensor → Eeprom → Eeprom
store_all size [] e = e
store_all size (s ∷ ss) e = store_all size ss (store_next size s e)

unfoldable pub store : ℕ → Sensors → Eeprom → Eeprom
unfolding store_all
store size m e = store_all size m.all (record e { n_sensors = 0 })

-- The loop of `load`, for n sensors.
unfoldable pub load_all : ℕ → (ℕ → Bool) → Bool → ℕ → Sensors → Eeprom → Sensors × Eeprom
unfolding create
load_all zero has_callback memory size m e = (m, e)
load_all (suc n) has_callback memory size m e =
    let d = e.memory e.pointer in
    load_all n has_callback memory size (create has_callback memory d.snum d.pin d.pull_up m).1
      (record e { pointer = e.pointer + size })

unfoldable pub load : (ℕ → Bool) → Bool → ℕ → Sensors → Eeprom → Sensors × Eeprom
unfolding load_all
load has_callback memory size m e = load_all e.n_sensors has_callback memory size m e

abbrev number : Sensor → ℕ
number s = s.snum

abbrev pub AreStorable : List Sensor → Type 0
AreStorable [] = Unit
AreStorable (s ∷ ss) = ((s.pull_up < 256) × (is_valid_pin s.pin ≡ true)) × AreStorable ss

-- The sensors stand one behind the other.
abbrev Stored : ℕ → ℕ → List Sensor → (ℕ → SensorData) → Type 0
Stored size a [] memory = Unit
Stored size a (s ∷ ss) memory = (memory a ≡ data_of s) × Stored size (a + size) ss memory

store_all-before :
    (size : ℕ) (ss : List Sensor) (e : Eeprom) (a : ℕ)
    → 0 < size
    → a < e.pointer
    → (store_all size ss e).memory a ≡ e.memory a
unfolding store_all
store_all-before size [] e a s h = refl
store_all-before size (x ∷ ss) e a s h =
    store_all-before size ss (store_next size x e) a s (omega (arith, h)) ∙ ground (arith, h)

store_all-Stored :
    (size : ℕ) (ss : List Sensor) (e : Eeprom)
    → 0 < size
    → Stored size e.pointer ss (store_all size ss e).memory
      × ((store_all size ss e).n_sensors ≡ e.n_sensors + length ss)
unfolding store_all
store_all-Stored size [] e s = (tt, omega arith)
store_all-Stored size (x ∷ ss) e s =
    let (rest, counted) = store_all-Stored size ss (store_next size x e) s in
    (
      (
        store_all-before size ss (store_next size x e) e.pointer s (omega (arith, s))
            ∙ ground arith,
        rest,
      ),
      counted ∙ omega arith,
    )

-- None of the numbers is in the list.
abbrev AreNew : List Sensor → List Sensor → Type 0
AreNew [] xs = Unit
AreNew (s ∷ ss) xs = Absent number s.snum xs × AreNew ss xs

AreNew-cons :
    (ss xs : List Sensor) (y : Sensor) → AreNew ss xs → Absent number y.snum ss → AreNew ss (y ∷ xs)
AreNew-cons [] xs y h a = tt
AreNew-cons (s ∷ ss) xs y (h, hs) (ne, a) = (((λ e. ne (sym e)), h), AreNew-cons ss xs y hs a)

AreNew-nil : (ss : List Sensor) → AreNew ss []
AreNew-nil [] = tt
AreNew-nil (s ∷ ss) = (tt, AreNew-nil ss)

module _ (has_callback : ℕ → Bool) where
  -- A sensor as it is made anew, before it is read.
  pub anew : Sensor → Sensor
  anew s = record s {
    active = false;
    input_state = false;
    latch_delay = min_read_count;
    polling_required = (new_sensor has_callback s.snum s.pin s.pull_up).polling_required;
  }

  create-anew :
      (s : Sensor) (m : Sensors)
      → s.pull_up < 256
      → is_valid_pin s.pin ≡ true
      → Absent number s.snum m.all
      → (create has_callback true s.snum s.pin s.pull_up m).1.all ≡ anew s ∷ m.all
  unfolding create remove anew
  create-anew s m small valid absent =
      let off : (ltb vpin_max s.pin && not (s.pin == vpin_none)) ≡ false = ground (arith, valid) in
      let kept : s.pull_up % 256 ≡ s.pull_up = omega (arith, small) in
      let gone : (remove s.snum m).1.all ≡ m.all =
        remove-without s.snum m ∙ without-Absent number s.snum m.all absent in
      rw (off, create) (ap₂ (λ p xs. record (anew s) { pull_up = p } ∷ xs) kept gone)

  load_all-Stored :
      (size : ℕ) (ss : List Sensor) (m : Sensors) (e : Eeprom)
      → AreStorable ss
      → IsUnique number ss
      → AreNew ss m.all
      → Stored size e.pointer ss e.memory
      → (load_all (length ss) has_callback true size m e).0.all ≡ reverse (map anew ss) ++ m.all
  unfolding load_all anew
  load_all-Stored size [] m e ok u new stored = refl
  load_all-Stored size (s ∷ ss) m e ((small, valid), ok) (absent, u) (new, news) (here, rest) =
      let d = e.memory e.pointer in
      let m1 : Sensors = (create has_callback true d.snum d.pin d.pull_up m).1 in
      let made : m1.all ≡ anew s ∷ m.all =
        subst
          (λ (d : SensorData).
            (create has_callback true d.snum d.pin d.pull_up m).1.all ≡ anew s ∷ m.all)
          (sym here) (create-anew s m small valid new) in
      load_all-Stored size ss m1 (record e { pointer = e.pointer + size }) ok u
        (subst (AreNew ss) (sym made) (AreNew-cons ss m.all (anew s) news absent)) rest
      ∙ ap (λ xs. reverse (map anew ss) ++ xs) made
      ∙ sym (append_assoc (reverse (map anew ss)) (anew s ∷ []) m.all)
      ∙ ap (λ xs. xs ++ m.all) (sym (reverse-cons (anew s) (map anew ss)))

  -- When sensors with different numbers, on pins that are allowed and with a byte for the pull-up,
  -- have been stored, each in at least one byte, `load` into an empty list, from the same address and
  -- with memory for them, makes them anew, each with its number, pin and pull-up, in the opposite
  -- order.
  pub load-store-reverse :
      (size : ℕ) (m n : Sensors) (e : Eeprom)
      → 0 < size
      → AreStorable m.all
      → IsUnique number m.all
      → n.all ≡ []
      → (load has_callback true size n (record (store size m e) { pointer = e.pointer })).0.all
        ≡ reverse (map anew m.all)
  unfolding load store
  load-store-reverse size m n e s ok unique empty =
      let e' = record (store_all size m.all (record e { n_sensors = 0 })) { pointer = e.pointer } in
      let (stored, counted) = store_all-Stored size m.all (record e { n_sensors = 0 }) s in
      ap (λ k. (load_all k has_callback true size n e').0.all) {y = length m.all}
        (counted ∙ omega arith)
      ∙ load_all-Stored size m.all n e' ok unique
          (subst (AreNew m.all) (sym empty) (AreNew-nil m.all)) stored
      ∙ ap (λ xs. reverse (map anew m.all) ++ xs) empty
      ∙ append-nil (reverse (map anew m.all))

-- ===== src/Outputs/Saved.antt =====
-- What is stored in the EEPROM is loaded again.
use dccexpress_mini.Prelude.{
  ℕ, ◌+◌, ◌%◌, ◌≤◌, ◌<◌, ◌≡◌, refl, ap, ◌∙◌, sym, subst, Bool, true, false, ◌&&◌, some, List, [],
  ◌∷◌, ◌++◌, ltb, if◌then◌else◌, length, arith, append_assoc, append-nil, ap₂,
}
use dccexpress_mini.Prelude.Keyed.{
  replace_by, Absent, IsUnique, find_by-Absent, replace_by-append, Absent-append,
}
use dccexpress_mini.Outputs.{
  OutputData, Output, Eeprom, Outputs, id_of, vpin_max, create, configure, activate, load_next,
  load_from, load, store, store_from, store_one, loaded_state, with_state, advance, bit_of,
  empty_data, write_pin,
}

-- The flags fit in seven bits, and the pin is one that `create` takes.
abbrev pub IsStorable : OutputData → Type 0
IsStorable d = (d.flags < 128) × (d.pin ≤ vpin_max)

abbrev pub AreStorable : List Output → Type 0
AreStorable [] = Unit
AreStorable (o ∷ os) = IsStorable o.data_of × AreStorable os

-- An output as it is loaded from an address.
abbrev pub reloaded : ℕ → OutputData → Output
reloaded a d = record { data_of = record d { active = loaded_state d }; num = a }

pub reloaded_from : ℕ → ℕ → List Output → List Output
reloaded_from size a [] = []
reloaded_from size a (o ∷ os) = reloaded a o.data_of ∷ reloaded_from size (a + size) os

-- A new id comes to the end of the list.
create-new :
    (m : Outputs) (d : OutputData)
    → d.pin ≤ vpin_max
    → Absent id_of d.id m.all
    → create true d.id d.pin d.flags false m ≡ (
      some (configure d.id d.pin d.flags false empty_data),
      write_pin
          (configure d.id d.pin d.flags false empty_data)
          (record m { all = m.all ++ (configure d.id d.pin d.flags false empty_data ∷ []) }),
    )
unfolding create
create-new m d valid absent =
    let pin_ok : ltb vpin_max d.pin ≡ false = ground (arith, valid) in
    rw (pin_ok, find_by-Absent id_of d.id m.all absent, create) refl

if_never {ℓ} : {A : Type ℓ} (b : Bool) (x y : A) → (if b && false then x else y) ≡ y
if_never true x y = refl
if_never false x y = refl

load_next-Stored :
    (size : ℕ) (m : Outputs)
    → IsStorable (m.eeprom.memory m.eeprom.pointer)
    → Absent id_of (m.eeprom.memory m.eeprom.pointer).id m.all
    → (m' : Outputs) × (load_next true size m ≡ some m')
      × (m'.all ≡ m.all ++ (reloaded m.eeprom.pointer (m.eeprom.memory m.eeprom.pointer) ∷ []))
      × (m'.eeprom ≡ advance size m.eeprom)
unfolding load_next activate configure
load_next-Stored size m (small, valid) absent =
    let d : OutputData = m.eeprom.memory m.eeprom.pointer in
    let o = configure d.id d.pin d.flags false empty_data in
    let on : Bool = ltb 0 (bit_of (loaded_state d)) in
    let o2 : Output = record {
      data_of = record d { flags = d.flags % 128; active = loaded_state d };
      num = m.eeprom.pointer;
    } in
    let kept : d.flags % 128 ≡ d.flags = omega (arith, small) in
    let placed : replace_by id_of d.id o2
          (replace_by id_of d.id (with_state on o) (m.all ++ (o ∷ [])))
        ≡ m.all ++ (reloaded m.eeprom.pointer d ∷ []) =
      ap (replace_by id_of d.id o2)
        (replace_by-append id_of d.id (with_state on o) o m.all refl absent)
      ∙ replace_by-append id_of d.id o2 (with_state on o) m.all refl absent
      ∙ (λ i.
          m.all
          ++ (record {
            data_of = record d { flags = kept i; active = loaded_state d };
            num = m.eeprom.pointer;
          }
              ∷ [])) in
    let made = create-new m d valid absent in
    let c : Outputs = (create true d.id d.pin d.flags false m).1 in
    rw (made, load_next)
      (
        _,
        refl,
        (λ i. replace_by id_of d.id o2 (replace_by id_of d.id (with_state on o) (made i).1.all))
            ∙ placed,
        ap (advance size) (
            (λ i. (activate (bit_of (loaded_state d)) o (made i).1).eeprom)
            ∙ if_never (ltb 0 m.eeprom.n_outputs) _ m.eeprom),
      )

-- The outputs stand one behind the other in the EEPROM.
abbrev pub Stored : ℕ → ℕ → List Output → (ℕ → OutputData) → Type 0
Stored size a [] memory = Unit
Stored size a (o ∷ os) memory = (memory a ≡ o.data_of) × Stored size (a + size) os memory

-- None of the ids is in the list.
abbrev AreNew : List Output → List Output → Type 0
AreNew [] xs = Unit
AreNew (o ∷ os) xs = Absent id_of (id_of o) xs × AreNew os xs

AreNew-snoc :
    (os xs : List Output) (y : Output)
    → AreNew os xs
    → Absent id_of (id_of y) os
    → AreNew os (xs ++ (y ∷ []))
AreNew-snoc [] xs y h a = tt
AreNew-snoc (o ∷ os) xs y (h, hs) (ne, a) =
    (Absent-append id_of (id_of o) xs (y ∷ []) h ((λ e. ne (sym e)), tt), AreNew-snoc os xs y hs a)

load_from-Stored :
    (size : ℕ) (os : List Output) (m : Outputs)
    → AreStorable os
    → IsUnique id_of os
    → AreNew os m.all
    → Stored size m.eeprom.pointer os m.eeprom.memory
    → (m' : Outputs) × (load_from (length os) true size m ≡ some m')
      × (m'.all ≡ m.all ++ reloaded_from size m.eeprom.pointer os)
unfolding load_from reloaded_from
load_from-Stored size [] m ok unique new stored = (m, refl, sym (append-nil m.all))
load_from-Stored size (o ∷ os) m (ok, oks) (absent, unique) (new, news) (stored, rest) =
    let (m1, e, a, p) =
      load_next-Stored size m (subst IsStorable (sym stored) ok)
        (subst (λ (d : OutputData). Absent id_of d.id m.all) (sym stored) new) in
    let a' : m1.all ≡ m.all ++ (reloaded m.eeprom.pointer o.data_of ∷ []) =
      a ∙ ap (λ d. m.all ++ (reloaded m.eeprom.pointer d ∷ [])) stored in
    let (m', e', l) =
      load_from-Stored size os m1 oks unique
        (subst (AreNew os) (sym a')
          (AreNew-snoc os m.all (reloaded m.eeprom.pointer o.data_of) news absent))
        (subst (λ (q : Eeprom). Stored size q.pointer os q.memory) (sym p) rest) in
    (
      m',
      rw (e, load_from) e',
      l
          ∙ ap₂ (λ xs (q : Eeprom). xs ++ reloaded_from size q.pointer os) a' p
          ∙ append_assoc m.all (reloaded m.eeprom.pointer o.data_of ∷ [])
              (reloaded_from size (m.eeprom.pointer + size) os),
    )

-- What `store` writes further on leaves an address alone.
store_from-before :
    (size : ℕ) (os : List Output) (e : Eeprom) (a : ℕ)
    → 0 < size
    → a < e.pointer
    → (store_from size os e).1.memory a ≡ e.memory a
unfolding store_from
store_from-before size [] e a s h = refl
store_from-before size (o ∷ os) e a s h =
    store_from-before size os (store_one size o e) a s (omega (arith, h)) ∙ ground (arith, h)

store_from-Stored :
    (size : ℕ) (os : List Output) (e : Eeprom)
    → 0 < size
    → Stored size e.pointer os (store_from size os e).1.memory
unfolding store_from
store_from-Stored size [] e s = tt
store_from-Stored size (o ∷ os) e s = (
  store_from-before size os (store_one size o e) e.pointer s (omega (arith, s)) ∙ ground arith,
  store_from-Stored size os (store_one size o e) s,
)

store_from-n_outputs :
    (size : ℕ) (os : List Output) (e : Eeprom)
    → (store_from size os e).1.n_outputs ≡ e.n_outputs + length os
unfolding store_from
store_from-n_outputs size [] e = omega arith
store_from-n_outputs size (o ∷ os) e =
    store_from-n_outputs size os (store_one size o e) ∙ omega arith

none_yet : (os : List Output) → AreNew os []
none_yet [] = tt
none_yet (o ∷ os) = (tt, none_yet os)

-- A start of the station: no outputs yet, and the EEPROM read from an address on.
abbrev pub restarted : ℕ → Eeprom → Outputs
restarted a e = record { all = []; eeprom = record e { pointer = a }; pins = [] }

-- When outputs with different ids, flags of seven bits and pins up to `VPIN_MAX` have been stored,
-- `load` after a restart, from the same address and with memory for them, makes the same outputs in
-- the same order, with their ids, pins and flags; each is active as it was when it was stored, or
-- as its default says if its flags ask for that, and knows its address in the EEPROM.
pub load-store :
    (size : ℕ) (m : Outputs)
    → 0 < size
    → AreStorable m.all
    → IsUnique id_of m.all
    → (m' : Outputs) × (load true size (restarted m.eeprom.pointer (store size m).eeprom) ≡ some m')
      × (m'.all ≡ reloaded_from size m.eeprom.pointer m.all)
unfolding load store
load-store size m s ok unique =
    let e : Eeprom = record m.eeprom { n_outputs = 0 } in
    let e' : Eeprom = (store_from size m.all e).1 in
    let (m', r, l) =
      load_from-Stored size m.all (restarted m.eeprom.pointer e') ok unique (none_yet m.all)
        (store_from-Stored size m.all e s) in
    let counted : e'.n_outputs ≡ length m.all = store_from-n_outputs size m.all e ∙ omega arith in
    (m', ap (λ n. load_from n true size (restarted m.eeprom.pointer e')) counted ∙ r, l)

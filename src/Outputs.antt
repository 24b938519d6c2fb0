-- ===== src/Outputs.antt =====
-- Outputs.cpp and Outputs.h (CommandStation-EX): the list of outputs, their pins and their flags in
-- the EEPROM. An output is found by its id, which no two outputs share. The EEPROM holds an
-- `OutputData` at an address; `oStatus` is its first member. The calls `EEStore::pointer`,
-- `EEStore::advance` and `EEPROM.put` and `get` are the fields and updates of `Eeprom`, and
-- `IODevice::write` is an entry of `pins`.
pub mod Lookup
pub mod Saved
mod Tests
use dccexpress_mini.Prelude.{
  ℕ, zero, suc, ◌+◌, ◌-◌, ◌/◌, ◌%◌, Bool, true, false, ◌&&◌, not, Option, none, some, List, [], ◌∷◌,
  ◌++◌, ltb, ◌==◌, if◌then◌else◌, length, map,
}
use dccexpress_mini.Prelude.Keyed.{find_by, without, replace_by}

abbrev pub vpin_max : ℕ
vpin_max = 32767

-- `OutputData`: seven bits of flags and the state.
pub record OutputData : Type 0 where
  pub flags : ℕ
  pub active : Bool
  pub id : ℕ
  pub pin : ℕ

pub record Output : Type 0 where
  pub data_of : OutputData
  pub num : ℕ

pub record Eeprom : Type 0 where
  pub n_outputs : ℕ
  pub pointer : ℕ
  pub memory : ℕ → OutputData

-- The list from `firstOutput` on, the EEPROM, and the levels written to pins, newest first.
pub record Outputs : Type 0 where
  pub all : List Output
  pub eeprom : Eeprom
  pub pins : List (ℕ × Bool)

abbrev pub id_of : Output → ℕ
id_of o = o.data_of.id

abbrev pub invert : OutputData → Bool
invert d = d.flags % 2 == 1

abbrev pub set_default : OutputData → Bool
set_default d = d.flags / 2 % 2 == 1

abbrev pub default_value : OutputData → Bool
default_value d = d.flags / 4 % 2 == 1

-- `s ^ data.invert`.
abbrev pub level : OutputData → Bool
level d = if d.active then not (invert d) else invert d

abbrev pub put : ℕ → OutputData → Eeprom → Eeprom
put a d e = record e { memory = λ b. if b == a then d else e.memory b }

-- The byte `oStatus` has the flags and the state.
abbrev pub put_status : ℕ → OutputData → Eeprom → Eeprom
put_status a d e = put a (record (e.memory a) { flags = d.flags; active = d.active }) e

abbrev pub advance : ℕ → Eeprom → Eeprom
advance size e = record e { pointer = e.pointer + size }

abbrev pub with_state : Bool → Output → Output
with_state s o = record o { data_of = record o.data_of { active = s } }

-- `activate` of the output o of the list.
unfoldable pub activate : ℕ → Output → Outputs → Outputs
unfolding replace_by
activate s o m =
    let o' : Output = with_state (ltb 0 s) o in
    record m {
      all = replace_by id_of (id_of o) o' m.all;
      pins = (o'.data_of.pin, level o'.data_of) ∷ m.pins;
      eeprom =
          if ltb 0 m.eeprom.n_outputs && ltb 0 o.num
          then put_status o.num o'.data_of m.eeprom
          else m.eeprom;
    }

unfoldable pub get : ℕ → List Output → Option Output
unfolding find_by
get n os = find_by id_of n os

unfoldable pub remove : ℕ → Outputs → Bool × Outputs
unfolding find_by without
remove n m = elim (find_by id_of n m.all) [
  | none ↦ (false, m)
  | some o ↦ (true, record m { all = without id_of n m.all })
]

-- `calloc` gives an output of zeros.
abbrev pub empty_data : OutputData
empty_data = record { flags = 0; active = false; id = 0; pin = 0 }

-- What `create` makes of an output: v is whether the state is set anew.
unfoldable pub configure : ℕ → ℕ → ℕ → Bool → OutputData → Output
configure id pin flags v old =
    let d : OutputData = record { flags = flags % 128; active = old.active; id = id; pin = pin } in
    record {
      data_of = record d { active = if v then set_default d && default_value d else old.active };
      num = 0;
    }

abbrev pub write_pin : Output → Outputs → Outputs
write_pin o m = record m { pins = (o.data_of.pin, level o.data_of) ∷ m.pins }

-- `memory` tells whether `calloc` finds room. An output that is there is changed in its place, and
-- a new one comes to the end of the list.
unfoldable pub create : Bool → ℕ → ℕ → ℕ → Bool → Outputs → Option Output × Outputs
unfolding find_by replace_by configure
create memory id pin flags v m =
    if ltb vpin_max pin then (none, m) else elim (find_by id_of id m.all) [
      | some old ↦
          let o : Output = configure id pin flags v old.data_of in
          (some o, write_pin o (record m { all = replace_by id_of id o m.all }))
      | none ↦
          let o : Output = configure id pin flags v empty_data in
          if memory then (some o, write_pin o (record m { all = m.all ++ (o ∷ []) })) else (none, m)
    ]

-- The state that `load` gives an output.
abbrev pub loaded_state : OutputData → Bool
loaded_state d = if set_default d then default_value d else d.active

abbrev pub bit_of : Bool → ℕ
bit_of b = if b then 1 else 0

-- One turn of the loop of `load`. There is no defined result if `create` makes no output, since
-- `activate` is called before that is tested.
unfoldable pub load_next : Bool → ℕ → Outputs → Option Outputs
unfolding create activate replace_by
load_next memory size m =
    let d : OutputData = m.eeprom.memory m.eeprom.pointer in
    let (made, m1) = create memory d.id d.pin d.flags false m in
    elim made [
      | none ↦ none
      | some o ↦
          let m2 : Outputs = activate (bit_of (loaded_state d)) o m1 in
          let o2 : Output = record (with_state (loaded_state d) o) { num = m.eeprom.pointer } in
          some
            (record m2 { all = replace_by id_of d.id o2 m2.all; eeprom = advance size m2.eeprom })
    ]

unfoldable pub load_from : ℕ → Bool → ℕ → Outputs → Option Outputs
unfolding load_next
load_from zero memory size m = some m
load_from (suc n) memory size m = elim (load_next memory size m) [
  | none ↦ none
  | some m' ↦ load_from n memory size m'
]

-- `size` is `sizeof(OutputData)`.
unfoldable pub load : Bool → ℕ → Outputs → Option Outputs
unfolding load_from
load memory size m = load_from m.eeprom.n_outputs memory size m

abbrev pub store_one : ℕ → Output → Eeprom → Eeprom
store_one size o e = record (advance size (put e.pointer o.data_of e)) {
  n_outputs = e.n_outputs + 1;
}

-- The loop of `store`: the outputs with their addresses, and the EEPROM.
unfoldable pub store_from : ℕ → List Output → Eeprom → List Output × Eeprom
store_from size [] e = ([], e)
store_from size (o ∷ os) e =
    let (os', e') = store_from size os (store_one size o e) in
    (record o { num = e.pointer } ∷ os', e')

unfoldable pub store : ℕ → Outputs → Outputs
unfolding store_from
store size m =
    let (all, e) = store_from size m.all (record m.eeprom { n_outputs = 0 }) in
    record m { all = all; eeprom = e }

-- `printAll`: the ids and the states.
unfoldable pub print_all : List Output → List (ℕ × Bool)
print_all [] = []
print_all (o ∷ os) = (o.data_of.id, o.data_of.active) ∷ print_all os

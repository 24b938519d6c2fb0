-- ===== src/Turnouts.antt =====
-- Turnouts.cpp and Turnouts.h (CommandStation-EX): the list of turnouts of four kinds, their
-- states, and their copy in the EEPROM. A turnout is found by its id, which no two turnouts share.
-- `new` always finds room. EXRAIL is compiled in, and `DCC_TURNOUTS_RCN_213` is a parameter. The
-- EEPROM holds a `Cell` at an address, and the sizes of the cells are those in the comments of the
-- source.
pub mod Lookup
pub mod Switching
mod Tests
use dccexpress_mini.Prelude.{
  ℕ, zero, suc, ◌+◌, ◌%◌, Bool, true, false, ◌&&◌, not, Option, none, some, List, [], ◌∷◌, ◌++◌,
  ltb, ◌==◌, if◌then◌else◌,
}
use dccexpress_mini.Prelude.Keyed.{find_by, without, replace_by}

-- The subclasses with their data.
pub data Kind : Type 0 where
  servo : ℕ → ℕ → ℕ → ℕ → Kind
  dcc : ℕ → ℕ → Kind
  vpin : ℕ → Kind
  lcn : Kind

-- A `Turnout` with its `TurnoutData`.
pub record Turnout : Type 0 where
  pub id : ℕ
  pub closed : Bool
  pub hidden : Bool
  pub kind : Kind
  pub eeprom_address : ℕ

-- What is done to the hardware and told to other parts.
pub data Event : Type 0 where
  configure_servo : ℕ → ℕ → ℕ → ℕ → Bool → Event
  write_analogue : ℕ → ℕ → ℕ → Event
  set_accessory : ℕ → ℕ → Bool → Event
  write_pin : ℕ → Bool → Event
  lcn_send : ℕ → Bool → Event
  broadcast_turnout : ℕ → Bool → Event
  turnout_event : ℕ → Bool → Event

-- The common data with its flags, or the data of a subclass.
pub data Cell : Type 0 where
  common : Bool → Bool → ℕ → ℕ → Cell
  specific : Kind → Cell

pub record Eeprom : Type 0 where
  pub n_turnouts : ℕ
  pub pointer : ℕ
  pub memory : ℕ → Cell

-- The list from `_firstTurnout` on, `turnoutlistHash`, the EEPROM, and the events, newest first.
pub record Turnouts : Type 0 where
  pub all : List Turnout
  pub hash : ℕ
  pub eeprom : Eeprom
  pub events : List Event

abbrev pub event : Event → Turnouts → Turnouts
event e m = record m { events = e ∷ m.events }

abbrev pub same : Bool → Bool → Bool
same a b = if a then b else not b

-- `turnoutType`.
abbrev pub type_of : Kind → ℕ
type_of (servo v t c p) = 2
type_of (dcc a s) = 1
type_of (vpin v) = 3
type_of lcn = 4

abbrev pub is_type : ℕ → Turnout → Bool
is_type n t = type_of t.kind == n

unfoldable pub get : ℕ → Turnouts → Option Turnout
unfolding find_by
get n m = find_by (λ t. t.id) n m.all

abbrev pub exists : ℕ → Turnouts → Bool
exists n m = elim (get n m) [ none ↦ false | some t ↦ true ]

abbrev pub is_closed : ℕ → Turnouts → Bool
is_closed n m = elim (get n m) [ none ↦ false | some t ↦ t.closed ]

-- `add`: to the end of the list.
abbrev pub add : Turnout → Turnouts → Turnouts
add t m = record m { all = m.all ++ (t ∷ []); hash = m.hash + 1 }

unfoldable pub remove : ℕ → Turnouts → Bool × Turnouts
unfolding get without
remove n m = elim (get n m) [
  | none ↦ (false, m)
  | some t ↦ (true, record m { all = without (λ t. t.id) n m.all; hash = m.hash + 1 })
]

-- `setClosedInternal` of each subclass.
abbrev pub move_servo : ℕ → ℕ → ℕ → ℕ → Bool → Event
move_servo v thrown_position closed_position profile close =
    write_analogue v (if close then closed_position else thrown_position) profile

abbrev pub move_dcc : Bool → ℕ → ℕ → Bool → Event
move_dcc rcn_213 address sub_address close =
    set_accessory address sub_address (if rcn_213 then close else not close)

abbrev pub move_vpin : ℕ → Bool → Event
move_vpin v close = write_pin v close

abbrev pub move_lcn : ℕ → Bool → Event
move_lcn n close = lcn_send n (not close)

-- The virtual call.
unfoldable pub set_closed_internal : Bool → Bool → Turnout → Event
set_closed_internal rcn_213 close t = elim (t.kind) [
  | servo v thrown_position closed_position profile ↦
      move_servo v thrown_position closed_position profile close
  | dcc address sub_address ↦ move_dcc rcn_213 address sub_address close
  | vpin v ↦ move_vpin v close
  | lcn ↦ move_lcn t.id close
]

abbrev pub with_state : Bool → Turnout → Turnout
with_state close t = record t { closed = close }

-- The state of the turnout t of the list, and its report if it changes.
unfoldable pub change_state : Bool → Turnout → Turnouts → Turnouts
unfolding replace_by
change_state close t m =
    if same t.closed close
    then m
    else event (broadcast_turnout t.id close)
        (record m { all = replace_by (λ t. t.id) t.id (with_state close t) m.all })

unfoldable pub set_closed_state_only : ℕ → Bool → Turnouts → Bool × Turnouts
unfolding get change_state
set_closed_state_only n close m = elim (get n m) [
  | none ↦ (false, m)
  | some t ↦ (true, event (turnout_event n close) (change_state close t m))
]

abbrev pub put : ℕ → Cell → Eeprom → Eeprom
put a c e = record e { memory = λ b. if b == a then c else e.memory b }

-- The flags are the first byte of the common data.
abbrev pub flags_into : Turnout → Cell → Cell
flags_into t (common closed hidden type id) = common t.closed t.hidden (type_of t.kind) id
flags_into t (specific k) = specific k

-- The end of `setClosed`: the flags are saved if the turnout has a place in the EEPROM.
unfoldable pub save_flags : Bool → Turnout → Turnouts → Turnouts
save_flags close t m =
    if ltb 0 m.eeprom.n_turnouts && ltb 0 t.eeprom_address
    then record m {
      eeprom =
          put t.eeprom_address (flags_into (with_state close t) (m.eeprom.memory t.eeprom_address))
            m.eeprom;
    }
    else m

-- `setClosed`: the turnout is moved, its state is changed, and its flags are saved.
unfoldable pub set_closed : Bool → ℕ → Bool → Turnouts → Bool × Turnouts
unfolding get set_closed_internal set_closed_state_only save_flags
set_closed rcn_213 n close m = elim (get n m) [
  | none ↦ (false, m)
  | some t ↦
      let moved : Turnouts = event (set_closed_internal rcn_213 close t) m in
      (true, save_flags close t (set_closed_state_only n close moved).1)
]

abbrev pub new_turnout : ℕ → Kind → Bool → Turnout
new_turnout n k close = record {
  id = n;
  closed = close;
  hidden = false;
  kind = k;
  eeprom_address = 0;
}

-- What the four functions `create` share: a turnout of the same type gets the new data and keeps
-- its state, one of another type is removed and made anew.
unfoldable pub create : ℕ → Kind → Bool → Turnouts → Turnouts
unfolding get remove replace_by
create n k close m = elim (get n m) [
  | none ↦ add (new_turnout n k close) m
  | some t ↦
      if is_type (type_of k) t
      then record m { all = replace_by (λ t. t.id) n (record t { kind = k }) m.all }
      else add (new_turnout n k close) (remove n m).1
]

abbrev pub instant : ℕ
instant = 0

abbrev pub is_servo : ℕ → Turnouts → Bool
is_servo n m = elim (get n m) [ none ↦ false | some t ↦ is_type 2 t ]

-- A servo is told its positions if it was there, and moved in any case. The positions are kept in
-- 12 bits.
unfoldable pub create_servo : ℕ → ℕ → ℕ → ℕ → ℕ → Bool → Turnouts → Turnouts
unfolding create get
create_servo n v thrown_position closed_position profile close m =
    let m' : Turnouts =
      create n (servo v (thrown_position % 4096) (closed_position % 4096) (profile % 256)) close
        m in
    event (write_analogue v (if close then closed_position else thrown_position) instant) (
      if is_servo n m
      then event (configure_servo v thrown_position closed_position profile close) m'
      else m')

-- The address is kept in 14 bits and its subaddress in 2. A new turnout is thrown.
unfoldable pub create_dcc : ℕ → ℕ → ℕ → Turnouts → Turnouts
unfolding create
create_dcc n address sub_address m = create n (dcc (address % 16384) (sub_address % 4)) false m

unfoldable pub create_vpin : ℕ → ℕ → Bool → Turnouts → Turnouts
unfolding create
create_vpin n v close m = create n (vpin v) close m

unfoldable pub create_lcn : ℕ → Bool → Turnouts → Turnouts
unfolding create
create_lcn n close m = create n lcn close m

-- `printAll`: the ids with whether the turnout is thrown, of those that are not hidden.
unfoldable pub print_all : List Turnout → List (ℕ × Bool)
print_all [] = []
print_all (t ∷ ts) =
    let more = print_all ts in if t.hidden then more else (t.id, not t.closed) ∷ more

abbrev pub size_of : Kind → ℕ
size_of (servo v t c p) = 6
size_of (dcc a s) = 2
size_of (vpin v) = 2
size_of lcn = 0

abbrev pub advance : ℕ → Eeprom → Eeprom
advance n e = record e { pointer = e.pointer + n }

-- `save` of the four subclasses: an LCN turnout is not written.
unfoldable pub save : Turnout → Eeprom → Eeprom
save t e =
    let c : Cell = common t.closed t.hidden (type_of t.kind) t.id in
    let e1 : Eeprom = advance 3 (put e.pointer c e) in
    let e2 : Eeprom = advance (size_of t.kind) (put e1.pointer (specific t.kind) e1) in
    elim (t.kind) [ lcn ↦ e | servo v t c p ↦ e2 | dcc a s ↦ e2 | vpin v ↦ e2 ]

unfoldable pub store_from : List Turnout → Eeprom → Eeprom
unfolding save
store_from [] e = e
store_from (t ∷ ts) e = store_from ts (record (save t e) { n_turnouts = (save t e).n_turnouts + 1 })

unfoldable pub store : Turnouts → Turnouts
unfolding store_from
store m = record m { eeprom = store_from m.all (record m.eeprom { n_turnouts = 0 }) }

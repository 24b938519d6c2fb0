-- ===== src/Exrail/Begin.antt =====
-- EXRAIL2.cpp: `begin`, which loads the lookups, defines what the script defines, and starts the
-- tasks of AUTOSTART. The descriptions that hide a turnout or a turntable are left out.
use dccexpress_mini.Prelude.{
  ℕ, zero, suc, ◌+◌, ◌%◌, Bool, true, false, Option, none, some, List, [], ◌∷◌, ◌==◌, ◌>>=◌,
  if◌then◌else◌, leb, replicate,
}
use dccexpress_mini.Exrail.Opcode.{
  Opcode, decode, byte_route, byte_automation, byte_sequence, byte_endexrail, byte_onthrow,
  byte_onclose, byte_onactivate, byte_ondeactivate, byte_onchange, byte_ontime, byte_onrotate,
  byte_onoverload, byte_onred, byte_onamber, byte_ongreen, feature_signal, feature_stash,
  feature_sensor, signal_red, max_flags,
}
use dccexpress_mini.Exrail.Opcode.Opcode.{
  op_at, op_attimeout2, op_after, op_if, op_ifnot, op_stash, op_clear_stash, op_pickup_stash,
  op_atgte, op_atlt, op_ifgte, op_iflt, op_drive, op_onsensor, op_onbutton, op_turnout,
  op_servoturnout, op_pinturnout, op_dccturntable, op_exttturntable, op_ttaddposition, op_autostart,
}
use dccexpress_mini.Exrail.State.{
  Build, LookList, Lookups, SignalType, Exrail, call, is_negative, negate, has_feature,
}
use dccexpress_mini.Exrail.State.LookList.{unchained}
use dccexpress_mini.Exrail.State.SignalType.{sigtype_no_more_signals, sigtype_continuation}
use dccexpress_mini.Exrail.State.Call.{
  configure_input, configure_analog_in, create_sensor, create_dcc_turnout, create_servo_turnout,
  create_vpin_turnout, create_dcc_turntable, create_ext_turntable, add_position,
}
use dccexpress_mini.Exrail.Lookup.{add, chain, size}
use dccexpress_mini.Exrail.Program.{get_operand, positions, look_list_loader}
use dccexpress_mini.Exrail.Tasks.{start_task}
use dccexpress_mini.Exrail.Signals.{do_signal}

abbrev pub is_last : SignalType → Bool
is_last sigtype_no_more_signals = true
is_last _ = false

abbrev pub is_continuation : SignalType → Bool
is_continuation sigtype_continuation = true
is_continuation _ = false

-- The loop that counts the signals, from a slot on.
unfoldable pub count_signals : Build → ℕ → ℕ → ℕ
count_signals b zero slot = 0
count_signals b (suc fuel) slot =
    let rest = count_signals b fuel (slot + 1) in
    let type = (b.signals slot).type_of in
    if is_last type then 0 else (if is_continuation type then rest else rest + 1)

abbrev pub with_signals : LookList → Exrail → Exrail
with_signals l m = record m { lookups = record (m.lookups) { signal = l } }

-- The loop that adds each signal to the lookup, and sets it red.
unfoldable pub load_signals : Build → ℕ → ℕ → Exrail → Option Exrail
unfolding add do_signal
load_signals b zero slot m = none
load_signals b (suc fuel) slot m =
    let s = b.signals slot in
    elim (is_last s.type_of) [
      | true ↦ some m
      | false ↦ elim (is_continuation s.type_of) [
        | true ↦ load_signals b fuel (slot + 1) m
        | false ↦ do
          red ← do_signal b s.id signal_red (with_signals (add s.id slot m.lookups.signal) m)
          load_signals b fuel (slot + 1) red
      ]
    ]

abbrev magnitude : ℕ → ℕ
magnitude x = if is_negative x then negate x else x

-- `max` of two values of type `int16_t`.
abbrev max16 : ℕ → ℕ → ℕ
max16 x y = if is_negative y then x else (if leb x y then y else x)

abbrev configure : ℕ → Exrail → Exrail
configure x m = call (configure_input (magnitude x)) m

abbrev pub stash_used : ℕ → Exrail → Exrail
stash_used x m = record m { max_stash_id = max16 m.max_stash_id x }

abbrev pub sensor : Build → ℕ → ℕ → Bool → Exrail → Exrail
sensor b pc x on_change m =
    if has_feature b feature_sensor then call (create_sensor x (pc + 3) on_change) m else m

-- The `switch` of `begin` for the instruction at pc, with x its operand.
unfoldable pub define : Build → ℕ → ℕ → Opcode → Exrail → Exrail
unfolding get_operand start_task
define b pc x op_at m = configure x m
define b pc x op_attimeout2 m = configure x m
define b pc x op_after m = configure x m
define b pc x op_if m = configure x m
define b pc x op_ifnot m = configure x m
define b pc x op_stash m = stash_used x m
define b pc x op_clear_stash m = stash_used x m
define b pc x op_pickup_stash m = stash_used x m
define b pc x op_atgte m = call (configure_analog_in x) m
define b pc x op_atlt m = call (configure_analog_in x) m
define b pc x op_ifgte m = call (configure_analog_in x) m
define b pc x op_iflt m = call (configure_analog_in x) m
define b pc x op_drive m = call (configure_analog_in x) m
define b pc x op_onsensor m = sensor b pc x true m
define b pc x op_onbutton m = sensor b pc x false m
define b pc x op_turnout m =
    call (create_dcc_turnout x (get_operand b pc 1) (get_operand b pc 2 % 256)) m
define b pc x op_servoturnout m =
    call
      (create_servo_turnout x (get_operand b pc 1) (get_operand b pc 2) (get_operand b pc 3)
        (get_operand b pc 4))
      m
define b pc x op_pinturnout m = call (create_vpin_turnout x (get_operand b pc 1)) m
define b pc x op_dccturntable m =
    call (add_position x 0 0 (get_operand b pc 1)) (call (create_dcc_turntable x) m)
define b pc x op_exttturntable m =
    call (add_position x 0 0 (get_operand b pc 2))
      (call (create_ext_turntable x (get_operand b pc 1)) m)
define b pc x op_ttaddposition m =
    call (add_position x (get_operand b pc 1) (get_operand b pc 2) (get_operand b pc 3)) m
define b pc x op_autostart m = start_task (λ t. t) pc m
define b pc x _ m = m

unfoldable pub define_all : Build → List ℕ → Exrail → Exrail
unfolding decode define
define_all b [] m = m
define_all b (pc ∷ pcs) m =
    define_all b pcs (elim (decode (b.route_code pc)) [
      | none ↦ m
      | some op ↦ define b pc (get_operand b pc 0) op m
    ])

-- The first pass: the lookups that every build has, and those for the signals.
abbrev load : Build → List ℕ → ℕ → LookList
load b pcs op = look_list_loader b pcs op byte_endexrail byte_endexrail

unfoldable pub load_lookups : Build → List ℕ → Lookups
unfolding look_list_loader chain
load_lookups b pcs =
    let signals = has_feature b feature_signal in
    let none_yet = unchained 0 [] in
    record {
      route =
          chain (load b pcs byte_sequence)
            (look_list_loader b pcs byte_route byte_automation byte_endexrail);
      on_throw = load b pcs byte_onthrow;
      on_close = load b pcs byte_onclose;
      on_activate = load b pcs byte_onactivate;
      on_deactivate = load b pcs byte_ondeactivate;
      on_change = load b pcs byte_onchange;
      on_clock = load b pcs byte_ontime;
      on_rotate = load b pcs byte_onrotate;
      on_overload = load b pcs byte_onoverload;
      on_red = if signals then load b pcs byte_onred else none_yet;
      on_amber = if signals then load b pcs byte_onamber else none_yet;
      on_green = if signals then load b pcs byte_ongreen else none_yet;
      signal = unchained (if signals then count_signals b b.signals_size 0 else 0) [];
    }

-- The static members before `begin`, with the lookups and the cleared flags.
abbrev pub fresh : Build → Bool → Lookups → Exrail
fresh b lcc l = record {
  ring = [];
  pausing_task = none;
  flags = replicate max_flags 0;
  lookups = l;
  progtrack_loco_id = 0;
  route_states = if b.compile_features == 0 then [] else replicate (size l.route) 0;
  stash = [];
  max_stash_id = 0;
  lcc_serial = lcc;
  calls = [];
  next_address = 2;
}

abbrev pub with_stashes : Build → Exrail → Exrail
with_stashes b m =
    if has_feature b feature_stash
    then (if m.max_stash_id == 0 then m else record m { stash = replicate (m.max_stash_id + 1) 0 })
    else m

unfoldable pub begin : Build → Bool → Option Exrail
unfolding positions load_lookups load_signals define_all
begin b lcc = do
  scanned ← positions b b.code_size 0
  loaded ←
      (let m = fresh b lcc (load_lookups b scanned.0) in
        if has_feature b feature_signal then load_signals b b.signals_size 0 m else some m)
  some (with_stashes b (define_all b scanned.0 loaded))

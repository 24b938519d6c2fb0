-- ===== src/Exrail/Signals.antt =====
-- EXRAIL2.cpp: the signals, and the events of other parts for which there are handlers.
use dccexpress_mini.Prelude.{
  ℕ, ◌+◌, ◌*◌, ◌%◌, Bool, true, false, ◌&&◌, ◌||◌, not, Option, none, some, bit_and, ◌==◌, ◌>>=◌,
  if◌then◌else◌, get_or,
}
use dccexpress_mini.Exrail.Opcode.{
  signal_mask, signal_red, signal_amber, signal_green, feature_signal,
}
use dccexpress_mini.Exrail.State.{
  SignalType, SignalDefinition, Build, LookList, Exrail, call, is_negative, has_feature,
}
use dccexpress_mini.Exrail.State.SignalType.{
  sigtype_signal, sigtype_signalh, sigtype_dcc, sigtype_dccx, sigtype_servo, sigtype_neopixel,
}
use dccexpress_mini.Exrail.State.Call.{set_accessory, set_extended_accessory, write, write_analogue}
use dccexpress_mini.Exrail.Lookup.{find}
use dccexpress_mini.Exrail.Tasks.{set_flag, kill_blink_on_vpin, handle_event}

-- `PCA9685::Bounce`.
abbrev bounce : ℕ
bounce = 4

abbrev sim_amber : ℕ
sim_amber = 0x00

-- The value of the three for the aspect, as each kind of signal picks it.
abbrev pub servo_position : ℕ → SignalDefinition → ℕ
servo_position rag s =
    if rag == signal_red then s.redpin else (if rag == signal_green then s.greenpin else s.amberpin)

abbrev pub aspect_value : ℕ → SignalDefinition → ℕ
aspect_value rag s =
    if rag == signal_green
    then s.greenpin
    else (if rag == signal_amber then s.amberpin else s.redpin)

-- Without a pin for amber, amber is red and green together.
abbrev pub shown : ℕ → SignalDefinition → ℕ
shown rag s = if (rag == signal_amber) && (s.amberpin == 0) then sim_amber else rag

-- One of the three pins, 0 for none. A blink task on the pin is killed.
unfoldable pub set_pin : Build → Bool → ℕ → Bool → Exrail → Option Exrail
unfolding kill_blink_on_vpin
set_pin b a_high pin value m = if pin == 0 then some m else do
  killed ← kill_blink_on_vpin b pin 1 m
  some (call (write pin (if a_high then value else not value)) killed)

unfoldable pub set_pins : Build → Bool → ℕ → SignalDefinition → Exrail → Option Exrail
unfolding set_pin
set_pins b a_high rag s m = do
  red ← set_pin b a_high s.redpin ((rag == signal_red) || (rag == sim_amber)) m
  amber ← set_pin b a_high s.amberpin (rag == signal_amber) red
  set_pin b a_high s.greenpin ((rag == signal_green) || (rag == sim_amber)) amber

-- The `switch` of `doSignal` on the type of the signal, which is in the slot.
unfoldable pub show_as : SignalType → Build → ℕ → ℕ → ℕ → Exrail → Option Exrail
unfolding set_pins
show_as sigtype_servo b id rag slot m =
    let position = servo_position rag (b.signals slot) in
    if position == 0 then some m else some (call (write_analogue id position bounce 0) m)
show_as sigtype_dcc b id rag slot m =
    let s = b.signals slot in
    some (call (set_accessory s.redpin s.amberpin (not (rag == signal_red))) m)
show_as sigtype_dccx b id rag slot m =
    some (call (set_extended_accessory id (aspect_value rag (b.signals slot))) m)
show_as sigtype_neopixel b id rag slot m = some (
    call
      (write_analogue id (aspect_value rag (b.signals slot)) 1
        (aspect_value rag (b.signals (slot + 1))))
      m)
show_as sigtype_signal b id rag slot m =
    set_pins b false (shown rag (b.signals slot)) (b.signals slot) m
show_as sigtype_signalh b id rag slot m =
    set_pins b true (shown rag (b.signals slot)) (b.signals slot) m
show_as _ b id rag slot m = some m

unfoldable pub show_signal : Build → ℕ → ℕ → ℕ → Exrail → Option Exrail
unfolding show_as
show_signal b id rag slot m = show_as (b.signals slot).type_of b id rag slot m

abbrev pub handlers_of : ℕ → Exrail → LookList
handlers_of rag m =
    if rag == signal_red
    then m.lookups.on_red
    else (if rag == signal_green then m.lookups.on_green else m.lookups.on_amber)

-- `doSignal`: the handlers, the state in the flags, then the signal itself.
unfoldable pub do_signal : Build → ℕ → ℕ → Exrail → Option Exrail
unfolding handle_event find set_flag show_signal
do_signal b id rag m =
    let handled = handle_event id (handlers_of rag m) m in
    let slot = find id m.lookups.signal in
    if has_feature b feature_signal
    then if is_negative slot
      then some handled
      else show_signal b id rag slot (set_flag slot rag signal_mask handled)
    else some m

unfoldable pub is_signal : Build → ℕ → ℕ → Exrail → Bool
unfolding find
is_signal b id rag m =
    let slot = find id m.lookups.signal in
    if has_feature b feature_signal
    then if is_negative slot then false else bit_and (get_or m.flags slot 0) signal_mask == rag
    else false

abbrev answered : Option Exrail → Option (Bool × Exrail)
answered none = none
answered (some m) = some (true, m)

-- No DCCX signal is defined for the address.
unfoldable pub is_other : Build → ℕ → Exrail → Bool
unfolding find
is_other b address m =
    let slot = find address m.lookups.signal in
    let is_dccx : Bool = elim ((b.signals slot).type_of) [ sigtype_dccx ↦ true | _ ↦ false ] in
    not (has_feature b feature_signal) || (is_negative slot || not is_dccx)

-- `signalAspectEvent`.
unfoldable pub signal_aspect_event : Build → ℕ → ℕ → Exrail → Option (Bool × Exrail)
unfolding find do_signal is_other
signal_aspect_event b address aspect m =
    let slot = find address m.lookups.signal in
    let s = b.signals slot in
    if is_other b address m
    then some (false, m)
    else (if aspect == s.redpin
        then answered (do_signal b address signal_red m)
        else (if aspect == s.amberpin
            then answered (do_signal b address signal_amber m)
            else (if aspect == s.greenpin
                then answered (do_signal b address signal_green m)
                else some (false, m))))

unfoldable pub turnout_event : ℕ → Bool → Exrail → Exrail
unfolding handle_event
turnout_event id closed m =
    if closed then handle_event id m.lookups.on_close m else handle_event id m.lookups.on_throw m

unfoldable pub activate_event : ℕ → Bool → Exrail → Exrail
unfolding handle_event
activate_event addr activate m =
    if activate
    then handle_event addr m.lookups.on_activate m
    else handle_event addr m.lookups.on_deactivate m

unfoldable pub change_event : ℕ → Bool → Exrail → Exrail
unfolding handle_event
change_event vpin change m = if change then handle_event vpin m.lookups.on_change m else m

unfoldable pub rotate_event : ℕ → Bool → Exrail → Exrail
unfolding handle_event
rotate_event id change m = if change then handle_event id m.lookups.on_rotate m else m

-- `clockEvent`, at a time that is not negative.
unfoldable pub clock_event : ℕ → Bool → Exrail → Exrail
unfolding handle_event
clock_event time change m =
    if change
    then handle_event ((25 * 60 + time % 60) % 0x1_0000) m.lookups.on_clock
        (handle_event time m.lookups.on_clock m)
    else m

unfoldable pub power_event : ℕ → Bool → Exrail → Exrail
unfolding handle_event
power_event track overload m = if overload then handle_event track m.lookups.on_overload m else m

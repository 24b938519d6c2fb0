-- ===== src/Exrail/Returns.antt =====
-- EXRAIL2.cpp: what returns in a build without BLINK, and the skip of a block where the script ends.
use dccexpress_mini.Prelude.{
  ℕ, zero, suc, ◌+◌, ◌-◌, ◌*◌, ◌<◌, ◌≡◌, refl, sym, ap, ◌∙◌, Bool, true, false, Option, none, some,
  ◌==◌, ◌>>=◌, arith, if_both, true≢false,
}
use dccexpress_mini.Exrail.Opcode.{
  byte_endexrail, feature_blink, feature_signal, signal_red, signal_amber, signal_green,
}
use dccexpress_mini.Exrail.State.{
  Build, SignalType, SignalDefinition, Exrail, is_negative, has_feature,
}
use dccexpress_mini.Exrail.State.SignalType.{
  sigtype_signal, sigtype_signalh, sigtype_dcc, sigtype_servo,
}
use dccexpress_mini.Exrail.Lookup.{find}
use dccexpress_mini.Exrail.Program.{Nesting, nesting_of, skip_from}
use dccexpress_mini.Exrail.Program.Nesting.{deeper, no_endif, shallower, alternative, no_change}
use dccexpress_mini.Exrail.Program.Skipped.{found, missing_endif}
use dccexpress_mini.Exrail.Tasks.{kill_blink_on_vpin}
use dccexpress_mini.Exrail.Signals.{
  servo_position, shown, is_other, set_pin, set_pins, show_as, show_signal, do_signal,
  signal_aspect_event,
}
use dccexpress_mini.Exrail.Actions.{write_vpins}
use dccexpress_mini.Exrail.Calm.{without_blinks}

abbrev pub is_some {ℓ} : {A : Type ℓ} → Option A → Bool
is_some none = false
is_some (some a) = true

pub bind-is_some {ℓ κ} :
    {A : Type ℓ} {B : Type κ} (o : Option A) (f : A → Option B)
    → is_some o ≡ true
    → ((a : A) → is_some (f a) ≡ true)
    → is_some (o >>= f) ≡ true
bind-is_some none f h g = absurd (true≢false (sym h))
bind-is_some (some a) f h g = g a

abbrev pub Made : Option Exrail → Type 0
Made o = is_some o ≡ true

abbrev Told : Option (Bool × Exrail) → Type 0
Told o = is_some o ≡ true

-- The instructions of the script from the one behind the counter on come to the end.
abbrev pub EndsAhead : Build → ℕ → ℕ → Type 0
EndsAhead b n pc = (b.route_code (pc + 3 + n * 3) ≡ byte_endexrail) × (n < b.code_size)

pub skip_from-is_some :
    (b : Build) (n fuel nest pc : ℕ)
    → b.route_code (pc + 3 + n * 3) ≡ byte_endexrail
    → n < fuel
    → is_some (skip_from b fuel nest pc) ≡ true
unfolding skip_from
skip_from-is_some b n zero nest pc e h = elim h [ ]
skip_from-is_some b zero (suc fuel) nest pc e h =
    let here : b.route_code (pc + 3) ≡ byte_endexrail = ap b.route_code (omega arith) ∙ e in
    ground (arith, here)
skip_from-is_some b (suc n) (suc fuel) nest pc e h =
    by_nesting (nesting_of (b.route_code (pc + 3))) (nest == 1)
      (λ k. skip_from-is_some b n fuel k (pc + 3) (ap b.route_code (omega arith) ∙ e) (omega arith))
  where
    by_nesting :
        (s : Nesting) (outer : Bool)
        → ((k : ℕ) → is_some (skip_from b fuel k (pc + 3)) ≡ true)
        → is_some (elim s [
          | deeper ↦ skip_from b fuel (nest + 1) (pc + 3)
          | no_endif ↦ some (missing_endif (pc + 3))
          | shallower ↦ elim outer [
            | true ↦ some (found (pc + 3))
            | false ↦ skip_from b fuel (nest - 1) (pc + 3)
          ]
          | alternative ↦ elim outer [
            | true ↦ some (found (pc + 3))
            | false ↦ skip_from b fuel nest (pc + 3)
          ]
          | no_change ↦ skip_from b fuel nest (pc + 3)
        ])
          ≡ true
    by_nesting deeper outer go = go _
    by_nesting no_endif outer go = refl
    by_nesting shallower true go = refl
    by_nesting shallower false go = go _
    by_nesting alternative true go = refl
    by_nesting alternative false go = go _
    by_nesting no_change outer go = go _

module _ (b : Build) (f : has_feature b feature_blink ≡ false) where
  set_pin-is_some :
      (high : Bool) (pin : ℕ) (v : Bool) (m : Exrail) → is_some (set_pin b high pin v m) ≡ true
  unfolding set_pin
  set_pin-is_some high pin v m = if_both Made (pin == 0) refl (
      bind-is_some (kill_blink_on_vpin b pin 1 m) _ (ap is_some (without_blinks b pin 1 m f))
        (λ m'. refl))

  set_pins-is_some :
      (high : Bool) (rag : ℕ) (s : SignalDefinition) (m : Exrail)
      → is_some (set_pins b high rag s m) ≡ true
  unfolding set_pins
  set_pins-is_some high rag s m =
      bind-is_some (set_pin b high s.redpin _ m) _ (set_pin-is_some high s.redpin _ m) (λ m1.
        bind-is_some (set_pin b high s.amberpin _ m1) _ (set_pin-is_some high s.amberpin _ m1)
          (λ m2. set_pin-is_some high s.greenpin _ m2))

  show_as-is_some :
      (type : SignalType) (id rag slot : ℕ) (m : Exrail)
      → is_some (show_as type b id rag slot m) ≡ true
  unfolding show_as
  show_as-is_some sigtype_servo id rag slot m =
      if_both Made (servo_position rag (b.signals slot) == 0) refl refl
  show_as-is_some sigtype_signal id rag slot m =
      set_pins-is_some false (shown rag (b.signals slot)) (b.signals slot) m
  show_as-is_some sigtype_signalh id rag slot m =
      set_pins-is_some true (shown rag (b.signals slot)) (b.signals slot) m
  show_as-is_some sigtype_dcc id rag slot m = refl
  show_as-is_some _ id rag slot m = refl

  pub do_signal-is_some : (id rag : ℕ) (m : Exrail) → is_some (do_signal b id rag m) ≡ true
  unfolding do_signal show_signal
  do_signal-is_some id rag m =
      let slot = find id m.lookups.signal in
      if_both Made (has_feature b feature_signal)
        (if_both Made (is_negative slot) refl
          (show_as-is_some (b.signals slot).type_of id rag slot _))
        refl

  pub write_vpins-is_some :
      (n vpin : ℕ) (v : Bool) (m : Exrail) → is_some (write_vpins b n vpin v m) ≡ true
  unfolding write_vpins
  write_vpins-is_some zero vpin v m = refl
  write_vpins-is_some (suc n) vpin v m =
      rw (without_blinks b vpin 1 m f) (write_vpins-is_some n _ v _)

  answered-is_some :
      (o : Option Exrail)
      → is_some o ≡ true
      → is_some {A = Bool × Exrail} (elim o [ none ↦ none | some m ↦ some (true, m) ]) ≡ true
  answered-is_some none h = h
  answered-is_some (some m) h = refl

  pub aspect-is_some :
      (address aspect : ℕ) (m : Exrail) → is_some (signal_aspect_event b address aspect m) ≡ true
  unfolding signal_aspect_event
  aspect-is_some address aspect m =
      let s = b.signals (find address m.lookups.signal) in
      let told : (rag : ℕ)
          → is_some {A = Bool × Exrail}
              (elim (do_signal b address rag m) [ none ↦ none | some m ↦ some (true, m) ])
            ≡ true =
        λ rag. answered-is_some (do_signal b address rag m) (do_signal-is_some address rag m) in
      if_both Told (is_other b address m) refl (
        if_both Told (aspect == s.redpin) (told signal_red) (
          if_both Told (aspect == s.amberpin) (told signal_amber)
            (if_both Told (aspect == s.greenpin) (told signal_green) refl)))

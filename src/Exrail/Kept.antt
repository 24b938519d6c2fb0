-- ===== src/Exrail/Kept.antt =====
-- EXRAIL2.cpp: what no instruction changes, given that no part of one does.
use dccexpress_mini.Prelude.{
  ℕ, zero, suc, ◌≡◌, refl, Bool, true, false, Option, none, some, List, [], ◌∷◌, bit_and, ◌==◌,
  ◌>>=◌, if◌then◌else◌, if_both, length,
}
use dccexpress_mini.Prelude.Keyed.{find_by}
use dccexpress_mini.Exrail.Opcode.{
  section_flag, signal_mask, signal_red, signal_amber, signal_green, feature_blink, feature_signal,
}
use dccexpress_mini.Exrail.State.{
  Task, Build, Call, Exrail, LookList, SignalType, SignalDefinition, call, has_feature, is_negative,
}
use dccexpress_mini.Exrail.State.SignalType.{
  sigtype_signal, sigtype_signalh, sigtype_dcc, sigtype_dccx, sigtype_servo, sigtype_neopixel,
}
use dccexpress_mini.Exrail.Lookup.{find, entries}
use dccexpress_mini.Exrail.Tasks.{
  set_flag, start_task, kill, blinks_on, next_of, kill_all, kill_blinks, kill_blink_on_vpin,
  is_handled, start_non_recursive_task, start_handlers, handle_event,
}
use dccexpress_mini.Exrail.Signals.{
  servo_position, shown, handlers_of, is_other, set_pin, set_pins, show_as, show_signal, do_signal,
  signal_aspect_event,
}

-- What a caller may set in a new task.
unfoldable pub IsMild : (Task → Task) → Type 0
IsMild init = (u : Task) → ((init u).address ≡ u.address) × ((init u).call_stack ≡ u.call_stack)

-- A predicate that no part of an instruction breaks, FREE aside: only FREE clears a section's flag.
pub record IsKept (P : Exrail → Type 0) : Type 0 where
  pub kept_call : (c : Call) (m : Exrail) → P m → P (call c m)
  pub kept_pausing : (a : Option ℕ) (m : Exrail) → P m → P (record m { pausing_task = a })
  pub kept_loco_id : (x : ℕ) (m : Exrail) → P m → P (record m { progtrack_loco_id = x })
  pub kept_states : (xs : List ℕ) (m : Exrail) → P m → P (record m { route_states = xs })
  pub kept_stash : (xs : List ℕ) (m : Exrail) → P m → P (record m { stash = xs })
  pub kept_flag :
      (id on off : ℕ) (m : Exrail) → bit_and off section_flag ≡ 0 → P m → P (set_flag id on off m)
  pub kept_start :
      (init : Task → Task) (pc : ℕ) (m : Exrail) → IsMild init → P m → P (start_task init pc m)
  pub kept_kill : (t : Task) (m : Exrail) → P m → P (kill t m)
  pub kept_kill_all : (m : Exrail) → P m → P (kill_all m.ring m)

pub both-IsKept : (P Q : Exrail → Type 0) → IsKept P → IsKept Q → IsKept (λ m. P m × Q m)
both-IsKept P Q k l = record {
  kept_call = λ c m h. (k.kept_call c m h.0, l.kept_call c m h.1);
  kept_pausing = λ a m h. (k.kept_pausing a m h.0, l.kept_pausing a m h.1);
  kept_loco_id = λ x m h. (k.kept_loco_id x m h.0, l.kept_loco_id x m h.1);
  kept_states = λ xs m h. (k.kept_states xs m h.0, l.kept_states xs m h.1);
  kept_stash = λ xs m h. (k.kept_stash xs m h.0, l.kept_stash xs m h.1);
  kept_flag = λ id on off m e h. (k.kept_flag id on off m e h.0, l.kept_flag id on off m e h.1);
  kept_start =
      λ init pc m mild h. (k.kept_start init pc m mild h.0, l.kept_start init pc m mild h.1);
  kept_kill = λ t m h. (k.kept_kill t m h.0, l.kept_kill t m h.1);
  kept_kill_all = λ m h. (k.kept_kill_all m h.0, l.kept_kill_all m h.1);
}

-- The same of what may run out of fuel.
unfoldable pub Kept {ℓ} : {A : Type ℓ} (P : A → Type 0) → Option A → Type 0
Kept P none = Unit
Kept P (some a) = P a

pub some-Kept {ℓ} : {A : Type ℓ} (P : A → Type 0) {a : A} → P a → Kept P (some a)
unfolding Kept
some-Kept P h = h

pub Kept-some {ℓ} : {A : Type ℓ} (P : A → Type 0) {a : A} → Kept P (some a) → P a
unfolding Kept
Kept-some P h = h

pub Kept-weaken {ℓ} :
    {A : Type ℓ} (P Q : A → Type 0) (o : Option A) → ((a : A) → P a → Q a) → Kept P o → Kept Q o
unfolding Kept
Kept-weaken P Q none f h = tt
Kept-weaken P Q (some a) f h = f a h

pub none-Kept {ℓ} : {A : Type ℓ} (P : A → Type 0) → Kept P none
unfolding Kept
none-Kept P = tt

pub bind-Kept {ℓ κ} :
    {A : Type ℓ} {B : Type κ} (P : A → Type 0) (Q : B → Type 0) (o : Option A) (f : A → Option B)
    → Kept P o
    → ((a : A) → P a → Kept Q (f a))
    → Kept Q (o >>= f)
unfolding Kept
bind-Kept P Q none f h g = tt
bind-Kept P Q (some a) f h g = g a h

-- A predicate that stands when a call is made and when a task is killed.
pub record IsQuiet (P : Exrail → Type 0) : Type 0 where
  pub quiet_call : (c : Call) (m : Exrail) → P m → P (call c m)
  pub quiet_kill : (t : Task) (m : Exrail) → P m → P (kill t m)

IsKept→IsQuiet : (P : Exrail → Type 0) → IsKept P → IsQuiet P
IsKept→IsQuiet P k = record { quiet_call = k.kept_call; quiet_kill = k.kept_kill }

module _ (P : Exrail → Type 0) (k : IsQuiet P) where
  open k use {quiet_call, quiet_kill}

  called : (c : Call) (m : Exrail) → P m → Kept P (some (call c m))
  called c m p = some-Kept P (quiet_call c m p)

  kill_blinking-kept :
      (o : Option Task) (pin last : ℕ) (m : Exrail)
      → P m
      → P (elim o [ none ↦ m | some t ↦ if blinks_on pin last t then kill t m else m ])
  kill_blinking-kept none pin last m p = p
  kill_blinking-kept (some t) pin last m p = if_both P (blinks_on pin last t) (quiet_kill t m p) p

  either-kept :
      (test : Bool) (x y : Option Exrail)
      → Kept P x
      → Kept P y
      → Kept P (elim test [ true ↦ x | false ↦ y ])
  either-kept true x y h h' = h
  either-kept false x y h h' = h'

  kill_blinks-kept :
      (fuel pin last stop a : ℕ) (m : Exrail) → P m → Kept P (kill_blinks fuel pin last stop a m)
  unfolding kill_blinks
  kill_blinks-kept zero pin last stop a m p = none-Kept P
  kill_blinks-kept (suc fuel) pin last stop a m p =
      let p' = kill_blinking-kept (find_by (λ t. t.address) a m.ring) pin last m p in
      either-kept (next_of a m.ring == stop) (some _) _ (some-Kept P p')
        (kill_blinks-kept fuel pin last stop (next_of a m.ring) _ p')

  kill_from-kept :
      (pin last : ℕ) (m : Exrail) (ts : List Task)
      → P m
      → Kept P (elim ts [
        | [] ↦ some m
        | t ∷ us ↦ kill_blinks (length m.ring) pin last t.address t.address m
      ])
  kill_from-kept pin last m [] p = some-Kept P p
  kill_from-kept pin last m (t ∷ ts) p = kill_blinks-kept _ _ _ _ _ m p

  kill_pin-kept :
      (b : Build) (pin count : ℕ) (m : Exrail) → P m → Kept P (kill_blink_on_vpin b pin count m)
  unfolding kill_blink_on_vpin
  kill_pin-kept b pin count m p =
      if_both (Kept P) (has_feature b feature_blink) (kill_from-kept pin _ m m.ring p)
        (some-Kept P p)

  set_pin-kept :
      (b : Build) (h : Bool) (pin : ℕ) (v : Bool) (m : Exrail) → P m → Kept P (set_pin b h pin v m)
  unfolding set_pin
  set_pin-kept b h pin v m p = if_both (Kept P) (pin == 0) (some-Kept P p) (
      bind-Kept P P (kill_blink_on_vpin b pin 1 m) _ (kill_pin-kept b pin 1 m p)
        (λ m' p'. called _ m' p'))

  set_pins-kept :
      (b : Build) (h : Bool) (rag : ℕ) (s : SignalDefinition) (m : Exrail)
      → P m
      → Kept P (set_pins b h rag s m)
  unfolding set_pins
  set_pins-kept b h rag s m p =
      bind-Kept P P (set_pin b h s.redpin _ m) _ (set_pin-kept b h s.redpin _ m p) (λ m1 p1.
        bind-Kept P P (set_pin b h s.amberpin _ m1) _ (set_pin-kept b h s.amberpin _ m1 p1)
          (λ m2 p2. set_pin-kept b h s.greenpin _ m2 p2))

  pub show_as-kept :
      (type : SignalType) (b : Build) (id rag slot : ℕ) (m : Exrail)
      → P m
      → Kept P (show_as type b id rag slot m)
  unfolding show_as
  show_as-kept sigtype_servo b id rag slot m p =
      if_both (Kept P) (servo_position rag (b.signals slot) == 0) (some-Kept P p) (called _ m p)
  show_as-kept sigtype_dcc b id rag slot m p = called _ m p
  show_as-kept sigtype_dccx b id rag slot m p = called _ m p
  show_as-kept sigtype_neopixel b id rag slot m p = called _ m p
  show_as-kept sigtype_signal b id rag slot m p =
      set_pins-kept b false (shown rag (b.signals slot)) (b.signals slot) m p
  show_as-kept sigtype_signalh b id rag slot m p =
      set_pins-kept b true (shown rag (b.signals slot)) (b.signals slot) m p
  show_as-kept _ b id rag slot m p = some-Kept P p

module _ (P : Exrail → Type 0) (k : IsKept P) where
  open k use {kept_call, kept_flag, kept_start, kept_kill}

  pub kill_blink-kept :
      (b : Build) (pin count : ℕ) (m : Exrail) → P m → Kept P (kill_blink_on_vpin b pin count m)
  kill_blink-kept = kill_pin-kept P (IsKept→IsQuiet P k)

  start_handlers-kept : (id : ℕ) (es : List (ℕ × ℕ)) (m : Exrail) → P m → P (start_handlers id es m)
  unfolding start_handlers start_non_recursive_task IsMild
  start_handlers-kept id [] m p = p
  start_handlers-kept id ((x, pc) ∷ es) m p = start_handlers-kept id es _ (
      if_both P (x == id)
        (if_both P (is_handled pc m.ring) p (
          kept_start (λ t. record t { on_event_start_position = some pc }) pc m (λ u. (refl, refl))
            p))
        p)

  pub handle_event-kept : (id : ℕ) (l : LookList) (m : Exrail) → P m → P (handle_event id l m)
  unfolding handle_event
  handle_event-kept id l m p = start_handlers-kept id (entries l) m p

  pub do_signal-kept : (b : Build) (id rag : ℕ) (m : Exrail) → P m → Kept P (do_signal b id rag m)
  unfolding do_signal show_signal
  do_signal-kept b id rag m p =
      let slot = find id m.lookups.signal in
      let handlers = handlers_of rag m in
      let handled = handle_event-kept id handlers m p in
      if_both (Kept P) (has_feature b feature_signal)
        (if_both (Kept P) (is_negative slot) (some-Kept P handled) (
          show_as-kept P (IsKept→IsQuiet P k) (b.signals slot).type_of b id rag slot _
            (kept_flag slot rag signal_mask (handle_event id handlers m) refl handled)))
        (some-Kept P p)

  -- Of an aspect of a signal, and whether it was one.
  abbrev pub Answered : Bool × Exrail → Type 0
  Answered r = P r.1

  Answered-kept :
      (o : Option Exrail)
      → Kept P o
      → Kept Answered (elim o [ none ↦ none | some m ↦ some (true, m) ])
  unfolding Kept
  Answered-kept none h = tt
  Answered-kept (some m) h = h

  pub signal_aspect_event-kept :
      (b : Build) (address aspect : ℕ) (m : Exrail)
      → P m
      → Kept Answered (signal_aspect_event b address aspect m)
  unfolding signal_aspect_event
  signal_aspect_event-kept b address aspect m p =
      let s = b.signals (find address m.lookups.signal) in
      let no : Kept Answered (some (false, m)) = some-Kept Answered p in
      if_both (Kept Answered) (is_other b address m) no (
        if_both (Kept Answered) (aspect == s.redpin)
          (Answered-kept (do_signal b address signal_red m)
            (do_signal-kept b address signal_red m p))
          (if_both (Kept Answered) (aspect == s.amberpin)
            (Answered-kept (do_signal b address signal_amber m)
              (do_signal-kept b address signal_amber m p))
            (if_both (Kept Answered) (aspect == s.greenpin)
              (Answered-kept (do_signal b address signal_green m)
                (do_signal-kept b address signal_green m p))
              no)))

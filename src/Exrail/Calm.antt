-- ===== src/Exrail/Calm.antt =====
-- EXRAIL2.cpp: while no task blinks, a signal is set without an endless sweep for blink tasks.
use dccexpress_mini.Prelude.{
  ℕ, ◌+◌, ◌%◌, ◌≡◌, ◌⊎◌, ◌<◌, refl, sym, ap, subst, inl, inr, Bool, true, false, Option, some, List,
  [], ◌∷◌, ◌++◌, ◌==◌, ◌>>=◌, Bool-cases, if_both, length, leb,
}
use dccexpress_mini.Prelude.Apart.{Each, Each-append}
use dccexpress_mini.Prelude.Rotated.{IsRotation}
use dccexpress_mini.Exrail.Opcode.{feature_signal, feature_blink, max_flags, signal_mask}
use dccexpress_mini.Exrail.State.{
  Task, Build, Call, SignalDefinition, SignalType, Exrail, call, is_negative, has_feature,
}
use dccexpress_mini.Exrail.Lookup.{entries, find}
use dccexpress_mini.Exrail.Tasks.{
  is_blinking, blinks_on, start_task, is_handled, start_handlers, start_non_recursive_task,
  handle_event, kill_blinks, kill_blink_on_vpin, set_flag,
}
use dccexpress_mini.Exrail.Signals.{
  servo_position, shown, handlers_of, set_pin, set_pins, show_as, show_signal, do_signal, is_signal,
}
use dccexpress_mini.Exrail.State.SignalType.{
  sigtype_signal, sigtype_signalh, sigtype_dcc, sigtype_dccx, sigtype_servo, sigtype_neopixel,
}
use dccexpress_mini.Exrail.Kept.{IsMild, Kept, Kept-some, kill_blink-kept}
use dccexpress_mini.Exrail.Sound.{IsSound, IsSound-IsKept, set_flag-IsSound, chain_in-Each}
use dccexpress_mini.Exrail.Aspects.{is_signal-do_signal}
use dccexpress_mini.Exrail.Cut.{Leaves}
use dccexpress_mini.Exrail.Blink.{unblinked, kill_blink-sweeps}

-- The invariant, and no task of the ring blinks.
abbrev IsStill : Task → Type 0
IsStill t = is_blinking t ≡ false

unfoldable pub IsCalm : Exrail → Type 0
IsCalm m = IsSound m × Each IsStill m.ring

-- A result there is, and it is calm.
unfoldable pub Calms : Option Exrail → Type 0
Calms o = (m : Exrail) × (o ≡ some m) × IsCalm m

pub some-Calms : (m : Exrail) → IsCalm m → Calms (some m)
unfolding Calms
some-Calms m c = (m, refl, c)

pub bind-Calms :
    (o : Option Exrail) (f : Exrail → Option Exrail)
    → Calms o
    → ((m : Exrail) → IsCalm m → Calms (f m))
    → Calms (o >>= f)
unfolding Calms
bind-Calms o f (m, e, c) g = rw e (g m c)

Each-split : (xs ys : List Task) → Each IsStill (xs ++ ys) → Each IsStill xs × Each IsStill ys
Each-split [] ys h = (tt, h)
Each-split (x ∷ xs) ys (p, h) = let (a, b) = Each-split xs ys h in ((p, a), b)

IsRotation-Each : (r s : List Task) → IsRotation r s → Each IsStill s → Each IsStill r
IsRotation-Each r s h e =
    let (b, f) = Each-split h.back h.front (subst (Each IsStill) h.joined e) in
    subst (Each IsStill) (sym h.parts) (Each-append IsStill h.front h.back f b)

still-blinks_on : (pin last : ℕ) (t : Task) → IsStill t → blinks_on pin last t ≡ false
still-blinks_on pin last t h = rw h

unblinked-Still : (pin last : ℕ) (ts : List Task) → Each IsStill ts → unblinked pin last ts ≡ ts
unfolding unblinked
unblinked-Still pin last [] h = refl
unblinked-Still pin last (t ∷ ts) (p, h) =
    rw (still-blinks_on pin last t p) (ap (λ x. t ∷ x) (unblinked-Still pin last ts h))

without_ring :
    (b : Build) (pin count : ℕ) (m : Exrail)
    → m.ring ≡ []
    → kill_blink_on_vpin b pin count m ≡ some m
unfolding kill_blink_on_vpin
without_ring b pin count m e =
    if_both (λ o. o ≡ some m) (has_feature b feature_blink)
      (λ i. elim (e i) [
        | [] ↦ some m
        | t ∷ ts ↦
            kill_blinks (length m.ring) pin ((pin + count + 0xFFFF) % 0x1_0000) t.address t.address
              m
      ])
      refl

pub without_blinks :
    (b : Build) (pin count : ℕ) (m : Exrail)
    → has_feature b feature_blink ≡ false
    → kill_blink_on_vpin b pin count m ≡ some m
unfolding kill_blink_on_vpin
without_blinks b pin count m f = rw f

-- The sweep for blink tasks returns, and finds none.
kill_blink-Calms :
    (b : Build) (pin count : ℕ) (m : Exrail) → IsCalm m → Calms (kill_blink_on_vpin b pin count m)
unfolding IsCalm Calms Leaves
kill_blink-Calms b pin count m (s, still) = elim (Bool-cases (has_feature b feature_blink)) [
  | inl f ↦ by_ring f m.ring refl
  | inr f ↦ (m, without_blinks b pin count m f, (s, still))
]
  where
    last : ℕ
    last = (pin + count + 0xFFFF) % 0x1_0000

    by_ring :
        has_feature b feature_blink ≡ true
        → (r : List Task) → m.ring ≡ r
        → Calms (kill_blink_on_vpin b pin count m)
    by_ring f [] e = (m, without_ring b pin count m e, (s, still))
    by_ring f (t ∷ ts) e =
        let first = still-blinks_on pin last t (subst (Each IsStill) e still).0 in
        let (n, (p, rest)) = kill_blink-sweeps b pin count m t ts f s.distinct e first in
        (
          n,
          p,
          (
            Kept-some IsSound
                (subst (Kept IsSound) p (kill_blink-kept IsSound IsSound-IsKept b pin count m s)),
            IsRotation-Each n.ring (unblinked pin last m.ring) rest
                (subst (Each IsStill) (sym (unblinked-Still pin last m.ring still)) still),
          ),
        )

pub called : (c : Call) (m : Exrail) → IsCalm m → IsCalm (call c m)
unfolding IsCalm
called c m (s, h) = (IsSound-IsKept.kept_call c m s, h)

pub start_task-IsCalm :
    (init : Task → Task) (pc : ℕ) (m : Exrail)
    → IsMild init
    → ((u : Task) → is_blinking (init u) ≡ is_blinking u)
    → IsCalm m
    → IsCalm (start_task init pc m)
unfolding IsCalm start_task
start_task-IsCalm init pc m mild same (s, h) = (
  IsSound-IsKept.kept_start init pc m mild s,
  chain_in-Each init pc m IsStill _ m.ring (same _) h,
)

set_flag-IsCalm : (id on off : ℕ) (m : Exrail) → IsCalm m → IsCalm (set_flag id on off m)
unfolding IsCalm set_flag
set_flag-IsCalm id on off m (s, h) = (
  set_flag-IsSound id on off m s,
  if_both (λ (n : Exrail). Each IsStill n.ring) (leb max_flags id) h h,
)

start_handlers-IsCalm :
    (id : ℕ) (es : List (ℕ × ℕ)) (m : Exrail) → IsCalm m → IsCalm (start_handlers id es m)
unfolding start_handlers start_non_recursive_task IsMild
start_handlers-IsCalm id [] m c = c
start_handlers-IsCalm id ((k, pc) ∷ es) m c = start_handlers-IsCalm id es _ (
    if_both IsCalm (k == id)
      (if_both IsCalm (is_handled pc m.ring) c (
        start_task-IsCalm (λ t. record t { on_event_start_position = some pc }) pc m
          (λ u. (refl, refl)) (λ u. refl) c))
      c)

set_pin-Calms :
    (b : Build) (high : Bool) (pin : ℕ) (v : Bool) (m : Exrail)
    → IsCalm m
    → Calms (set_pin b high pin v m)
unfolding set_pin
set_pin-Calms b high pin v m c = if_both Calms (pin == 0) (some-Calms m c) (
    bind-Calms (kill_blink_on_vpin b pin 1 m) _ (kill_blink-Calms b pin 1 m c)
      (λ n d. some-Calms _ (called _ n d)))

set_pins-Calms :
    (b : Build) (high : Bool) (rag : ℕ) (s : SignalDefinition) (m : Exrail)
    → IsCalm m
    → Calms (set_pins b high rag s m)
unfolding set_pins
set_pins-Calms b high rag s m c =
    bind-Calms (set_pin b high s.redpin _ m) _ (set_pin-Calms b high s.redpin _ m c) (λ m1 c1.
      bind-Calms (set_pin b high s.amberpin _ m1) _ (set_pin-Calms b high s.amberpin _ m1 c1)
        (λ m2 c2. set_pin-Calms b high s.greenpin _ m2 c2))

show_as-Calms :
    (type : SignalType) (b : Build) (id rag slot : ℕ) (m : Exrail)
    → IsCalm m
    → Calms (show_as type b id rag slot m)
unfolding show_as
show_as-Calms sigtype_servo b id rag slot m c =
    if_both Calms (servo_position rag (b.signals slot) == 0) (some-Calms m c)
      (some-Calms _ (called _ m c))
show_as-Calms sigtype_dcc b id rag slot m c = some-Calms _ (called _ m c)
show_as-Calms sigtype_dccx b id rag slot m c = some-Calms _ (called _ m c)
show_as-Calms sigtype_neopixel b id rag slot m c = some-Calms _ (called _ m c)
show_as-Calms sigtype_signal b id rag slot m c =
    set_pins-Calms b false (shown rag (b.signals slot)) (b.signals slot) m c
show_as-Calms sigtype_signalh b id rag slot m c =
    set_pins-Calms b true (shown rag (b.signals slot)) (b.signals slot) m c
show_as-Calms _ b id rag slot m c = some-Calms m c

pub do_signal-Calms :
    (b : Build) (id rag : ℕ) (m : Exrail) → IsCalm m → Calms (do_signal b id rag m)
unfolding do_signal show_signal handle_event
do_signal-Calms b id rag m c =
    let slot = find id m.lookups.signal in
    let handled = start_handlers-IsCalm id (entries (handlers_of rag m)) m c in
    if_both Calms (has_feature b feature_signal)
      (if_both Calms (is_negative slot) (some-Calms _ handled) (
        show_as-Calms (b.signals slot).type_of b id rag slot _
          (set_flag-IsCalm slot rag signal_mask _ handled)))
      (some-Calms m c)

-- In a build with signals, where the invariant holds and no task blinks: `doSignal` of a signal that
-- is defined, in one of the first 256 slots, to red, amber or green, returns, and `isSignal` then
-- finds the signal at that aspect and at no other. The handlers that it starts do not change this.
pub is_signal-set :
    (b : Build) (id rag other : ℕ) (m : Exrail)
    → IsCalm m
    → has_feature b feature_signal ≡ true
    → is_negative (find id m.lookups.signal) ≡ false
    → find id m.lookups.signal < max_flags
    → (rag ≡ 4) ⊎ ((rag ≡ 8) ⊎ (rag ≡ 12))
    → (n : Exrail) × (do_signal b id rag m ≡ some n) × (is_signal b id other n ≡ (rag == other))
unfolding IsCalm Calms
is_signal-set b id rag other m (s, still) f known small c =
    let (n, e, calm) = do_signal-Calms b id rag m (s, still) in
    let R : Exrail → Type 0 = λ k. is_signal b id other k ≡ (rag == other) in
    (n, e, Kept-some R (subst (Kept R) e (is_signal-do_signal b id rag m other s f known small c)))

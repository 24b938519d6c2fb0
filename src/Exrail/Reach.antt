-- ===== src/Exrail/Reach.antt =====
-- EXRAIL2.cpp: the interpreter from `begin` on.
use dccexpress_mini.Prelude.{
  ℕ, zero, suc, ◌+◌, refl, Bool, true, false, Option, none, some, List, [], ◌∷◌, ◌>>=◌, ◌==◌,
  if_both, length-replicate,
}
use dccexpress_mini.Exrail.Opcode.{
  Opcode, decode, feature_signal, feature_stash, feature_sensor, signal_red, max_flags,
}
use dccexpress_mini.Exrail.Opcode.Opcode.{
  op_at, op_attimeout2, op_after, op_if, op_ifnot, op_stash, op_clear_stash, op_pickup_stash,
  op_atgte, op_atlt, op_ifgte, op_iflt, op_drive, op_onsensor, op_onbutton, op_turnout,
  op_servoturnout, op_pinturnout, op_dccturntable, op_exttturntable, op_ttaddposition, op_autostart,
}
use dccexpress_mini.Exrail.State.{Build, Call, Lookups, Exrail, call, has_feature}
use dccexpress_mini.Exrail.Lookup.{add}
use dccexpress_mini.Exrail.Program.{get_operand, positions}
use dccexpress_mini.Exrail.Signals.{do_signal}
use dccexpress_mini.Exrail.Tasks.{start_task}
use dccexpress_mini.Exrail.Begin.{
  is_last, is_continuation, with_signals, load_signals, load_lookups, sensor, stash_used, define,
  define_all, fresh, with_stashes, begin,
}
use dccexpress_mini.Exrail.Kept.{IsMild, Kept, some-Kept, none-Kept, bind-Kept, do_signal-kept}
use dccexpress_mini.Exrail.Sound.{IsSound, IsSound-IsKept, IsSound-flags}
use dccexpress_mini.Exrail.Runs.{Occasion, run, run-IsSound}

called : (c : Call) (m : Exrail) → IsSound m → IsSound (call c m)
called = IsSound-IsKept.kept_call

load_signals-IsSound :
    (b : Build) (fuel slot : ℕ) (m : Exrail) → IsSound m → Kept IsSound (load_signals b fuel slot m)
unfolding load_signals
load_signals-IsSound b zero slot m s = none-Kept IsSound
load_signals-IsSound b (suc fuel) slot m s =
    by_type (is_last (b.signals slot).type_of) (is_continuation (b.signals slot).type_of)
      (load_signals-IsSound b fuel (slot + 1))
  where
    loaded : Exrail
    loaded = with_signals (add (b.signals slot).id slot m.lookups.signal) m

    by_type :
        (last continued : Bool)
        → ((n : Exrail) → IsSound n → Kept IsSound (load_signals b fuel (slot + 1) n))
        → Kept IsSound (elim last [
          | true ↦ some m
          | false ↦ elim continued [
            | true ↦ load_signals b fuel (slot + 1) m
            | false ↦
                do_signal b (b.signals slot).id signal_red loaded >>= load_signals b fuel (slot + 1)
          ]
        ])
    by_type true continued next = some-Kept IsSound s
    by_type false true next = next m s
    by_type false false next =
        bind-Kept IsSound IsSound (do_signal b (b.signals slot).id signal_red loaded) _
          (do_signal-kept IsSound IsSound-IsKept b _ signal_red loaded
            (IsSound-flags m loaded (refl, refl, refl) s))
          next

stash_used-IsSound : (x : ℕ) (m : Exrail) → IsSound m → IsSound (stash_used x m)
stash_used-IsSound x m s = IsSound-flags m _ (refl, refl, refl) s

-- A predicate that what the script defines does not break.
module _ (P : Exrail → Type 0) (calls : (c : Call) (m : Exrail) → P m → P (call c m))
    (stashed : (x : ℕ) (m : Exrail) → P m → P (stash_used x m))
    (started : (pc : ℕ) (m : Exrail) → P m → P (start_task (λ t. t) pc m)) where
  sensor-kept :
      (b : Build) (pc x : ℕ) (on_change : Bool) (m : Exrail) → P m → P (sensor b pc x on_change m)
  sensor-kept b pc x on_change m s = if_both P (has_feature b feature_sensor) (calls _ m s) s

  define-kept : (b : Build) (pc x : ℕ) (op : Opcode) (m : Exrail) → P m → P (define b pc x op m)
  unfolding define
  define-kept b pc x op_at m s = calls _ m s
  define-kept b pc x op_attimeout2 m s = calls _ m s
  define-kept b pc x op_after m s = calls _ m s
  define-kept b pc x op_if m s = calls _ m s
  define-kept b pc x op_ifnot m s = calls _ m s
  define-kept b pc x op_stash m s = stashed x m s
  define-kept b pc x op_clear_stash m s = stashed x m s
  define-kept b pc x op_pickup_stash m s = stashed x m s
  define-kept b pc x op_atgte m s = calls _ m s
  define-kept b pc x op_atlt m s = calls _ m s
  define-kept b pc x op_ifgte m s = calls _ m s
  define-kept b pc x op_iflt m s = calls _ m s
  define-kept b pc x op_drive m s = calls _ m s
  define-kept b pc x op_onsensor m s = sensor-kept b pc x true m s
  define-kept b pc x op_onbutton m s = sensor-kept b pc x false m s
  define-kept b pc x op_turnout m s = calls _ m s
  define-kept b pc x op_servoturnout m s = calls _ m s
  define-kept b pc x op_pinturnout m s = calls _ m s
  define-kept b pc x op_dccturntable m s = calls _ _ (calls _ m s)
  define-kept b pc x op_exttturntable m s = calls _ _ (calls _ m s)
  define-kept b pc x op_ttaddposition m s = calls _ m s
  define-kept b pc x op_autostart m s = started pc m s
  define-kept b pc x _ m s = s

  pub define_all-kept : (b : Build) (pcs : List ℕ) (m : Exrail) → P m → P (define_all b pcs m)
  unfolding define_all
  define_all-kept b [] m s = s
  define_all-kept b (pc ∷ pcs) m s = define_all-kept b pcs _ (decoded (decode (b.route_code pc)))
    where
      decoded :
          (o : Option Opcode)
          → P (elim o [ none ↦ m | some op ↦ define b pc (get_operand b pc 0) op m ])
      decoded none = s
      decoded (some op) = define-kept b pc (get_operand b pc 0) op m s

define_all-IsSound :
    (b : Build) (pcs : List ℕ) (m : Exrail) → IsSound m → IsSound (define_all b pcs m)
unfolding IsMild
define_all-IsSound =
    define_all-kept IsSound called stash_used-IsSound
      (λ pc m s. IsSound-IsKept.kept_start (λ t. t) pc m (λ u. (refl, refl)) s)

pub fresh-IsSound : (b : Build) (lcc : Bool) (l : Lookups) → IsSound (fresh b lcc l)
fresh-IsSound b lcc l = record {
  all_flags = length-replicate {A = ℕ} max_flags 0;
  distinct = tt;
  sound_tasks = tt;
}

with_stashes-IsSound : (b : Build) (m : Exrail) → IsSound m → IsSound (with_stashes b m)
with_stashes-IsSound b m s =
    if_both IsSound (has_feature b feature_stash)
      (if_both IsSound (m.max_stash_id == 0) s (IsSound-flags m _ (refl, refl, refl) s)) s

Any : List ℕ × ℕ → Type 0
Any r = Unit

Any-Kept : (o : Option (List ℕ × ℕ)) → Kept Any o
unfolding Kept Any
Any-Kept none = tt
Any-Kept (some r) = tt

-- What `begin` makes, when it returns, is sound.
pub begin-IsSound : (b : Build) (lcc : Bool) → Kept IsSound (begin b lcc)
unfolding begin
begin-IsSound b lcc = bind-Kept Any IsSound (positions b b.code_size 0) _ (Any-Kept _) (λ r h.
    let m = fresh b lcc (load_lookups b r.0) in
    let s = fresh-IsSound b lcc (load_lookups b r.0) in
    bind-Kept IsSound IsSound _ _
      (if_both (Kept IsSound) (has_feature b feature_signal)
        (load_signals-IsSound b b.signals_size 0 m s) (some-Kept IsSound s))
      (λ n k. some-Kept IsSound (with_stashes-IsSound b _ (define_all-IsSound b r.0 n k))))

-- Whatever the script, and whatever comes after `begin`, in whatever order, of these calls: passes of
-- `loop`, new tasks for routes, sensors and LCC handlers, signals and aspects that are set, the
-- events of turnouts, accessories, encoders, turntables, the clock and overloads, the answer to a
-- request for a loco id, `<JM id cab>`, and the commands `</ >` for PAUSE, RESUME, START, KILL,
-- RESERVE, FREE, LATCH and UNLATCH. If all of them return, there are then 256 flags, the tasks in the
-- ring are distinct, and none has more than four returns on its stack.
pub run-begin :
    (b : Build) (lcc : Bool) (os : List Occasion) → Kept IsSound (begin b lcc >>= run b os)
run-begin b lcc os =
    bind-Kept IsSound IsSound (begin b lcc) (run b os) (begin-IsSound b lcc)
      (λ m s. run-IsSound b os m s)

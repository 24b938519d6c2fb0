-- ===== src/Exrail/Starts.antt =====
-- EXRAIL2.cpp: `begin` returns. Until a script runs there is no blink task, so that no sweep for one
-- goes on for ever.
use dccexpress_mini.Prelude.{
  ℕ, zero, suc, ◌+◌, ◌*◌, ◌<◌, ◌≡◌, refl, sym, ◌∙◌, subst, Bool, true, false, some, ◌==◌, ◌>>=◌,
  arith, if_both, true≢false,
}
use dccexpress_mini.Exrail.Opcode.{byte_endexrail, feature_signal, feature_stash, signal_red}
use dccexpress_mini.Exrail.State.{Build, Lookups, Exrail, has_feature}
use dccexpress_mini.Exrail.Lookup.{add}
use dccexpress_mini.Exrail.Signals.{do_signal}
use dccexpress_mini.Exrail.Begin.{
  is_last, with_signals, load_signals, fresh, stash_used, with_stashes, load_lookups, begin,
}
use dccexpress_mini.Exrail.Kept.{IsMild}
use dccexpress_mini.Exrail.Sound.{IsSound-flags}
use dccexpress_mini.Exrail.Loading.{find-look_list_loader}
use dccexpress_mini.Exrail.Reach.{fresh-IsSound, define_all-kept}
use dccexpress_mini.Exrail.Calm.{
  IsCalm, Calms, some-Calms, bind-Calms, called, start_task-IsCalm, do_signal-Calms,
}

moved :
    (b : Build) {i j : ℕ}
    → i ≡ j
    → is_last (b.signals i).type_of ≡ true
    → is_last (b.signals j).type_of ≡ true
moved b e h = subst (λ x. is_last (b.signals x).type_of ≡ true) e h

-- One turn of the loop over the signals, which goes on unless they end.
signal-Calms :
    (ended continued : Bool) (b : Build) (fuel slot : ℕ) (m : Exrail)
    → IsCalm m
    → (ended ≡ false → (k : Exrail) → IsCalm k → Calms (load_signals b fuel (slot + 1) k))
    → Calms (elim ended [
      | true ↦ some m
      | false ↦ elim continued [
        | true ↦ load_signals b fuel (slot + 1) m
        | false ↦
            do_signal b
              (b.signals slot).id
              signal_red
              (with_signals (add (b.signals slot).id slot m.lookups.signal) m)
            >>= load_signals b fuel (slot + 1)
      ]
    ])
unfolding IsCalm
signal-Calms true continued b fuel slot m c next = some-Calms m c
signal-Calms false true b fuel slot m c next = next refl m c
signal-Calms false false b fuel slot m (s, h) next =
    bind-Calms (do_signal b (b.signals slot).id signal_red _) _
      (do_signal-Calms b (b.signals slot).id signal_red _
        (IsSound-flags m _ (refl, refl, refl) s, h))
      (next refl)

-- The signals end before the fuel does.
load_signals-Calms :
    (b : Build) (n slot fuel : ℕ) (m : Exrail)
    → is_last (b.signals (slot + n)).type_of ≡ true
    → n < fuel
    → IsCalm m
    → Calms (load_signals b fuel slot m)
unfolding load_signals
load_signals-Calms b n slot zero m last h c = elim h [ ]
load_signals-Calms b zero slot (suc fuel) m last h c =
    signal-Calms (is_last (b.signals slot).type_of) _ b fuel slot m c
      (λ more k d. absurd (true≢false (sym (moved b (omega arith) last) ∙ more)))
load_signals-Calms b (suc n) slot (suc fuel) m last h c =
    signal-Calms (is_last (b.signals slot).type_of) _ b fuel slot m c (λ more k d.
      load_signals-Calms b n (slot + 1) fuel k (moved b (omega arith) last) (omega arith) d)

stash_used-IsCalm : (x : ℕ) (m : Exrail) → IsCalm m → IsCalm (stash_used x m)
unfolding IsCalm
stash_used-IsCalm x m (s, h) = (IsSound-flags m _ (refl, refl, refl) s, h)

with_stashes-IsCalm : (b : Build) (m : Exrail) → IsCalm m → IsCalm (with_stashes b m)
unfolding IsCalm
with_stashes-IsCalm b m (s, h) =
    if_both IsCalm (has_feature b feature_stash)
      (if_both IsCalm (m.max_stash_id == 0) (s, h) (IsSound-flags m _ (refl, refl, refl) s, h))
      (s, h)

fresh-IsCalm : (b : Build) (lcc : Bool) (l : Lookups) → IsCalm (fresh b lcc l)
unfolding IsCalm
fresh-IsCalm b lcc l = (fresh-IsSound b lcc l, tt)

-- Where the script and the table of signals end within their sizes, `begin` returns: there are then
-- 256 flags, and the tasks in the ring are distinct, none blinks, and none has more than four
-- returns on its stack.
pub begin-returns :
    (b : Build) (lcc : Bool) (n k : ℕ)
    → b.route_code (n * 3) ≡ byte_endexrail
    → n < b.code_size
    → is_last (b.signals k).type_of ≡ true
    → k < b.signals_size
    → Calms (begin b lcc)
unfolding begin IsMild
begin-returns b lcc n k last h ended l =
    let (r, scanned, found) = find-look_list_loader b 0 0 0 0 n last h in
    let m = fresh b lcc (load_lookups b r.0) in
    let c = fresh-IsCalm b lcc (load_lookups b r.0) in
    rw scanned (
      bind-Calms _ _
        (if_both Calms (has_feature b feature_signal)
          (load_signals-Calms b k 0 b.signals_size m (moved b (omega arith) ended) l c)
          (some-Calms m c))
        (λ o d. some-Calms _ (
          with_stashes-IsCalm b _ (
            define_all-kept IsCalm called stash_used-IsCalm
              (λ pc m' d'. start_task-IsCalm (λ t. t) pc m' (λ u. (refl, refl)) (λ u. refl) d') b
              r.0 o d))))

-- ===== src/Exrail/Aspects.antt =====
-- EXRAIL2.cpp: the state of a signal, as `doSignal` sets it and `isSignal` reads it.
use dccexpress_mini.Prelude.{
  ℕ, ◌<◌, ◌≡◌, refl, sym, ◌∙◌, true, false, Option, none, some, List, [], ◌∷◌, ◌⊎◌, true≢false,
  ◌==◌, if_both, if_cases, arith, bit_and, get_or, get_or-set, get_or-set_self, leb,
}
use dccexpress_mini.Exrail.Opcode.{max_flags, signal_mask, task_flag, feature_signal}
use dccexpress_mini.Exrail.State.{Task, Build, Lookups, Exrail, call, has_feature, is_negative}
use dccexpress_mini.Exrail.Lookup.{find}
use dccexpress_mini.Exrail.Tasks.{
  set_flag, drive_loco, release, kill, kill_all, start_task, unused_id, handle_event,
}
use dccexpress_mini.Exrail.Signals.{handlers_of, show_signal, do_signal, is_signal}
use dccexpress_mini.Exrail.Kept.{
  IsKept, Kept, IsQuiet, Kept-weaken, show_as-kept, handle_event-kept,
}
use dccexpress_mini.Exrail.Flags.{masked, signal_bits, signal_bits_stay}
use dccexpress_mini.Exrail.Sound.{IsSound, IsSound-IsKept}

-- The flag of the slot shows the aspect.
Shows : ℕ → ℕ → Exrail → Type 0
Shows slot rag m = bit_and (get_or m.flags slot 0) signal_mask ≡ rag

module _ (slot rag : ℕ) where
  release-Shows : (t : Task) (m : Exrail) → Shows slot rag m → Shows slot rag (release t m)
  unfolding release drive_loco set_flag Shows
  release-Shows t m h =
      if_both (λ (r : Task × Exrail). Shows slot rag (set_flag t.task_id 0 task_flag r.1))
        (t.loco == 0) {x = (t, m)} (cleared m h) (cleared (call _ m) h)
    where
      cleared :
          (m' : Exrail) → Shows slot rag m' → Shows slot rag (set_flag t.task_id 0 task_flag m')
      cleared m' h' = if_both (Shows slot rag) (leb max_flags t.task_id) h' (
          get_or-set (λ f. bit_and f signal_mask ≡ rag) m'.flags t.task_id slot _ 0 h'
            (λ e. signal_bits_stay (get_or m'.flags t.task_id 0) ∙ rw e h'))

  Shows-IsQuiet : IsQuiet (Shows slot rag)
  unfolding kill Shows
  Shows-IsQuiet = record { quiet_call = λ c m h. h; quiet_kill = release-Shows }

-- The lookups stand once they are loaded.
pub HasLookups : Lookups → Exrail → Type 0
HasLookups l m = m.lookups ≡ l

module _ (l : Lookups) where
  set_flag-HasLookups :
      (id on off : ℕ) (m : Exrail) → HasLookups l m → HasLookups l (set_flag id on off m)
  unfolding set_flag HasLookups
  set_flag-HasLookups id on off m h = if_both (HasLookups l) (leb max_flags id) h h

  release-HasLookups : (t : Task) (m : Exrail) → HasLookups l m → HasLookups l (release t m)
  unfolding release drive_loco HasLookups
  release-HasLookups t m h =
      set_flag-HasLookups t.task_id 0 task_flag (drive_loco 1 t m).1
        (if_both (λ (r : Task × Exrail). HasLookups l r.1) (t.loco == 0) {x = (t, m)} h h)

  kill_all-HasLookups :
      (ts : List Task) (m : Exrail) → HasLookups l m → HasLookups l (kill_all ts m)
  unfolding kill_all HasLookups
  kill_all-HasLookups [] m h = h
  kill_all-HasLookups (t ∷ ts) m h = kill_all-HasLookups ts _ (release-HasLookups t m h)

  start_task-HasLookups :
      (init : Task → Task) (pc : ℕ) (m : Exrail)
      → HasLookups l m
      → HasLookups l (start_task init pc m)
  unfolding start_task HasLookups
  start_task-HasLookups init pc m h = flagged (unused_id 0 m.flags)
    where
      flagged :
          (o : Option ℕ) → HasLookups l (elim o [ none ↦ m | some f ↦ set_flag f task_flag 0 m ])
      flagged none = h
      flagged (some f) = set_flag-HasLookups f task_flag 0 m h

  pub HasLookups-IsKept : IsKept (HasLookups l)
  unfolding HasLookups kill
  HasLookups-IsKept = record {
    kept_call = λ c m h. h;
    kept_pausing = λ a m h. h;
    kept_loco_id = λ y m h. h;
    kept_states = λ ys m h. h;
    kept_stash = λ ys m h. h;
    kept_flag = λ id on off m e h. set_flag-HasLookups id on off m h;
    kept_start = λ init pc m mild h. start_task-HasLookups init pc m h;
    kept_kill = λ t m h. release-HasLookups t m h;
    kept_kill_all = λ m h. kill_all-HasLookups m.ring m h;
  }

module _ (b : Build) (id rag : ℕ) (m : Exrail) where
  abbrev slot : ℕ
  slot = find id m.lookups.signal

  Shows-flag :
      (c : (rag ≡ 4) ⊎ ((rag ≡ 8) ⊎ (rag ≡ 12))) (h : slot < max_flags) (m' : Exrail)
      → IsSound m'
      → Shows slot rag (set_flag slot rag signal_mask m')
  unfolding Shows set_flag
  Shows-flag c h m' s =
      let e : leb max_flags slot ≡ false = ground arith in
      let v = masked (get_or m'.flags slot 0) rag signal_mask in
      rw (set_flag, e, get_or-set_self m'.flags slot v 0 (omega (arith, s.all_flags)))
        (signal_bits (get_or m'.flags slot 0) rag c)

  reads :
      (f : has_feature b feature_signal ≡ true) (n : is_negative slot ≡ false) (other : ℕ)
      (m' : Exrail)
      → HasLookups m.lookups m'
      → Shows slot rag m'
      → is_signal b id other m' ≡ (rag == other)
  unfolding is_signal HasLookups Shows
  reads f n other m' l p = rw (is_signal, l, f, n, p) refl

  -- After `doSignal` has set a signal that is defined, to red, amber or green, `isSignal` finds
  -- it at that aspect and at no other, when `doSignal` returns: neither the handlers that it starts
  -- nor the blink tasks that it kills change the state.
  pub is_signal-do_signal :
      (other : ℕ)
      → IsSound m
      → has_feature b feature_signal ≡ true
      → is_negative slot ≡ false
      → slot < max_flags
      → (rag ≡ 4) ⊎ ((rag ≡ 8) ⊎ (rag ≡ 12))
      → Kept (λ m'. is_signal b id other m' ≡ (rag == other)) (do_signal b id rag m)
  unfolding do_signal show_signal Shows HasLookups
  is_signal-do_signal other s f n h c =
      let m1 = handle_event id (handlers_of rag m) m in
      let m2 = set_flag slot rag signal_mask m1 in
      let s1 = handle_event-kept IsSound IsSound-IsKept id (handlers_of rag m) m s in
      let l1 : HasLookups m.lookups m1 =
        handle_event-kept (HasLookups m.lookups) (HasLookups-IsKept m.lookups) id
          (handlers_of rag m) m refl in
      let l2 = set_flag-HasLookups m.lookups slot rag signal_mask m1 l1 in
      let P : Exrail → Type 0 = λ m'. Shows slot rag m' × HasLookups m.lookups m' in
      let shown =
        show_as-kept P Both-IsQuiet (b.signals slot).type_of b id rag slot m2
          (Shows-flag c h m1 s1, l2) in
      let R : Exrail → Type 0 = λ m'. is_signal b id other m' ≡ (rag == other) in
      if_cases (Kept R) (has_feature b feature_signal)
        (λ e.
          if_cases (Kept R) (is_negative slot) (λ g. absurd (true≢false (sym g ∙ n)))
            (λ g. Kept-weaken P R _ (λ m' p. read_back m' p.0 p.1) shown))
        (λ e. absurd (true≢false (sym f ∙ e)))
    where
      Both-IsQuiet : IsQuiet (λ m'. Shows slot rag m' × HasLookups m.lookups m')
      Both-IsQuiet =
          let k = HasLookups-IsKept m.lookups in
          record {
            quiet_call = λ d m' p. (p.0, k.kept_call d m' p.1);
            quiet_kill =
                λ t m' p. ((Shows-IsQuiet slot rag).quiet_kill t m' p.0, k.kept_kill t m' p.1);
          }

      read_back :
          (m' : Exrail)
          → Shows slot rag m'
          → HasLookups m.lookups m'
          → is_signal b id other m' ≡ (rag == other)
      read_back m' p l = reads f n other m' l p

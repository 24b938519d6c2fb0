-- ===== src/Exrail/Sound.antt =====
-- EXRAIL2.cpp: the invariant of the interpreter: 256 flags, a ring of distinct tasks that were made
-- by `new`, none with more than four returns to make.
use dccexpress_mini.Prelude.{
  ℕ, ◌+◌, ◌≤◌, ◌<◌, ◌≡◌, refl, ◌∙◌, Option, none, some, List, [], ◌∷◌, ◌++◌, append_assoc,
  append-nil, subst, sym, arith, leb, ◌==◌, if_both, length, length-set, Bool-cases, inl, inr,
}
use dccexpress_mini.Prelude.Keyed.{Absent, IsUnique}
use dccexpress_mini.Prelude.Apart.{
  Each, Each-append, Each-weaken, IsUnique-swap, IsUnique-drop_middle, above-Absent,
}
use dccexpress_mini.Exrail.Opcode.{max_flags, max_stack_depth, task_flag}
use dccexpress_mini.Exrail.State.{Task, Exrail, call}
use dccexpress_mini.Exrail.Tasks.{
  set_flag, new_task, chain_in, start_task, drive_loco, release, cut, kill, kill_all, unused_id,
}
use dccexpress_mini.Exrail.Kept.{IsMild, IsKept}

-- Of a task, given the address that `new` gives next.
unfoldable pub IsSoundTask : ℕ → Task → Type 0
IsSoundTask n t = (t.address < n) × (length t.call_stack ≤ max_stack_depth)

pub record IsSound (m : Exrail) : Type 0 where
  pub all_flags : length m.flags ≡ max_flags
  pub distinct : IsUnique (λ t. t.address) m.ring
  pub sound_tasks : Each (IsSoundTask m.next_address) m.ring

-- Operations that leave the ring and the addresses alone.
abbrev pub SameTasks : Exrail → Exrail → Type 0
SameTasks m m' =
    (length m'.flags ≡ length m.flags) × (m'.ring ≡ m.ring) × (m'.next_address ≡ m.next_address)

set_flag-SameTasks : (id on off : ℕ) (m : Exrail) → SameTasks m (set_flag id on off m)
unfolding set_flag
set_flag-SameTasks id on off m =
    if_both (SameTasks m) (leb max_flags id) (refl, refl, refl)
      (length-set m.flags id _, refl, refl)

release-SameTasks : (t : Task) (m : Exrail) → SameTasks m (release t m)
unfolding release drive_loco
release-SameTasks t m =
    if_both (λ (r : Task × Exrail). SameTasks m (set_flag t.task_id 0 task_flag r.1)) (t.loco == 0)
      {x = (t, m)} (set_flag-SameTasks t.task_id 0 task_flag m)
      (set_flag-SameTasks t.task_id 0 task_flag (call _ m))

module _ (P : Task → Type 0) where
  Each-cut : (a : ℕ) (before ts : List Task) → Each P before → Each P ts → Each P (cut a before ts)
  unfolding cut
  Each-cut a before [] h k = h
  Each-cut a before (t ∷ ts) h (p, k) = elim (Bool-cases (t.address == a)) [
    | inl e ↦ rw (e, cut) (Each-append P ts before k h)
    | inr e ↦
        rw (e, cut) (Each-cut a (before ++ (t ∷ [])) ts (Each-append P before (t ∷ []) h (p, tt)) k)
  ]

IsUnique-cut :
    (a : ℕ) (before ts : List Task)
    → IsUnique (λ t. t.address) (before ++ ts)
    → IsUnique (λ t. t.address) (cut a before ts)
unfolding cut
IsUnique-cut a before [] u = subst (IsUnique (λ t. t.address)) (append-nil before) u
IsUnique-cut a before (t ∷ ts) u = elim (Bool-cases (t.address == a)) [
  | inl e ↦
      rw (e, cut)
        (IsUnique-swap (λ t. t.address) before ts
          (IsUnique-drop_middle (λ t. t.address) before t ts u))
  | inr e ↦
      rw (e, cut)
        (IsUnique-cut a (before ++ (t ∷ [])) ts
          (subst (IsUnique (λ t. t.address)) (sym (append_assoc before (t ∷ []) ts)) u))
]

pub IsSound-flags : (m m' : Exrail) → SameTasks m m' → IsSound m → IsSound m'
unfolding IsSoundTask
IsSound-flags m m' (e, r, n) s = record {
  all_flags = e ∙ s.all_flags;
  distinct = rw r s.distinct;
  sound_tasks = rw (r, n) s.sound_tasks;
}

module _ (init : Task → Task) (pc : ℕ) (m : Exrail) where
  pub chain_in-Each :
      (P : Task → Type 0) (t : Task) (ts : List Task) → P t → Each P ts → Each P (chain_in t ts)
  chain_in-Each P t [] p h = (p, tt)
  chain_in-Each P t (u ∷ us) p (q, h) = (q, (p, h))

  chain_in-IsUnique :
      (t : Task) (ts : List Task)
      → IsUnique (λ u. u.address) ts
      → Absent (λ u. u.address) t.address ts
      → IsUnique (λ u. u.address) (chain_in t ts)
  chain_in-IsUnique t [] u a = (tt, tt)
  chain_in-IsUnique t (v ∷ vs) (b, u) (ne, a) = ((((λ e. ne (sym e)), b)), (a, u))

  flagged-length :
      (o : Option ℕ)
      → length (elim o as (λ x. Exrail) [ none ↦ m | some f ↦ set_flag f task_flag 0 m ]).flags
        ≡ length m.flags
  flagged-length none = refl
  flagged-length (some f) = (set_flag-SameTasks f task_flag 0 m).0

  start_task-IsSound : IsMild init → IsSound m → IsSound (start_task init pc m)
  unfolding start_task IsSoundTask IsMild
  start_task-IsSound mild s =
      let o = unused_id 0 m.flags in
      let id : ℕ = elim o [ none ↦ 255 | some f ↦ f ] in
      let t = new_task m.next_address id pc in
      let (named, shallow) = mild t in
      let older =
        Each-weaken (IsSoundTask m.next_address) (IsSoundTask (m.next_address + 1)) m.ring
          (λ u h. (omega (arith, h.0), h.1)) s.sound_tasks in
      let below =
        Each-weaken (IsSoundTask m.next_address) (λ u. u.address < m.next_address) m.ring
          (λ u h. h.0) s.sound_tasks in
      record {
        all_flags = flagged-length o ∙ s.all_flags;
        distinct =
            chain_in-IsUnique (init t) m.ring s.distinct
              (rw named (above-Absent (λ u. u.address) m.next_address m.ring below));
        sound_tasks =
            chain_in-Each (IsSoundTask (m.next_address + 1)) (init t) m.ring
              (omega (arith, named), rw shallow (omega arith)) older;
      }

kill-IsSound : (t : Task) (m : Exrail) → IsSound m → IsSound (kill t m)
unfolding kill
kill-IsSound t m s =
    let (a, b, c) = release-SameTasks t m in
    record {
      all_flags = a ∙ s.all_flags;
      distinct = IsUnique-cut t.address [] m.ring s.distinct;
      sound_tasks =
          rw c (Each-cut (IsSoundTask m.next_address) t.address [] m.ring tt s.sound_tasks);
    }

kill_all-IsSound : (ts : List Task) (m : Exrail) → IsSound m → IsSound (kill_all ts m)
unfolding kill_all
kill_all-IsSound [] m s = record { all_flags = s.all_flags; distinct = tt; sound_tasks = tt }
kill_all-IsSound (t ∷ ts) m s = kill_all-IsSound ts _ (IsSound-flags m _ (release-SameTasks t m) s)

pub set_flag-IsSound : (id on off : ℕ) (m : Exrail) → IsSound m → IsSound (set_flag id on off m)
set_flag-IsSound id on off m s = IsSound-flags m _ (set_flag-SameTasks id on off m) s

pub IsSound-IsKept : IsKept IsSound
IsSound-IsKept = record {
  kept_call = λ c m s. IsSound-flags m _ (refl, refl, refl) s;
  kept_pausing = λ a m s. IsSound-flags m _ (refl, refl, refl) s;
  kept_loco_id = λ x m s. IsSound-flags m _ (refl, refl, refl) s;
  kept_states = λ xs m s. IsSound-flags m _ (refl, refl, refl) s;
  kept_stash = λ xs m s. IsSound-flags m _ (refl, refl, refl) s;
  kept_flag = λ id on off m e s. set_flag-IsSound id on off m s;
  kept_start = λ init pc m mild s. start_task-IsSound init pc m mild s;
  kept_kill = kill-IsSound;
  kept_kill_all = λ m s. kill_all-IsSound m.ring m s;
}

-- An address that `new` has given stays given.
unfoldable pub IsGiven : ℕ → Exrail → Type 0
IsGiven a m = a < m.next_address

kill_all-IsGiven : (a : ℕ) (ts : List Task) (m : Exrail) → IsGiven a m → IsGiven a (kill_all ts m)
unfolding kill_all IsGiven
kill_all-IsGiven a [] m h = h
kill_all-IsGiven a (t ∷ ts) m h =
    let same = (release-SameTasks t m).2 in kill_all-IsGiven a ts _ (omega (arith, same, h))

pub set_flag-IsGiven :
    (a id on off : ℕ) (m : Exrail) → IsGiven a m → IsGiven a (set_flag id on off m)
unfolding IsGiven
set_flag-IsGiven a id on off m h =
    let same = (set_flag-SameTasks id on off m).2 in omega (arith, same, h)

pub IsGiven-IsKept : (a : ℕ) → IsKept (IsGiven a)
unfolding IsGiven start_task kill
IsGiven-IsKept a = record {
  kept_call = λ c m h. h;
  kept_pausing = λ x m h. h;
  kept_loco_id = λ x m h. h;
  kept_states = λ xs m h. h;
  kept_stash = λ xs m h. h;
  kept_flag =
      λ id on off m e h. let same = (set_flag-SameTasks id on off m).2 in omega (arith, same, h);
  kept_start = λ init pc m mild h. omega (arith, h);
  kept_kill = λ t m h. let same = (release-SameTasks t m).2 in omega (arith, same, h);
  kept_kill_all = λ m h. kill_all-IsGiven a m.ring m h;
}

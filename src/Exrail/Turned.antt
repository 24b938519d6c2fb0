-- ===== src/Exrail/Turned.antt =====
-- EXRAIL2.cpp: what the ways to leave the `switch` of `loop2` do not change.
use dccexpress_mini.Prelude.{
  ℕ, zero, suc, ◌+◌, ◌≤◌, ◌≡◌, refl, Bool, Option, none, some, List, [], ◌∷◌, arith, ◌==◌, ◌>>=◌,
  if◌then◌else◌, if_both, if_cases, length, get_or, set,
}
use dccexpress_mini.Exrail.Opcode.{max_stack_depth}
use dccexpress_mini.Exrail.State.{Task, Build, Inputs, Call, Exrail, call, is_negative}
use dccexpress_mini.Exrail.State.Call.{broadcast_route_state, set_extended_accessory}
use dccexpress_mini.Exrail.Lookup.{find_position}
use dccexpress_mini.Exrail.Tasks.{drive_loco, kill, delay_me, kill_blink_on_vpin}
use dccexpress_mini.Exrail.Actions.{write_vpins, resume_all, manage_route_state}
use dccexpress_mini.Exrail.Switch.{Turn, after, driven, do_if, wait_until, jump}
use dccexpress_mini.Exrail.Switch.Turn.{advance, skip_if, stay, gone}
use dccexpress_mini.Exrail.Kept.{IsKept, Kept, some-Kept, bind-Kept, kill_blink-kept, Answered}

-- The task after a turn is the one before it, and its stack is not too deep.
unfoldable pub IsTask : Task → Task → Type 0
IsTask t u = (u.address ≡ t.address) × (length u.call_stack ≤ max_stack_depth)

unfoldable pub Turned : (Exrail → Type 0) → Task → Option Turn → Type 0
Turned P t none = Unit
Turned P t (some (advance u m)) = IsTask t u × P m
Turned P t (some (skip_if u m)) = IsTask t u × P m
Turned P t (some (stay u m)) = IsTask t u × P m
Turned P t (some (gone m)) = P m

module _ (P : Exrail → Type 0) (k : IsKept P) where
  open k use {
    kept_call, kept_pausing, kept_loco_id, kept_states, kept_stash, kept_flag, kept_start,
    kept_kill, kept_kill_all,
  }

  pub next_kept : (t u : Task) (m : Exrail) → IsTask t u → P m → Turned P t (some (advance u m))
  unfolding Turned
  next_kept t u m q p = (q, p)

  pub stay_kept : (t u : Task) (m : Exrail) → IsTask t u → P m → Turned P t (some (stay u m))
  unfolding Turned
  stay_kept t u m q p = (q, p)

  pub gone_kept : (t : Task) (m : Exrail) → P m → Turned P t (some (gone m))
  unfolding Turned
  gone_kept t m p = p

  pub called :
      (t : Task) (c : Call) (m : Exrail)
      → IsTask t t
      → P m
      → Turned P t (some (advance t (call c m)))
  called t c m q p = next_kept t t _ q (kept_call c m p)

  pub do_if-kept : (c : Bool) (t : Task) (m : Exrail) → IsTask t t → P m → Turned P t (do_if c t m)
  unfolding Turned do_if
  do_if-kept c t m q p = if_both (Turned P t) c (q, p) (q, p)

  pub wait_until-kept :
      (c : Bool) (d : ℕ) (i : Inputs) (t u : Task) (m : Exrail)
      → IsTask t u
      → P m
      → Turned P t (wait_until c d i u m)
  unfolding Turned wait_until delay_me IsTask
  wait_until-kept c d i t u m q p = if_both (Turned P t) c (q, p) (q, p)

  pub write_vpins-kept :
      (b : Build) (n vpin : ℕ) (v : Bool) (m : Exrail) → P m → Kept P (write_vpins b n vpin v m)
  unfolding write_vpins
  write_vpins-kept b zero vpin v m p = some-Kept P p
  write_vpins-kept b (suc n) vpin v m p =
      bind-Kept P P (kill_blink_on_vpin b vpin 1 m) _ (kill_blink-kept P k b vpin 1 m p)
        (λ m' p'. write_vpins-kept b n _ v _ (kept_call _ m' p'))

  pub after-kept : (t : Task) (o : Option Exrail) → IsTask t t → Kept P o → Turned P t (after t o)
  unfolding Kept Turned after
  after-kept t none q p = tt
  after-kept t (some m) q p = (q, p)

  -- The turn that drives the loco, whose task is then another record.
  pub drive_loco-kept :
      (speed : ℕ) (t u : Task) (m : Exrail)
      → IsTask t u
      → P m
      → IsTask t (drive_loco speed u m).0 × P (drive_loco speed u m).1
  unfolding drive_loco IsTask
  drive_loco-kept speed t u m q p =
      if_both (λ (r : Task × Exrail). IsTask t r.0 × P r.1) (u.loco == 0) (q, p)
        (q, kept_call _ m p)

  pub driven-kept :
      (speed : ℕ) (t u : Task) (m : Exrail)
      → IsTask t u
      → P m
      → Turned P t (driven (drive_loco speed u m))
  unfolding driven Turned
  driven-kept speed t u m q p = drive_loco-kept speed t u m q p

  pub resume_all-kept : (ts : List Task) (m : Exrail) → P m → P (resume_all ts m)
  unfolding resume_all drive_loco
  resume_all-kept [] m p = p
  resume_all-kept (t ∷ ts) m p =
      resume_all-kept ts _
        (if_both (λ (r : Task × Exrail). P r.1) (t.loco == 0) {x = (t, m)} p (kept_call _ m p))

  pub jump-kept : (pc : ℕ) (t u : Task) (m : Exrail) → IsTask t u → P m → Turned P t (jump pc u m)
  unfolding Turned IsTask jump
  jump-kept pc t u m q p = if_both (Turned P t) (is_negative pc) (kept_kill u m p) (q, p)

  pub return-kept :
      (t : Task) (m : Exrail) (stack : List ℕ)
      → length stack ≤ max_stack_depth
      → P m
      → Turned P t (elim stack [
        | [] ↦ some (gone (kill t m))
        | pc ∷ pcs ↦ some (stay (record t { prog_counter = pc; call_stack = pcs }) m)
      ])
  unfolding Turned IsTask
  return-kept t m [] q p = kept_kill t m p
  return-kept t m (pc ∷ pcs) q p = ((refl, omega arith), p)

  pub call-kept :
      (t : Task) (m : Exrail) (pc : ℕ)
      → IsTask t t
      → P m
      → Turned P t (
          if length t.call_stack == max_stack_depth
          then some (gone (kill t m))
          else jump pc (record t { call_stack = (t.prog_counter + 3) ∷ t.call_stack }) m)
  unfolding IsTask
  call-kept t m pc q p =
      if_cases (Turned P t) (length t.call_stack == max_stack_depth)
        (λ e. gone_kept t _ (kept_kill t m p))
        (λ e. let full = q.1 in jump-kept pc t _ m (refl, ground arith) p)

  pub manage_route_state-kept :
      (b : Build) (id state : ℕ) (m : Exrail) → P m → P (manage_route_state b id state m)
  unfolding manage_route_state
  manage_route_state-kept b id state m p =
      if_both P (b.compile_features == 0) p (set_state-kept (find_position id m.lookups.route))
    where
      set_state-kept :
          (o : Option ℕ)
          → P (elim o [
            | none ↦ m
            | some s ↦
                if get_or m.route_states s 0 == state
                then m
                else call
                    (broadcast_route_state id state)
                    (record m { route_states = set m.route_states s state })
          ])
      set_state-kept none = p
      set_state-kept (some s) =
          if_both P (get_or m.route_states s 0 == state) p (kept_call _ _ (kept_states _ m p))

  pub aspect-kept :
      (t : Task) (address aspect : ℕ) (o : Option (Bool × Exrail))
      → IsTask t t
      → Kept (Answered P k) o
      → Turned P t (
          o >>= λ shown. some (
            advance t
              (if shown.0 then shown.1 else call (set_extended_accessory address aspect) shown.1)))
  unfolding Kept Turned
  aspect-kept t address aspect none q h = tt
  aspect-kept t address aspect (some r) q h = (q, if_both P (r.0) h (kept_call _ r.1 h))

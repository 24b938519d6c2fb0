-- ===== src/Exrail/Waits.antt =====
-- EXRAIL2.cpp: the delays, PAUSE, and the stash of locos.
use dccexpress_mini.Prelude.{
  ℕ, zero, suc, ◌+◌, ◌%◌, ◌<◌, ◌≡◌, ◌≢◌, refl, sym, subst, ap, ◌∙◌, Bool, true, false, not, ◌&&◌,
  Option, none, some, List, [], ◌∷◌, ◌++◌, ◌>>=◌, ltb, leb, ◌==◌, ==_iff, append-nil, if◌then◌else◌,
  if_both, arith, length, length-append, get_or, set, get_or-set, get_or-set_self,
}
use dccexpress_mini.Prelude.Keyed.{Absent, IsUnique, Absent-append}
use dccexpress_mini.Exrail.Opcode.{
  Opcode, decode, feature_blink, feature_stash, feature_sensor, max_flags,
}
use dccexpress_mini.Exrail.Opcode.Opcode.{op_endtask, op_stash, op_pickup_stash, op_clear_all_stash}
use dccexpress_mini.Exrail.State.{Task, Build, Inputs, Exrail, is_negative, negate, has_feature}
use dccexpress_mini.Exrail.State.BlinkState.{not_blink_task}
use dccexpress_mini.Exrail.Program.{get_operand}
use dccexpress_mini.Exrail.Tasks.{delay_me, put, kill, release, cut, set_flag, drive_loco}
use dccexpress_mini.Exrail.Actions.{elapsed, clear_stashes, with_stash, pick_up}
use dccexpress_mini.Exrail.Switch.{switch}
use dccexpress_mini.Exrail.Step.{step_over, finish, run_opcode, rotate, loop2, loop}

-- A task that `delayMe` has delayed at a time is passed over until the delay is over, however the
-- clock wraps round in between: e milliseconds later it does nothing if e is less than the delay,
-- and runs its instruction if it is not. It is no blink task, and the times are of 32 bits.
pub loop2-delay_me :
    (b : Build) (i j : Inputs) (t : Task) (m : Exrail) (d e : ℕ)
    → (t.blink_state ≡ not_blink_task)
    → i.millis < 0x1_0000_0000
    → e < 0x1_0000_0000
    → j.millis ≡ (i.millis + e) % 0x1_0000_0000
    → loop2 b j (delay_me d i t) m ≡ (if ltb e d then some m else run_opcode b j (delay_me d i t) m)
unfolding loop2 delay_me
loop2-delay_me b i j t m d e k h l w =
    let past : elapsed j.millis i.millis ≡ e = omega (arith, w) in
    rw (past, k) (waits (run_opcode b j (delay_me d i t) m))
  where
    waits :
        (r : Option Exrail)
        → (if not (d == 0) && ltb e d
            then some m
            else (if has_feature b feature_blink then r else r))
          ≡ (if ltb e d then some m else r)
    waits r = ground arith

-- The rings with no task at the address.
paused_ring :
    (a : ℕ) (ts : List Task) → Absent (λ t. t.address) a ts → Absent (λ t. t.address) a (rotate ts)
paused_ring a [] h = tt
paused_ring a (t ∷ ts) (ne, h) = Absent-append (λ t. t.address) a ts (t ∷ []) h (ne, tt)

pauses :
    (o : Option ℕ) (a w : ℕ) (r x : Option Exrail)
    → o ≡ some a
    → (a == w) ≡ false
    → elim o as (λ _. Option Exrail) [ none ↦ r | some c ↦ if c == w then r else x ] ≡ x
pauses o a w r x p e = rw (p, e) refl

empty :
    (ts : List Task) (x : Option Exrail) (g : Task → List Task → Option Exrail)
    → ts ≡ []
    → elim ts as (λ _. Option Exrail) [ [] ↦ x | t ∷ us ↦ g t us ] ≡ x
empty ts x g e = rw e refl

-- One pass with a pausing task that is not in the ring.
loop-turns :
    (b : Build) (i : Inputs) (m : Exrail) (a : ℕ)
    → m.pausing_task ≡ some a
    → Absent (λ t. t.address) a m.ring
    → (n : Exrail) × ((loop b i m ≡ some n)
        × ((n.pausing_task ≡ some a) × ((n.ring ≡ rotate m.ring) × (n.calls ≡ m.calls))))
unfolding loop
loop-turns b i m a p h = by_ring m.ring refl (paused_ring a m.ring h)
  where
    turned :
        (us : List Task)
        → rotate m.ring ≡ us
        → Absent (λ t. t.address) a us
        → 0 < length us
        → (n : Exrail) × ((loop b i m ≡ some n)
            × ((n.pausing_task ≡ some a) × ((n.ring ≡ rotate m.ring) × (n.calls ≡ m.calls))))
    turned [] e k l = absurd (omega arith)
    turned (u ∷ us) e (ne, k) l =
        let other : (a == u.address) ≡ false = ground (arith, ne) in
        (
          record m { ring = u ∷ us },
          (rw (loop, e) (pauses m.pausing_task a u.address _ _ p other), (p, (sym e, refl))),
        )

    by_ring :
        (ts : List Task)
        → m.ring ≡ ts
        → Absent (λ t. t.address) a (rotate m.ring)
        → (n : Exrail) × ((loop b i m ≡ some n)
            × ((n.pausing_task ≡ some a) × ((n.ring ≡ rotate m.ring) × (n.calls ≡ m.calls))))
    by_ring [] e k = (
      m,
      (
        empty (rotate m.ring) (some m)
            (λ t ts. elim (m.pausing_task) [
              | none ↦ loop2 b i t (record m { ring = t ∷ ts })
              | some c ↦
                  if c == t.address
                  then loop2 b i t (record m { ring = t ∷ ts })
                  else some (record m { ring = t ∷ ts })
            ])
            (ap rotate e),
        (p, (e ∙ sym (ap rotate e), refl)),
      ),
    )
    by_ring (t ∷ ts) e k =
        turned (ts ++ (t ∷ [])) (ap rotate e) (subst (Absent (λ u. u.address) a) (ap rotate e) k)
          (omega (arith, length-append ts (t ∷ [])))

unfoldable pub passes : Build → List Inputs → Exrail → Option Exrail
unfolding loop
passes b [] m = some m
passes b (i ∷ is) m = loop b i m >>= passes b is

-- The ring after as many turns as there are passes.
unfoldable pub turned_ring : List Inputs → List Task → List Task
turned_ring [] r = r
turned_ring (i ∷ is) r = turned_ring is (rotate r)

-- With a pausing task that is not in the ring, no task has a turn.
passes-turn :
    (b : Build) (is : List Inputs) (m : Exrail) (a : ℕ)
    → m.pausing_task ≡ some a
    → Absent (λ t. t.address) a m.ring
    → (n : Exrail) × ((passes b is m ≡ some n)
        × ((n.ring ≡ turned_ring is m.ring) × ((n.calls ≡ m.calls) × (n.pausing_task ≡ some a))))
unfolding passes loop turned_ring
passes-turn b [] m a p h = (m, (refl, (refl, (refl, p))))
passes-turn b (i ∷ is) m a p h =
    let (n, (e, (q, (r, c)))) = loop-turns b i m a p h in
    let h' = subst (Absent (λ t. t.address) a) (sym r) (paused_ring a m.ring h) in
    let (z, (e', (l, (c', q')))) = passes-turn b is n a q h' in
    (z, (rw e e', (l ∙ ap (turned_ring is) r, (c' ∙ c, q'))))

abbrev AtOp : Build → Task → Opcode → Type 0
AtOp b t op = decode (b.route_code t.prog_counter) ≡ some op

kill-calls : (t : Task) (m : Exrail) → (kill t m).calls ≡ (drive_loco 1 t m).1.calls
unfolding kill release set_flag
kill-calls t m =
    if_both (λ (n : Exrail). n.calls ≡ (drive_loco 1 t m).1.calls) (leb max_flags t.task_id) refl
      refl

kill-pausing_task : (t : Task) (m : Exrail) → (kill t m).pausing_task ≡ m.pausing_task
unfolding kill release set_flag drive_loco
kill-pausing_task t m =
    let stays : (drive_loco 1 t m).1.pausing_task ≡ m.pausing_task =
      if_both (λ (r : Task × Exrail). r.1.pausing_task ≡ m.pausing_task) (t.loco == 0) {x = (t, m)}
        refl refl in
    if_both (λ (n : Exrail). n.pausing_task ≡ m.pausing_task) (leb max_flags t.task_id) stays stays

kill-first : (t : Task) (ts : List Task) (m : Exrail) → m.ring ≡ t ∷ ts → (kill t m).ring ≡ ts
unfolding kill cut
kill-first t ts m e = rw (e, (==_iff t.address t.address).1 refl, cut) (append-nil ts)

-- When the task that pauses the others comes to ENDTASK in its turn, it is deleted, and from then on
-- no task has a turn any more: in any number of passes, which return, the ring of the other tasks
-- only turns, no call is made but the one that stops the loco of the deleted task, and the pause
-- stays. This is for a script without sensors, whose handlers would be new tasks, and for passes
-- between which no other part makes a call.
pub pause-stuck :
    (b : Build) (i : Inputs) (is : List Inputs) (t : Task) (ts : List Task) (m : Exrail)
    → has_feature b feature_sensor ≡ false
    → m.ring ≡ t ∷ ts
    → IsUnique (λ u. u.address) (t ∷ ts)
    → m.pausing_task ≡ some t.address
    → AtOp b t op_endtask
    → (n : Exrail) × (((run_opcode b i t m >>= passes b is) ≡ some n)
        × ((n.ring ≡ turned_ring is ts)
            × ((n.calls ≡ (drive_loco 1 t m).1.calls) × (n.pausing_task ≡ some t.address))))
unfolding run_opcode switch finish
pause-stuck b i is t ts m none_such e u p o =
    let left = kill-first t ts m e in
    let others = subst (Absent (λ u. u.address) t.address) (sym left) u.0 in
    let (n, (r, (l, (c, q)))) =
      passes-turn b is (kill t m) t.address (kill-pausing_task t m ∙ p) others in
    (n, (rw (run_opcode, o) r, (l ∙ ap (turned_ring is) left, (c ∙ kill-calls t m, q))))

-- What the code means by CLEAR_ALL_STASH is that every stash is empty; it empties one of them.
clear_stashes-get_or :
    (n x y : ℕ) (stash : List ℕ) → x ≢ y → get_or (clear_stashes n x stash) y 0 ≡ get_or stash y 0
unfolding clear_stashes
clear_stashes-get_or zero x y stash ne = refl
clear_stashes-get_or (suc n) x y stash ne =
    clear_stashes-get_or n x y (set stash x 0) ne
    ∙ get_or-set (λ v. v ≡ get_or stash y 0) stash x y 0 0 refl (λ e. absurd (ne e))

-- CLEAR_ALL_STASH, whose operand the macro makes 0, leaves every other stash as it is.
pub clear_all_stash-keeps :
    (b : Build) (i : Inputs) (t : Task) (m : Exrail) (y : ℕ)
    → AtOp b t op_clear_all_stash
    → get_operand b t.prog_counter 0 ≡ 0
    → 0 < y
    → (n : Exrail) × ((run_opcode b i t m ≡ some n) × (get_or n.stash y 0 ≡ get_or m.stash y 0))
unfolding run_opcode switch finish put
clear_all_stash-keeps b i t m y c o l =
    let cleared = clear_stashes (m.max_stash_id + 1) 0 m.stash in
    (
      put (step_over t) (with_stash b cleared m),
      (
        rw (run_opcode, c, o) refl,
        if_both (λ (r : Exrail). get_or r.stash y 0 ≡ get_or m.stash y 0)
            (has_feature b feature_stash)
            (clear_stashes-get_or (m.max_stash_id + 1) 0 y m.stash (λ e. absurd (omega arith)))
            refl,
      ),
    )

pick_up_stashed :
    (invert : Bool) (loco : ℕ) (u : Task)
    → 0 < loco
    → loco < 0x8000
    → pick_up (if invert then negate loco else loco) u ≡ record u { loco = loco; invert = invert }
pick_up_stashed true loco u z k =
    let sign : is_negative (negate loco) ≡ true = ground arith in
    let back : negate (negate loco) ≡ loco = omega arith in rw (sign, back) refl
pick_up_stashed false loco u z k =
    let sign : is_negative loco ≡ false = ground arith in rw sign refl

-- A loco that STASH puts away at a place that there is, PICKUP_STASH finds again, with its
-- inversion, if its number is one that an `int16_t` holds and that is not 0.
pick_up-stash :
    (b : Build) (i j : Inputs) (t u : Task) (m : Exrail) (x : ℕ)
    → has_feature b feature_stash ≡ true
    → AtOp b t op_stash
    → get_operand b t.prog_counter 0 ≡ x
    → x < length m.stash
    → 0 < t.loco
    → t.loco < 0x8000
    → AtOp b u op_pickup_stash
    → get_operand b u.prog_counter 0 ≡ x
    → (n : Exrail) × ((run_opcode b i t m ≡ some n)
        × (run_opcode b j u n
            ≡ some (
                put
                  (record u { prog_counter = u.prog_counter + 3; loco = t.loco; invert = t.invert })
                  n)))
unfolding run_opcode switch finish put
pick_up-stash b i j t u m x f c o l z k d q =
    let v = if t.invert then negate t.loco else t.loco in
    (
      put (step_over t) (record m { stash = set m.stash x v }),
      (
        rw (run_opcode, c, o, f) refl,
        rw
            (
              run_opcode,
              d,
              q,
              f,
              get_or-set_self m.stash x v 0 l,
              pick_up_stashed t.invert t.loco u z k,
            )
            refl,
      ),
    )

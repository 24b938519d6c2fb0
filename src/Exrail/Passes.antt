-- ===== src/Exrail/Passes.antt =====
-- EXRAIL2.cpp: a pass of `loop` returns, in a build without BLINK, whose sweep is compiled out.
use dccexpress_mini.Prelude.{
  ℕ, ◌+◌, ◌*◌, ◌%◌, ◌≡◌, refl, sym, ap, ◌∙◌, Bool, true, false, not, ◌&&◌, Option, none, some, List,
  [], ◌∷◌, ◌==◌, ltb, ◌>>=◌, arith, if_both, if◌then◌else◌, true≢false, ==_iff,
}
use dccexpress_mini.Prelude.Apart.{Each}
use dccexpress_mini.Exrail.Opcode.{
  Opcode, decode, feature_blink, signal_red, signal_amber, signal_green,
}
use dccexpress_mini.Exrail.Opcode.Opcode.{
  op_set, op_reset, op_blink, op_red, op_amber, op_green, op_aspect, op_neopixel,
}
use dccexpress_mini.Exrail.State.Call.{set_extended_accessory}
use dccexpress_mini.Exrail.State.{
  Task, Build, Inputs, Exrail, call, is_negative, has_feature, shift_right, negate,
}
use dccexpress_mini.Exrail.Program.{Skipped, skip_if_block, get_operand}
use dccexpress_mini.Exrail.Program.Skipped.{found, missing_endif}
use dccexpress_mini.Exrail.Tasks.{kill_blink_on_vpin, kill, put}
use dccexpress_mini.Exrail.Signals.{signal_aspect_event}
use dccexpress_mini.Exrail.Actions.{elapsed}
use dccexpress_mini.Exrail.Switch.{Turn, switch, after, driven, do_if, wait_until, jump}
use dccexpress_mini.Exrail.Switch.Turn.{advance, skip_if, stay, gone}
use dccexpress_mini.Exrail.Step.{step_over, finish, run_opcode, loop2, rotate, loop}
use dccexpress_mini.Exrail.Kept.{Kept}
use dccexpress_mini.Exrail.Sound.{IsSound}
use dccexpress_mini.Exrail.Flags.{IsReserved}
use dccexpress_mini.Exrail.Reserve.{Frees, loop-IsReserved}
use dccexpress_mini.Exrail.Runs.{rotate-Each}
use dccexpress_mini.Exrail.Calm.{without_blinks}
use dccexpress_mini.Exrail.Returns.{
  is_some, bind-is_some, Made, EndsAhead, skip_from-is_some, do_signal-is_some, write_vpins-is_some,
  aspect-is_some,
}

-- A turn that there is, and that leaves the counter at the instruction if it skips a block.
abbrev fine : ℕ → Option Turn → Bool
fine pc none = false
fine pc (some (advance u m)) = true
fine pc (some (skip_if u m)) = u.prog_counter == pc
fine pc (some (stay u m)) = true
fine pc (some (gone m)) = true

module _ (b : Build) (f : has_feature b feature_blink ≡ false) where
  after-fine :
      (pc : ℕ) (t : Task) (o : Option Exrail) → is_some o ≡ true → fine pc (after t o) ≡ true
  unfolding after
  after-fine pc t none h = h
  after-fine pc t (some m) h = refl

  killed : (pin count : ℕ) (m : Exrail) → is_some (kill_blink_on_vpin b pin count m) ≡ true
  killed pin count m = ap is_some (without_blinks b pin count m f)

  told-fine :
      (pc : ℕ) (t : Task) (address aspect : ℕ) (o : Option (Bool × Exrail))
      → is_some o ≡ true
      → fine pc (
          o >>= λ shown. some (
            advance t
              (if shown.0 then shown.1 else call (set_extended_accessory address aspect) shown.1)))
        ≡ true
  told-fine pc t address aspect none h = absurd (true≢false (sym h))
  told-fine pc t address aspect (some r) h = refl

  switch-fine :
      (i : Inputs) (t : Task) (m : Exrail) (x : ℕ) (op : Opcode)
      → fine t.prog_counter (switch b i t m x op) ≡ true
  unfolding switch driven do_if wait_until jump
  switch-fine i t m x op_set =
      after-fine t.prog_counter t _
        (write_vpins-is_some b f (get_operand b t.prog_counter 1) x true m)
  switch-fine i t m x op_reset =
      after-fine t.prog_counter t _
        (write_vpins-is_some b f (get_operand b t.prog_counter 1) x false m)
  switch-fine i t m x op_red = after-fine t.prog_counter t _ (do_signal-is_some b f x signal_red m)
  switch-fine i t m x op_amber =
      after-fine t.prog_counter t _ (do_signal-is_some b f x signal_amber m)
  switch-fine i t m x op_green =
      after-fine t.prog_counter t _ (do_signal-is_some b f x signal_green m)
  switch-fine i t m x op_blink =
      after-fine t.prog_counter t _
        (bind-is_some (kill_blink_on_vpin b x 1 m) _ (killed x 1 m) (λ m'. refl))
  switch-fine i t m x op_aspect =
      told-fine t.prog_counter t (shift_right x 5) (x % 32)
        (signal_aspect_event b (shift_right x 5) (x % 32) m)
        (aspect-is_some b f (shift_right x 5) (x % 32) m)
  switch-fine i t m x op_neopixel =
      let vpin = if not (is_negative x) && not (x == 0) then x else negate x in
      let count = get_operand b t.prog_counter 3 in
      after-fine t.prog_counter t _
        (bind-is_some (kill_blink_on_vpin b vpin count m) _ (killed vpin count m) (λ m'. refl))
  switch-fine i t m x _ = ground arith

  skipped :
      (u : Task) (m : Exrail) (o : Option Skipped)
      → is_some o ≡ true
      → is_some {A = Exrail} (elim o [
        | none ↦ none
        | some (missing_endif pc) ↦ some (kill u m)
        | some (found pc) ↦ some (put (step_over (record u { prog_counter = pc })) m)
      ])
        ≡ true
  skipped u m none h = absurd (true≢false (sym h))
  skipped u m (some (missing_endif pc)) h = refl
  skipped u m (some (found pc)) h = refl

  finish-is_some :
      (n pc : ℕ) (o : Option Turn)
      → EndsAhead b n pc
      → fine pc o ≡ true
      → is_some (o >>= finish b) ≡ true
  unfolding finish skip_if_block
  finish-is_some n pc none e h = absurd (true≢false (sym h))
  finish-is_some n pc (some (advance u m)) e h = refl
  finish-is_some n pc (some (stay u m)) e h = refl
  finish-is_some n pc (some (gone m)) e h = refl
  finish-is_some n pc (some (skip_if u m)) (e, l) h = skipped u m (skip_if_block b u.prog_counter) (
      skip_from-is_some b n b.code_size 1 u.prog_counter
        (ap (λ k. b.route_code (k + 3 + n * 3)) ((==_iff u.prog_counter pc).0 h) ∙ e) l)

  run_opcode-is_some :
      (i : Inputs) (t : Task) (m : Exrail) (n : ℕ)
      → EndsAhead b n t.prog_counter
      → is_some (run_opcode b i t m) ≡ true
  unfolding run_opcode
  run_opcode-is_some i t m n e = by_code (decode (b.route_code t.prog_counter))
    where
      by_code :
          (o : Option Opcode)
          → is_some {A = Exrail} (elim o [
            | none ↦ some (kill t m)
            | some op ↦ switch b i t m (get_operand b t.prog_counter 0) op >>= finish b
          ])
            ≡ true
      by_code none = refl
      by_code (some op) =
          finish-is_some n t.prog_counter _ e
            (switch-fine i t m (get_operand b t.prog_counter 0) op)

  loop2-is_some :
      (i : Inputs) (t : Task) (m : Exrail) (n : ℕ)
      → EndsAhead b n t.prog_counter
      → is_some (loop2 b i t m) ≡ true
  unfolding loop2
  loop2-is_some i t m n e =
      if_both Made (not (t.delay_time == 0) && ltb (elapsed i.millis t.delay_start) t.delay_time)
        refl (rw f (run_opcode-is_some i t m n e))

-- From each task of the ring on, the script comes to its end.
unfoldable pub AreEnding : Build → List Task → Type 0
AreEnding b ts = Each (λ t. (n : ℕ) × EndsAhead b n t.prog_counter) ts

-- In a build without BLINK, and where the script comes to its end behind every task, a pass of
-- `loop` returns.
pub loop-is_some :
    (b : Build) (i : Inputs) (m : Exrail)
    → has_feature b feature_blink ≡ false
    → AreEnding b m.ring
    → is_some (loop b i m) ≡ true
unfolding loop AreEnding
loop-is_some b i m f e = served (rotate m.ring) (rotate-Each _ m.ring e)
  where
    paused :
        (t : Task) (ts : List Task) (o : Option ℕ)
        → is_some (loop2 b i t (record m { ring = t ∷ ts })) ≡ true
        → is_some (elim o [
          | none ↦ loop2 b i t (record m { ring = t ∷ ts })
          | some a ↦
              if a == t.address
              then loop2 b i t (record m { ring = t ∷ ts })
              else some (record m { ring = t ∷ ts })
        ])
          ≡ true
    paused t ts none h = h
    paused t ts (some a) h = if_both Made (a == t.address) h refl

    served :
        (ts : List Task)
        → Each (λ t. (n : ℕ) × EndsAhead b n t.prog_counter) ts
        → is_some (elim ts [
          | [] ↦ some m
          | t ∷ us ↦ elim (m.pausing_task) [
            | none ↦ loop2 b i t (record m { ring = t ∷ us })
            | some a ↦
                if a == t.address
                then loop2 b i t (record m { ring = t ∷ us })
                else some (record m { ring = t ∷ us })
          ]
        ])
          ≡ true
    served [] h = refl
    served (t ∷ us) ((n, l), h) =
        paused t us m.pausing_task (loop2-is_some b f i t (record m { ring = t ∷ us }) n l)

returned :
    (P : Exrail → Type 0) (o : Option Exrail)
    → is_some o ≡ true
    → Kept P o
    → (n : Exrail) × (o ≡ some n) × P n
unfolding Kept
returned P none h k = absurd (true≢false (sym h))
returned P (some n) h k = (n, refl, k)

-- In a build without BLINK, where the invariant holds and the script comes to its end behind every
-- task, a pass of `loop` returns, whichever task has its turn; and a section that is reserved stays
-- so, unless a task stands at the FREE of that section.
pub loop-section_kept :
    (x : ℕ) (b : Build) (i : Inputs) (m : Exrail)
    → has_feature b feature_blink ≡ false
    → AreEnding b m.ring
    → IsSound m
    → Each (λ t. ¬ Frees x b t) m.ring
    → IsReserved x m
    → (n : Exrail) × (loop b i m ≡ some n) × IsReserved x n
loop-section_kept x b i m f e s free h =
    returned (IsReserved x) (loop b i m) (loop-is_some b i m f e) (loop-IsReserved x b i m s free h)

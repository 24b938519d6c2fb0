-- ===== src/Ack/Silent.antt =====
-- Reading a CV when no decoder answers.
use dccexpress_mini.Prelude.{
  ℕ, zero, suc, ◌+◌, ◌-◌, ◌*◌, ◌%◌, ◌≡◌, refl, ap, ◌∙◌, sym, subst, false, none, some, List, [],
  ◌∷◌, arith,
}
use dccexpress_mini.Ack.Op.{wack, vb, itcb, callfail, nakfail, setbit, skiptarget, after_read}
use dccexpress_mini.Ack.Manager.{
  Ack, Env, Effect, answer, schedule_prog, set_ack_baseline, loop, run, count, execute, ask,
  callback, callback_step, finish, bit_message, minus_one,
}
use dccexpress_mini.Ack.Programs.{read_cv_prog, merges}
use dccexpress_mini.Ack.Rounds.{Decoder, rounds, rounds-add, respond}
use dccexpress_mini.Ack.Read.{reading_cv}

-- No decoder on the track, or none that acknowledges.
abbrev pub silent : Decoder
silent message = false

-- The manager when READ_CV_PROG starts, with this number of retries left.
abbrev pub attempt : ℕ → ℕ → Ack → Ack
attempt cv retries a = record (reading_cv cv a) { prog_start = read_cv_prog; retry = retries }

-- What one try sends: both tests of bit 7, each eight times, the last first.
abbrev pub one_try : ℕ → List Effect → List Effect
one_try cv before =
    schedule_prog (bit_message 0xe8 cv 7) 8
    ∷ schedule_prog (bit_message 0xe0 cv 7) 8
    ∷ set_ack_baseline
    ∷ before

-- What so many tries send.
abbrev pub tries : ℕ → ℕ → List Effect → List Effect
tries cv zero before = before
tries cv (suc n) before = tries cv n (one_try cv before)

-- The program is over; the answer is -1 after these effects and no others.
abbrev GivenUp : List Effect → Ack → Type 0
GivenUp before a = (a.prog ≡ none) × (a.effects ≡ answer 0xffff ∷ before)

-- Both tests of bit 7 are sent.
abbrev tested : ℕ → ℕ → Ack → Ack
tested cv retries a = record (attempt cv retries a) {
  prog =
      some (wack ∷ nakfail ∷ setbit 6 ∷ skiptarget ∷ merges 7 (vb ∷ wack ∷ itcb ∷ callfail ∷ []));
  byte = 1;
  bit_num = 7;
  received = false;
  detected = false;
  callback_state = after_read;
  effects = one_try cv a.effects;
}

both_tests :
    (now cv retries : ℕ) (a : Ack)
    → rounds 2 silent now (attempt cv retries a) ≡ tested cv retries a
unfolding rounds respond loop run count execute ask
both_tests now cv retries a = refl

callback-again :
    (env : Env) (r : ℕ) (a : Ack)
    → callback env minus_one (record a { retry = suc r })
      ≡ record a { retry_sum = (a.retry_sum + 1) % 0x1_0000; retry = r; prog = some a.prog_start }
unfolding callback
callback-again env r a = let e : suc r - 1 ≡ r = omega arith in ground arith

again :
    (now cv r : ℕ) (a : Ack)
    → rounds 1 silent now (tested cv (suc r) a)
      ≡ attempt cv r (record (tested cv r a) { retry_sum = (a.retry_sum + 1) % 0x1_0000 })
unfolding rounds respond loop run count execute
again now cv r a = ap (respond silent) (
    callback-again (record { resets = 20; now = now }) r
      (record (tested cv r a) {
        prog = some (nakfail ∷ setbit 6 ∷ skiptarget ∷ merges 7 (vb ∷ wack ∷ itcb ∷ callfail ∷ []));
      }))

given_up :
    (now cv : ℕ) (a : Ack) → GivenUp (one_try cv a.effects) (rounds 2 silent now (tested cv 0 a))
unfolding rounds respond loop run count execute callback callback_step finish
given_up now cv a = (refl, refl)

-- When no decoder acknowledges anything, reading a CV sends both tests of its bit 7 once, and once
-- more for each retry there is, and nothing else; then the caller gets the answer -1 and the
-- program is over. For each retry 3 runs of `loop` are enough, and 4 for the last try. This is from
-- a start with power on, on a track that was not joined and is not switched off afterwards, and when
-- each run comes after 20 resets were sent and with the wait for a pulse over.
pub read_cv_prog-silent :
    (now cv retries : ℕ) (a : Ack)
    → let a' : Ack = rounds (3 * retries + 4) silent now (attempt cv retries a) in
      (a'.prog ≡ none) × (a'.effects ≡ answer 0xffff ∷ tries cv (suc retries) a.effects)
read_cv_prog-silent now cv zero a =
    subst (GivenUp (one_try cv a.effects))
      (sym (
        rounds-add 2 2 silent now (attempt cv 0 a)
        ∙ ap (rounds 2 silent now) (both_tests now cv 0 a)))
      (given_up now cv a)
read_cv_prog-silent now cv (suc r) a =
    let n : 3 * suc r + 4 ≡ 2 + (1 + (3 * r + 4)) = omega arith in
    let rest : ℕ = 3 * r + 4 in
    subst (GivenUp (tries cv (suc (suc r)) a.effects))
      (sym (
        ap (λ k. rounds k silent now (attempt cv (suc r) a)) n
        ∙ rounds-add 2 (1 + rest) silent now (attempt cv (suc r) a)
        ∙ ap (rounds (1 + rest) silent now) (both_tests now cv (suc r) a)
        ∙ rounds-add 1 rest silent now (tested cv (suc r) a)
        ∙ ap (rounds rest silent now) (again now cv r a)))
      (read_cv_prog-silent now cv r
        (record (tested cv r a) { retry_sum = (a.retry_sum + 1) % 0x1_0000 }))

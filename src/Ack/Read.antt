-- ===== src/Ack/Read.antt =====
-- Reading a CV through a decoder that acknowledges what is true of it.
use dccexpress_mini.Prelude.{
  ℕ, zero, suc, ◌+◌, ◌%◌, ◌≤◌, ◌<◌, ◌≡◌, refl, ap, ◌∙◌, sym, subst, Bool, true, false, some, List,
  [], ◌∷◌, ◌==◌, ==_iff, Bool-cases, inl, inr, arith,
}
use dccexpress_mini.Prelude.Bits.{bit_at, bit_at-lt}
use dccexpress_mini.Ack.Op.{
  Op, wack, vb, v1, merge, itskip, setbit, nakfail, skiptarget, itcb, callfail, on,
}
use dccexpress_mini.Ack.Manager.{
  Ack, schedule_prog, set_ack_baseline, loop, run, count, execute, after_target, ask, byte_message,
  bit_message, verify_byte,
}
use dccexpress_mini.Ack.Programs.{read_cv_prog, merges}
use dccexpress_mini.Ack.Rounds.{
  Decoder, respond, rounds, Holds, reading, merged, asked, reading_round, confirming, reading_last,
  confirm_round, answer_round, rounds-add, shr, bit_at-shr, shr-le, merged-shr, Answered,
}

module _ (decoder : Decoder) (now cv v : ℕ) (holds : Holds decoder cv v) where
  read_last :
      (a : Ack) → Answered v (rounds 3 decoder now (reading cv (shr v 1) (bit_at v 0 == 0) 0 0 a))
  read_last a =
      let ack : Bool = bit_at v 0 == 0 in
      let y : merged (shr v 1) ack ≡ v = merged-shr v 0 holds.is_byte in
      let message : ℕ → List ℕ = λ x. byte_message verify_byte cv x in
      let yes_it_is : decoder (message v) ≡ true =
        holds.byte_is v holds.is_byte ∙ (==_iff v v).1 refl in
      let last =
        reading_last decoder now cv (shr v 1) 0 ack a
        ∙ ap (λ x. confirming cv x (decoder (message x)) 255 (asked (message x) ack a)) y
        ∙ ap (λ d. confirming cv v d 255 (asked (message v) ack a)) yes_it_is in
      let all =
        rounds-add 1 2 decoder now (reading cv (shr v 1) ack 0 0 a)
        ∙ ap (rounds 2 decoder now) last
        ∙ rounds-add 1 1 decoder now (confirming cv v true 255 (asked (message v) ack a))
        ∙ ap (rounds 1 decoder now)
            (confirm_round decoder now cv v 255 (asked (message v) ack a) holds.is_byte) in
      let (p, e) = answer_round decoder now cv v 255 (asked (message v) ack a) holds.is_byte in
      (_, ap (λ a. a.prog) all ∙ p, ap (λ a. a.effects) all ∙ e)

  read_down :
      (k : ℕ) (a : Ack)
      → k < 8
      → Answered v (rounds (k + 3) decoder now (reading cv (shr v (suc k)) (bit_at v k == 0) k k a))
  read_down zero a h = read_last a
  read_down (suc k) a h =
      let ack : Bool = bit_at v (suc k) == 0 in
      let n : (suc k + 255) % 256 ≡ k = omega arith in
      let message : ℕ → List ℕ = λ b. bit_message 0xe0 cv b in
      let m : suc k + 3 ≡ 1 + (k + 3) = omega arith in
      let one =
        reading_round decoder now cv (shr v (suc (suc k))) (suc k) k ack a
        ∙ ap
            (λ x.
              reading cv x (decoder (message ((suc k + 255) % 256))) ((suc k + 255) % 256) k
                (asked (message ((suc k + 255) % 256)) ack a))
            (merged-shr v (suc k) holds.is_byte)
        ∙ ap (λ b. reading cv (shr v (suc k)) (decoder (message b)) b k (asked (message b) ack a)) n
        ∙ ap (λ d. reading cv (shr v (suc k)) d k k (asked (message k) ack a))
            (holds.bit_is_0 k (omega arith)) in
      let all =
        ap (λ r. rounds r decoder now (reading cv (shr v (suc (suc k))) ack (suc k) (suc k) a)) m
        ∙ rounds-add 1 (k + 3) decoder now (reading cv (shr v (suc (suc k))) ack (suc k) (suc k) a)
        ∙ ap (rounds (k + 3) decoder now) one in
      let (es, p, e) = read_down k (asked (message k) ack a) (omega arith) in
      (es, ap (λ a. a.prog) all ∙ p, ap (λ a. a.effects) all ∙ e)

-- The manager when READ_CV_PROG has just been set up on a track that was not joined, with its power
-- on.
abbrev pub reading_cv : ℕ → Ack → Ack
reading_cv cv a = record a {
  prog = some read_cv_prog;
  cv = cv;
  power = on;
  pending = false;
  rejoin = false;
  auto_power_off = false;
}

abbrev lower_bits : List Op
lower_bits = merges 7 (vb ∷ wack ∷ itcb ∷ callfail ∷ [])

-- Behind the test of bit 7 against 0; and, if that failed, behind its test against 1.
abbrev first_bit : ℕ → Bool → Ack → Ack
first_bit cv ack a = record (reading cv 0 ack 7 0 a) {
  prog =
      some (
        wack
        ∷ merge
        ∷ itskip
        ∷ setbit 7
        ∷ v1
        ∷ wack
        ∷ nakfail
        ∷ setbit 6
        ∷ skiptarget
        ∷ lower_bits);
  power = on;
}

abbrev first_bit_1 : ℕ → Bool → Ack → Ack
first_bit_1 cv ack a = record (reading cv 1 ack 7 0 a) {
  prog = some (wack ∷ nakfail ∷ setbit 6 ∷ skiptarget ∷ lower_bits);
  power = on;
}

module _ (decoder : Decoder) (now cv : ℕ) (a : Ack) where
  first_round :
      rounds 1 decoder now (reading_cv cv a)
      ≡ first_bit cv (decoder (bit_message 0xe0 cv 7)) (record a {
        effects = schedule_prog (bit_message 0xe0 cv 7) 8 ∷ set_ack_baseline ∷ a.effects;
      })
  unfolding rounds respond loop run count execute ask
  first_round = refl

  first_bit-is_0 :
      rounds 1 decoder now (first_bit cv true a)
      ≡ reading cv 0
          (decoder (bit_message 0xe0 cv 6))
          6
          6
          (asked (bit_message 0xe0 cv 6) true (record a { power = on }))
  unfolding rounds respond loop run count execute after_target ask
  first_bit-is_0 = refl

  first_bit-is_not_0 :
      rounds 1 decoder now (first_bit cv false a)
      ≡ first_bit_1 cv (decoder (bit_message 0xe8 cv 7)) (asked (bit_message 0xe8 cv 7) false a)
  unfolding rounds respond loop run count execute after_target ask
  first_bit-is_not_0 = refl

  first_bit-is_1 :
      rounds 1 decoder now (first_bit_1 cv true a)
      ≡ reading cv 1
          (decoder (bit_message 0xe0 cv 6))
          6
          6
          (asked (bit_message 0xe0 cv 6) true (record a { power = on }))
  unfolding rounds respond loop run count execute after_target ask
  first_bit-is_1 = refl

pub Answered-path : {v : ℕ} {a b : Ack} → a ≡ b → Answered v b → Answered v a
Answered-path {v} e h = subst (Answered v) (sym e) h

module _ (decoder : Decoder) (now cv v : ℕ) (holds : Holds decoder cv v) where
  -- From the test of bit 6 on.
  read_low :
      (x : ℕ) (a : Ack)
      → x ≡ shr v 7
      → Answered v (rounds 9 decoder now (reading cv x (decoder (bit_message 0xe0 cv 6)) 6 6 a))
  read_low x a e =
      Answered-path
        (ap (λ y. rounds 9 decoder now (reading cv y (decoder (bit_message 0xe0 cv 6)) 6 6 a)) e
          ∙ ap (λ d. rounds 9 decoder now (reading cv (shr v 7) d 6 6 a))
              (holds.bit_is_0 6 (omega arith)))
        (read_down decoder now cv v holds 6 a (omega arith))

  read_top :
      (a : Ack)
      → (n : ℕ) × (n ≤ 11) × Answered v (rounds n decoder now (first_bit cv (bit_at v 7 == 0) a))
  read_top a = elim (Bool-cases (bit_at v 7 == 0)) [
    | inl zero_bit ↦
        let low : Ack = asked (bit_message 0xe0 cv 6) true (record a { power = on }) in
        let all : rounds 10 decoder now (first_bit cv true a)
            ≡ rounds 9 decoder now (reading cv 0 (decoder (bit_message 0xe0 cv 6)) 6 6 low) =
          rounds-add 1 9 decoder now (first_bit cv true a)
          ∙ ap (rounds 9 decoder now) (first_bit-is_0 decoder now cv a) in
        let h : 0 ≡ shr v 7 = ground (arith, bit_at-shr v 7, shr-le v 0, holds.is_byte) in
        (10, omega arith, rw zero_bit (Answered-path all (read_low 0 low h)))
    | inr one_bit ↦
        let is_1 : decoder (bit_message 0xe8 cv 7) ≡ true =
          holds.bit_is_1 7 (omega arith) ∙ ground (arith, bit_at-lt v 7) in
        let tried : Ack = asked (bit_message 0xe8 cv 7) false a in
        let low : Ack = asked (bit_message 0xe0 cv 6) true (record tried { power = on }) in
        let all : rounds 11 decoder now (first_bit cv false a)
            ≡ rounds 9 decoder now (reading cv 1 (decoder (bit_message 0xe0 cv 6)) 6 6 low) =
          rounds-add 1 10 decoder now (first_bit cv false a)
          ∙ ap (rounds 10 decoder now)
              (first_bit-is_not_0 decoder now cv a ∙ ap (λ d. first_bit_1 cv d tried) is_1)
          ∙ rounds-add 1 9 decoder now (first_bit_1 cv true tried)
          ∙ ap (rounds 9 decoder now) (first_bit-is_1 decoder now cv tried) in
        let h : 1 ≡ shr v 7 = ground (arith, bit_at-shr v 7, shr-le v 0, holds.is_byte) in
        (11, omega arith, rw one_bit (Answered-path all (read_low 1 low h)))
  ]

-- Reading a CV of a decoder that acknowledges exactly what is true of it gives the caller the value
-- of the CV, whatever it is, within twelve runs of `loop`. This is from a start with power on, on a
-- track that was not joined and is not switched off afterwards, and when each run comes after 20
-- resets were sent and with the decoder's reaction to the packet before it decided.
pub read_cv_prog-answers :
    (decoder : Decoder) (now cv v : ℕ) (a : Ack)
    → Holds decoder cv v
    → (n : ℕ) × (n ≤ 12) × Answered v (rounds n decoder now (reading_cv cv a))
read_cv_prog-answers decoder now cv v a holds =
    let begun : Ack = record a {
      effects = schedule_prog (bit_message 0xe0 cv 7) 8 ∷ set_ack_baseline ∷ a.effects;
    } in
    let (n, h, answered) = read_top decoder now cv v holds begun in
    (
      1 + n,
      omega arith,
      Answered-path
          (rounds-add 1 n decoder now (reading_cv cv a)
            ∙ ap (rounds n decoder now) (
                first_round decoder now cv a
                ∙ ap (λ d. first_bit cv d begun) (holds.bit_is_0 7 (omega arith))))
          answered,
    )

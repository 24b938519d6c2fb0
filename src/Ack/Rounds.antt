-- ===== src/Ack/Rounds.antt =====
-- DCCACK.cpp: single rounds of the manager with a decoder that acknowledges what is true of a CV.
use dccexpress_mini.Prelude.{
  ℕ, zero, suc, ◌+◌, ◌*◌, ◌/◌, ◌%◌, ◌≤◌, ◌<◌, ◌≡◌, refl, ap, ◌∙◌, Bool, true, false, none, some,
  List, [], ◌∷◌, bit_or, ◌==◌, if◌then◌else◌, arith,
}
use dccexpress_mini.Prelude.Bits.{bit_at, bit_or_low1}
use dccexpress_mini.Ack.Op.{Op, wack, vb, merge, itcb, callfail, after_read, ready}
use dccexpress_mini.Ack.Manager.{
  Ack, Env, Effect, schedule_prog, answer, loop, run, count, execute, ask, callback, callback_step,
  finish, byte_message, bit_message, verify_byte,
}
use dccexpress_mini.Ack.Programs.{merges}

-- A decoder says of each packet whether it acknowledges it. What comes between two runs of `loop`:
-- the pulse is detected, or the time for it runs out.
abbrev pub Decoder : Type 0
Decoder = List ℕ → Bool

abbrev pub last_message : List Effect → List ℕ
last_message [] = []
last_message (schedule_prog message _ ∷ _) = message
last_message (_ ∷ es) = last_message es

unfoldable pub respond : Decoder → Ack → Ack
respond decoder a =
    if a.pending
    then record a { pending = false; detected = decoder (last_message a.effects) }
    else a

-- n runs of `loop`, each at a time when enough resets were sent.
unfoldable pub rounds : ℕ → Decoder → ℕ → Ack → Ack
rounds zero decoder now a = a
rounds (suc n) decoder now a =
    rounds n decoder now (respond decoder (loop (record { resets = 20; now = now }) a))

-- A decoder that holds v in the CV: it acknowledges the tests of bits and of the byte that hold.
pub record Holds (decoder : Decoder) (cv v : ℕ) : Type 0 where
  pub is_byte : v < 256
  pub bit_is_0 : (k : ℕ) → k < 8 → decoder (bit_message 0xe0 cv k) ≡ (bit_at v k == 0)
  pub bit_is_1 : (k : ℕ) → k < 8 → decoder (bit_message 0xe8 cv k) ≡ (bit_at v k == 1)
  pub byte_is : (x : ℕ) → x < 256 → decoder (byte_message verify_byte cv x) ≡ (x == v)

-- The manager behind the test of bit k, all higher bits of the byte known.
abbrev rest_ops : ℕ → List Op
rest_ops k = merge ∷ merges k (vb ∷ wack ∷ itcb ∷ callfail ∷ [])

abbrev pub reading : ℕ → ℕ → Bool → ℕ → ℕ → Ack → Ack
reading cv x ack b k a = record a {
  prog = some (wack ∷ rest_ops k);
  byte = x;
  bit_num = b;
  detected = ack;
  cv = cv;
  pending = false;
  rejoin = false;
  auto_power_off = false;
  callback_state = after_read;
}

abbrev pub merged : ℕ → Bool → ℕ
merged x ack = if ack then x * 2 % 256 else bit_or (x * 2 % 256) 1

abbrev pub asked : List ℕ → Bool → Ack → Ack
asked message ack a = record a { effects = schedule_prog message 8 ∷ a.effects; received = ack }

pub reading_round :
    (decoder : Decoder) (now cv x b k : ℕ) (ack : Bool) (a : Ack)
    → let message : List ℕ = bit_message 0xe0 cv ((b + 255) % 256) in
      rounds 1 decoder now (reading cv x ack b (suc k) a)
      ≡ reading cv (merged x ack) (decoder message) ((b + 255) % 256) k (asked message ack a)
unfolding rounds respond loop run count execute ask
reading_round decoder now cv x b k ack a = refl

-- The manager at the test of the whole byte, and at the answer.
abbrev pub confirming : ℕ → ℕ → Bool → ℕ → Ack → Ack
confirming cv y ack b a = record (reading cv y ack b 0 a) {
  prog = some (wack ∷ itcb ∷ callfail ∷ []);
}

abbrev confirmed : ℕ → ℕ → ℕ → Ack → Ack
confirmed cv y b a = record (reading cv y true b 0 a) {
  prog = some (itcb ∷ callfail ∷ []);
  received = true;
}

pub reading_last :
    (decoder : Decoder) (now cv x b : ℕ) (ack : Bool) (a : Ack)
    → let message : List ℕ = byte_message verify_byte cv (merged x ack) in
      rounds 1 decoder now (reading cv x ack b 0 a)
      ≡ confirming cv (merged x ack) (decoder message) ((b + 255) % 256) (asked message ack a)
unfolding rounds respond loop run count execute ask
reading_last decoder now cv x b ack a = refl

callback-byte :
    (env : Env) (y : ℕ) (a : Ack)
    → y < 256
    → callback env y a ≡ callback_step env y a.callback_state a
unfolding callback
callback-byte env y a h = ground arith

pub confirm_round :
    (decoder : Decoder) (now cv y b : ℕ) (a : Ack)
    → y < 256
    → rounds 1 decoder now (confirming cv y true b a)
      ≡ record (confirmed cv y b a) { callback_state = ready }
unfolding rounds respond loop run count execute callback_step
confirm_round decoder now cv y b a h =
    ap (respond decoder)
      (callback-byte (record { resets = 20; now = now }) y (confirmed cv y b a) h)

pub answer_round :
    (decoder : Decoder) (now cv y b : ℕ) (a : Ack)
    → y < 256
    → let a' = rounds 1 decoder now (record (confirmed cv y b a) { callback_state = ready }) in
      (a'.prog ≡ none) × (a'.effects ≡ answer y ∷ a.effects)
unfolding rounds respond loop run count execute callback_step finish
answer_round decoder now cv y b a h =
    let small : y % 0x1_0000 ≡ y = omega arith in
    let e = ap (respond decoder) (
      callback-byte (record { resets = 20; now = now }) y
        (record (confirmed cv y b a) { callback_state = ready }) h) in
    (ap (λ a. a.prog) e, ap (λ a. a.effects) e ∙ ap (λ n. answer n ∷ a.effects) small)

pub rounds-add :
    (m n : ℕ) (decoder : Decoder) (now : ℕ) (a : Ack)
    → rounds (m + n) decoder now a ≡ rounds n decoder now (rounds m decoder now a)
unfolding rounds
rounds-add zero n decoder now a =
    ap (λ k. rounds k decoder now a) (let e : 0 + n ≡ n = omega arith in e)
rounds-add (suc m) n decoder now a =
    ap (λ k. rounds k decoder now a) (let e : suc m + n ≡ suc (m + n) = omega arith in e)
    ∙ rounds-add m n decoder now _

-- The bits of a byte from bit k up.
abbrev pub shr : ℕ → ℕ → ℕ
shr v zero = v
shr v (suc k) = shr v k / 2

shr-half : (v k : ℕ) → shr (v / 2) k ≡ shr v k / 2
shr-half v zero = refl
shr-half v (suc k) = ap (λ n. n / 2) (shr-half v k)

pub bit_at-shr : (v k : ℕ) → bit_at v k ≡ shr v k % 2
bit_at-shr v zero = refl
bit_at-shr v (suc k) = bit_at-shr (v / 2) k ∙ ap (λ n. n % 2) (shr-half v k)

pub shr-le : (v k : ℕ) → shr v k ≤ v
shr-le v zero = omega arith
shr-le v (suc k) = omega (arith, shr-le v k)

-- An acknowledgement of bit 0 or its lack, merged into the bits above, gives the bits from there.
pub merged-shr : (v k : ℕ) → v < 256 → merged (shr v (suc k)) (bit_at v k == 0) ≡ shr v k
merged-shr v k h = ground (arith, bit_at-shr v k, bit_or_low1 (shr v k / 2), shr-le v k, even)
  where
    even : bit_or (shr v k / 2 * 2 % 256) 1 ≡ bit_or (shr v k / 2 * 2) 1
    even = ap (λ n. bit_or n 1) (omega (arith, shr-le v k))

-- The manager is idle again, and the last thing that it did was to give this answer.
abbrev pub Answered : ℕ → Ack → Type 0
Answered v a = (es : List Effect) × (a.prog ≡ none) × (a.effects ≡ answer v ∷ es)

-- ===== src/Ack/Tests.antt =====
-- The theorems on programming at a concrete decoder and at concrete samples.
use dccexpress_mini.Prelude.{
  ℕ, ◌≤◌, ◌<◌, ◌≡◌, refl, Bool, true, false, ◌&&◌, ◌||◌, none, List, [], ◌∷◌, ◌++◌, arith, ◌==◌,
  bit_and, if◌then◌else◌, not,
}
use dccexpress_mini.Prelude.Bits.{bit_at, each_below, each_below_sound}
use dccexpress_mini.Dcc.Packets.{cv1, cv2}
use dccexpress_mini.Ack.Op.{ready, on}
use dccexpress_mini.Ack.Manager.{Ack, answer, bit_message, byte_message, verify_byte}
use dccexpress_mini.Ack.Rounds.{Decoder, Holds, Answered, rounds}
use dccexpress_mini.Ack.Read.{reading_cv, read_cv_prog-answers}
use dccexpress_mini.Ack.Silent.{silent, attempt, tries, read_cv_prog-silent}
use dccexpress_mini.Ack.Pulse.{Limits, Probe, Sample, above, watch, get_ack}
use dccexpress_mini.Ack.Pulse.Watch.{Is, Pulse, over, high, gap, watch-Pulse}

abbrev idle : Ack
idle = record {
  prog = none;
  prog_start = [];
  byte = 0;
  byte_verify = 0;
  stash = 0;
  word = 0;
  retry = 0;
  ack_retry = 2;
  retry_sum = 0;
  cv = 0;
  bit_num = 0;
  received = false;
  rejoin = false;
  auto_power_off = false;
  callback_state = ready;
  callback_start = 0;
  pending = false;
  detected = false;
  power = on;
  joined = false;
  effects = [];
}

-- A decoder that holds 0x9a in CV 8.
abbrev decoder : Decoder
decoder (a ∷ b ∷ c ∷ []) =
    b == 7
    && (a == 0x74 && c == 0x9a
        || a == 0x78 && (bit_at 0x9a (bit_and c 7) == (if bit_and c 8 == 0 then 0 else 1)))
decoder _ = false

abbrev same : Bool → Bool → Bool
same p q = if p then q else not q

same_sound : (p q : Bool) → same p q ≡ true → p ≡ q
same_sound p q h = ground arith

-- Two tests that agree at every number below a bound.
agree :
    (n : ℕ) (p q : ℕ → Bool)
    → each_below n (λ k. same (p k) (q k)) ≡ true
    → (k : ℕ) → k < n
    → p k ≡ q k
agree n p q h k l = same_sound (p k) (q k) (each_below_sound n (λ k. same (p k) (q k)) k h l)

decoder-Holds : Holds decoder 8 0x9a
unfolding each_below bit_message byte_message cv1 cv2
decoder-Holds = record {
  is_byte = omega arith;
  bit_is_0 = agree 8 (λ k. decoder (bit_message 0xe0 8 k)) (λ k. bit_at 0x9a k == 0) refl;
  bit_is_1 = agree 8 (λ k. decoder (bit_message 0xe8 8 k)) (λ k. bit_at 0x9a k == 1) refl;
  byte_is = agree 256 (λ x. decoder (byte_message verify_byte 8 x)) (λ x. x == 0x9a) refl;
}

read_cv_prog-answers_example :
    (n : ℕ) × (n ≤ 12) × Answered 0x9a (rounds n decoder 1000 (reading_cv 8 idle))
read_cv_prog-answers_example = read_cv_prog-answers decoder 1000 8 0x9a idle decoder-Holds

-- A pulse of 6 ms with a gap in it, above a threshold of 100.
abbrev limits : Limits
limits = record { threshold = 100; min_pulse = 2000; max_pulse = 20000 }

abbrev sample : ℕ → ℕ → Sample
sample current micros = record { resets = 1; current = current; micros = micros; millis = 10 }

abbrev waiting : Probe
waiting = record {
  max_current = 0;
  check_start = 0;
  check_duration = 0;
  pulse_start = 0;
  pulse_duration = 0;
  pending = true;
  detected = false;
  gaps = 0;
  samples = 0;
  trailing = 0;
  cleared = 0;
}

high-Is : (t : ℕ) → Is true limits (sample 160 t)
unfolding above
high-Is t = record { in_time = omega arith; level = refl }

low-Is : (t : ℕ) → Is false limits (sample 30 t)
unfolding above
low-Is t = record { in_time = omega arith; level = refl }

abbrev body : List Sample
body = sample 160 2000 ∷ sample 30 3000 ∷ sample 160 4000 ∷ []

body-Pulse : Pulse limits body
body-Pulse = high (high-Is 2000) (gap (low-Is 3000) (high-Is 4000) over)

abbrev pulse : List Sample
pulse = sample 160 1000 ∷ body ++ (sample 30 7000 ∷ sample 30 7100 ∷ sample 30 7200 ∷ [])

watch-Pulse_example : get_ack (watch limits pulse waiting) ≡ 1
watch-Pulse_example =
    watch-Pulse limits (sample 160 1000) (sample 30 7000) (sample 30 7100) (sample 30 7200) body
      waiting refl refl refl (omega arith) (high-Is 1000) body-Pulse (low-Is 7000) (low-Is 7100)
      (low-Is 7200)

read_cv_prog-silent_example :
    let a : Ack = rounds 10 silent 1000 (attempt 8 2 idle) in
    (a.prog ≡ none) × (a.effects ≡ answer 0xffff ∷ tries 8 3 [])
read_cv_prog-silent_example = read_cv_prog-silent 1000 8 2 idle

-- ===== src/Prelude/Bits.antt =====
-- Facts about single bytes by evaluation, and about the bits of a number of any size.
use Prim.Native.Nat.{
  ℕ, zero, suc, ◌+◌, ◌*◌, ◌/◌, ◌%◌, ◌^◌, ◌≤◌, ◌<◌, min, max, bit_and, bit_or, bit_xor, digits,
  bitwise, differ, bit_and-bitwise, bit_or-bitwise, bit_xor-bitwise,
}
use mathlib.Core.Path.{◌≡◌, refl, ap, ap₂, ◌∙◌, sym}
use mathlib.Core.Logic.{◌≢◌}
use mathlib.Core.Bool.{Bool, true, ◌&&◌}
use native.Mathlib.Omega.{arith}
use native.Mathlib.Nat.{pow-suc}

-- A test that passes at every number below a bound.
unfoldable pub each_below : ℕ → (ℕ → Bool) → Bool
each_below zero test = true
each_below (suc n) test = each_below n test && test n

pub each_below_sound :
    (n : ℕ) (test : ℕ → Bool) (k : ℕ) → each_below n test ≡ true → k < n → test k ≡ true
unfolding each_below
each_below_sound (suc n) test k h l = ground (arith, each_below_sound n test k)
each_below_sound zero test k h l = absurd (omega arith)

-- Digit k of the binary expansion.
abbrev pub bit_at : ℕ → ℕ → ℕ
bit_at n zero = n % 2
bit_at n (suc k) = bit_at (n / 2) k

pub bit_at-lt : (n k : ℕ) → bit_at n k < 2
bit_at-lt n zero = omega arith
bit_at-lt n (suc k) = bit_at-lt (n / 2) k

-- The library's operations on digits take a count of them, and any count that is enough will do.
digits-run_out : (z : ℕ → ℕ) (f : ℕ → ℕ → ℕ) (n b : ℕ) → digits z f n 0 b ≡ z b
digits-run_out z f zero b = refl
digits-run_out z f (suc n) b = refl

digits-enough :
    (z : ℕ → ℕ) (f : ℕ → ℕ → ℕ) (b a n m : ℕ) → a ≤ n → a ≤ m → digits z f n a b ≡ digits z f m a b
digits-enough z f b zero n m h k = digits-run_out z f n b ∙ sym (digits-run_out z f m b)
digits-enough z f b (suc a) zero m h k = absurd (omega arith)
digits-enough z f b (suc a) (suc n) zero h k = absurd (omega arith)
digits-enough z f b (suc a) (suc n) (suc m) h k =
    ap (λ rest. rest * 2 + f (suc a % 2) (b % 2))
      (digits-enough z f (b / 2) (suc a / 2) n m (omega arith) (omega arith))

bitwise_step :
    (z : ℕ → ℕ) (f : ℕ → ℕ → ℕ) (a b : ℕ)
    → bitwise z f (suc a) b ≡ bitwise z f (suc a / 2) (b / 2) * 2 + f (suc a % 2) (b % 2)
bitwise_step z f a b =
    ap (λ rest. rest * 2 + f (suc a % 2) (b % 2))
      (digits-enough z f (b / 2) (suc a / 2) a (suc a / 2) (omega arith) (omega arith))

pub bit_and_step : (m n : ℕ) → bit_and m n ≡ bit_and (m / 2) (n / 2) * 2 + min (m % 2) (n % 2)
bit_and_step zero n = omega (arith, bit_and-bitwise 0 n, bit_and-bitwise 0 (n / 2))
bit_and_step (suc m) n =
    bit_and-bitwise (suc m) n
    ∙ bitwise_step _ min m n
    ∙ ap (λ k. k * 2 + min (suc m % 2) (n % 2)) (sym (bit_and-bitwise (suc m / 2) (n / 2)))

pub bit_or_step : (a b : ℕ) → bit_or a b ≡ bit_or (a / 2) (b / 2) * 2 + max (a % 2) (b % 2)
bit_or_step zero b = omega (arith, bit_or-bitwise 0 b, bit_or-bitwise 0 (b / 2))
bit_or_step (suc a) b =
    bit_or-bitwise (suc a) b
    ∙ bitwise_step _ max a b
    ∙ ap (λ n. n * 2 + max (suc a % 2) (b % 2)) (sym (bit_or-bitwise (suc a / 2) (b / 2)))

pub bit_xor_step : (a b : ℕ) → bit_xor a b ≡ bit_xor (a / 2) (b / 2) * 2 + differ (a % 2) (b % 2)
bit_xor_step zero b = omega (arith, bit_xor-bitwise 0 b, bit_xor-bitwise 0 (b / 2))
bit_xor_step (suc a) b =
    bit_xor-bitwise (suc a) b
    ∙ bitwise_step _ differ a b
    ∙ ap (λ n. n * 2 + differ (suc a % 2) (b % 2)) (sym (bit_xor-bitwise (suc a / 2) (b / 2)))

differ_self : (n : ℕ) → differ n n ≡ 0
differ_self zero = refl
differ_self (suc n) = differ_self n

differ-lt : (a b : ℕ) → (a < 2) × (b < 2) → differ a b < 2
differ-lt zero b h = h.1
differ-lt (suc a) zero h = h.0
differ-lt (suc zero) (suc b) h = omega arith
differ-lt (suc (suc a)) (suc b) h = absurd (omega arith)

bit_xor_cancel_fuel : (n a : ℕ) → a ≤ n → bit_xor a a ≡ 0
bit_xor_cancel_fuel n zero h = refl
bit_xor_cancel_fuel zero (suc a) h = absurd (omega arith)
bit_xor_cancel_fuel (suc n) (suc a) h = omega (
  arith,
  bit_xor_step (suc a) (suc a),
  bit_xor_cancel_fuel n (suc a / 2) (omega arith),
  differ_self (suc a % 2),
)

pub bit_xor_cancel : (a : ℕ) → bit_xor a a ≡ 0
bit_xor_cancel a = bit_xor_cancel_fuel a a (omega arith)

-- The bits of `&` and `|` are those of the operands, place by place.
pub bit_at-bit_and : (k a b : ℕ) → bit_at (bit_and a b) k ≡ min (bit_at a k) (bit_at b k)
bit_at-bit_and zero a b = omega (arith, bit_and_step a b)
bit_at-bit_and (suc k) a b =
    ap (λ n. bit_at n k) (omega (arith, bit_and_step a b)) ∙ bit_at-bit_and k (a / 2) (b / 2)

pub bit_at-bit_or : (k a b : ℕ) → bit_at (bit_or a b) k ≡ max (bit_at a k) (bit_at b k)
bit_at-bit_or zero a b = omega (arith, bit_or_step a b)
bit_at-bit_or (suc k) a b =
    ap (λ n. bit_at n k) (omega (arith, bit_or_step a b)) ∙ bit_at-bit_or k (a / 2) (b / 2)

pub bit_at-bit_xor : (k a b : ℕ) → bit_at (bit_xor a b) k ≡ differ (bit_at a k) (bit_at b k)
bit_at-bit_xor zero a b =
    omega (arith, bit_xor_step a b, differ-lt (a % 2) (b % 2) (omega arith, omega arith))
bit_at-bit_xor (suc k) a b =
    ap (λ n. bit_at n k)
      (omega (arith, bit_xor_step a b, differ-lt (a % 2) (b % 2) (omega arith, omega arith)))
    ∙ bit_at-bit_xor k (a / 2) (b / 2)

bit_at-zero : (k : ℕ) → bit_at 0 k ≡ 0
bit_at-zero zero = refl
bit_at-zero (suc k) = bit_at-zero k

-- The bits of a power of two.
pub bit_at-pow_self : (k : ℕ) → bit_at (2 ^ k) k ≡ 1
bit_at-pow_self zero = refl
bit_at-pow_self (suc k) = ap (λ n. bit_at n k) (omega (arith, pow-suc 2 k)) ∙ bit_at-pow_self k

pub bit_at-pow_ne : (j k : ℕ) → j ≢ k → bit_at (2 ^ j) k ≡ 0
bit_at-pow_ne zero zero h = absurd (h refl)
bit_at-pow_ne zero (suc k) h = bit_at-zero k
bit_at-pow_ne (suc j) zero h = omega (arith, pow-suc 2 j)
bit_at-pow_ne (suc j) (suc k) h =
    ap (λ n. bit_at n k) (omega (arith, pow-suc 2 j)) ∙ bit_at-pow_ne j k (λ e. h (ap suc e))

bit_and-zero : (n a : ℕ) → a ≤ n → bit_and a 0 ≡ 0
bit_and-zero n zero h = refl
bit_and-zero zero (suc a) h = absurd (omega arith)
bit_and-zero (suc n) (suc a) h =
    omega (arith, bit_and_step (suc a) 0, bit_and-zero n (suc a / 2) (omega arith))

-- A mask of one bit.
pub bit_and-pow : (k a : ℕ) → bit_and a (2 ^ k) ≡ bit_at a k * 2 ^ k
bit_and-pow zero a = omega (arith, bit_and_step a 1, bit_and-zero (a / 2) (a / 2) (omega arith))
bit_and-pow (suc k) a =
    omega (arith, bit_and_step a (2 ^ suc k), bit_and-pow k (a / 2), pow-suc 2 k, h, g)
  where
    h : bit_and (a / 2) (2 ^ suc k / 2) ≡ bit_and (a / 2) (2 ^ k)
    h = ap (bit_and (a / 2)) (omega (arith, pow-suc 2 k))

    g : bit_at (a / 2) k * 2 ^ suc k ≡ bit_at (a / 2) k * (2 ^ k * 2)
    g = ap (λ t. bit_at (a / 2) k * t) (pow-suc 2 k)

-- Masks of low bits.
pub bit_and_1 : (a : ℕ) → bit_and a 1 ≡ a % 2
bit_and_1 a = omega (arith, bit_and_step a 1, bit_and-zero (a / 2) (a / 2) (omega arith))

pub bit_and_3 : (a : ℕ) → bit_and a 3 ≡ a % 4
bit_and_3 a = omega (arith, bit_and_step a 3, bit_and_1 (a / 2))

-- A mask of bits 2 and 3.
pub bit_and_12 : (a : ℕ) → bit_and a 12 ≡ bit_at a 2 * 4 + bit_at a 3 * 8
bit_and_12 a = omega (arith, bit_and_step a 12, bit_and_step (a / 2) 6, bit_and_3 (a / 2 / 2))

pub bit_and_7 : (a : ℕ) → bit_and a 7 ≡ a % 8
bit_and_7 a = omega (arith, bit_and_step a 7, bit_and_3 (a / 2))

pub bit_and_15 : (a : ℕ) → bit_and a 15 ≡ a % 16
bit_and_15 a = omega (arith, bit_and_step a 15, bit_and_7 (a / 2))

pub bit_and_31 : (a : ℕ) → bit_and a 31 ≡ a % 32
bit_and_31 a = omega (arith, bit_and_step a 31, bit_and_15 (a / 2))

pub bit_and_63 : (a : ℕ) → bit_and a 63 ≡ a % 64
bit_and_63 a = omega (arith, bit_and_step a 63, bit_and_31 (a / 2))

pub bit_and_127 : (a : ℕ) → bit_and a 127 ≡ a % 128
bit_and_127 a = omega (arith, bit_and_step a 127, bit_and_63 (a / 2))

pub bit_and_255 : (a : ℕ) → bit_and a 255 ≡ a % 256
bit_and_255 a = omega (arith, bit_and_step a 255, bit_and_127 (a / 2))

pub bit_and_511 : (a : ℕ) → bit_and a 511 ≡ a % 512
bit_and_511 a = omega (arith, bit_and_step a 511, bit_and_255 (a / 2))

bit_or-zero_fuel : (n a : ℕ) → a ≤ n → bit_or a 0 ≡ a
bit_or-zero_fuel n zero h = refl
bit_or-zero_fuel zero (suc a) h = absurd (omega arith)
bit_or-zero_fuel (suc n) (suc a) h =
    omega (arith, bit_or_step (suc a) 0, bit_or-zero_fuel n (suc a / 2) (omega arith))

pub bit_or_low1 : (a : ℕ) → bit_or (a * 2) 1 ≡ a * 2 + 1
bit_or_low1 a = omega (arith, bit_or_step (a * 2) 1, halves, bit_or-zero_fuel a a (omega arith))
  where
    halves : bit_or (a * 2 / 2) (1 / 2) ≡ bit_or a 0
    halves = ap₂ bit_or (omega arith) (omega arith)

-- Two bits joined to a number that ends in two zeros.
pub bit_or_low2 : (a p : ℕ) → p < 4 → bit_or (a * 4) p ≡ a * 4 + p
bit_or_low2 a p h = omega (
  arith,
  bit_or_step (a * 4) p,
  halves,
  bit_or_step (a * 2) (p / 2),
  quarters,
  bit_or-zero_fuel a a (omega arith),
)
  where
    halves : bit_or (a * 4 / 2) (p / 2) ≡ bit_or (a * 2) (p / 2)
    halves = ap (λ n. bit_or n (p / 2)) (omega arith)

    quarters : bit_or (a * 2 / 2) (p / 2 / 2) ≡ bit_or a 0
    quarters = ap₂ bit_or (omega arith) (omega arith)

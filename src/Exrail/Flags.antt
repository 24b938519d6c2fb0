-- ===== src/Exrail/Flags.antt =====
-- EXRAIL2.cpp: what `setFlag` does to the bits of the flags.
use dccexpress_mini.Prelude.{
  ℕ, ◌≤◌, ◌≡◌, ◌≢◌, refl, sym, ◌∙◌, true, false, not, arith, leb, ◌==◌, if◌then◌else◌, if_cases,
  bit_and, bit_or, bit_xor, get_or, set, get_or-set, Bool-cases, inl, inr, ◌⊎◌, ◌↔◌, ap₂,
}
use dccexpress_mini.Prelude.Bits.{
  bit_at, bit_at-lt, bit_at-bit_and, bit_at-bit_or, bit_at-bit_xor, bit_and-pow, bit_and_12,
}
use Prim.Native.Nat.{differ}
use dccexpress_mini.Exrail.Opcode.{section_flag, signal_mask, task_flag, max_flags}
use dccexpress_mini.Exrail.State.{Exrail}
use dccexpress_mini.Exrail.Tasks.{set_flag, get_flag}

-- The byte that `setFlag` writes.
abbrev pub masked : ℕ → ℕ → ℕ → ℕ
masked f on off = bit_or (bit_and f (bit_xor 0xff off)) on

-- A bit that is not taken off stays.
stays :
    (k f on off : ℕ)
    → bit_at 0xff k ≡ 1
    → bit_at off k ≡ 0
    → bit_at f k ≤ bit_at (masked f on off) k
stays k f on off h z = omega (
  arith,
  bit_at-bit_or k (bit_and f (bit_xor 0xff off)) on,
  bit_at-bit_and k f (bit_xor 0xff off),
  bit_at-bit_xor k 0xff off ∙ differ_both h z,
  bit_at-lt f k,
)
  where
    differ_both : {a b : ℕ} → a ≡ 1 → b ≡ 0 → differ a b ≡ 1
    differ_both p q = ap₂ differ p q

-- A section's flag, as its bit.
section_bit : (f : ℕ) → (not (bit_and f section_flag == 0) ≡ true) ↔ (bit_at f 7 ≡ 1)
section_bit f = ground (arith, bit_and-pow 7 f, bit_at-lt f 7)

-- A section that a task has reserved.
unfoldable pub IsReserved : ℕ → Exrail → Type 0
IsReserved x m = get_flag x section_flag m ≡ true

reserved_stays :
    (f on off : ℕ)
    → bit_and off section_flag ≡ 0
    → not (bit_and f section_flag == 0) ≡ true
    → not (bit_and (masked f on off) section_flag == 0) ≡ true
reserved_stays f on off z h = (section_bit (masked f on off)).1 (
    omega (
      arith,
      (section_bit f).0 h,
      stays 7 f on off refl (omega (arith, bit_and-pow 7 off, z)),
      bit_at-lt (masked f on off) 7,
    ))

pub set_section : (f : ℕ) → not (bit_and (masked f section_flag 0) section_flag == 0) ≡ true
set_section f =
    (section_bit (masked f section_flag 0)).1
      (omega (arith, bit_at-bit_or 7 (bit_and f 0xff) section_flag, bit_at-lt (bit_and f 0xff) 7))

module _ (x id on off : ℕ) (m : Exrail) where
  -- A write with the section's bit not in the mask that is taken off, or to another flag.
  pub set_flag-IsReserved :
      (bit_and off section_flag ≡ 0) ⊎ (id ≢ x)
      → IsReserved x m
      → IsReserved x (set_flag id on off m)
  unfolding IsReserved get_flag set_flag
  set_flag-IsReserved c h =
      if_cases (λ (r : Exrail). get_flag x section_flag r ≡ true) (leb max_flags id) (λ e. h)
        (λ e. written (Bool-cases (leb max_flags x)))
    where
      written :
          (leb max_flags x ≡ true) ⊎ (leb max_flags x ≡ false)
          → (if leb max_flags x
              then false
              else not (
                  bit_and
                    (get_or (set m.flags id (masked (get_or m.flags id 0) on off)) x 0)
                    section_flag
                  == 0))
            ≡ true
      written (inl e) = let h' : false ≡ true = rw e at h in absurd (ground arith)
      written (inr e) = rw e (
          get_or-set (λ f. not (bit_and f section_flag == 0) ≡ true) m.flags id x _ 0 (rw e at h)
            (λ same. elim c [
              | inl z ↦ reserved_stays (get_or m.flags id 0) on off z (rw (sym same) at (rw e at h))
              | inr ne ↦ absurd (ne same)
            ]))

-- The bits of a signal in its flag are those last written.
pub signal_bits :
    (f rag : ℕ)
    → (rag ≡ 4) ⊎ ((rag ≡ 8) ⊎ (rag ≡ 12))
    → bit_and (masked f rag signal_mask) signal_mask ≡ rag
signal_bits f rag c = omega (
  arith,
  bit_and_12 (masked f rag signal_mask),
  bit_at-bit_or 2 (bit_and f 0xf3) rag,
  bit_at-bit_or 3 (bit_and f 0xf3) rag,
  bit_at-bit_and 2 f 0xf3,
  bit_at-bit_and 3 f 0xf3,
  c,
)

pub signal_bits_stay : (f : ℕ) → bit_and (masked f 0 task_flag) signal_mask ≡ bit_and f signal_mask
signal_bits_stay f = omega (
  arith,
  bit_and_12 f,
  bit_and_12 (masked f 0 task_flag),
  bit_at-bit_or 2 (bit_and f 0xdf) 0,
  bit_at-bit_or 3 (bit_and f 0xdf) 0,
  bit_at-bit_and 2 f 0xdf,
  bit_at-bit_and 3 f 0xdf,
  bit_at-lt f 2,
  bit_at-lt f 3,
)

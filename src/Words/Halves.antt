-- ===== src/Words/Halves.antt =====
-- The two halves of a 64-bit register that is written 32 bits at a time.
use mpact_riscv.Common.{
  ℕ, ◌+◌, ◌-◌, ◌*◌, ◌/◌, ◌%◌, ◌^◌, ◌<◌, ◌≡◌, arith, ◌∙◌, ap, ap₂, bit_and, bit_or, ltb, leb, ◌&&◌,
}
use mpact_riscv.Bits.{bit, bit_laws, bit_ext, bit-bit_and, bit-shl, bit-mod, bit-ones, bit-shr}
use mpact_riscv.Words.{u64, ◌<<<◌}
use mpact_riscv.Words.Laws.{bit_or-shl}

-- A mask of ones is a remainder.
pub bit_and-ones : (k x : ℕ) → bit_and x (2 ^ k - 1) ≡ x % 2 ^ k
bit_and-ones k x = bit_ext _ _ (λ i. rw (bit-bit_and, bit-ones, bit-mod) (ground arith))

high_mask_bit : (i : ℕ) → bit 0xffff_ffff_0000_0000 i ≡ (leb 32 i && ltb (i - 32) 32)
high_mask_bit i = bit-shl 32 (2 ^ 32 - 1) i ∙ ap (λ b. leb 32 i && b) (bit-ones 32 (i - 32))

bit_and-high : (x : ℕ) → bit_and x 0xffff_ffff_0000_0000 ≡ x / 2 ^ 32 % 2 ^ 32 * 2 ^ 32
bit_and-high x = bit_ext _ _ λ i.
    rw (bit-bit_and, high_mask_bit, bit-shl 32 (x / 2 ^ 32 % 2 ^ 32) i, bit-mod, bit-shr)
      (ground (arith, same i))
  where
    same : (i : ℕ) → 32 < i + 1 → bit x (i - 32 + 32) ≡ bit x i
    same i h = ap (bit x) (omega arith)

-- The register after a write of its low half, and of its high half.
pub set_low :
    (x v : ℕ)
    → v < 2 ^ 32
    → bit_or (bit_and x 0xffff_ffff_0000_0000) v ≡ x / 2 ^ 32 % 2 ^ 32 * 2 ^ 32 + v
set_low x v h = ap (λ t. bit_or t v) (bit_and-high x) ∙ bit_or-shl 32 (x / 2 ^ 32 % 2 ^ 32) v h

bit_or_comm : (a b : ℕ) → bit_or a b ≡ bit_or b a
bit_or_comm a b = bit_ext _ _ (λ i. simp bit_laws (ground arith))

pub set_high :
    (x v : ℕ)
    → v < 2 ^ 32
    → bit_or (bit_and x 0xffff_ffff) (u64 (v <<< 32)) ≡ v * 2 ^ 32 + x % 2 ^ 32
set_high x v h =
    ap₂ bit_or (bit_and-ones 32 x) (fits v h)
    ∙ bit_or_comm (x % 2 ^ 32) (v * 2 ^ 32)
    ∙ bit_or-shl 32 v (x % 2 ^ 32) (omega arith)
  where
    fits : (v : ℕ) → v < 2 ^ 32 → u64 (v <<< 32) ≡ v * 2 ^ 32
    fits v h = omega arith

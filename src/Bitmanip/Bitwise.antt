-- ===== src/Bitmanip/Bitwise.antt =====
-- The single-bit and the bitwise instructions, bit by bit.
use mpact_riscv.Common.{ℕ, ◌+◌, ◌%◌, ◌^◌, ◌<◌, ◌≡◌, arith, not, ◌&&◌, ◌||◌, xor, ltb, ◌==◌, ap}
use native.Mathlib.Nat.{mod-lt, one-le-pow}
use mpact_riscv.Bits.{bit, bit-bit_and, bit-bit_or, bit-bit_xor, bit-ones, bit-shr}
use mpact_riscv.Words.{IsWord}
use mpact_riscv.Words.Laws.{bit-complement, bit-one_hot, bit-above}
use mpact_riscv.Words.Halves.{bit_and-ones}
use mpact_riscv.Bitmanip.{amount, andn, orn, xnor, bclr, bext, binv, bset}

-- The amount of a shift is the remainder by the width, a power of two.
pub amount_lem : (k b : ℕ) → amount (2 ^ k) b ≡ b % 2 ^ k
amount_lem k b = bit_and-ones k b

pub amount-lt : (k b : ℕ) → amount (2 ^ k) b < 2 ^ k
amount-lt k b = omega (arith, amount_lem k b, mod-lt b {m = 2 ^ k} (one-le-pow k 2 (omega arith)))

-- The logical operations with a complement, and the operations on the bit of `a` that the low bits of `b`
-- number, for words of 2 ^ k bits: each bit of the result.
pub bit-single_bit :
    (k a b i : ℕ)
    → IsWord (2 ^ k) a
    → let w = 2 ^ k in
      let n = b % 2 ^ k in
      (bit (andn w a b) i ≡ (bit a i && not (bit b i)))
      × (bit (orn w a b) i ≡ (bit a i || ltb i w && not (bit b i)))
      × (bit (xnor w a b) i ≡ (ltb i w && not (xor (bit a i) (bit b i))))
      × (bit (bset w a b) i ≡ (i == n || bit a i))
      × (bit (bclr w a b) i ≡ (not (i == n) && bit a i))
      × (bit (binv w a b) i ≡ xor (i == n) (bit a i))
      × (bit (bext w a b) i ≡ (i == 0 && bit a n))
unfolding andn orn xnor bset bclr binv bext
bit-single_bit k a b i word = rw amount_lem (
    simp (bit-bit_and, bit-bit_or, bit-bit_xor, bit-shr, bit-complement, bit-one_hot)
      (ground (
        arith,
        bit-above (2 ^ k) a i word,
        bit-ones 1 i,
        mod-lt b {m = 2 ^ k} (one-le-pow k 2 (omega arith)),
        numbered (b % 2 ^ k),
      )))
  where
    numbered : (n : ℕ) → i ≡ 0 → bit a (i + n) ≡ bit a n
    numbered n e = ap (bit a) (omega arith)

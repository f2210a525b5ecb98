-- ===== src/Bitmanip/Rotate.antt =====
-- Rotations, bit by bit, and back.
use mpact_riscv.Common.{
  ℕ, ◌+◌, ◌-◌, ◌%◌, ◌^◌, ◌<◌, ◌≡◌, ap, ◌∙◌, arith, ◌&&◌, ◌==◌, ltb, if◌then◌else◌, bit_or,
}
use mpact_riscv.Bits.{bit, bit_ext, bit-bit_or, bit-mod, bit-shr, bit-shl}
use mpact_riscv.Words.{IsWord, ◌<<<◌, ◌>>>◌}
use mpact_riscv.Words.Laws.{bit-above, IsWord-of_bits}
use mpact_riscv.Bitmanip.{amount, rol, ror}
use mpact_riscv.Bitmanip.Bitwise.{amount-lt}

-- The two shifts of a rotation to the left by `s`.
bit-shifts_left :
    (w s a i : ℕ)
    → IsWord w a
    → s < w
    → bit (bit_or ((a <<< s) % 2 ^ w) (a >>> (w - s))) i
      ≡ (ltb i w && bit a (if ltb i s then i + (w - s) else i - s))
bit-shifts_left w s a i word small =
    rw (bit-bit_or, bit-mod, bit-shl s a i, bit-shr (w - s) a i)
      (ground (arith, bit-above w a (i + (w - s)) word))

bit-shifts_right :
    (w s a i : ℕ)
    → IsWord w a
    → s < w
    → bit (bit_or (a >>> s) ((a <<< (w - s)) % 2 ^ w)) i
      ≡ (ltb i w && bit a (if ltb i (w - s) then i + s else i - (w - s)))
bit-shifts_right w s a i word small =
    rw (bit-bit_or, bit-mod, bit-shl (w - s) a i, bit-shr s a i)
      (ground (arith, bit-above w a (i + s) word))

-- With the test for no shift.
bit-rotated_left :
    (w s a i : ℕ)
    → IsWord w a
    → s < w
    → bit (if s == 0 then a else bit_or ((a <<< s) % 2 ^ w) (a >>> (w - s))) i
      ≡ (ltb i w && bit a (if ltb i s then i + (w - s) else i - s))
bit-rotated_left w s a i word small =
    ground (arith, bit-shifts_left w s a i word small, bit-above w a i word, unmoved)
  where
    unmoved : s ≡ 0 → bit a (i - s) ≡ bit a i
    unmoved e = ap (bit a) (omega arith)

bit-rotated_right :
    (w s a i : ℕ)
    → IsWord w a
    → s < w
    → bit (if s == 0 then a else bit_or (a >>> s) ((a <<< (w - s)) % 2 ^ w)) i
      ≡ (ltb i w && bit a (if ltb i (w - s) then i + s else i - (w - s)))
bit-rotated_right w s a i word small =
    ground (arith, bit-shifts_right w s a i word small, bit-above w a i word, unmoved)
  where
    unmoved : s ≡ 0 → bit a (i + s) ≡ bit a i
    unmoved e = ap (bit a) (omega arith)

module _ (k : ℕ) where
  -- Bit `i` of a rotation to the left comes from below, around the end; of one to the right, from above.
  pub bit-rol :
      (a b i : ℕ)
      → IsWord (2 ^ k) a
      → let w = 2 ^ k in
        let s = amount w b in
        bit (rol w a b) i ≡ (ltb i w && bit a (if ltb i s then i + (w - s) else i - s))
  unfolding rol
  bit-rol a b i word = bit-rotated_left (2 ^ k) (amount (2 ^ k) b) a i word (amount-lt k b)

  pub bit-ror :
      (a b i : ℕ)
      → IsWord (2 ^ k) a
      → let w = 2 ^ k in
        let s = amount w b in
        bit (ror w a b) i ≡ (ltb i w && bit a (if ltb i (w - s) then i + s else i - (w - s)))
  unfolding ror
  bit-ror a b i word = bit-rotated_right (2 ^ k) (amount (2 ^ k) b) a i word (amount-lt k b)

  pub rol-IsWord : (a b : ℕ) → IsWord (2 ^ k) a → IsWord (2 ^ k) (rol (2 ^ k) a b)
  rol-IsWord a b word = IsWord-of_bits (2 ^ k) _ (λ i above. ground (arith, bit-rol a b i word))

  pub ror-IsWord : (a b : ℕ) → IsWord (2 ^ k) a → IsWord (2 ^ k) (ror (2 ^ k) a b)
  ror-IsWord a b word = IsWord-of_bits (2 ^ k) _ (λ i above. ground (arith, bit-ror a b i word))

  -- A rotation of a word of 2 ^ k bits to the right undoes the rotation to the left by the same amount, and
  -- the other way round.
  pub ror-rol :
      (a b : ℕ)
      → IsWord (2 ^ k) a
      → (ror (2 ^ k) (rol (2 ^ k) a b) b ≡ a) × (rol (2 ^ k) (ror (2 ^ k) a b) b ≡ a)
  ror-rol a b word = (
    bit_ext _ _ λ i.
        let s = amount (2 ^ k) b in
        bit-ror (rol (2 ^ k) a b) b i (rol-IsWord a b word)
        ∙ ground (
          arith,
          bit-rol a b (if ltb i (2 ^ k - s) then i + s else i - (2 ^ k - s)) word,
          amount-lt k b,
          bit-above (2 ^ k) a i word,
        ),
    bit_ext _ _ λ i.
        let s = amount (2 ^ k) b in
        bit-rol (ror (2 ^ k) a b) b i (ror-IsWord a b word)
        ∙ ground (
          arith,
          bit-ror a b (if ltb i s then i + (2 ^ k - s) else i - s) word,
          amount-lt k b,
          bit-above (2 ^ k) a i word,
        ),
  )

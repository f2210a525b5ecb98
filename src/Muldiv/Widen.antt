-- ===== src/Muldiv/Widen.antt =====
-- Signed words, bit by bit.
use mpact_riscv.Common.{
  ℕ, zero, suc, ◌+◌, ◌-◌, ◌*◌, ◌^◌, ◌≤◌, ◌<◌, ◌≡◌, sym, ap, ◌∙◌, arith, true, ◌&&◌, ltb,
  if◌then◌else◌,
}
use native.Mathlib.Nat.{one-le-pow, pow-suc}
use mpact_riscv.Bits.{bit, bit-bit_or, bit-shl, bit-ones}
use mpact_riscv.Words.{IsWord}
use mpact_riscv.Words.Laws.{bit-above, bit_or-shl}
use mpact_riscv.Muldiv.{negative, widen}
use mpact_riscv.Muldiv.High.{pow_add}

-- The top bit of a word that is not less than half of the range.
bit-top : (n x : ℕ) → x < 2 ^ n → bit (1 * 2 ^ n + x) n ≡ true
bit-top n x small =
    ap (λ t. bit t n) (sym (bit_or-shl n 1 x small))
    ∙ rw (bit-bit_or, bit-shl n 1 n, bit-ones 1 (n - n)) (ground arith)

-- A word is negative when its top bit is set.
pub negative_lem : (w x : ℕ) → 0 < w → IsWord w x → negative w x ≡ bit x (w - 1)
negative_lem zero x wide word = absurd (omega arith)
negative_lem (suc n) x wide word =
    let one_less : suc n - 1 ≡ n = omega arith in
    rw one_less (ground (arith, pow-suc 2 n, bit-above n x n, high))
  where
    high : 2 ^ n ≤ x → bit x n ≡ true
    high above =
        ap (λ t. bit t n) (omega arith)
        ∙ bit-top n (x - 2 ^ n) (omega (arith, pow-suc 2 n, above, word))

-- The bits of a signed word that is converted to a greater width: above the top bit they are that bit.
pub bit-widen :
    (w d x i : ℕ)
    → 0 < w
    → IsWord w x
    → bit (widen w (w + d) x) i ≡ (if ltb i w then bit x i else ltb i (w + d) && bit x (w - 1))
bit-widen w d x i wide word =
    let sign = negative_lem w x wide word in ground (arith, sign, negated, bit-above w x i word)
  where
    filled : x + (2 ^ (w + d) - 2 ^ w) ≡ (2 ^ d - 1) * 2 ^ w + x
    filled =
        let one_more : 2 ^ d - 1 + 1 ≡ 2 ^ d = omega (arith, one-le-pow d 2 (omega arith)) in
        omega (arith, pow_add w d, ap (λ (t : ℕ). t * 2 ^ w) one_more)

    negated : bit (x + (2 ^ (w + d) - 2 ^ w)) i ≡ (if ltb i w then bit x i else ltb i (w + d))
    negated =
        ap (λ t. bit t i) (filled ∙ sym (bit_or-shl w (2 ^ d - 1) x word))
        ∙ rw (bit-bit_or, bit-shl w (2 ^ d - 1) i, bit-ones d (i - w))
            (ground (arith, bit-above w x i word))

-- ===== src/Vector/Fixed/Carry.antt =====
-- The sums with a carry and the differences with a borrow, with the carry and the borrow that they give.
use native.Mathlib.Nat.{mod-eq_of_lt, one-le-pow, div-eq_of_lt, add-mul-div_right}
use mpact_riscv.Common.{
  ℕ, ◌+◌, ◌-◌, ◌*◌, ◌/◌, ◌%◌, ◌^◌, ◌≤◌, ◌<◌, ◌≡◌, ap, ◌∙◌, arith, Bool, true, false, ◌&&◌, ltb, leb,
  if◌then◌else◌, bit_and, Bool-cases, inl, inr,
}
use mpact_riscv.Words.{IsWord, of_bool}
use mpact_riscv.Words.Halves.{bit_and-ones}
use mpact_riscv.Muldiv.Signed.{mod_unique}
use mpact_riscv.Vector.Fixed.{madc, madc64, msbc, msbc64, adc, sbc}

of_bool-le : (c : Bool) → of_bool c ≤ 1
of_bool-le true = omega arith
of_bool-le false = omega arith

adc-madc :
    (w a b : ℕ) (c : Bool)
    → IsWord w a
    → IsWord w b
    → adc w a b c + (if madc w a b c then 2 ^ w else 0) ≡ a + b + of_bool c
unfolding adc madc
adc-madc w a b c a_word b_word =
    let bound = of_bool-le c in
    let total = a + b + of_bool c in
    elim (Bool-cases (ltb total (2 ^ w))) [
      | inl small ↦
          let below : total < 2 ^ w = ground (arith, small) in
          rw (mod-eq_of_lt below, div-eq_of_lt below) (omega arith)
      | inr big ↦
          let rest = total - 2 ^ w in
          let split : total ≡ rest + 1 * 2 ^ w = ground (arith, big) in
          let below : rest < 2 ^ w = omega (arith, a_word, b_word, bound, split) in
          let low : total % 2 ^ w ≡ rest =
            mod_unique (2 ^ w) total rest 0 1 (omega (arith, split)) below in
          let high : total / 2 ^ w ≡ 1 =
            ap (λ t. t / 2 ^ w) split
            ∙ add-mul-div_right rest 1 (one-le-pow w 2 (omega arith))
            ∙ omega (arith, div-eq_of_lt below) in
          rw (low, high) (omega (arith, split))
    ]

sbc-msbc :
    (w a b : ℕ) (c : Bool)
    → IsWord w a
    → IsWord w b
    → 0 < w
    → sbc w a b c + b + of_bool c ≡ a + (if msbc a b c then 2 ^ w else 0)
unfolding sbc msbc
sbc-msbc w a b c a_word b_word wide =
    let bound = of_bool-le c in
    let x = a + (2 ^ w - b) + (2 ^ w - of_bool c) in
    let least : 1 ≤ 2 ^ w = one-le-pow w 2 (omega arith) in
    elim (Bool-cases (ltb a (of_bool c + b))) [
      | inl borrows ↦
          let less : a < of_bool c + b = ground (arith, borrows) in
          let low : x % 2 ^ w ≡ a + 2 ^ w - b - of_bool c =
            mod_unique (2 ^ w) x _ 0 1 (omega (arith, b_word, bound, least, less))
              (omega (arith, less, b_word, bound, least)) in
          rw (borrows, low) (omega (arith, b_word, bound, least, less))
      | inr fits ↦
          let more : of_bool c + b ≤ a = ground (arith, fits) in
          let low : x % 2 ^ w ≡ a - b - of_bool c =
            mod_unique (2 ^ w) x _ 0 2 (omega (arith, b_word, bound, least, more))
              (omega (arith, a_word, more)) in
          rw (fits, low) (omega (arith, more))
    ]

msbc64-msbc : (a b : ℕ) (c : Bool) → msbc64 a b c ≡ msbc a b c
unfolding msbc64 msbc
msbc64-msbc a b true = ground arith
msbc64-msbc a b false = ground arith

madc64-madc :
    (a b : ℕ)
    → IsWord 64 a
    → IsWord 64 b
    → madc64 a b false ≡ (madc 64 a b false && leb (2 ^ 56) (a / 2 ^ 8 + b / 2 ^ 8))
unfolding madc64 madc
madc64-madc a b a_word b_word =
    let low = bit_and-ones 8 (bit_and b ((0xff + a) % 2 ^ 64)) in
    let no_carry : bit_and (bit_and b ((0xff + a) % 2 ^ 64)) 0xff / 2 ^ 8 ≡ 0 =
      omega (arith, low) in
    ground (arith, no_carry)

-- For words of `w` bits, the sum and its carry make up the sum of the numbers and the carry, and the difference
-- and its borrow make up the difference; the borrow of 64 bits is the general one. The carry of 64 bits,
-- without one that comes in, is lost where it comes out of the low byte and the upper bytes give none.
pub carries :
    (w a b : ℕ) (c : Bool) (p q : ℕ)
    → 0 < w
    → IsWord w a
    → IsWord w b
    → IsWord 64 p
    → IsWord 64 q
    → (adc w a b c + (if madc w a b c then 2 ^ w else 0) ≡ a + b + of_bool c)
      × (sbc w a b c + b + of_bool c ≡ a + (if msbc a b c then 2 ^ w else 0))
      × (msbc64 a b c ≡ msbc a b c)
      × (madc64 p q false ≡ (madc 64 p q false && leb (2 ^ 56) (p / 2 ^ 8 + q / 2 ^ 8)))
carries w a b c p q wide a_word b_word p_word q_word = (
  adc-madc w a b c a_word b_word,
  sbc-msbc w a b c a_word b_word wide,
  msbc64-msbc a b c,
  madc64-madc p q p_word q_word,
)

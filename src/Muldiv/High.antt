-- ===== src/Muldiv/High.antt =====
-- The high halves of products.
use mpact_riscv.Common.{ℕ, zero, suc, ◌+◌, ◌-◌, ◌*◌, ◌/◌, ◌%◌, ◌^◌, ◌<◌, ◌≡◌, arith, ap, ap₂, ◌∙◌}
use native.Mathlib.Nat.{mod-add-div', mod-eq_of_lt, pow-suc, mul-le-mul, mod-lt}
use mpact_riscv.Words.{IsWord}
use mpact_riscv.Words.Halves.{bit_and-ones}
use mpact_riscv.Muldiv.{mul, mulh, mulhu, mulhsu32, mulhsu64, widen}
use mpact_riscv.Muldiv.Signed.{mod_same}

-- The low half of a number of two words and its high half.
mul_lem : (w a b : ℕ) → mul w a b ≡ a * b % 2 ^ (w + w) % 2 ^ w
unfolding mul
mul_lem w a b = bit_and-ones w (a * b % 2 ^ (w + w))

halves_of : (w x : ℕ) → x / 2 ^ w * 2 ^ w + x % 2 ^ w ≡ x
halves_of w x = omega (arith, mod-add-div' x (2 ^ w))

pub pow_add : (v w : ℕ) → 2 ^ (v + w) ≡ 2 ^ v * 2 ^ w
pow_add zero w = let same : 0 + w ≡ w = omega arith in ap (λ t. 2 ^ t) same ∙ omega arith
pow_add (suc v) w =
    let shifted : suc v + w ≡ suc (v + w) = omega arith in
    let doubled : 2 ^ suc v * 2 ^ w ≡ 2 ^ v * 2 ^ w * 2 =
      omega (arith, ap (λ (t : ℕ). t * 2 ^ w) (pow-suc 2 v)) in
    ap (λ t. 2 ^ t) shifted ∙ omega (arith, pow-suc 2 (v + w), pow_add v w, doubled)

product_fits : (w a b : ℕ) → IsWord w a → IsWord w b → a * b < 2 ^ (w + w)
product_fits w a b a_fits b_fits =
    omega (arith, pow_add w w, mul-le-mul {n₁ = suc a} {m₁ = suc b} a_fits b_fits)

-- The product of absolute values with the sign put back is the product.
negated_product : (n a b : ℕ) → a < n → (n - (n - a) % n * b % n) % n ≡ a * b % n
negated_product n a b fits =
    let c = n - a in
    let t = c % n * b in
    let c_is : a + c ≡ n = omega arith in
    let low = mod-lt t {m = n} (omega arith) in
    mod_same n (n - t % n) (a * b) b (1 + t / n + c / n * b) (
      omega (
        arith,
        ap (λ (x : ℕ). x * b) (mod-add-div' c n),
        ap (λ (x : ℕ). x * b) c_is,
        mod-add-div' t n,
        low,
      ))

-- MMulhsu of RV64 returns the high half of the product, though it multiplies absolute values.
mulhsu64_lem : (a b : ℕ) → a < 2 ^ 128 → mulhsu64 a b ≡ a * b % 2 ^ 128 / 2 ^ 64
unfolding mulhsu64
mulhsu64_lem a b fits = ground (arith, negated_product (2 ^ 128) a b fits)

-- Each instruction for a high half returns, with the one for the low half of the same operands, the two
-- halves of their product: of two signed words, as a word of twice the width; of two unsigned words, as a
-- number; and of a signed word, already widened, with an unsigned one, for RV32 and for RV64.
pub product_halves :
    (w a b a_wide : ℕ)
    → IsWord w a
    → IsWord w b
    → IsWord 128 a_wide
    → (mulh w a b * 2 ^ w + mul w (widen w (w + w) a) (widen w (w + w) b)
        ≡ widen w (w + w) a * widen w (w + w) b % 2 ^ (w + w))
      × (mulhu w a b * 2 ^ w + mul w a b ≡ a * b)
      × (mulhsu32 a_wide b * 2 ^ 32 + mul 32 a_wide b ≡ a_wide * b % 2 ^ 64)
      × (mulhsu64 a_wide b * 2 ^ 64 + mul 64 a_wide b ≡ a_wide * b % 2 ^ 128)
unfolding mulh mulhu mulhsu32
product_halves w a b a_wide a_fits b_fits wide_fits = (
  ap (λ t. mulh w a b * 2 ^ w + t) (mul_lem w (widen w (w + w) a) (widen w (w + w) b))
      ∙ halves_of w (widen w (w + w) a * widen w (w + w) b % 2 ^ (w + w)),
  ap (λ t. mulhu w a b * 2 ^ w + t) (mul_lem w a b)
      ∙ halves_of w (a * b % 2 ^ (w + w))
      ∙ mod-eq_of_lt (product_fits w a b a_fits b_fits),
  ap (λ t. mulhsu32 a_wide b * 2 ^ 32 + t) (mul_lem 32 a_wide b)
      ∙ halves_of 32 (a_wide * b % 2 ^ 64),
  ap₂ (λ s t. s * 2 ^ 64 + t) (mulhsu64_lem a_wide b wide_fits) (mul_lem 64 a_wide b)
      ∙ halves_of 64 (a_wide * b % 2 ^ 128),
)

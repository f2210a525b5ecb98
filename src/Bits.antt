-- ===== src/Bits.antt =====
-- Bits of native numbers: the test of one bit, and the laws of `bit_and`, `bit_or`, `bit_xor` and the
-- shifts in terms of it. Two numbers with the same bits are equal.
pub mod Step
use Step.{bit_and_step, bit_or_step, bit_xor_step}
use mathlib.Core.WellFounded
use native.Mathlib.Nat.{
  pow-suc, pow-succ', one-le-pow, div-one, div-div-eq-div-mul, mod-add-div', mod-one, add-zero,
}
use mpact_riscv.Common.{
  ℕ, zero, suc, ◌+◌, ◌-◌, ◌*◌, ◌/◌, ◌%◌, ◌^◌, ◌≤◌, ◌<◌, ◌≡◌, refl, sym, ap, ◌∙◌, arith, lt_wf, Bool,
  true, false, not, ◌&&◌, ◌||◌, xor, ltb, leb, ◌==◌, min, max, bit_and, bit_or, bit_xor,
}

-- Bit `i` of `n`.
unfoldable pub bit : ℕ → ℕ → Bool
bit n zero = n % 2 == 1
bit n (suc i) = bit (n / 2) i

pub bit-bit_and : (a b i : ℕ) → bit (bit_and a b) i ≡ (bit a i && bit b i)
unfolding bit
bit-bit_and a b zero = ground (arith, bit_and_step a b)
bit-bit_and a b (suc i) =
    let half : bit_and a b / 2 ≡ bit_and (a / 2) (b / 2) = omega (arith, bit_and_step a b) in
    rw half (bit-bit_and (a / 2) (b / 2) i)

pub bit-bit_or : (a b i : ℕ) → bit (bit_or a b) i ≡ (bit a i || bit b i)
unfolding bit
bit-bit_or a b zero = ground (arith, bit_or_step a b)
bit-bit_or a b (suc i) =
    let half : bit_or a b / 2 ≡ bit_or (a / 2) (b / 2) = omega (arith, bit_or_step a b) in
    rw half (bit-bit_or (a / 2) (b / 2) i)

pub bit-bit_xor : (a b i : ℕ) → bit (bit_xor a b) i ≡ xor (bit a i) (bit b i)
unfolding bit
bit-bit_xor a b zero = ground (arith, bit_xor_step a b)
bit-bit_xor a b (suc i) =
    let half : bit_xor a b / 2 ≡ bit_xor (a / 2) (b / 2) = omega (arith, bit_xor_step a b) in
    rw half (bit-bit_xor (a / 2) (b / 2) i)

pub bit-zero : (i : ℕ) → bit 0 i ≡ false
unfolding bit
bit-zero zero = refl
bit-zero (suc i) = bit-zero i

div-pow_suc : (k n : ℕ) → n / 2 ^ suc k ≡ n / 2 / 2 ^ k
div-pow_suc k n = rw (pow-succ' 2 k) (sym (div-div-eq-div-mul n 2 (2 ^ k)))

-- A shift to the right moves the bits down.
pub bit-shr : (k n i : ℕ) → bit (n / 2 ^ k) i ≡ bit n (i + k)
unfolding bit
bit-shr zero n i = rw (div-one, add-zero)
bit-shr (suc k) n i =
    let halved : n / 2 ^ suc k ≡ n / 2 / 2 ^ k = div-pow_suc k n in
    let moved : i + suc k ≡ suc (i + k) = omega arith in rw (halved, moved) (bit-shr k (n / 2) i)

double_shl : (n k : ℕ) → n * 2 ^ suc k ≡ n * 2 ^ k * 2
double_shl n k = omega (arith, ap (λ (t : ℕ). n * t) (pow-suc 2 k))

-- A shift to the left moves them up.
pub bit-shl : (k n i : ℕ) → bit (n * 2 ^ k) i ≡ (leb k i && bit n (i - k))
unfolding bit
bit-shl zero n i =
    let same : n * 2 ^ 0 ≡ n = omega arith in
    let here : i - 0 ≡ i = omega arith in rw (same, here) (ground arith)
bit-shl (suc k) n zero = ground (arith, double_shl n k)
bit-shl (suc k) n (suc i) =
    let halved : n * 2 ^ suc k / 2 ≡ n * 2 ^ k = omega (arith, double_shl n k) in
    let same : suc i - suc k ≡ i - k = omega arith in
    rw halved (bit-shl k n i ∙ ground (arith, same))

half-mod : (k n : ℕ) → n % 2 ^ suc k / 2 ≡ n / 2 % 2 ^ k
half-mod k n = omega (
  arith,
  mod-add-div' (n / 2) (2 ^ k),
  mod-add-div' n (2 ^ suc k),
  ap (λ (t : ℕ). t * 2 ^ suc k) (div-pow_suc k n),
  ap (λ (t : ℕ). n / 2 / 2 ^ k * t) (pow-suc 2 k),
)

low_of_mod : (k n : ℕ) → n % 2 ^ suc k % 2 ≡ n % 2
low_of_mod k n =
    omega (arith, mod-add-div' n (2 ^ suc k), ap (λ (t : ℕ). n / 2 ^ suc k * t) (pow-suc 2 k))

-- The low `k` bits.
pub bit-mod : (k n i : ℕ) → bit (n % 2 ^ k) i ≡ (ltb i k && bit n i)
unfolding bit
bit-mod zero n i = rw (mod-one n, bit-zero i) (ground arith)
bit-mod (suc k) n zero = ground (arith, low_of_mod k n)
bit-mod (suc k) n (suc i) = rw (half-mod k n) (bit-mod k (n / 2) i ∙ ground arith)

-- A mask of `k` ones.
pub bit-ones : (k i : ℕ) → bit (2 ^ k - 1) i ≡ ltb i k
unfolding bit
bit-ones zero i = rw (bit-zero i) (ground arith)
bit-ones (suc k) zero = ground (arith, one-le-pow k 2, pow-suc 2 k)
bit-ones (suc k) (suc i) =
    let halved : (2 ^ suc k - 1) / 2 ≡ 2 ^ k - 1 = omega (arith, one-le-pow k 2, pow-suc 2 k) in
    rw halved (bit-ones k i ∙ ground arith)

bit_ext_fuel : (n a b : ℕ) → a ≤ n → b ≤ n → ((i : ℕ) → bit a i ≡ bit b i) → a ≡ b
unfolding bit
bit_ext_fuel zero a b p q h = omega arith
bit_ext_fuel (suc n) a b p q h =
    let low : a % 2 ≡ b % 2 = ground (arith, h 0) in
    let high : a / 2 ≡ b / 2 =
      bit_ext_fuel n (a / 2) (b / 2) (omega arith) (omega arith) (λ i. h (suc i)) in
    omega arith

-- Numbers with the same bits are equal.
pub bit_ext : (a b : ℕ) → ((i : ℕ) → bit a i ≡ bit b i) → a ≡ b
bit_ext a b h = bit_ext_fuel (a + b) a b (omega arith) (omega arith) h

pub ruleset bit_laws =
    (bit-bit_and, bit-bit_or, bit-bit_xor, bit-zero, bit-shr, bit-shl, bit-mod, bit-ones)

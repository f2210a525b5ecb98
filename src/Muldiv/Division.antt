-- ===== src/Muldiv/Division.antt =====
-- Division and remainder, signed and unsigned.
use mpact_riscv.Common.{
  ℕ, zero, suc, ◌+◌, ◌-◌, ◌*◌, ◌/◌, ◌%◌, ◌^◌, ◌<◌, ◌≤◌, ◌≡◌, ◌≢◌, ◌⊎◌, inl, inr, refl, arith, ap,
  sym, ◌∙◌, true, false, Bool, Bool-cases, xor, ◌&&◌, ◌==◌, if◌then◌else◌,
}
use native.Mathlib.Nat.{
  mod-add-div', mod-lt, div-le_self, mod-eq_of_lt, mod_self, pow-suc, one-le-pow,
}
use native.Mathlib.Numerals.{unary_clauses}
use mpact_riscv.Words.{IsWord}
use mpact_riscv.Muldiv.{
  div, divu, rem, remu, divw, divuw, remw, remuw, quotient, remainder, magnitude, negative, negate,
  widen, least,
}
use mpact_riscv.Muldiv.Signed.{mod_parts, mod_unique, plus_minus, minus_plus, minus_minus}

-- The word of a sign and an absolute value, where `n` is the number of words.
abbrev signed : ℕ → Bool → ℕ → ℕ
signed n minus m = if minus then n - m else m

module _ (n a b : ℕ) (b_positive : 0 < b) (b_fits : b < n) (a_fits : a < n) where
  abbrev q : ℕ
  q = a / b

  abbrev r : ℕ
  r = a % b

  whole : a ≡ q * b + r
  whole = omega (arith, mod-add-div' a b)

  q_fits : q ≤ a
  q_fits = div-le_self a b

  r_fits : r < b
  r_fits = mod-lt a b_positive

  -- The division of absolute values, with the signs of the quotient and of the remainder.
  signed_division :
      (a_minus b_minus : Bool)
      → signed n a_minus a < n
      → ((if xor a_minus b_minus then (n - q) % n else q) * signed n b_minus b
            + (if a_minus then (n - r) % n else r))
          % n
        ≡ signed n a_minus a
  signed_division false false small = ap (λ t. t % n) (sym whole) ∙ mod-eq_of_lt small
  signed_division false true small =
      ap (λ t. ((n - q) % n * (n - b) + t) % n) (sym (mod-eq_of_lt (omega (arith, r_fits))))
      ∙ mod_parts n (n - q) (n - b) r
      ∙ plus_minus n q (n - q) b (n - b) r (n - r) a (n - a) (omega (arith, q_fits)) (omega arith)
          (omega (arith, r_fits)) (omega arith) whole small
  signed_division true false small =
      mod_parts n (n - q) b (n - r)
      ∙ minus_plus n q (n - q) b (n - b) r (n - r) a (n - a) (omega (arith, q_fits)) (omega arith)
          (omega (arith, r_fits)) (omega arith) whole small
  signed_division true true small =
      ap (λ t. (t * (n - b) + (n - r) % n) % n) (sym (mod-eq_of_lt (omega (arith, q_fits))))
      ∙ mod_parts n q (n - b) (n - r)
      ∙ minus_minus n q (n - q) b (n - b) r (n - r) a (n - a) (omega (arith, q_fits)) (omega arith)
          (omega (arith, r_fits)) (omega arith) whole small

halves : (w : ℕ) → 0 < w → 2 ^ w ≡ 2 ^ (w - 1) + 2 ^ (w - 1)
halves zero h = omega arith
halves (suc k) h =
    let same : 2 ^ (suc k - 1) ≡ 2 ^ k = ap (λ t. 2 ^ t) (omega arith) in
    omega (arith, pow-suc 2 k, same)

-- A word is the one of its sign and its absolute value, which is at most a half.
signed-magnitude :
    (w x : ℕ)
    → 0 < w
    → IsWord w x
    → (signed (2 ^ w) (negative w x) (magnitude w x) ≡ x)
      × (magnitude w x < 2 ^ w)
      × (x ≢ 0 → 0 < magnitude w x)
signed-magnitude w x wide fits = ground (arith, halves w wide, one-le-pow (w - 1) 2 (omega arith))

-- The division of words.
quotient-remainder :
    (w a b : ℕ)
    → 0 < w
    → IsWord w a
    → IsWord w b
    → b ≢ 0
    → (quotient w a b * b + remainder w a b) % 2 ^ w ≡ a
quotient-remainder w a b wide a_fits b_fits divides =
    let (a_is, a_low, _) = signed-magnitude w a wide a_fits in
    let (b_is, b_low, b_some) = signed-magnitude w b wide b_fits in
    ap (λ t. (quotient w a b * t + remainder w a b) % 2 ^ w) (sym b_is)
    ∙ signed_division (2 ^ w) (magnitude w a) (magnitude w b) (b_some divides) b_low a_low
        (negative w a) (negative w b) (omega (arith, a_is))
    ∙ a_is

negate_lem : (w x : ℕ) → x < 2 ^ w → negate w x ≡ (if x == 0 then 0 else 2 ^ w - x)
negate_lem w zero h = simp unary_clauses (mod_self (2 ^ w))
negate_lem w (suc x) h =
    let e : (2 ^ w - suc x) % 2 ^ w ≡ 2 ^ w - suc x = mod-eq_of_lt (omega arith) in
    ground (arith, e)

-- A number below a half, with a sign.
signed_small :
    (w x : ℕ) (minus : Bool)
    → 0 < w
    → x < 2 ^ (w - 1)
    → let y = if minus then negate w x else x in
      (magnitude w y ≡ x) × ((y ≡ 0) ⊎ (negative w y ≡ minus))
signed_small w x false wide low = ground (arith, halves w wide)
signed_small w x true wide low =
    let fits : x < 2 ^ w = omega (arith, halves w wide) in
    ground (arith, halves w wide, negate_lem w x fits)

remainder_lem :
    (w a b : ℕ)
    → 0 < w
    → IsWord w b
    → b ≢ 0
    → (magnitude w (remainder w a b) < magnitude w b)
      × ((remainder w a b ≡ 0) ⊎ (negative w (remainder w a b) ≡ negative w a))
remainder_lem w a b wide b_fits divides =
    let (b_is, b_low, b_some) = signed-magnitude w b wide b_fits in
    let low : magnitude w b ≤ 2 ^ (w - 1) = ground (arith, halves w wide) in
    let r_low = mod-lt (magnitude w a) (b_some divides) in
    let (same, sign) =
      signed_small w (magnitude w a % magnitude w b) (negative w a) wide
        (omega (arith, low, r_low)) in
    (omega (arith, same, r_low), sign)

-- The least word divided by -1 is itself, since its opposite is no word.
overflow : (w b : ℕ) → 0 < w → b + 1 ≡ 2 ^ w → (least w * b + 0) % 2 ^ w ≡ least w
overflow w b wide last =
    let positive : 0 < least w = one-le-pow (w - 1) 2 (omega arith) in
    let less : least w - 1 + 1 ≡ least w = omega arith in
    mod_unique (2 ^ w) _ (least w) 0 (least w - 1)
      (omega
        (arith, halves w wide, ap (λ (t : ℕ). least w * t) last, ap (λ (t : ℕ). t * 2 ^ w) less))
      (omega (arith, halves w wide, positive))

-- Whatever two words are divided, the quotient times the divisor plus the remainder is the dividend. Unless
-- the divisor is 0, the remainder has a smaller absolute value than the divisor; and it is 0 or has the
-- sign of the dividend.
pub div-rem :
    (w a b : ℕ)
    → 0 < w
    → IsWord w a
    → IsWord w b
    → ((div w a b * b + rem w a b) % 2 ^ w ≡ a)
      × ((b ≡ 0) ⊎ (magnitude w (rem w a b) < magnitude w b))
      × ((rem w a b ≡ 0) ⊎ (negative w (rem w a b) ≡ negative w a))
unfolding div rem
div-rem w a b wide a_fits b_fits = elim (Bool-cases (b == 0)) [
  | inl none ↦ ground (arith, mod-eq_of_lt a_fits)
  | inr more ↦ elim (Bool-cases (b == 2 ^ w - 1 && a == least w)) [
    | inl over ↦ ground (arith, overflow w b wide, halves w wide, one-le-pow (w - 1) 2)
    | inr plain ↦
        let divides : b ≢ 0 = ground arith in
        ground (
          arith,
          quotient-remainder w a b wide a_fits b_fits divides,
          remainder_lem w a b wide b_fits divides,
        )
  ]
]

-- The divisions of RV64 on low halves, signed and unsigned, return the results of the 32-bit divisions,
-- with their signs extended, also for a divisor of 0 and for the least word divided by -1.
pub narrow_division :
    (a b : ℕ)
    → (divw a b ≡ widen 32 64 (div 32 a b))
      × (remw a b ≡ widen 32 64 (rem 32 a b))
      × (divuw a b ≡ widen 32 64 (divu 32 a b))
      × (remuw a b ≡ widen 32 64 (remu 32 a b))
unfolding div rem divu remu divw remw divuw remuw
narrow_division a b = elim (Bool-cases (b == 0)) [
  | inl none ↦ ground arith
  | inr more ↦ elim (Bool-cases (b == 2 ^ 32 - 1 && a == least 32)) [
    | inl over ↦ ground arith
    | inr plain ↦ rw (more, plain) (refl, refl, refl, refl)
  ]
]

-- ===== src/Convert/Saturation.antt =====
-- The limits of the integer types.
use mpact_riscv.Common.{
  ℕ, suc, ◌+◌, ◌-◌, ◌%◌, ◌^◌, ◌≤◌, ◌<◌, ◌≡◌, ap, arith, Bool, ◌&&◌, ◌==◌, ◌/=◌, ltb, leb,
  if◌then◌else◌,
}
use native.Mathlib.Nat.{mod-eq_of_lt, mod_self, pow-suc, pow-le-pow_right, one-le-pow}
use mpact_riscv.Convert.{IntType, k_max, k_min, k_min64, k_invalid_op, saturate}

-- A type of at most 64 bits.
pub record IsIntType (t : IntType) : Type 0 where
  pub some_bits : 0 < t.width
  pub fits : t.width ≤ 64

-- Whether the integer of a magnitude is one of the type; its word; and the nearest word of the type to an
-- integer that is not.
abbrev pub is_value : IntType → Bool → ℕ → Bool
is_value t negative n =
    if t.is_signed
    then (if negative then leb n (2 ^ (t.width - 1)) else ltb n (2 ^ (t.width - 1)))
    else (if negative then n == 0 else ltb n (2 ^ t.width))

abbrev pub word : IntType → Bool → ℕ → ℕ
word t negative n = if negative && n /= 0 then 2 ^ t.width - n else n

abbrev pub limit : IntType → Bool → ℕ
limit t negative = if negative then k_min t else k_max t

-- A magnitude with its flags, converted to the type.
abbrev pub converted : IntType → Bool → ℕ → ℕ → ℕ × ℕ
converted t negative n flags =
    if is_value t negative n then (word t negative n, flags) else (limit t negative, k_invalid_op)

module _ (t : IntType) (ok : IsIntType t) where
  range_doubled : 2 ^ (t.width - 1) + 2 ^ (t.width - 1) ≡ 2 ^ t.width
  range_doubled =
      let shifted : t.width ≡ suc (t.width - 1) = omega (arith, ok.some_bits) in
      omega (arith, pow-suc 2 (t.width - 1), ap (λ k. 2 ^ k) shifted)

  range_fits : 2 ^ t.width ≤ 2 ^ 64
  range_fits = pow-le-pow_right {n = 2} (omega arith) ok.fits

  some_range : 0 < 2 ^ (t.width - 1)
  some_range = one-le-pow (t.width - 1) 2 (omega arith)

  pub saturate-converted :
      (negative : Bool) (n flags : ℕ)
      → n < 2 ^ 64
      → saturate t negative (n, flags) ≡ converted t negative n flags
  unfolding saturate
  saturate-converted negative n flags word64 = ground (
    arith,
    word64,
    range_doubled,
    range_fits,
    some_range,
    small,
    minus_small,
    mod_self (2 ^ t.width),
  )
    where
      small : n < 2 ^ t.width → n % 2 ^ t.width ≡ n
      small h = mod-eq_of_lt h

      minus_small : 0 < n → n < 2 ^ t.width → (2 ^ t.width - n) % 2 ^ t.width ≡ 2 ^ t.width - n
      minus_small some_n h = mod-eq_of_lt (omega (arith, some_n, h))

  -- A value that lost a bit in the loop is out of the range.
  pub saturate-lost :
      (negative : Bool) (n flags : ℕ)
      → 2 ^ 64 ≤ n
      → saturate t negative (if negative then k_min64 t else k_max t, k_invalid_op)
        ≡ converted t negative n flags
  unfolding saturate
  saturate-lost negative n flags big =
      ground (arith, big, range_doubled, range_fits, some_range, mod_self (2 ^ t.width))

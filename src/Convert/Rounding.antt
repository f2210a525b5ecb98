-- ===== src/Convert/Rounding.antt =====
-- The rounding of a quotient, and that the rounding cases compute it.
use mpact_riscv.Common.{
  ℕ, zero, suc, ◌+◌, ◌*◌, ◌/◌, ◌%◌, ◌^◌, ◌≤◌, ◌<◌, ◌≡◌, refl, sym, ap, ap₂, ◌∙◌, arith, Bool, true,
  false, ◌&&◌, ◌==◌, ◌/=◌, not, ltb, if◌then◌else◌, some,
}
use mathlib.Core.Option
use native.Mathlib.Nat.{mod-lt, mod-add-div', div-div-eq-div-mul}
use mpact_riscv.Muldiv.Signed.{mod_unique}
use mpact_riscv.Words.Halves.{bit_and-ones}
use mpact_riscv.Convert.{
  Parts, round, nearest_even, away_if, take_fraction, k_inexact, k_round_to_nearest,
  k_round_towards_zero, k_round_down, k_round_up, k_round_to_nearest_ties_to_max,
}

abbrev rounded_quotient : ℕ → Bool → ℕ → ℕ → ℕ → ℕ
rounded_quotient rm negative q r d =
    if rm == k_round_to_nearest
    then (if ltb (2 * r) d then q else if 2 * r == d then q + q % 2 else q + 1)
    else if rm == k_round_towards_zero
    then q
    else if rm == k_round_down
    then (if negative && r /= 0 then q + 1 else q)
    else if rm == k_round_up
    then (if not negative && r /= 0 then q + 1 else q)
    else (if ltb (2 * r) d then q else q + 1)

-- The five roundings of the quotient of `m` by `d`, of a number with the sign `negative`: to the nearest
-- integer, and to the even one between two, towards zero, down, up, and to the nearest integer, and away
-- from zero between two.
abbrev pub rounded : ℕ → Bool → ℕ → ℕ → ℕ
rounded rm negative m d = rounded_quotient rm negative (m / d) (m % d) d

-- The flags of the conversion: none for a quotient without a remainder, and none for a tie that goes away
-- from zero.
abbrev raised_remainder : ℕ → ℕ → ℕ → ℕ
raised_remainder rm r d =
    if r == 0
    then 0
    else if rm == k_round_to_nearest_ties_to_max && 2 * r == d
    then 0
    else k_inexact

abbrev pub raised : ℕ → ℕ → ℕ → ℕ
raised rm m d = raised_remainder rm (m % d) d

-- The quotient by twice a number, and its remainder.
half_quotient : (m h : ℕ) → m / (h * 2) ≡ m / h / 2
half_quotient m h = sym (div-div-eq-div-mul m h 2)

half_part : (b h l : ℕ) → l < h → b % 2 * h + l < h * 2
half_part b h l small = omega (arith, small, scaled (b % 2) (mod-lt b {m = 2} (omega arith)))
  where
    scaled : (t : ℕ) → t < 2 → t * h ≤ h
    scaled zero fits = omega arith
    scaled (suc zero) fits = omega arith
    scaled (suc (suc t)) fits = absurd (omega (arith, fits))

half_remainder : (m h : ℕ) → 0 < h → m % (h * 2) ≡ m / h % 2 * h + m % h
half_remainder m h some_h =
    let b = m / h in
    mod_unique (h * 2) m (b % 2 * h + m % h) 0 (b / 2)
      (omega (arith, mod-add-div' m h, ap (λ (t : ℕ). t * h) (mod-add-div' b 2)))
      (half_part b h (m % h) (mod-lt m some_h))

-- The rounding cases, where `l` is what the lost bits hold, below `h`, and `r` the whole remainder.
module _ (p : Parts) (l h r : ℕ) (small : l < h) (lost : p.compressed ≡ (l /= 0))
    (no_wrap : p.base + 2 < 2 ^ 64) (whole : r ≡ p.base % 2 * h + l) where
  even_remainder : p.base % 2 ≡ 0 → r ≡ l
  even_remainder e = omega (arith, whole, ap (λ (t : ℕ). t * h) e)

  odd_remainder : p.base % 2 ≡ 1 → r ≡ h + l
  odd_remainder e = omega (arith, whole, ap (λ (t : ℕ). t * h) e)

  nearest_even_lem : (nearest_even p).base / 2 ≡ (
      let q = p.base / 2 in
      if ltb (2 * r) (h * 2) then q else if 2 * r == h * 2 then q + q % 2 else q + 1)
  unfolding nearest_even
  nearest_even_lem = ground (
    arith,
    lost,
    small,
    no_wrap,
    even_remainder,
    odd_remainder,
    bit_and-ones 1 p.base,
    bit_and-ones 2 p.base,
  )

  away_lem :
      (side : Bool)
      → (away_if side 2 p).base / 2 ≡ (let q = p.base / 2 in if side && r /= 0 then q + 1 else q)
  unfolding away_if
  away_lem side =
      ground (arith, lost, small, no_wrap, even_remainder, odd_remainder, bit_and-ones 1 p.base)

  half_away_lem :
      (away_if true 1 p).base / 2 ≡ (let q = p.base / 2 in if ltb (2 * r) (h * 2) then q else q + 1)
  unfolding away_if
  half_away_lem =
      ground (arith, lost, small, no_wrap, even_remainder, odd_remainder, bit_and-ones 1 p.base)

  -- The flags, where the parts had none unless bits were lost.
  module _ (flagged : p.compressed ≡ false → p.flags ≡ 0) where
    kept_flags : (take_fraction p).1 ≡ (if r == 0 then 0 else k_inexact)
    unfolding take_fraction
    kept_flags =
        ground (arith, flagged, lost, small, even_remainder, odd_remainder, bit_and-ones 1 p.base)

    nearest_flags : (take_fraction (nearest_even p)).1 ≡ (if r == 0 then 0 else k_inexact)
    unfolding take_fraction nearest_even
    nearest_flags = ground (
      arith,
      flagged,
      lost,
      small,
      no_wrap,
      even_remainder,
      odd_remainder,
      bit_and-ones 1 p.base,
      bit_and-ones 2 p.base,
      bit_and-ones 1 (p.base + 1),
    )

    away_flags :
        (side : Bool) → (take_fraction (away_if side 2 p)).1 ≡ (if r == 0 then 0 else k_inexact)
    unfolding take_fraction away_if
    away_flags side = ground (
      arith,
      flagged,
      lost,
      small,
      no_wrap,
      even_remainder,
      odd_remainder,
      bit_and-ones 1 p.base,
      bit_and-ones 1 (p.base + 2),
    )

    half_away_flags :
        (take_fraction (away_if true 1 p)).1
        ≡ (if r == 0 then 0 else if 2 * r == h * 2 then 0 else k_inexact)
    unfolding take_fraction away_if
    half_away_flags = ground (
      arith,
      flagged,
      lost,
      small,
      no_wrap,
      even_remainder,
      odd_remainder,
      bit_and-ones 1 p.base,
      bit_and-ones 1 (p.base + 1),
    )

    fractions :
        (rm : ℕ) (sign : Bool)
        → rm ≤ 4
        → Option.map take_fraction (round rm sign p)
          ≡ some (rounded_quotient rm sign (p.base / 2) r (h * 2), raised_remainder rm r (h * 2))
    unfolding round take_fraction
    fractions zero sign valid = ap some (ap₂ (λ x y. (x, y)) nearest_even_lem nearest_flags)
    fractions (suc zero) sign valid = ap some (ap₂ (λ x y. (x, y)) refl kept_flags)
    fractions (suc (suc zero)) sign valid =
        ap some (ap₂ (λ x y. (x, y)) (away_lem sign) (away_flags sign))
    fractions (suc (suc (suc zero))) sign valid =
        ap some (ap₂ (λ x y. (x, y)) (away_lem (not sign)) (away_flags (not sign)))
    fractions (suc (suc (suc (suc zero)))) sign valid =
        ap some (ap₂ (λ x y. (x, y)) half_away_lem half_away_flags)
    fractions (suc (suc (suc (suc (suc rm))))) sign valid = absurd (omega (arith, valid))

-- The parts hold the quotient of `m` by `h`, and whether there is a remainder.
pub record Holds (m h : ℕ) (p : Parts) : Type 0 where
  pub base_is : p.base ≡ m / h
  pub compressed_is : p.compressed ≡ (m % h /= 0)
  pub no_wrap : p.base + 2 < 2 ^ 64
  pub flagged : p.compressed ≡ false → p.flags ≡ 0

-- In every mode, the rounding and the removal of the last bit round the quotient of `m` by twice `h`.
pub take_fraction-round :
    (rm : ℕ) (sign : Bool) (m h : ℕ) (p : Parts)
    → rm ≤ 4
    → 0 < h
    → Holds m h p
    → Option.map take_fraction (round rm sign p)
      ≡ some (rounded rm sign m (h * 2), raised rm m (h * 2))
take_fraction-round rm sign m h p valid some_h holds =
    let r = m % (h * 2) in
    let whole : r ≡ p.base % 2 * h + m % h =
      half_remainder m h some_h ∙ ap (λ (b : ℕ). b % 2 * h + m % h) (sym holds.base_is) in
    let q : p.base / 2 ≡ m / (h * 2) =
      ap (λ (b : ℕ). b / 2) holds.base_is ∙ sym (half_quotient m h) in
    fractions p (m % h) h r (mod-lt m some_h) holds.compressed_is holds.no_wrap whole holds.flagged
      rm sign valid
    ∙ ap (λ t. some (rounded_quotient rm sign t r (h * 2), raised rm m (h * 2))) q

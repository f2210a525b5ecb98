-- ===== src/Convert/Correct.antt =====
-- The conversion returns the rounded number, or the nearest limit of the type.
use mpact_riscv.Common.{
  ℕ, suc, ◌+◌, ◌-◌, ◌*◌, ◌^◌, ◌≤◌, ◌<◌, ◌≡◌, refl, sym, ap, ap₂, ◌∙◌, arith, Bool, Bool-cases, ltb,
  bit_and, inl, inr, Option, some, none,
}
use mathlib.Core.Option
use native.Mathlib.Nat.{
  mod-lt, mod-one, div-one, div-le_self, pow-suc, pow-le-pow_right, one-le-pow,
}
use mpact_riscv.Bits.{bit}
use mpact_riscv.Words.Laws.{to_bool-one_hot}
use mpact_riscv.Convert.{
  FpTypeInfo, IntType, Parts, pos, negsuc, right_shift, prepare, round, take_fraction,
  shifted_value, saturate, convert_shifted, convert_finite,
}
use mpact_riscv.Convert.Rounding.{rounded, raised, Holds, take_fraction-round}
use mpact_riscv.Convert.Doubling.{shift_left_lem}
use mpact_riscv.Convert.Saturation.{IsIntType, converted, saturate-converted, saturate-lost}
use mpact_riscv.Convert.Prepare.{
  IsIeee, exponent, significand, unshifted, prepare-Holds, prepare-left,
}

-- The magnitude of a number, as a quotient: its significand times a power of two.
abbrev pub numerator : ℕ → FpTypeInfo → ℕ → ℕ
numerator e f u = significand e f u * 2 ^ (exponent e f u - (f.exp_bias + f.sig_size))

abbrev pub denominator : ℕ → FpTypeInfo → ℕ → ℕ
denominator e f u = 2 ^ (f.exp_bias + f.sig_size - exponent e f u)

rounded-le : (rm : ℕ) (negative : Bool) (m d : ℕ) → rounded rm negative m d ≤ m + 1
rounded-le rm negative m d = ground (arith, div-le_self m d)

-- A quotient by 1 is not rounded.
rounded-one : (rm : ℕ) (negative : Bool) (m : ℕ) → rounded rm negative m 1 ≡ m
rounded-one rm negative m = rw (div-one, mod-one) (ground arith)

raised-one : (rm m : ℕ) → raised rm m 1 ≡ 0
raised-one rm m = rw mod-one refl

module _ (t : IntType) (ok : IsIntType t) (rm : ℕ) (valid : rm ≤ 4) (negative : Bool) where
  convert_right :
      (m h n : ℕ) (p : Parts)
      → 0 < h
      → m < 2 ^ 53
      → Holds m h p
      → convert_shifted t rm negative (pos n) p
        ≡ some (converted t negative (rounded rm negative m (h * 2)) (raised rm m (h * 2)))
  unfolding convert_shifted
  convert_right m h n p some_h small holds =
      map_twice (round rm negative p)
      ∙ ap (Option.map (saturate t negative))
          (take_fraction-round rm negative m h p valid some_h holds)
      ∙ ap some (
          saturate-converted t ok negative (rounded rm negative m (h * 2)) (raised rm m (h * 2))
            (omega (arith, small, rounded-le rm negative m (h * 2))))
    where
      map_twice :
          (o : Option Parts)
          → Option.map (λ q. saturate t negative (take_fraction q)) o
            ≡ Option.map (saturate t negative) (Option.map take_fraction o)
      map_twice (some q) = refl
      map_twice none = refl

  convert_left :
      (m n : ℕ)
      → 0 < m
      → m < 2 ^ 53
      → convert_shifted t rm negative (negsuc n) (unshifted m)
        ≡ some (converted t negative (m * 2 ^ n) 0)
  unfolding convert_shifted shifted_value
  convert_left m n some_m small =
      let looped = shift_left_lem n m some_m (omega (arith, small)) in
      elim (Bool-cases (ltb (m * 2 ^ n) (2 ^ 64))) [
        | inl fits ↦
            rw (looped, fits)
              (ap some (saturate-converted t ok negative (m * 2 ^ n) 0 (ground (arith, fits))))
        | inr lost ↦
            rw (looped, lost)
              (ap some (saturate-lost t ok negative (m * 2 ^ n) 0 (ground (arith, lost))))
      ]

significand-lt : (e : ℕ) (f : FpTypeInfo) (u : ℕ) → IsIeee e f → significand e f u < 2 ^ 53
significand-lt e f u ieee =
    let wide : 2 ^ f.sig_size ≤ 2 ^ 52 =
      pow-le-pow_right {n = 2} (omega arith) {j = 52} ieee.small_sig in
    let fraction = mod-lt u {m = 2 ^ f.sig_size} (one-le-pow f.sig_size 2 (omega arith)) in
    ground (arith, wide, fraction)

abbrev answer : IntType → ℕ → Bool → ℕ → ℕ → Option (ℕ × ℕ)
answer t rm negative m d = some (converted t negative (rounded rm negative m d) (raised rm m d))

-- The two directions of the shift.
module _ (e : ℕ) (f : FpTypeInfo) (t : IntType) (rm u : ℕ) (ieee : IsIeee e f) (ok : IsIntType t)
    (valid : rm ≤ 4) (some_m : 0 < significand e f u) (negative : Bool) where
  with_fraction :
      exponent e f u < f.exp_bias + f.sig_size
      → let exp = bit_and f.exp_mask u in
        convert_shifted t rm negative (right_shift f exp) (prepare f exp (bit_and f.sig_mask u))
        ≡ answer t rm negative (numerator e f u) (denominator e f u)
  with_fraction low =
      let m = significand e f u in
      let whole = f.exp_bias + f.sig_size in
      let r = whole - 1 - exponent e f u in
      let parts = prepare f (bit_and f.exp_mask u) (bit_and f.sig_mask u) in
      let (holds, (n, shift)) = prepare-Holds e f ieee u some_m low in
      let no_power : exponent e f u - whole ≡ 0 = omega (arith, low) in
      let one_more : whole - exponent e f u ≡ suc r = omega (arith, low) in
      ap (λ z. convert_shifted t rm negative z parts) shift
      ∙ convert_right t ok rm valid negative m (2 ^ r) n parts (one-le-pow r 2 (omega arith))
          (significand-lt e f u ieee) holds
      ∙ ap₂ (answer t rm negative) (sym (ap (λ k. m * 2 ^ k) no_power ∙ omega arith))
          (sym (ap (λ k. 2 ^ k) one_more ∙ pow-suc 2 r))

  without_fraction :
      f.exp_bias + f.sig_size ≤ exponent e f u
      → let exp = bit_and f.exp_mask u in
        convert_shifted t rm negative (right_shift f exp) (prepare f exp (bit_and f.sig_mask u))
        ≡ answer t rm negative (numerator e f u) (denominator e f u)
  without_fraction high =
      let m = significand e f u in
      let n = exponent e f u - (f.exp_bias + f.sig_size) in
      let no_power : f.exp_bias + f.sig_size - exponent e f u ≡ 0 = omega (arith, high) in
      let (parts, shift) = prepare-left e f ieee u high in
      ap₂ (λ z q. convert_shifted t rm negative z q) shift parts
      ∙ convert_left t ok rm valid negative m n some_m (significand-lt e f u ieee)
      ∙ sym (
          ap (λ k. answer t rm negative (m * 2 ^ n) (2 ^ k)) no_power
          ∙ ap₂ (λ x y. some (converted t negative x y)) (rounded-one rm negative (m * 2 ^ n))
              (raised-one rm (m * 2 ^ n)))

-- A finite number that is not zero, of a type with `e` bits of exponent, is converted to its magnitude,
-- rounded in the mode of the instruction, of which the fifth is to the nearest with ties away from zero,
-- with its sign, as a word of the type; the inexact flag is raised
-- if the rounding changed it, except for a tie that goes away from zero. If the rounded number is not one
-- of the type, the result is the limit of the type on its side with the invalid flag.
pub convert_finite-converted :
    (e : ℕ) (f : FpTypeInfo) (t : IntType) (rm u : ℕ)
    → IsIeee e f
    → IsIntType t
    → rm ≤ 4
    → 0 < significand e f u
    → let negative = bit u (f.bit_size - 1) in
      let m = numerator e f u in
      let d = denominator e f u in
      convert_finite f t rm u
      ≡ some (converted t negative (rounded rm negative m d) (raised rm m d))
unfolding convert_finite
convert_finite-converted e f t rm u ieee ok valid some_m =
    let negative = bit u (f.bit_size - 1) in
    rw (to_bool-one_hot u (f.bit_size - 1))
      (elim (Bool-cases (ltb (exponent e f u) (f.exp_bias + f.sig_size))) [
        | inl low ↦ with_fraction e f t rm u ieee ok valid some_m negative (ground (arith, low))
        | inr high ↦
            without_fraction e f t rm u ieee ok valid some_m negative (ground (arith, high))
      ])

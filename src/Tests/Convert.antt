-- ===== src/Tests/Convert.antt =====
-- The conversion of a floating point number to an integer: riscv/riscv_instruction_helpers.h.
use mpact_riscv.Common.{
  ℕ, ◌/◌, ◌%◌, ◌^◌, ◌≡◌, refl, arith, true, Option, some, none, ◌&&◌, ◌==◌, ◌/=◌,
}
use mpact_riscv.Bits.{bit}
use mpact_riscv.Convert.{
  FpTypeInfo, IntType, convert_float_with_fflags_op, convert_value, convert_finite, convert_shifted,
  prepare, right_shift, compress, round, nearest_even, away_if, take_fraction, shift_left,
  shifted_value, saturate, rounding_mode,
}
use mpact_riscv.Convert.Rounding.{rounded, raised}
use mpact_riscv.Convert.Saturation.{IsIntType, converted}
use mpact_riscv.Convert.Prepare.{IsIeee}
use mpact_riscv.Convert.Correct.{numerator, denominator, convert_finite-converted}

-- The type of 32 bits.
abbrev single : FpTypeInfo
single = record {
  bit_size = 32;
  sig_size = 23;
  exp_bias = 127;
  exp_mask = 0x7f80_0000;
  sig_mask = 0x007f_ffff;
  pos_inf = 0x7f80_0000;
  neg_inf = 0xff80_0000;
  is_nan = λ u. u / 2 ^ 23 % 2 ^ 8 == 255 && u % 2 ^ 23 /= 0;
}

single-IsIeee : IsIeee 8 single
single-IsIeee = record {
  sig_mask_is = refl;
  exp_mask_is = refl;
  bit_size_is = refl;
  some_exp = omega arith;
  some_sig = omega arith;
  small_sig = omega arith;
  some_bias = omega arith;
}

abbrev int32 : IntType
int32 = record { is_signed = true; width = 32 }

int32-IsIntType : IsIntType int32
int32-IsIntType = record { some_bits = omega arith; fits = omega arith }

abbrev convert : ℕ → ℕ → Option (ℕ × ℕ)
convert rm u = convert_float_with_fflags_op 64 single int32 rm none u

-- 1.5 and 2.5 to the nearest, -1.5 down, 0.5 away from zero, 2 ^ 40 and a number that is none; and a mode
-- that does not exist.
conversions_run :
    (convert 0 0x3fc0_0000 ≡ some (2, 1))
    × (convert 0 0x4020_0000 ≡ some (2, 1))
    × (convert 2 0xbfc0_0000 ≡ some (0xffff_ffff_ffff_fffe, 1))
    × (convert 4 0x3f00_0000 ≡ some (1, 0))
    × (convert 0 0x5380_0000 ≡ some (0x7fff_ffff, 16))
    × (convert 0 0x7fc0_0000 ≡ some (0x7fff_ffff, 16))
    × (convert 5 0x3fc0_0000 ≡ none)
unfolding convert_float_with_fflags_op convert_value convert_finite convert_shifted prepare
    right_shift compress round nearest_even away_if take_fraction shift_left shifted_value saturate
    rounding_mode
conversions_run = (refl, refl, refl, refl, refl, refl, refl)

convert_finite-converted_example :
    let u : ℕ = 0xbfc0_0000 in
    let m = numerator 8 single u in
    let d = denominator 8 single u in
    convert_finite single int32 2 u
    ≡ some (converted int32 (bit u 31) (rounded 2 (bit u 31) m d) (raised 2 m d))
convert_finite-converted_example =
    convert_finite-converted 8 single int32 2 0xbfc0_0000 single-IsIeee int32-IsIntType
      (omega arith) (omega arith)

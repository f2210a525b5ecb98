-- ===== src/Convert.antt =====
-- The conversion of a floating point number to an integer, RiscVConvertFloatWithFflagsOp of
-- riscv/riscv_instruction_helpers.h, as a function from the bits of the number to the integer, as a word,
-- and the exception flags. The constants of a floating point type belong to a library outside the
-- repository.
pub mod Rounding
pub mod Doubling
pub mod Saturation
pub mod Prepare
pub mod Correct
use mpact_riscv.Common.{
  ℕ, zero, suc, ◌+◌, ◌-◌, ◌*◌, ◌%◌, ◌^◌, Bool, true, false, ◌&&◌, ◌||◌, not, ◌==◌, ◌/=◌, ltb, leb,
  if◌then◌else◌, bit_and, bit_or, Option, none, some,
}
use mathlib.Core.Option
use mpact_riscv.Words.{u64, to_bool, ◌<<<◌, ◌>>>◌}
use mpact_riscv.Muldiv.{widen}

-- FPTypeInfo.
pub record FpTypeInfo : Type 0 where
  pub bit_size : ℕ
  pub sig_size : ℕ
  pub exp_bias : ℕ
  pub exp_mask : ℕ
  pub sig_mask : ℕ
  pub pos_inf : ℕ
  pub neg_inf : ℕ
  pub is_nan : ℕ → Bool

-- The integer type of the result.
pub record IntType : Type 0 where
  pub is_signed : Bool
  pub width : ℕ

-- kMax and kMin, as words of the type, and converted to 64 bits for the comparisons.
abbrev pub k_max : IntType → ℕ
k_max t = if t.is_signed then 2 ^ (t.width - 1) - 1 else 2 ^ t.width - 1

abbrev pub k_min : IntType → ℕ
k_min t = if t.is_signed then 2 ^ (t.width - 1) else 0

abbrev pub k_min64 : IntType → ℕ
k_min64 t = if t.is_signed then 2 ^ 64 - 2 ^ (t.width - 1) else 0

-- FPRoundingMode and FPExceptions.
abbrev pub k_round_to_nearest : ℕ
k_round_to_nearest = 0b000

abbrev pub k_round_towards_zero : ℕ
k_round_towards_zero = 0b001

abbrev pub k_round_down : ℕ
k_round_down = 0b010

abbrev pub k_round_up : ℕ
k_round_up = 0b011

abbrev pub k_round_to_nearest_ties_to_max : ℕ
k_round_to_nearest_ties_to_max = 0b100

abbrev pub k_dynamic : ℕ
k_dynamic = 0b111

abbrev pub k_inexact : ℕ
k_inexact = 0b00001

abbrev pub k_invalid_op : ℕ
k_invalid_op = 0b10000

-- The integers, for the shift, and the difference of two numbers.
pub data ℤ : Type 0 where
  pos negsuc : ℕ → ℤ

abbrev pub difference : ℕ → ℕ → ℤ
difference a b = if leb b a then pos (a - b) else negsuc (b - a - 1)

-- The significand while it is converted, with one bit of its fraction, whether bits below were lost, and
-- the flags.
pub record Parts : Type 0 where
  pub base : ℕ
  pub compressed : Bool
  pub flags : ℕ

unfoldable pub right_shift : FpTypeInfo → ℕ → ℤ
right_shift f exp =
    if exp == 0 then pos 1 else difference (f.sig_size - 1 + f.exp_bias) (exp >>> f.sig_size)

-- The shift to the right that leaves one bit of the fraction.
unfoldable pub compress : FpTypeInfo → ℤ → ℕ → Parts
compress f (pos r) base =
    if ltb (f.bit_size - 1) r
    then record { base = 0; compressed = base /= 0; flags = k_inexact }
    else if ltb 0 r
    then record { base = base >>> r; compressed = bit_and base ((1 <<< r) - 1) /= 0; flags = 0 }
    else record { base = base; compressed = false; flags = 0 }
compress f (negsuc n) base = record { base = base; compressed = false; flags = 0 }

unfoldable pub prepare : FpTypeInfo → ℕ → ℕ → Parts
prepare f exp sig =
    if exp == 0
    then record { base = 0; compressed = sig /= 0; flags = k_inexact }
    else compress f (right_shift f exp) (bit_or sig (1 <<< f.sig_size))

-- The cases of the rounding modes.
unfoldable pub nearest_even : Parts → Parts
nearest_even p =
    if not p.compressed && to_bool (bit_and p.base 1)
    then (if bit_and p.base 3 == 3
        then record p { flags = k_inexact; base = u64 (p.base + 1) }
        else p)
    else if to_bool (bit_and p.base 1) || p.compressed
    then record p { base = u64 (p.base + 1) }
    else p

unfoldable pub away_if : Bool → ℕ → Parts → Parts
away_if side step p =
    if side && (to_bool (bit_and p.base 1) || p.compressed)
    then record p { base = u64 (p.base + step) }
    else p

-- The rounding, or `none` for an invalid mode.
unfoldable pub round : ℕ → Bool → Parts → Option Parts
round rm sign p =
    if rm == k_round_to_nearest
    then some (nearest_even p)
    else if rm == k_round_towards_zero
    then some p
    else if rm == k_round_down
    then some (away_if sign 2 p)
    else if rm == k_round_up
    then some (away_if (not sign) 2 p)
    else if rm == k_round_to_nearest_ties_to_max
    then some (away_if true 1 p)
    else none

-- The loop that shifts to the left, with the previous value: `none` if a bit is lost.
unfoldable pub shift_left : ℕ → ℕ → Option ℕ
shift_left zero value = some value
shift_left (suc n) value =
    let next = u64 (value <<< 1) in
    let rest = shift_left n next in if ltb next value then none else rest

-- What is left of the parts: the unsigned value and the flags.
unfoldable pub take_fraction : Parts → ℕ × ℕ
take_fraction p =
    (p.base >>> 1, if to_bool (bit_and p.base 1) || p.compressed then k_inexact else p.flags)

unfoldable pub shifted_value : IntType → Bool → Option ℕ → ℕ → ℕ × ℕ
shifted_value t sign (some value) flags = (value, flags)
shifted_value t sign none flags = (if sign then k_min64 t else k_max t, k_invalid_op)

-- The final conversion, with the limits of the type.
unfoldable pub saturate : IntType → Bool → ℕ × ℕ → ℕ × ℕ
saturate t sign (value, flags) =
    let converted = if sign then (2 ^ t.width - value % 2 ^ t.width) % 2 ^ t.width else value in
    if t.is_signed
    then (if not sign && ltb (k_max t) value
        then (k_max t, k_invalid_op)
        else if sign && (ltb 0 value && ltb ((2 ^ 64 - value) % 2 ^ 64) (k_min64 t))
        then (k_min t, k_invalid_op)
        else (converted, flags))
    else (if ltb (k_max t) value
        then (if sign then k_min t else k_max t, k_invalid_op)
        else if sign && value /= 0
        then (k_min t, k_invalid_op)
        else (converted, flags))

-- The value and the flags of a number that is finite and not zero.
unfoldable pub convert_shifted : IntType → ℕ → Bool → ℤ → Parts → Option (ℕ × ℕ)
convert_shifted t rm sign (pos r) p =
    Option.map (λ q. saturate t sign (take_fraction q)) (round rm sign p)
convert_shifted t rm sign (negsuc n) p =
    some (saturate t sign (shifted_value t sign (shift_left n p.base) p.flags))

unfoldable pub convert_finite : FpTypeInfo → IntType → ℕ → ℕ → Option (ℕ × ℕ)
convert_finite f t rm lhs_u =
    let sign = bit_and lhs_u (1 <<< (f.bit_size - 1)) /= 0 in
    let exp = bit_and f.exp_mask lhs_u in
    let sig = bit_and f.sig_mask lhs_u in
    convert_shifted t rm sign (right_shift f exp) (prepare f exp sig)

unfoldable pub convert_value : FpTypeInfo → IntType → ℕ → ℕ → Option (ℕ × ℕ)
convert_value f t rm lhs_u =
    if f.is_nan lhs_u || lhs_u == f.pos_inf
    then some (k_max t, k_invalid_op)
    else if lhs_u == f.neg_inf
    then some (k_min t, k_invalid_op)
    else if bit_and lhs_u (bit_or f.exp_mask f.sig_mask) == 0
    then some (0, 0)
    else convert_finite f t rm lhs_u

-- The rounding mode of the instruction, or the dynamic one if it is valid.
unfoldable pub rounding_mode : ℕ → Option ℕ → Option ℕ
rounding_mode rm dynamic = if rm == k_dynamic then dynamic else some rm

-- The value that the register of `w` bits gets, sign extended from the type, and the flags; `none` where the
-- instruction is logged and does nothing.
unfoldable pub convert_float_with_fflags_op :
    ℕ → FpTypeInfo → IntType → ℕ → Option ℕ → ℕ → Option (ℕ × ℕ)
convert_float_with_fflags_op w f t rm dynamic lhs_u = elim (rounding_mode rm dynamic) [
  | none ↦ none
  | some mode ↦ Option.map (λ r. (widen t.width w r.0 % 2 ^ w, r.1)) (convert_value f t mode lhs_u)
]

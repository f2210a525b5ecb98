-- ===== src/Vector/Fixed.antt =====
-- The elements of the fixed point and carry instructions: the helpers of
-- riscv/riscv_vector_opi_instructions.cc, and GetRoundingBit of riscv/riscv_vector_instruction_helpers.h.
-- `w` is the width of an element, and a signed number is its two's complement word.
pub mod Rounding
pub mod Saturation
pub mod Carry
use mpact_riscv.Common.{
  ℕ, ◌+◌, ◌-◌, ◌*◌, ◌/◌, ◌%◌, ◌^◌, Bool, true, false, not, ◌&&◌, ◌||◌, ◌==◌, ◌/=◌, ltb, leb,
  if◌then◌else◌, bit_and, bit_or, bit_xor,
}
use mpact_riscv.Words.{complement, of_bool, to_bool, ◌<<<◌, ◌>>>◌}
use mpact_riscv.Muldiv.{negative, widen, least}
use mpact_riscv.Bitmanip.{signed_ltb}
use mpact_riscv.Integer.{shift_signed}

-- `numeric_limits<T>::max()` of an unsigned and of a signed type.
abbrev pub unsigned_max : ℕ → ℕ
unsigned_max w = 2 ^ w - 1

abbrev pub signed_max : ℕ → ℕ
signed_max w = 2 ^ (w - 1) - 1

-- GetRoundingBit, of the rounding mode and the bits that are shifted out with the one above them.
unfoldable pub get_rounding_bit : ℕ → ℕ → ℕ → ℕ → ℕ
get_rounding_bit w rounding_mode rounding_bits size =
    let d_minus_1 = if ltb size 2 then 0 else bit_and (rounding_bits >>> (size - 2)) 1 in
    let d = if size == 0 then 0 else bit_and (rounding_bits >>> (size - 1)) 1 in
    let lower =
      λ (k : ℕ). of_bool (bit_and rounding_bits (complement w (unsigned_max w <<< k)) /= 0) in
    let d_minus_2_0 = if ltb size 3 then 0 else lower (size - 2) in
    let d_minus_1_0 = if ltb size 2 then 0 else lower (size - 1) in
    if rounding_mode == 0
    then d_minus_1
    else if rounding_mode == 1
    then bit_and d_minus_1 (bit_or d_minus_2_0 d)
    else if rounding_mode == 3
    then bit_and (of_bool (not (to_bool (bit_and (rounding_bits >>> (size - 1)) 1)))) d_minus_1_0
    else 0

-- VssrHelper: the shift amount, the bits that it rounds by, and the result.
unfoldable pub round_bits : ℕ → ℕ → ℕ → ℕ
round_bits w shift_amount a =
    if ltb shift_amount (w - 1)
    then bit_and a (complement w (unsigned_max w <<< (shift_amount + 1)))
    else a

unfoldable pub vssr_helper : ℕ → Bool → ℕ → ℕ → ℕ → ℕ
vssr_helper w signed rm a b =
    let shift_amount = bit_and b (w - 1) in
    let shifted = if signed then shift_signed w a shift_amount else a >>> shift_amount in
    (shifted + get_rounding_bit w rm (round_bits w shift_amount a) (shift_amount + 1)) % 2 ^ w

-- RoundOff of a value of `w` bits, unsigned or signed.
unfoldable pub round_off : ℕ → Bool → ℕ → ℕ → ℕ → ℕ
round_off w signed rm value size =
    ((if signed then shift_signed w value size else value >>> size)
      + get_rounding_bit w rm value (size + 1))
    % 2 ^ w

-- A signed or an unsigned value of `v` bits, cut off at the limits of `w` bits.
unfoldable pub saturated : ℕ → ℕ → Bool → ℕ → ℕ × Bool
saturated v w signed a =
    if signed
    then (if signed_ltb v (widen w v (signed_max w)) a
        then (signed_max w, true)
        else if signed_ltb v a (widen w v (least w))
        then (least w, true)
        else (a % 2 ^ w, false))
    else (if ltb (unsigned_max w) a then (unsigned_max w, true) else (a % 2 ^ w, false))

-- VnclipHelper, from twice the width.
unfoldable pub vnclip_helper : ℕ → Bool → ℕ → ℕ → ℕ → ℕ × Bool
vnclip_helper w signed rm a b =
    let wide = 2 * w in
    let shift_amount = bit_and b (wide - 1) in
    let shifted = if signed then shift_signed wide a shift_amount else a >>> shift_amount in
    let rounding = get_rounding_bit wide rm (round_bits wide shift_amount a) (shift_amount + 1) in
    saturated wide w signed ((shifted + rounding) % 2 ^ wide)

-- VsmulHelper.
unfoldable pub vsmul_helper : ℕ → ℕ → ℕ → ℕ → ℕ × Bool
vsmul_helper w rm a b =
    let wide = 2 * w in
    let product = widen w wide a * widen w wide b % 2 ^ wide in
    saturated wide w true (vssr_helper wide true rm product (w - 1))

-- The saturating sums and differences: Vsaddu, VsaddHelper, Vssubu and VssubHelper.
unfoldable pub saddu : ℕ → ℕ → ℕ → ℕ × Bool
saddu w a b =
    let sum = (a + b) % 2 ^ w in if ltb sum b then (unsigned_max w, true) else (sum, false)

unfoldable pub vsadd_helper : ℕ → ℕ → ℕ → ℕ × Bool
vsadd_helper w a b =
    let sum = (a + b) % 2 ^ w in
    if not (negative w (bit_xor a b)) && negative w (bit_xor sum a)
    then (if signed_ltb w 0 a then signed_max w else least w, true)
    else (sum, false)

unfoldable pub ssubu : ℕ → ℕ → ℕ → ℕ × Bool
ssubu w a b = if ltb a b then (0, true) else ((a + (2 ^ w - b)) % 2 ^ w, false)

unfoldable pub vssub_helper : ℕ → ℕ → ℕ → ℕ × Bool
vssub_helper w a b =
    let difference = (a + (2 ^ w - b)) % 2 ^ w in
    if negative w (bit_xor a b) && not (negative w (bit_xor difference b))
    then (if negative w b then signed_max w else least w, true)
    else (difference, false)

-- The carries of Vmadc, of elements up to 32 bits and of 64 bits. The operators of the latter bind as in
-- `vs1 & (0xff + vs2) & (0xff + mask)`.
unfoldable pub madc : ℕ → ℕ → ℕ → Bool → Bool
madc w a b carry_in = (a + b + of_bool carry_in) >>> w /= 0

unfoldable pub madc64 : ℕ → ℕ → Bool → Bool
madc64 a b carry_in =
    let low = bit_and (bit_and b ((0xff + a) % 2 ^ 64)) (0xff + of_bool carry_in) in
    let carry = low >>> 8 in let sum = ((b >>> 8) + (a >>> 8) + carry) % 2 ^ 64 in sum >>> 56 /= 0

-- The borrows of Vmsbc.
unfoldable pub msbc : ℕ → ℕ → Bool → Bool
msbc a b borrow_in = ltb a (of_bool borrow_in + b)

unfoldable pub msbc64 : ℕ → ℕ → Bool → Bool
msbc64 a b borrow_in = if ltb a b then true else if a == b then borrow_in else false

-- Vadc and Vsbc.
unfoldable pub adc : ℕ → ℕ → ℕ → Bool → ℕ
adc w a b carry_in = (a + b + of_bool carry_in) % 2 ^ w

unfoldable pub sbc : ℕ → ℕ → ℕ → Bool → ℕ
sbc w a b borrow_in = (a + (2 ^ w - b) + (2 ^ w - of_bool borrow_in)) % 2 ^ w

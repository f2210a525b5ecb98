-- ===== src/Muldiv.antt =====
-- The multiplications and divisions of riscv/riscv_m_instructions.cc, as functions from the values of the
-- source operands to the value of the destination. `w` is the width of a register, 32 or 64, and a signed
-- number is its two's complement word. The operator templates that read the operands and write the
-- register belong to a library outside the repository.
pub mod Signed
pub mod Division
pub mod High
pub mod Widen
use mpact_riscv.Common.{
  ℕ, ◌+◌, ◌-◌, ◌*◌, ◌/◌, ◌%◌, ◌^◌, Bool, ◌&&◌, ◌==◌, leb, xor, if◌then◌else◌, bit_and,
}

-- The sign and the absolute value of a signed word, and `-x`.
abbrev pub negative : ℕ → ℕ → Bool
negative w x = leb (2 ^ (w - 1)) x

abbrev pub magnitude : ℕ → ℕ → ℕ
magnitude w x = if negative w x then 2 ^ w - x else x

abbrev pub negate : ℕ → ℕ → ℕ
negate w x = (2 ^ w - x) % 2 ^ w

-- The conversion of a signed word of `w` bits to `v` bits.
abbrev pub widen : ℕ → ℕ → ℕ → ℕ
widen w v x = if negative w x then x + (2 ^ v - 2 ^ w) else x

-- The least signed word.
abbrev pub least : ℕ → ℕ
least w = 2 ^ (w - 1)

-- MMul, of operands that are read as words of twice the width.
unfoldable pub mul : ℕ → ℕ → ℕ → ℕ
mul w a_wide b_wide = bit_and (a_wide * b_wide % 2 ^ (w + w)) (2 ^ w - 1)

unfoldable pub mulh : ℕ → ℕ → ℕ → ℕ
mulh w a b = widen w (w + w) a * widen w (w + w) b % 2 ^ (w + w) / 2 ^ w

unfoldable pub mulhu : ℕ → ℕ → ℕ → ℕ
mulhu w a b = a * b % 2 ^ (w + w) / 2 ^ w

-- MMulhsu of RV32, whose product is converted to an unsigned number by the language.
unfoldable pub mulhsu32 : ℕ → ℕ → ℕ
mulhsu32 a_wide b_wide = a_wide * b_wide % 2 ^ 64 / 2 ^ 32

-- MMulhsu of RV64, which multiplies absolute values.
unfoldable pub mulhsu64 : ℕ → ℕ → ℕ
mulhsu64 a_wide b_wide =
    let negated = negative 128 a_wide in
    let a_u = if negated then negate 128 a_wide else a_wide in
    let c_u_wide = a_u * b_wide % 2 ^ 128 in
    let c_wide = if negated then negate 128 c_u_wide else c_u_wide in c_wide / 2 ^ 64

-- The quotient and the remainder of C++, which are cut off towards zero.
abbrev pub quotient : ℕ → ℕ → ℕ → ℕ
quotient w a b =
    let q = magnitude w a / magnitude w b in
    if xor (negative w a) (negative w b) then negate w q else q

abbrev pub remainder : ℕ → ℕ → ℕ → ℕ
remainder w a b = let r = magnitude w a % magnitude w b in if negative w a then negate w r else r

unfoldable pub div : ℕ → ℕ → ℕ → ℕ
div w a b =
    if b == 0 then 2 ^ w - 1 else if b == 2 ^ w - 1 && a == least w then least w else quotient w a b

unfoldable pub divu : ℕ → ℕ → ℕ → ℕ
divu w a b = if b == 0 then 2 ^ w - 1 else a / b

unfoldable pub rem : ℕ → ℕ → ℕ → ℕ
rem w a b = if b == 0 then a else if b == 2 ^ w - 1 && a == least w then 0 else remainder w a b

unfoldable pub remu : ℕ → ℕ → ℕ → ℕ
remu w a b = if b == 0 then a else a % b

-- The instructions of RV64 on the low halves. A product that overflows, which C++ leaves undefined, wraps
-- around.
unfoldable pub mulw : ℕ → ℕ → ℕ
mulw a b = widen 32 64 (a * b % 2 ^ 32)

unfoldable pub divw : ℕ → ℕ → ℕ
divw a b =
    if b == 0
    then 2 ^ 64 - 1
    else if b == 2 ^ 32 - 1 && a == least 32
    then widen 32 64 (least 32)
    else widen 32 64 (quotient 32 a b)

unfoldable pub divuw : ℕ → ℕ → ℕ
divuw a b = if b == 0 then 2 ^ 64 - 1 else widen 32 64 (a / b)

unfoldable pub remw : ℕ → ℕ → ℕ
remw a b =
    if b == 0
    then widen 32 64 a
    else if b == 2 ^ 32 - 1 && a == least 32
    then 0
    else widen 32 64 (remainder 32 a b)

unfoldable pub remuw : ℕ → ℕ → ℕ
remuw a b = if b == 0 then widen 32 64 a else widen 32 64 (a % b)

-- ===== src/Integer.antt =====
-- The integer instructions of riscv/riscv_i_instructions.cc that compute and those of
-- riscv/riscv_zicond_instructions.cc, as functions from the values of the source operands to the value of
-- the destination, of registers of `w` bits, 32 or 64. A signed number is its two's complement word, and a
-- signed sum that overflows, which C++ leaves undefined, wraps around.
pub mod Control
pub mod Memory
pub mod Alu
pub mod Target
pub mod Access
use mpact_riscv.Common.{
  ℕ, zero, ◌==◌, ◌/=◌, ◌+◌, ◌-◌, ◌/◌, ◌%◌, ◌^◌, ltb, if◌then◌else◌, bit_and, bit_or, bit_xor,
}
use mpact_riscv.Words.{u32, u64, complement, of_bool, ◌<<<◌, ◌>>>◌}
use mpact_riscv.Muldiv.{negative, widen}
use mpact_riscv.Bitmanip.{amount, signed_ltb}

-- `a >> s` of a signed word rounds down.
abbrev pub shift_signed : ℕ → ℕ → ℕ → ℕ
shift_signed w a s = if negative w a then 2 ^ w - 1 - (2 ^ w - 1 - a) / 2 ^ s else a / 2 ^ s

unfoldable pub add : ℕ → ℕ → ℕ → ℕ
add w a b = (a + b) % 2 ^ w

unfoldable pub sub : ℕ → ℕ → ℕ → ℕ
sub w a b = (a + (2 ^ w - b)) % 2 ^ w

unfoldable pub slt : ℕ → ℕ → ℕ → ℕ
slt w a b = of_bool (signed_ltb w a b)

unfoldable pub sltu : ℕ → ℕ → ℕ
sltu a b = of_bool (ltb a b)

unfoldable pub and : ℕ → ℕ → ℕ
and a b = bit_and a b

unfoldable pub or : ℕ → ℕ → ℕ
or a b = bit_or a b

unfoldable pub xor : ℕ → ℕ → ℕ
xor a b = bit_xor a b

unfoldable pub sll : ℕ → ℕ → ℕ → ℕ
sll w a b = (a <<< amount w b) % 2 ^ w

unfoldable pub srl : ℕ → ℕ → ℕ → ℕ
srl w a b = a >>> amount w b

unfoldable pub sra : ℕ → ℕ → ℕ → ℕ
sra w a b = shift_signed w a (amount w b)

-- The upper immediates, which the decoder has shifted, of RV32 and of RV64; those of RV64 are signed words
-- of 32 bits.
unfoldable pub lui32 : ℕ → ℕ
lui32 a = bit_and a (complement 32 0xfff)

unfoldable pub auipc32 : ℕ → ℕ → ℕ
auipc32 address a = u32 (bit_and a (complement 32 0xfff) + address)

unfoldable pub lui64 : ℕ → ℕ
lui64 a = bit_and (widen 32 64 a) (complement 64 0xfff)

unfoldable pub auipc64 : ℕ → ℕ → ℕ
auipc64 address a = u64 (widen 32 64 (bit_and a (complement 32 0xfff)) + address)

-- The instructions of RV64 on low halves, whose results are sign extended.
unfoldable pub addw : ℕ → ℕ → ℕ
addw a b = widen 32 64 (u32 (a + b))

unfoldable pub subw : ℕ → ℕ → ℕ
subw a b = widen 32 64 (u32 (a + (2 ^ 32 - b)))

unfoldable pub sllw : ℕ → ℕ → ℕ
sllw a b = widen 32 64 (u32 (a <<< bit_and b 0x1f))

unfoldable pub srlw : ℕ → ℕ → ℕ
srlw a b = widen 32 64 (a >>> bit_and b 0x1f)

unfoldable pub sraw : ℕ → ℕ → ℕ
sraw a b = widen 32 64 (shift_signed 32 a (bit_and b 0x1f))

-- RiscVCzeroEqz and RiscVCzeroNez of riscv/riscv_zicond_instructions.cc.
unfoldable pub czero_eqz : ℕ → ℕ → ℕ
czero_eqz a b = if b == 0 then 0 else a

unfoldable pub czero_nez : ℕ → ℕ → ℕ
czero_nez a b = if b /= 0 then 0 else a

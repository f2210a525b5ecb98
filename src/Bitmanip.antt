-- ===== src/Bitmanip.antt =====
-- The bit manipulation instructions of riscv/riscv_bitmanip_instructions.cc, as functions from the values
-- of the source operands to the value of the destination, of registers of `w` bits, 32 or 64. The counts
-- of zeros and of ones are calls of a library outside the repository.
pub mod Basic
pub mod Bitwise
pub mod Rotate
pub mod Clmul
pub mod Bytes
pub mod Rev8
pub mod Same
use mpact_riscv.Common.{
  ℕ, zero, suc, ◌+◌, ◌-◌, ◌%◌, ◌^◌, Bool, ◌==◌, ltb, xor, if◌then◌else◌, bit_and, bit_or, bit_xor,
}
use mpact_riscv.Words.{complement, to_bool, ◌<<<◌, ◌>>>◌}
use mpact_riscv.Muldiv.{negative, widen}

-- RiscVShAdd, RiscVShAddUw, RiscVAddUw and RiscVSlliUw.
unfoldable pub sh_add : ℕ → ℕ → ℕ → ℕ → ℕ
sh_add w shift a b = (b + (a <<< shift) % 2 ^ w) % 2 ^ w

unfoldable pub sh_add_uw : ℕ → ℕ → ℕ → ℕ
sh_add_uw shift a b = (b + (bit_and a 0xffff_ffff <<< shift) % 2 ^ 64) % 2 ^ 64

unfoldable pub add_uw : ℕ → ℕ → ℕ
add_uw a b = (b + bit_and a 0xffff_ffff) % 2 ^ 64

unfoldable pub slli_uw : ℕ → ℕ → ℕ
slli_uw a shift = (bit_and a 0xffff_ffff <<< shift) % 2 ^ 64

unfoldable pub andn : ℕ → ℕ → ℕ → ℕ
andn w a b = bit_and a (complement w b)

unfoldable pub orn : ℕ → ℕ → ℕ → ℕ
orn w a b = bit_or a (complement w b)

unfoldable pub xnor : ℕ → ℕ → ℕ → ℕ
xnor w a b = complement w (bit_xor a b)

-- The order of signed words.
unfoldable pub signed_ltb : ℕ → ℕ → ℕ → Bool
signed_ltb w a b = if xor (negative w a) (negative w b) then negative w a else ltb a b

-- std::max and std::min.
unfoldable pub max_signed : ℕ → ℕ → ℕ → ℕ
max_signed w a b = if signed_ltb w a b then b else a

unfoldable pub max_unsigned : ℕ → ℕ → ℕ
max_unsigned a b = if ltb a b then b else a

unfoldable pub min_signed : ℕ → ℕ → ℕ → ℕ
min_signed w a b = if signed_ltb w b a then b else a

unfoldable pub min_unsigned : ℕ → ℕ → ℕ
min_unsigned a b = if ltb b a then b else a

-- RiscVSextB, RiscVSextH, RiscVZextH and RiscVZextB, of the low bits of a register.
unfoldable pub sext_b : ℕ → ℕ → ℕ
sext_b w a = widen 8 w (a % 2 ^ 8)

unfoldable pub sext_h : ℕ → ℕ → ℕ
sext_h w a = widen 16 w (a % 2 ^ 16)

unfoldable pub zext_h : ℕ → ℕ
zext_h a = a % 2 ^ 16

unfoldable pub zext_b : ℕ → ℕ
zext_b a = a % 2 ^ 8

-- The amount of a shift or the number of a bit: the low 5 or 6 bits.
abbrev pub amount : ℕ → ℕ → ℕ
amount w b = bit_and b (w - 1)

unfoldable pub rol : ℕ → ℕ → ℕ → ℕ
rol w a b =
    let shamt = amount w b in
    if shamt == 0 then a else bit_or ((a <<< shamt) % 2 ^ w) (a >>> (w - shamt))

unfoldable pub ror : ℕ → ℕ → ℕ → ℕ
ror w a b =
    let shamt = amount w b in
    if shamt == 0 then a else bit_or (a >>> shamt) ((a <<< (w - shamt)) % 2 ^ w)

-- Those of RV64 on low halves, whose results are sign extended.
unfoldable pub rolw : ℕ → ℕ → ℕ
rolw a b = widen 32 64 (rol 32 a b)

unfoldable pub rorw : ℕ → ℕ → ℕ
rorw a b = widen 32 64 (ror 32 a b)

-- The loop of RiscVOrcb over `n` bytes, with the mask and the result.
unfoldable pub orcb_loop : ℕ → ℕ → ℕ → ℕ → ℕ → ℕ
orcb_loop zero w a mask result = result
orcb_loop (suc n) w a mask result =
    orcb_loop n w a ((mask <<< 8) % 2 ^ w)
      (if to_bool (bit_and a mask) then bit_or result mask else result)

unfoldable pub orcb : ℕ → ℕ → ℕ
orcb bytes a = orcb_loop bytes (bytes <<< 3) a 0xff 0

-- The loop of RiscVRev8.
unfoldable pub rev8_loop : ℕ → ℕ → ℕ → ℕ → ℕ
rev8_loop zero w a result = result
rev8_loop (suc n) w a result =
    rev8_loop n w (a >>> 8) (bit_or ((result <<< 8) % 2 ^ w) (bit_and a 0xff))

unfoldable pub rev8 : ℕ → ℕ → ℕ
rev8 bytes a = rev8_loop bytes (bytes <<< 3) a 0

-- The loop of the carry-less multiplications: `n` steps from `i` on, where step i adds `f i` if bit i of
-- `b` is set.
unfoldable pub clmul_loop : (ℕ → ℕ) → ℕ → ℕ → ℕ → ℕ → ℕ
clmul_loop f b zero i result = result
clmul_loop f b (suc n) i result =
    clmul_loop f b n (i + 1)
      (if to_bool (bit_and (b >>> i) 1) then bit_xor result (f i) else result)

unfoldable pub clmul : ℕ → ℕ → ℕ → ℕ
clmul w a b = clmul_loop (λ i. (a <<< i) % 2 ^ w) b w 0 0

unfoldable pub clmulh : ℕ → ℕ → ℕ → ℕ
clmulh w a b = clmul_loop (λ i. a >>> (w - i)) b (w - 1) 1 0

-- RiscVClmulr, whose loop has one step less for 32 bits.
unfoldable pub clmulr32 : ℕ → ℕ → ℕ
clmulr32 a b = clmul_loop (λ i. a >>> (32 - i - 1)) b 31 0 0

unfoldable pub clmulr64 : ℕ → ℕ → ℕ
clmulr64 a b = clmul_loop (λ i. a >>> (64 - i - 1)) b 64 0 0

unfoldable pub bclr : ℕ → ℕ → ℕ → ℕ
bclr w a b = bit_and a (complement w (1 <<< amount w b))

unfoldable pub bext : ℕ → ℕ → ℕ → ℕ
bext w a b = bit_and (a >>> amount w b) 0x1

unfoldable pub binv : ℕ → ℕ → ℕ → ℕ
binv w a b = bit_xor a (1 <<< amount w b)

unfoldable pub bset : ℕ → ℕ → ℕ → ℕ
bset w a b = bit_or a (1 <<< amount w b)

-- ===== src/Bitmanip/Basic.antt =====
-- The second implementation of the instructions for 64 bits, in riscv/riscv_b_instructions.cc. The counts
-- of zeros and of ones are calls of a library outside the repository, and so are the rotations, which are
-- parameters: `rotl w a s` rotates a word of `w` bits by `s`.
use mpact_riscv.Common.{
  ℕ, zero, suc, ◌+◌, ◌-◌, ◌*◌, ◌/◌, ◌%◌, ◌^◌, if◌then◌else◌, bit_and, bit_or, bit_xor,
}
use mpact_riscv.Words.{complement, to_bool, u32, u64, ◌<<<◌}

-- ShNaddHelper and ShNadduwHelper.
unfoldable pub sh_n_add : ℕ → ℕ → ℕ → ℕ
sh_n_add shift a b = u64 (u64 (a <<< shift) + b)

unfoldable pub sh_n_add_uw : ℕ → ℕ → ℕ → ℕ
sh_n_add_uw shift a b = u64 (u64 (bit_and a 0xffff_ffff <<< shift) + b)

unfoldable pub add_uw : ℕ → ℕ → ℕ
add_uw a b = u64 (bit_and a 0xffff_ffff + b)

unfoldable pub slliuw : ℕ → ℕ → ℕ
slliuw a b = u64 (bit_and a 0xffff_ffff <<< b)

unfoldable pub xnor : ℕ → ℕ → ℕ
xnor a b = bit_xor a (complement 64 b)

unfoldable pub sexth : ℕ → ℕ
sexth a =
    if to_bool (bit_and (1 <<< 15) a) then bit_or a 0xffff_ffff_ffff_0000 else bit_and a 0xffff

unfoldable pub sextb : ℕ → ℕ
sextb a = if to_bool (bit_and (1 <<< 7) a) then bit_or a 0xffff_ffff_ffff_ff00 else bit_and a 0xff

unfoldable pub zextw : ℕ → ℕ
zextw a = bit_and a 0x0000_0000_ffff_ffff

unfoldable pub zexth : ℕ → ℕ
zexth a = bit_and a 0x0000_0000_0000_ffff

-- The sign extension at the end of RiscVRolw and RiscVRorw.
unfoldable pub sign_extended_value : ℕ → ℕ
sign_extended_value value =
    if to_bool (bit_and value 0x8000_0000) then bit_or value 0xffff_ffff_0000_0000 else value

unfoldable pub rolw : (ℕ → ℕ → ℕ → ℕ) → ℕ → ℕ → ℕ
rolw rotl a b = sign_extended_value (rotl 32 (u32 a) (bit_and b 0x1f))

unfoldable pub rorw : (ℕ → ℕ → ℕ → ℕ) → ℕ → ℕ → ℕ
rorw rotr a b = sign_extended_value (rotr 32 (u32 a) (bit_and b 0x1f))

unfoldable pub rol : (ℕ → ℕ → ℕ → ℕ) → ℕ → ℕ → ℕ
rol rotl a b = rotl 64 a (bit_and b 0x3f)

unfoldable pub ror : (ℕ → ℕ → ℕ → ℕ) → ℕ → ℕ → ℕ
ror rotr a b = rotr 64 a (bit_and b 0x3f)

-- The loop of RiscVOrcb: `n` bytes from byte `i` on.
unfoldable pub orcb_from : ℕ → ℕ → ℕ → ℕ → ℕ
orcb_from zero i a result = result
orcb_from (suc n) i a result =
    let mask = u64 (0xff <<< (8 * i)) in
    orcb_from n (i + 1) a (if to_bool (bit_and a mask) then bit_or result mask else result)

unfoldable pub orcb : ℕ → ℕ
orcb a = orcb_from 8 0 a 0

-- The byte of a word in memory, and the bytes that RiscVRev8 writes, one at each step.
abbrev pub byte : ℕ → ℕ → ℕ
byte a i = a / 2 ^ (8 * i) % 2 ^ 8

abbrev pub write_byte : ℕ → ℕ → ℕ → ℕ
write_byte a i v = a - byte a i * 2 ^ (8 * i) + v * 2 ^ (8 * i)

unfoldable pub rev8_from : ℕ → ℕ → ℕ → ℕ → ℕ
rev8_from zero i a output = output
rev8_from (suc n) i a output =
    let output_index = 8 - 1 - i in
    rev8_from n (i + 1) a (write_byte output output_index (byte a i))

unfoldable pub rev8 : ℕ → ℕ
rev8 a = rev8_from 8 0 a 0

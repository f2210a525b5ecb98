-- ===== src/Tests/Bitmanip.antt =====
-- The bit manipulation instructions: riscv/riscv_bitmanip_instructions.cc and riscv/riscv_b_instructions.cc.
use mpact_riscv.Common.{
  ℕ, ◌-◌, ◌%◌, ◌^◌, ◌/◌, ◌≡◌, refl, arith, bit_or, bit_xor, ◌==◌, if◌then◌else◌,
}
use mpact_riscv.Bits.{bit}
use mpact_riscv.Words.{u32, ◌<<<◌, ◌>>>◌}
use mpact_riscv.Bitmanip.{
  sh_add, sh_add_uw, add_uw, slli_uw, xnor, sext_b, sext_h, zext_h, rol, ror, rolw, rorw, orcb,
  rev8, clmul, clmulh, clmulr32, clmulr64, max_signed, min_signed, max_unsigned, min_unsigned,
  orcb_loop, rev8_loop, clmul_loop, signed_ltb,
}
use mpact_riscv.Bitmanip.Basic
use mpact_riscv.Bitmanip.Clmul.{clproduct, clmul_parts}
use mpact_riscv.Bitmanip.Same.{AreRotations, basic_same}

instructions_run :
    (sh_add 32 2 0x4000_0001 7 ≡ 11)
    × (sext_b 32 0x180 ≡ 0xffff_ff80)
    × (rol 32 0x8000_0001 4 ≡ 0x18)
    × (rorw 1 1 ≡ 0xffff_ffff_8000_0000)
    × (orcb 4 0x0001_8000 ≡ 0x00ff_ff00)
    × (rev8 4 0x0102_0304 ≡ 0x0403_0201)
    × (clmul 32 5 3 ≡ 15)
    × (max_signed 32 0xffff_ffff 1 ≡ 1)
    × (min_signed 32 0xffff_ffff 1 ≡ 0xffff_ffff)
    × (max_unsigned 0xffff_ffff 1 ≡ 0xffff_ffff)
    × (min_unsigned 0xffff_ffff 1 ≡ 1)
unfolding sh_add sext_b rol ror rorw orcb rev8 clmul max_signed min_signed max_unsigned min_unsigned
    orcb_loop rev8_loop clmul_loop signed_ltb
instructions_run = (refl, refl, refl, refl, refl, refl, refl, refl, refl, refl, refl)

clmul_parts_example :
    (clmul 32 0x8000_0001 0xc000_0003 ≡ clproduct 32 0x8000_0001 0xc000_0003 % 2 ^ 32)
    × (clmulh 32 0x8000_0001 0xc000_0003 ≡ clproduct 32 0x8000_0001 0xc000_0003 / 2 ^ 32)
    × (clmulr64 0x8000_0001 0xc000_0003 ≡ clproduct 64 0x8000_0001 0xc000_0003 / 2 ^ 63)
    × ((if bit 0xc000_0003 31
          then bit_xor (clmulr32 0x8000_0001 0xc000_0003) 0x8000_0001
          else clmulr32 0x8000_0001 0xc000_0003)
        ≡ clproduct 32 0x8000_0001 0xc000_0003 / 2 ^ 31)
clmul_parts_example = clmul_parts 32 0x8000_0001 0xc000_0003 (omega arith) (omega arith)

abbrev rotated_left : ℕ → ℕ → ℕ → ℕ
rotated_left w x s = if s == 0 then x else bit_or ((x <<< s) % 2 ^ w) (x >>> (w - s))

abbrev rotated_right : ℕ → ℕ → ℕ → ℕ
rotated_right w x s = if s == 0 then x else bit_or (x >>> s) ((x <<< (w - s)) % 2 ^ w)

rotated-AreRotations : AreRotations rotated_left rotated_right
rotated-AreRotations = record {
  rotl_is = λ w x s word small. refl;
  rotr_is = λ w x s word small. refl;
}

basic_same_example :
    let a : ℕ = 0xfedc_ba98_8000_8081 in
    (Basic.sh_n_add 2 a 5 ≡ sh_add 64 2 a 5)
    × (Basic.sh_n_add_uw 2 a 5 ≡ sh_add_uw 2 a 5)
    × (Basic.add_uw a 5 ≡ add_uw a 5)
    × (Basic.slliuw a 2 ≡ slli_uw a 2)
    × (Basic.xnor a 5 ≡ xnor 64 a 5)
    × (Basic.sexth a ≡ sext_h 64 a)
    × (Basic.sextb a ≡ sext_b 64 a)
    × (Basic.zexth a ≡ zext_h a)
    × (Basic.rol rotated_left a 5 ≡ rol 64 a 5)
    × (Basic.ror rotated_right a 5 ≡ ror 64 a 5)
    × (Basic.rolw rotated_left a 5 ≡ rolw (u32 a) 5)
    × (Basic.rorw rotated_right a 5 ≡ rorw (u32 a) 5)
    × (Basic.orcb a ≡ orcb 8 a)
    × (Basic.rev8 a ≡ rev8 8 a)
basic_same_example =
    basic_same rotated_left rotated_right 0xfedc_ba98_8000_8081 5 2 rotated-AreRotations
      (omega arith)

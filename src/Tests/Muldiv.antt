-- ===== src/Tests/Muldiv.antt =====
-- Products and quotients of words: riscv/riscv_m_instructions.cc.
use mpact_riscv.Common.{ℕ, ◌+◌, ◌-◌, ◌*◌, ◌%◌, ◌^◌, ◌<◌, ◌≡◌, ◌⊎◌, refl, arith}
use mpact_riscv.Muldiv.{
  mul, mulh, mulhu, mulhsu32, mulhsu64, div, rem, remw, mulw, widen, magnitude, negative,
}
use mpact_riscv.Muldiv.Division.{div-rem}
use mpact_riscv.Muldiv.High.{product_halves}

-- -7 divided by 2, the least word divided by -1, and a division by 0.
div_runs :
    (div 32 0xffff_fff9 2 ≡ 0xffff_fffd)
    × (rem 32 0xffff_fff9 2 ≡ 0xffff_ffff)
    × (div 32 0x8000_0000 0xffff_ffff ≡ 0x8000_0000)
    × (remw 0x8000_0000 0 ≡ 0xffff_ffff_8000_0000)
    × (mulw 0xffff_ffff 3 ≡ 0xffff_ffff_ffff_fffd)
unfolding div rem remw mulw
div_runs = (refl, refl, refl, refl, refl)

div-rem_example :
    ((div 32 0xffff_fff9 2 * 2 + rem 32 0xffff_fff9 2) % 2 ^ 32 ≡ 0xffff_fff9)
    × ((◌≡◌ {A = ℕ} 2 0) ⊎ (magnitude 32 (rem 32 0xffff_fff9 2) < magnitude 32 2))
    × ((rem 32 0xffff_fff9 2 ≡ 0) ⊎ (negative 32 (rem 32 0xffff_fff9 2) ≡ negative 32 0xffff_fff9))
div-rem_example = div-rem 32 0xffff_fff9 2 (omega arith) (omega arith) (omega arith)

product_halves_example :
    (mulh 32 7 5 * 2 ^ 32 + mul 32 (widen 32 (32 + 32) 7) (widen 32 (32 + 32) 5)
      ≡ widen 32 (32 + 32) 7 * widen 32 (32 + 32) 5 % 2 ^ (32 + 32))
    × (mulhu 32 7 5 * 2 ^ 32 + mul 32 7 5 ≡ 7 * 5)
    × (mulhsu32 (2 ^ 128 - 1) 5 * 2 ^ 32 + mul 32 (2 ^ 128 - 1) 5 ≡ (2 ^ 128 - 1) * 5 % 2 ^ 64)
    × (mulhsu64 (2 ^ 128 - 1) 5 * 2 ^ 64 + mul 64 (2 ^ 128 - 1) 5 ≡ (2 ^ 128 - 1) * 5 % 2 ^ 128)
product_halves_example =
    product_halves 32 7 5 (2 ^ 128 - 1) (omega arith) (omega arith) (omega arith)

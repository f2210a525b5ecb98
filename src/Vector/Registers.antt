-- ===== src/Vector/Registers.antt =====
-- The register vcsr is made of vxrm and vxsat.
use mpact_riscv.Common.{ℕ, ◌/◌, ◌%◌, ◌≡◌, refl, ap, ◌∙◌, arith, bit_and, bit_or}
use mpact_riscv.Bits.{bit_ext, bit-bit_and, bit-bit_or, bit-zero}
use mpact_riscv.Words.{complement, to_bool, of_bool, ◌<<<◌}
use mpact_riscv.Words.Laws.{bit_or-shl}
use mpact_riscv.Words.Halves.{bit_and-ones}
use mpact_riscv.Csr.Simple.{set_bits, clear_bits}
use mpact_riscv.Vector.{
  VectorState, set_vxrm, vxsat_as_uint32, vxsat_write, vxrm_as_uint32, vxrm_write, vcsr_as_uint32,
  vcsr_write, vcsr_access,
}

bit_or-zero_left : (a : ℕ) → bit_or 0 a ≡ a
bit_or-zero_left a = bit_ext _ _ (λ i. rw (bit-bit_or, bit-zero) (ground arith))

bit_and-zero_left : (a : ℕ) → bit_and 0 a ≡ 0
bit_and-zero_left a = bit_ext _ _ (λ i. rw (bit-bit_and, bit-zero) (ground arith))

sat_lem : (a : ℕ) → of_bool (to_bool (bit_and a 1)) ≡ a % 2
sat_lem a = ground (arith, bit_and-ones 1 a)

vcsr_lem :
    (a : ℕ)
    → bit_or (bit_and (bit_and (bit_and (a / 2) 3) 3) 3 <<< 1) (of_bool (to_bool (bit_and a 1)))
      ≡ a % 8
vcsr_lem a =
    let upper = bit_and (bit_and (bit_and (a / 2) 3) 3) 3 in
    let upper_is : upper ≡ a / 2 % 4 = ground (
      arith,
      bit_and-ones 2 (a / 2),
      bit_and-ones 2 (bit_and (a / 2) 3),
      bit_and-ones 2 (bit_and (bit_and (a / 2) 3) 3),
    ) in
    let low = sat_lem a in
    bit_or-shl 1 upper (of_bool (to_bool (bit_and a 1))) (omega (arith, low))
    ∙ omega (arith, low, upper_is)

-- A write of vcsr reads back with its low three bits, and is a write of vxrm with the two upper ones of them
-- and one of vxsat with the lowest. To set bits of vcsr writes these bits alone, whatever it holds, and to
-- clear bits writes zero.
pub vcsr_as_uint32-vcsr_write :
    (a : ℕ) (v : VectorState)
    → (vcsr_as_uint32 (vcsr_write a v) ≡ a % 8)
      × (vxrm_as_uint32 (vcsr_write a v) ≡ a % 8 / 2)
      × (vxsat_as_uint32 (vcsr_write a v) ≡ a % 2)
      × (vcsr_write a v ≡ vxsat_write a (vxrm_write (a / 2) v))
      × (vcsr_as_uint32 (vcsr_access set_bits a v) ≡ a % 8)
      × (vcsr_as_uint32 (vcsr_access clear_bits a v) ≡ 0)
unfolding vcsr_as_uint32 vcsr_write vxrm_as_uint32 vxsat_as_uint32 vxsat_write vxrm_write set_vxrm
    vcsr_access
vcsr_as_uint32-vcsr_write a v = (
  vcsr_lem a,
  ground (arith, bit_and-ones 2 (a / 2), bit_and-ones 2 (bit_and (a / 2) 3)),
  sat_lem a,
  refl,
  vcsr_lem (bit_or 0 a) ∙ ap (λ t. t % 8) (bit_or-zero_left a),
  vcsr_lem (bit_and 0 (complement 32 a)) ∙ ap (λ t. t % 8) (bit_and-zero_left (complement 32 a)),
)

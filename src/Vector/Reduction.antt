-- ===== src/Vector/Reduction.antt =====
-- The reductions of riscv/riscv_vector_reduction_instructions.cc.
pub mod Sum
use mpact_riscv.Common.{ℕ, ◌+◌, ◌*◌, ◌%◌, ◌^◌, bit_and, bit_or, bit_xor}
use mpact_riscv.Bitmanip.{max_signed, max_unsigned, min_signed, min_unsigned}
use mpact_riscv.Integer.{add}
use mpact_riscv.Vector.Loop.{Operands, VectorUnit}
use mpact_riscv.Vector.Mask.{binary_reduction_vector_op}
use mpact_riscv.Vector.Opi.{by_width, widths, narrow_widths}
use mpact_riscv.Vector.Opm.{sign_extended}

-- An operation on elements of the same width, given by the width in bits.
abbrev pub reduced : (ℕ → ℕ → ℕ → ℕ) → Operands → VectorUnit → VectorUnit
reduced op o = by_width widths (λ n. binary_reduction_vector_op n n n (λ a. a) (op (8 * n)) o)

unfoldable pub vredsum : Operands → VectorUnit → VectorUnit
vredsum = reduced add

unfoldable pub vredand : Operands → VectorUnit → VectorUnit
vredand = reduced (λ w a b. bit_and a b)

unfoldable pub vredor : Operands → VectorUnit → VectorUnit
vredor = reduced (λ w a b. bit_or a b)

unfoldable pub vredxor : Operands → VectorUnit → VectorUnit
vredxor = reduced (λ w a b. bit_xor a b)

unfoldable pub vredminu : Operands → VectorUnit → VectorUnit
vredminu = reduced (λ w a b. min_unsigned a b)

unfoldable pub vredmin : Operands → VectorUnit → VectorUnit
vredmin = reduced min_signed

unfoldable pub vredmaxu : Operands → VectorUnit → VectorUnit
vredmaxu = reduced (λ w a b. max_unsigned a b)

unfoldable pub vredmax : Operands → VectorUnit → VectorUnit
vredmax = reduced max_signed

unfoldable pub vwredsumu : Operands → VectorUnit → VectorUnit
vwredsumu o =
    by_width narrow_widths
      (λ n. binary_reduction_vector_op (2 * n) n n (λ a. a) (λ acc x. (acc + x) % 2 ^ (16 * n)) o)

unfoldable pub vwredsum : Operands → VectorUnit → VectorUnit
vwredsum o = by_width narrow_widths (λ n.
    binary_reduction_vector_op (2 * n) n n (sign_extended (8 * n))
      (λ acc x. (acc + sign_extended (8 * n) x) % 2 ^ (16 * n)) o)

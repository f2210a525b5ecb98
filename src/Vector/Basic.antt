-- ===== src/Vector/Basic.antt =====
-- The vector instructions of riscv/riscv_vector_basic_bit_manipulation_instructions.cc. The rotations and
-- the counts of zeros and of ones, which are calls of a library, are parameters of the width and the operands.
pub mod Reverse
use mpact_riscv.Common.{ℕ, zero, suc, ◌+◌, ◌-◌, ◌*◌, ◌/◌, ◌%◌, ◌^◌, bit_and, bit_or, List, [], ◌∷◌}
use mpact_riscv.Words.{complement, ◌<<<◌, ◌>>>◌}
use mpact_riscv.Vector.Loop.{Operands, VectorUnit, binary_vector_op, unary_vector_op}
use mpact_riscv.Vector.Opi.{by_width, widths, narrow_widths, binary}

-- BitReverse.
unfoldable pub bit_reverse_loop : ℕ → ℕ → ℕ → ℕ → ℕ
bit_reverse_loop zero w input result = result
bit_reverse_loop (suc n) w input result =
    bit_reverse_loop n w (input >>> 1) (bit_or ((result <<< 1) % 2 ^ w) (bit_and input 1))

unfoldable pub bit_reverse : ℕ → ℕ → ℕ
bit_reverse w input = bit_reverse_loop w w input 0

-- ByteSwap.
unfoldable pub byte_swap_loop : ℕ → ℕ → ℕ → ℕ → ℕ → ℕ
byte_swap_loop zero size i input result = result
byte_swap_loop (suc n) size i input result =
    byte_swap_loop n size (i + 1) input
      (bit_or result (bit_and (input >>> (i * 8)) 0xff <<< ((size - 1 - i) * 8)))

unfoldable pub byte_swap : ℕ → ℕ → ℕ
byte_swap size input = byte_swap_loop size size 0 input 0

-- A function on each byte of an element in memory.
unfoldable pub each_byte : (ℕ → ℕ) → ℕ → ℕ → ℕ
each_byte f zero a = 0
each_byte f (suc n) a = f (a % 2 ^ 8) + each_byte f n (a / 2 ^ 8) * 2 ^ 8

-- An operation on elements, given by their size.
abbrev pub unary : (ℕ → ℕ → ℕ) → Operands → VectorUnit → VectorUnit
unary op o = by_width widths (λ n. unary_vector_op n n (op n) o)

unfoldable pub vandn : Operands → VectorUnit → VectorUnit
vandn = binary (λ w a b. bit_and a (complement w b))

unfoldable pub vbrev8 : Operands → VectorUnit → VectorUnit
vbrev8 = unary (each_byte (bit_reverse 8))

unfoldable pub vrev8 : Operands → VectorUnit → VectorUnit
vrev8 = unary byte_swap

unfoldable pub vrol : (ℕ → ℕ → ℕ → ℕ) → Operands → VectorUnit → VectorUnit
vrol rotl = binary (λ w a b. rotl w a (bit_and b (w - 1)))

unfoldable pub vror : (ℕ → ℕ → ℕ → ℕ) → Operands → VectorUnit → VectorUnit
vror rotr = binary (λ w a b. rotr w a (bit_and b (w - 1)))

unfoldable pub vbrev : Operands → VectorUnit → VectorUnit
vbrev = unary (λ n. bit_reverse (8 * n))

unfoldable pub vclz : (ℕ → ℕ → ℕ) → Operands → VectorUnit → VectorUnit
vclz countl_zero = unary (λ n. countl_zero (8 * n))

unfoldable pub vctz : (ℕ → ℕ → ℕ) → Operands → VectorUnit → VectorUnit
vctz countr_zero = unary (λ n. countr_zero (8 * n))

unfoldable pub vector_vcpop : (ℕ → ℕ → ℕ) → Operands → VectorUnit → VectorUnit
vector_vcpop popcount = unary (λ n. popcount (8 * n))

unfoldable pub vwsll : Operands → VectorUnit → VectorUnit
vwsll o =
    by_width narrow_widths
      (λ n. binary_vector_op (2 * n) n n (λ a b. (a <<< bit_and b (16 * n - 1)) % 2 ^ (16 * n)) o)

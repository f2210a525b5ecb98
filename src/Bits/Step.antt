-- ===== src/Bits/Step.antt =====
-- The native bit operations, one binary digit at a time.
use Prim.Native.Nat.{digits, differ, bit_and-bitwise, bit_or-bitwise, bit_xor-bitwise}
use mpact_riscv.Common.{
  ℕ, zero, suc, ◌+◌, ◌*◌, ◌/◌, ◌%◌, ◌≤◌, ◌≡◌, refl, arith, min, max, bit_and, bit_or, bit_xor,
}

-- A supply of digits that covers the first number is enough, so its size does not matter.
module _ (rest : ℕ → ℕ) (op : ℕ → ℕ → ℕ) where
  abbrev run : ℕ → ℕ → ℕ → ℕ
  run = digits rest op

  run_stable : (m k a b : ℕ) → a ≤ m → a ≤ k → run m a b ≡ run k a b
  run_stable zero zero zero b p q = refl
  run_stable zero (suc k) zero b p q = refl
  run_stable (suc m) zero zero b p q = refl
  run_stable (suc m) (suc k) zero b p q = refl
  run_stable zero k (suc a) b p q = absurd (omega arith)
  run_stable (suc m) zero (suc a) b p q = absurd (omega arith)
  run_stable (suc m) (suc k) (suc a) b p q =
      let shorter = run_stable m k (suc a / 2) (b / 2) (omega arith) (omega arith) in
      omega (arith, shorter)

  -- The recursion equation with the supply that the operations take.
  run-suc :
      (a b : ℕ)
      → run (suc a) (suc a) b ≡ run (suc a / 2) (suc a / 2) (b / 2) * 2 + op (suc a % 2) (b % 2)
  run-suc a b =
      omega (arith, run_stable a (suc a / 2) (suc a / 2) (b / 2) (omega arith) (omega arith))

pub bit_and_step : (a b : ℕ) → bit_and a b ≡ bit_and (a / 2) (b / 2) * 2 + min (a % 2) (b % 2)
bit_and_step zero b = omega (arith, bit_and-bitwise 0 b, bit_and-bitwise 0 (b / 2))
bit_and_step (suc a) b = omega (
  arith,
  bit_and-bitwise (suc a) b,
  bit_and-bitwise (suc a / 2) (b / 2),
  run-suc (λ r. 0) min a b,
)

pub bit_or_step : (a b : ℕ) → bit_or a b ≡ bit_or (a / 2) (b / 2) * 2 + max (a % 2) (b % 2)
bit_or_step zero b = omega (arith, bit_or-bitwise 0 b, bit_or-bitwise 0 (b / 2))
bit_or_step (suc a) b =
    omega (
      arith,
      bit_or-bitwise (suc a) b,
      bit_or-bitwise (suc a / 2) (b / 2),
      run-suc (λ r. r) max a b,
    )

differ-le_one : (x y : ℕ) → x ≤ 1 → y ≤ 1 → differ x y ≡ (x + y) % 2
differ-le_one zero zero p q = refl
differ-le_one zero (suc zero) p q = refl
differ-le_one zero (suc (suc y)) p q = absurd (omega arith)
differ-le_one (suc zero) zero p q = refl
differ-le_one (suc zero) (suc zero) p q = refl
differ-le_one (suc zero) (suc (suc y)) p q = absurd (omega arith)
differ-le_one (suc (suc x)) y p q = absurd (omega arith)

pub bit_xor_step : (a b : ℕ) → bit_xor a b ≡ bit_xor (a / 2) (b / 2) * 2 + (a % 2 + b % 2) % 2
bit_xor_step zero b = omega (arith, bit_xor-bitwise 0 b, bit_xor-bitwise 0 (b / 2))
bit_xor_step (suc a) b = omega (
  arith,
  bit_xor-bitwise (suc a) b,
  bit_xor-bitwise (suc a / 2) (b / 2),
  run-suc (λ r. r) differ a b,
  differ-le_one (suc a % 2) (b % 2) (omega arith) (omega arith),
)

-- ===== src/Convert/Doubling.antt =====
-- The loop that shifts to the left.
use mpact_riscv.Common.{
  ℕ, zero, suc, ◌*◌, ◌^◌, ◌≤◌, ◌<◌, ◌≡◌, inl, inr, ap, arith, Bool-cases, ltb, leb, if◌then◌else◌,
  some, none,
}
use native.Mathlib.Nat.{pow-suc, one-le-pow, le-mul_of_pos_right}
use mpact_riscv.Words.{u64, ◌<<<◌}
use mpact_riscv.Convert.{shift_left}

-- One step: a bit is lost exactly when the value gets smaller.
step-fits : (v : ℕ) → 0 < v → v < 2 ^ 64 → ltb (u64 (v <<< 1)) v ≡ leb (2 ^ 64) (v * 2)
step-fits v some_v word = ground arith

-- The loop multiplies a word that is not zero by a power of two if the product has 64 bits, and else reports
-- that a bit was lost.
pub shift_left_lem :
    (n v : ℕ)
    → 0 < v
    → v < 2 ^ 64
    → shift_left n v ≡ (if ltb (v * 2 ^ n) (2 ^ 64) then some (v * 2 ^ n) else none)
unfolding shift_left
shift_left_lem zero v some_v word = ground arith
shift_left_lem (suc n) v some_v word =
    let lost = step-fits v some_v word in
    let twice : v * 2 * 2 ^ n ≡ v * 2 ^ suc n =
      omega (arith, ap (λ (t : ℕ). v * t) (pow-suc 2 n)) in
    let grown : v * 2 ≤ v * 2 * 2 ^ n =
      le-mul_of_pos_right {m = 2 ^ n} (v * 2) (one-le-pow n 2 (omega arith)) in
    elim (Bool-cases (leb (2 ^ 64) (v * 2))) [
      | inl over ↦ ground (arith, lost, over, twice, grown)
      | inr small ↦
          let fits : v * 2 < 2 ^ 64 = ground (arith, small) in
          let same : u64 (v <<< 1) ≡ v * 2 = omega (arith, fits) in
          let rest = shift_left_lem n (v * 2) (omega (arith, some_v)) fits in
          rw (lost, same, rest, twice) (ground (arith, fits))
    ]

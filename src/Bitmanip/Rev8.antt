-- ===== src/Bitmanip/Rev8.antt =====
-- The two loops that reverse the bytes of a word of 64 bits.
use mpact_riscv.Common.{
  ℕ, zero, suc, ◌+◌, ◌-◌, ◌*◌, ◌/◌, ◌%◌, ◌^◌, ◌<◌, ◌≡◌, refl, sym, ap, ap₂, ◌∙◌, arith,
}
use native.Mathlib.Nat.{mod-lt, mul-div_cancel, div-div-eq-div-mul, one-le-pow, div-one}
use mpact_riscv.Bitmanip.{rev8, rev8_loop}
use mpact_riscv.Bitmanip.Basic
use mpact_riscv.Bitmanip.Basic.{byte, write_byte, rev8_from}
use mpact_riscv.Bitmanip.Bytes.{more_bytes, step_result}

-- A result that is filled down to byte n + 1 takes the next byte.
write_next : (n r v : ℕ) → write_byte (r * 2 ^ (8 * suc n)) n v ≡ (v + r * 2 ^ 8) * 2 ^ (8 * n)
write_next n r v =
    let moved : r * 2 ^ (8 * suc n) ≡ r * 2 ^ 8 * 2 ^ (8 * n) =
      omega (arith, ap (λ (t : ℕ). r * t) (more_bytes n)) in
    let cut : r * 2 ^ 8 * 2 ^ (8 * n) / 2 ^ (8 * n) ≡ r * 2 ^ 8 =
      mul-div_cancel (r * 2 ^ 8) (one-le-pow (8 * n) 2 (omega arith)) in
    let clear : byte (r * 2 ^ (8 * suc n)) n ≡ 0 =
      ap (λ t. t / 2 ^ (8 * n) % 2 ^ 8) moved ∙ ap (λ t. t % 2 ^ 8) cut ∙ omega arith in
    rw clear (omega (arith, more_bytes n, ap (λ (t : ℕ). r * t) (more_bytes n)))

next_byte : (a i : ℕ) → a / 2 ^ (8 * suc i) ≡ a / 2 ^ (8 * i) / 2 ^ 8
next_byte a i = ap (λ t. a / t) (more_bytes i) ∙ sym (div-div-eq-div-mul a (2 ^ (8 * i)) (2 ^ 8))

rev8_from_lem :
    (n i a r : ℕ)
    → n + i ≡ 8
    → r < 2 ^ (8 * i)
    → rev8_from n i a (r * 2 ^ (8 * n)) ≡ rev8_loop n 64 (a / 2 ^ (8 * i)) r
unfolding rev8_loop rev8_from
rev8_from_lem zero i a r whole small = omega arith
rev8_from_lem (suc n) i a r whole small =
    let place : 8 - 1 - i ≡ n = omega (arith, whole) in
    let rest = a / 2 ^ (8 * i) in
    ap (λ j. rev8_from n (i + 1) a (write_byte (r * 2 ^ (8 * suc n)) j (byte a i))) place
    ∙ ap₂ (λ j s. rev8_from n j a s) (omega arith) (write_next n r (byte a i))
    ∙ rev8_from_lem n (suc i) a (byte a i + r * 2 ^ 8) (omega (arith, whole))
        (omega (arith, small, more_bytes i, mod-lt rest {m = 2 ^ 8} (omega arith)))
    ∙ ap₂ (λ b s. rev8_loop n 64 b s) (next_byte a i)
        (sym (step_result 64 i rest r small (omega (arith, whole))))

pub rev8_same : (a : ℕ) → Basic.rev8 a ≡ rev8 8 a
unfolding Basic.rev8 rev8
rev8_same a = rev8_from_lem 8 0 a 0 refl (omega arith) ∙ ap (λ b. rev8_loop 8 64 b 0) (div-one a)

-- ===== src/Tests/Clint.antt =====
-- The core level interrupt controller, wired to a hart: riscv/riscv_clint.cc.
use mpact_riscv.Common.{◌^◌, ◌+◌, ◌/◌, ◌%◌, ◌≡◌, refl, inl, arith, [], ◌∷◌, leb}
use mpact_riscv.Words.{of_bool}
use mpact_riscv.Clint.{Clint, create}
use mpact_riscv.Clint.Hart.{hart_lines}
use mpact_riscv.Clint.Wired.{InStep, IsWired}
use mpact_riscv.Clint.Timer.{IsCounting, count, count-mtime}
use mpact_riscv.Clint.Trace.{counted, stored, was_reset, run, run-IsWired, run-InStep}
use mpact_riscv.Clint.Access.{IsValid}
use mpact_riscv.Tests.Samples.{hart}

-- A timer that is one period short of its comparison.
abbrev clint : Clint
clint = record { msip = 0; mtime = 9; mtimecmp = 10; period = 2; update_counter = 1; mtip = 0 }

clint-IsValid : IsValid clint
clint-IsValid = record {
  msip_fits = omega arith;
  mtime_fits = omega arith;
  mtimecmp_fits = omega arith;
}

clint-IsCounting : IsCounting hart_lines clint
clint-IsCounting = record { runs = omega arith; mtime_fits = omega arith; in_step = refl }

run-IsWired_example :
    let c = create hart_lines 1 hart in
    let r = run hart_lines (counted ∷ stored 0x4000 4 1 ∷ was_reset ∷ []) c.0 c.1 in
    IsWired hart_lines r.0 r.1
run-IsWired_example =
    run-IsWired hart_lines 1 (counted ∷ stored 0x4000 4 1 ∷ was_reset ∷ []) hart (inl refl)

run-InStep_example :
    let c = create hart_lines 1 hart in
    let r = run hart_lines (counted ∷ stored 0x4000 4 1 ∷ counted ∷ []) c.0 c.1 in InStep r.0
run-InStep_example =
    run-InStep hart_lines 1 (counted ∷ stored 0x4000 4 1 ∷ counted ∷ []) hart
      (refl, (refl, (refl, tt)))

count-mtime_example :
    let d = (count hart_lines 3 clint hart).0 in
    (d.mtime ≡ (9 + (1 + 3) / 2) % 2 ^ 64)
    × (d.update_counter ≡ (1 + 3) % 2)
    × (d.mtip ≡ of_bool (leb 10 d.mtime))
count-mtime_example = count-mtime hart_lines 3 clint hart clint-IsCounting

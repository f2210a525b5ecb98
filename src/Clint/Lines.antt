-- ===== src/Clint/Lines.antt =====
-- MipExternalWriteInterface of riscv/riscv_xip_xie.h, as far as the core level interrupt controller
-- uses it: the two writes, what they do to the pending bits that the hart reads, and the harts on which
-- they do so.
use mpact_riscv.Common.{ℕ, Bool, ◌≡◌}
use mpact_riscv.Bits.{bit}

pub record MipLines (S : Type 0) : Type 1 where
  pub set_mtip : ℕ → S → S
  pub set_msip : ℕ → S → S
  pub timer : S → Bool
  pub software : S → Bool
  pub IsReady : S → Type 0
  pub timer-set_mtip : (v : ℕ) (s : S) → IsReady s → timer (set_mtip v s) ≡ bit v 0
  pub software-set_mtip : (v : ℕ) (s : S) → IsReady s → software (set_mtip v s) ≡ software s
  pub timer-set_msip : (v : ℕ) (s : S) → IsReady s → timer (set_msip v s) ≡ timer s
  pub software-set_msip : (v : ℕ) (s : S) → IsReady s → software (set_msip v s) ≡ bit v 0
  pub set_mtip-IsReady : (v : ℕ) (s : S) → IsReady s → IsReady (set_mtip v s)
  pub set_msip-IsReady : (v : ℕ) (s : S) → IsReady s → IsReady (set_msip v s)

-- ===== src/Clint/Hart.antt =====
-- The pending bits of a hart are lines for the core level interrupt controller.
use mpact_riscv.Clint.Lines.{MipLines}
use mpact_riscv.Common.{refl}
use mpact_riscv.Common.{
  inr, inl, false, ltb, ◌&&◌, ◌<◌, ℕ, ◌≡◌, ◌⊎◌, arith, ◌==◌, ◌||◌, if◌then◌else◌,
}
use mpact_riscv.Bits.{bit-bit_or, bit, bit_laws}
use mpact_riscv.Words.Laws.{bit-complement}
use mpact_riscv.Hart.Defs.{Hart}
use mpact_riscv.Hart.Interrupt.{mip_get_uint64}
use mpact_riscv.Hart.Status.Fields.{to_bool-field, check_for_interrupt_frame, bit-one}
use mpact_riscv.Hart.Pending.{set_msip, get_mtip, get_msip, set_mtip, mip_set, mip_setter}

-- The external line of a supervisor is bit 9 of mip.
abbrev pub HasLine : Hart → Type 0
HasLine h = (h.mip.ext_seip ≡ 0) ⊎ (h.mip.ext_seip ≡ 0x200)

mip_set_frame : (v : ℕ) (h : Hart) → (mip_set v h).mip ≡ record (h.mip) { value = v }
unfolding mip_set
mip_set_frame v h =
    ground (arith, check_for_interrupt_frame (record h { mip = record (h.mip) { value = v } }))

-- A write of a pending bit changes that bit.
pub bit-mip_setter :
    (shift v i : ℕ) (h : Hart)
    → shift < 64
    → bit (mip_get_uint64 (mip_setter shift v h).mip) i ≡ (
        (if i == shift then bit v 0 else (bit h.mip.value i || bit h.mip.ext_seip i) && ltb i 64)
        || bit h.mip.ext_seip i)
unfolding mip_setter mip_get_uint64
bit-mip_setter shift v i h small =
    rw mip_set_frame (simp (bit_laws, bit-complement, bit-one) (ground arith))

get_mtip_lem : (h : Hart) → get_mtip h.mip ≡ bit (mip_get_uint64 h.mip) 7
unfolding get_mtip
get_mtip_lem h = to_bool-field 7 (mip_get_uint64 h.mip)

get_msip_lem : (h : Hart) → get_msip h.mip ≡ bit (mip_get_uint64 h.mip) 3
unfolding get_msip
get_msip_lem h = to_bool-field 3 (mip_get_uint64 h.mip)

mip_setter-HasLine : (shift v : ℕ) (h : Hart) → HasLine h → HasLine (mip_setter shift v h)
unfolding mip_setter
mip_setter-HasLine shift v h line = rw mip_set_frame line

-- The line does not reach the bits of the timer and of the software interrupt.
line_low : (h : Hart) → HasLine h → (bit h.mip.ext_seip 3 ≡ false) × (bit h.mip.ext_seip 7 ≡ false)
unfolding bit
line_low h (inl e) = rw e (refl, refl)
line_low h (inr e) = rw e (refl, refl)

mip_bits :
    (i : ℕ) (h : Hart) → bit (mip_get_uint64 h.mip) i ≡ (bit h.mip.value i || bit h.mip.ext_seip i)
unfolding mip_get_uint64
mip_bits i h = bit-bit_or h.mip.value h.mip.ext_seip i

pub timer-set_mtip : (v : ℕ) (h : Hart) → HasLine h → get_mtip (set_mtip v h).mip ≡ bit v 0
unfolding set_mtip
timer-set_mtip v h r = rw get_mtip_lem (ground (arith, bit-mip_setter 7 v 7 h, line_low h r))

pub software-set_mtip :
    (v : ℕ) (h : Hart) → HasLine h → get_msip (set_mtip v h).mip ≡ get_msip h.mip
unfolding set_mtip
software-set_mtip v h r =
    simp get_msip_lem (ground (arith, bit-mip_setter 7 v 3 h, line_low h r, mip_bits 3 h))

pub timer-set_msip : (v : ℕ) (h : Hart) → HasLine h → get_mtip (set_msip v h).mip ≡ get_mtip h.mip
unfolding set_msip
timer-set_msip v h r =
    simp get_mtip_lem (ground (arith, bit-mip_setter 3 v 7 h, line_low h r, mip_bits 7 h))

pub software-set_msip : (v : ℕ) (h : Hart) → HasLine h → get_msip (set_msip v h).mip ≡ bit v 0
unfolding set_msip
software-set_msip v h r = rw get_msip_lem (ground (arith, bit-mip_setter 3 v 3 h, line_low h r))

pub set_mtip-HasLine : (v : ℕ) (h : Hart) → HasLine h → HasLine (set_mtip v h)
unfolding set_mtip
set_mtip-HasLine = mip_setter-HasLine 7

pub set_msip-HasLine : (v : ℕ) (h : Hart) → HasLine h → HasLine (set_msip v h)
unfolding set_msip
set_msip-HasLine = mip_setter-HasLine 3

-- The hart's side of the interface.
abbrev pub hart_lines : MipLines Hart
hart_lines = record {
  set_mtip = set_mtip;
  set_msip = set_msip;
  timer = λ h. get_mtip h.mip;
  software = λ h. get_msip h.mip;
  IsReady = HasLine;
  timer-set_mtip = timer-set_mtip;
  software-set_mtip = software-set_mtip;
  timer-set_msip = timer-set_msip;
  software-set_msip = software-set_msip;
  set_mtip-IsReady = set_mtip-HasLine;
  set_msip-IsReady = set_msip-HasLine;
}

-- ===== src/Hart/Trap/Destination.antt =====
-- Which mode takes a trap.
use mpact_riscv.Common.{
  ℕ, ◌%◌, ◌^◌, ◌<◌, ◌≤◌, ◌≡◌, ◌⊎◌, arith, true, false, ◌==◌, if◌then◌else◌, bit_and, ap, ◌∙◌,
}
use mpact_riscv.Bits.{bit, bit_ext, bit-mod}
use mpact_riscv.Words.{to_bool, ◌<<<◌}
use mpact_riscv.Words.Laws.{to_bool-one_hot, bit-one_hot}
use mpact_riscv.Csr.Simple.{as_uint32, as_uint64}
use mpact_riscv.Hart.Defs.{Hart, k_user, k_supervisor, k_machine}
use mpact_riscv.Hart.Interrupt.{pending_enabled, supervisor_enabled}
use mpact_riscv.Hart.Interrupt.Check.{for_machine, for_supervisor, pending-codes, bit-pending}
use mpact_riscv.Hart.Trap.{destination_mode}

one_hot-word : (w c : ℕ) → c < w → (1 <<< c) % 2 ^ w ≡ 1 <<< c
one_hot-word w c h = bit_ext _ _ (λ i. simp (bit-mod, bit-one_hot) (ground arith))

-- A test of bit `c` of a delegation register.
to_bool-delegated : (w x c : ℕ) → c < w → to_bool (bit_and x ((1 <<< c) % 2 ^ w)) ≡ bit x c
to_bool-delegated w x c h =
    ap (λ (m : ℕ). to_bool (bit_and x m)) (one_hot-word w c h) ∙ to_bool-one_hot x c

-- An exception goes to machine mode, or, outside machine mode, to supervisor mode if it is delegated.
pub destination_mode_exception :
    (h : Hart) (code : ℕ)
    → code < 64
    → destination_mode false code h ≡ (
        if h.privilege_mode == k_machine
        then k_machine
        else if bit (as_uint64 h.medeleg) code
        then k_supervisor
        else k_machine)
unfolding destination_mode
destination_mode_exception h code small =
    ground (arith, to_bool-delegated 64 (as_uint64 h.medeleg) code small)

-- An interrupt goes where the delegation registers send it.
pub destination_mode_interrupt :
    (h : Hart) (code : ℕ)
    → code < 32
    → destination_mode true code h ≡ (
        if bit (as_uint32 h.mideleg) code
        then (if bit (as_uint32 h.sideleg) code then k_user else k_supervisor)
        else k_machine)
unfolding destination_mode
destination_mode_interrupt h code small = ground (
  arith,
  to_bool-delegated 32 (as_uint32 h.mideleg) code small,
  to_bool-delegated 32 (as_uint32 h.sideleg) code small,
)

pending-small : (h : Hart) (c : ℕ) → bit (pending_enabled h) c ≡ true → c < 32
pending-small h c set = ground (arith, pending-codes h c set)

-- What CheckForInterrupt may announce is taken by the mode that it was announced for.
pub destination_mode-for_machine :
    (h : Hart) (c : ℕ) → for_machine h c ≡ true → destination_mode true c h ≡ k_machine
destination_mode-for_machine h c e =
    ground (arith, destination_mode_interrupt h c, bit-pending h c, pending-small h c)

pub destination_mode-for_supervisor :
    (h : Hart) (c : ℕ) → for_supervisor h c ≡ true → destination_mode true c h ≡ k_supervisor
destination_mode-for_supervisor h c e =
    ground (arith, destination_mode_interrupt h c, bit-pending h c, pending-small h c)

-- The modes that exist.
abbrev pub IsPrivilegeMode : ℕ → Type 0
IsPrivilegeMode m = (m ≡ k_user) ⊎ ((m ≡ k_supervisor) ⊎ (m ≡ k_machine))

-- In each of the three modes, an exception is taken by no mode below the current one.
pub destination_mode-le_exception :
    (h : Hart) (code : ℕ)
    → code < 64
    → IsPrivilegeMode h.privilege_mode
    → h.privilege_mode ≤ destination_mode false code h
destination_mode-le_exception h code small mode =
    ground (arith, destination_mode_exception h code small)

-- In each of the three modes, an interrupt that may be taken is taken by no mode below the current one.
pub destination_mode-le_interrupt :
    (h : Hart) (c : ℕ)
    → IsPrivilegeMode h.privilege_mode
    → (for_machine h c ≡ true) ⊎ (for_supervisor h c ≡ true)
    → h.privilege_mode ≤ destination_mode true c h
unfolding supervisor_enabled
destination_mode-le_interrupt h c mode may =
    ground (arith, destination_mode-for_machine h c, destination_mode-for_supervisor h c)

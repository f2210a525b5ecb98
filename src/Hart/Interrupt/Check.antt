-- ===== src/Hart/Interrupt/Check.antt =====
-- CheckForInterrupt against a description of when an interrupt may be taken.
use mpact_riscv.Common.{
  sym, ◌∙◌, bit_and, ap, ℕ, ◌≡◌, ◌≢◌, ◌≤◌, arith, Bool, true, false, not, ◌&&◌,
}
use mpact_riscv.Bits.{bit_ext, bit-zero, bit-mod, bit, bit-bit_and}
use mpact_riscv.Words.{u32, complement}
use mpact_riscv.Words.Laws.{bit-complement}
use mpact_riscv.Csr.Simple.{as_uint32}
use mpact_riscv.Hart.Defs.{Hart}
use mpact_riscv.Hart.Interrupt.{
  u32, pick_interrupt, check_for_interrupt, pending_enabled, machine_enabled, supervisor_enabled,
  mip_as_uint32, mie_as_uint32, xip_read_mask,
}
use mpact_riscv.Hart.Interrupt.Pick.{OnlyCodes, bit-xip_read_mask, pick_interrupt_best, rank}

-- Interrupt `c` is pending and enabled, and not delegated while machine mode interrupts are taken.
abbrev pub for_machine : Hart → ℕ → Bool
for_machine h c =
    bit (mip_as_uint32 h.mip) c
    && bit (mie_as_uint32 h.mie) c
    && not (bit (as_uint32 h.mideleg) c)
    && machine_enabled h.privilege_mode h.mstatus

-- Or delegated to supervisor mode, no further, while supervisor mode interrupts are taken.
abbrev pub for_supervisor : Hart → ℕ → Bool
for_supervisor h c =
    bit (mip_as_uint32 h.mip) c
    && bit (mie_as_uint32 h.mie) c
    && bit (as_uint32 h.mideleg) c
    && not (bit (as_uint32 h.sideleg) c)
    && supervisor_enabled h.privilege_mode h.mstatus

-- The sets of interrupts that the function picks from.
m_set : Hart → ℕ
m_set h = bit_and (pending_enabled h) (complement 32 (as_uint32 h.mideleg))

s_set : Hart → ℕ
s_set h =
    bit_and (bit_and (pending_enabled h) (as_uint32 h.mideleg))
      (complement 32 (as_uint32 h.sideleg))

ne-zero_of_bit : (x c : ℕ) → bit x c ≡ true → x ≢ 0
ne-zero_of_bit x c set e = cc (ap (λ (t : ℕ). bit t c) e, bit-zero c)

pub bit-pending :
    (h : Hart) (c : ℕ)
    → bit (pending_enabled h) c ≡ (bit (mip_as_uint32 h.mip) c && bit (mie_as_uint32 h.mie) c)
unfolding pending_enabled
bit-pending h c = bit-bit_and _ _ c

pub pending-codes : (h : Hart) → OnlyCodes (pending_enabled h)
unfolding pending_enabled mie_as_uint32
pending-codes h i set =
    let masked = bit-bit_and (mip_as_uint32 h.mip) (mie_as_uint32 h.mie) i in
    let enabled = bit-mod 32 (bit_and (u32 h.mie) xip_read_mask) i in
    let readable = bit-bit_and (u32 h.mie) xip_read_mask i in
    bit-xip_read_mask i (ground (arith, masked, enabled, readable))

bit-m_set :
    (h : Hart) (c : ℕ)
    → bit (m_set h) c ≡ (
        bit (mip_as_uint32 h.mip) c
        && bit (mie_as_uint32 h.mie) c
        && not (bit (as_uint32 h.mideleg) c))
unfolding m_set
bit-m_set h c =
    rw (bit-bit_and, bit-complement) (ground (arith, bit-pending h c, pending-codes h c))

bit-s_set :
    (h : Hart) (c : ℕ)
    → bit (s_set h) c ≡ (
        bit (mip_as_uint32 h.mip) c
        && bit (mie_as_uint32 h.mie) c
        && bit (as_uint32 h.mideleg) c
        && not (bit (as_uint32 h.sideleg) c))
unfolding s_set
bit-s_set h c =
    rw (bit-bit_and, bit-bit_and, bit-complement)
      (ground (arith, bit-pending h c, pending-codes h c))

m_set-codes : (h : Hart) → OnlyCodes (m_set h)
m_set-codes h i set = pending-codes h i (ground (arith, bit-pending h i, bit-m_set h i))

s_set-codes : (h : Hart) → OnlyCodes (s_set h)
s_set-codes h i set = pending-codes h i (ground (arith, bit-pending h i, bit-s_set h i))

-- If machine mode may take some interrupt, an interrupt is announced: machine mode may take it, and
-- the first one does not go before it in the order of priorities.
pub check_machine :
    (h : Hart) (c : ℕ)
    → for_machine h c ≡ true
    → ((check_for_interrupt h).is_interrupt_available ≡ true)
      × (for_machine h (check_for_interrupt h).available_interrupt_code ≡ true)
      × (rank (check_for_interrupt h).available_interrupt_code ≤ rank c)
unfolding check_for_interrupt m_set
check_machine h c e =
    let in_set : bit (m_set h) c ≡ true = ground (arith, bit-m_set h c) in
    let best = pick_interrupt_best (m_set h) c (m_set-codes h) in_set in
    let some_pending = ne-zero_of_bit (pending_enabled h) c (ground (arith, bit-pending h c)) in
    let some_machine = ne-zero_of_bit (m_set h) c in_set in
    ground (arith, best, some_pending, some_machine, bit-m_set h (pick_interrupt (m_set h)))

zero_of_no_bits : (x : ℕ) → ((c : ℕ) → bit x c ≡ false) → x ≡ 0
zero_of_no_bits x clear = bit_ext x 0 (λ c. clear c ∙ sym (bit-zero c))

-- An empty set of interrupts, or a level that takes none.
no_machine_pick :
    (h : Hart)
    → ((i : ℕ) → for_machine h i ≡ false)
    → machine_enabled h.privilege_mode h.mstatus ≡ true
    → m_set h ≡ 0
no_machine_pick h none_machine on =
    zero_of_no_bits (m_set h) (λ i. ground (arith, bit-m_set h i, none_machine i))

no_supervisor_pick :
    (h : Hart)
    → ((i : ℕ) → for_supervisor h i ≡ false)
    → supervisor_enabled h.privilege_mode h.mstatus ≡ true
    → s_set h ≡ 0
no_supervisor_pick h none_supervisor on =
    zero_of_no_bits (s_set h) (λ i. ground (arith, bit-s_set h i, none_supervisor i))

-- If machine mode may take none and supervisor mode may take some interrupt, an interrupt is
-- announced: supervisor mode may take it, and the first one does not go before it in the order of
-- priorities.
pub check_supervisor :
    (h : Hart) (c : ℕ)
    → ((i : ℕ) → for_machine h i ≡ false)
    → for_supervisor h c ≡ true
    → ((check_for_interrupt h).is_interrupt_available ≡ true)
      × (for_supervisor h (check_for_interrupt h).available_interrupt_code ≡ true)
      × (rank (check_for_interrupt h).available_interrupt_code ≤ rank c)
unfolding check_for_interrupt s_set m_set
check_supervisor h c none_above e =
    let in_set : bit (s_set h) c ≡ true = ground (arith, bit-s_set h c) in
    let best = pick_interrupt_best (s_set h) c (s_set-codes h) in_set in
    let some_pending = ne-zero_of_bit (pending_enabled h) c (ground (arith, bit-pending h c)) in
    let some_supervisor = ne-zero_of_bit (s_set h) c in_set in
    let no_machine = no_machine_pick h none_above in
    ground (
      arith,
      best,
      some_pending,
      some_supervisor,
      no_machine,
      bit-s_set h (pick_interrupt (s_set h)),
    )

-- If neither machine mode nor supervisor mode may take any interrupt, CheckForInterrupt leaves the
-- hart unchanged.
pub check_none :
    (h : Hart)
    → ((i : ℕ) → for_machine h i ≡ false)
    → ((i : ℕ) → for_supervisor h i ≡ false)
    → check_for_interrupt h ≡ h
unfolding check_for_interrupt s_set m_set
check_none h none_machine none_supervisor =
    ground (arith, no_machine_pick h none_machine, no_supervisor_pick h none_supervisor)

-- ===== src/Hart/Trap/Taken.antt =====
-- What a trap leaves on a hart of 64 bits, in every mode that may take it.
use mpact_riscv.Common.{
  ℕ, ◌⊎◌, ◌+◌, ◌*◌, ◌/◌, ◌%◌, ◌^◌, ◌<◌, ◌≡◌, refl, ap, ◌∙◌, arith, Bool, true, false, ◌&&◌, ◌||◌,
  ◌==◌, ◌/=◌, ◌-◌, leb, bit_or, if◌then◌else◌, bit_and, Bool-cases, inl, inr,
}
use native.Mathlib.Nat.{mod-eq_of_lt}
use mpact_riscv.Bits.{bit, bit_ext, bit-bit_and, bit-bit_or, bit-mod, bit-shl, bit-shr, bit-ones}
use mpact_riscv.Words.{IsWord, complement}
use mpact_riscv.Words.Halves.{bit_and-ones}
use mpact_riscv.Words.Laws.{bit-above, bit-complement, bit-one_hot}
use mpact_riscv.Csr.Simple.{
  SimpleCsr, as_uint32, as_uint64, get_uint64, set, set_bits64, write64, word_max,
}
use mpact_riscv.Hart.Defs.{Hart, Env, rv64, k_user, k_supervisor, k_machine}
use mpact_riscv.Hart.Status.Fields.{is_kept}
use mpact_riscv.Hart.Trap.{take_trap, destination_mode, trap_target, set_cause}
use mpact_riscv.Hart.Trap.Status.{IsIdle, IsMode, bit-enter_machine, bit-enter_supervisor}
use mpact_riscv.Hart.Trap.Effects.{take_trap-TakenByMachine, take_trap-TakenBySupervisor}
use mpact_riscv.Hart.Trap.Destination.{destination_mode_exception, destination_mode_interrupt}

-- The vector, the pc, the trap value and the cause registers have 64 bits, and all bits of the cause are writable.
abbrev pub IsCause : SimpleCsr → Type 0
IsCause c = (c.width ≡ 64) × (c.write_mask ≡ word_max 64)

bit-set_cause :
    (is_interrupt : Bool) (code : ℕ) (c : SimpleCsr) (i : ℕ)
    → IsCause c
    → code < 2 ^ 32
    → bit (set_cause rv64 is_interrupt code c).value i ≡ ((is_interrupt && i == 63) || bit code i)
unfolding set_cause set_bits64 write64 set get_uint64
bit-set_cause false code c i plain small =
    let below : code < 2 ^ 64 = omega (arith, small) in
    rw plain.0 (ap (λ t. bit t i) (mod-eq_of_lt below))
bit-set_cause true code c i plain small =
    let below : code < 2 ^ 64 = omega (arith, small) in
    let cut : code % 2 ^ 64 ≡ code = mod-eq_of_lt below in
    let high = bit_and (bit_or code (2 ^ 63) % 2 ^ 64) (word_max 64) in
    let low = bit_and code (complement 64 (word_max 64)) in
    rw
      (
        plain.0,
        plain.1,
        cut,
        bit-mod 64 (bit_or high low) i,
        bit-bit_or high low i,
        bit-bit_and (bit_or code (2 ^ 63) % 2 ^ 64) (word_max 64) i,
        bit-mod 64 (bit_or code (2 ^ 63)) i,
        bit-bit_or code (2 ^ 63) i,
        bit-bit_and code (complement 64 (word_max 64)) i,
        bit-complement 64 (word_max 64) i,
        bit-ones 64 i,
        bit-one_hot 63 i,
      )
      (ground (arith, bit-above 64 code i below))

-- The target of a vector register: its base, four bytes per code further if it is vectored.
abbrev pub vector_of : ℕ → ℕ → ℕ
vector_of v code = (v / 4 * 4 + (if v % 4 == 1 then 4 * code else 0)) % 2 ^ 64

aligned : (v : ℕ) → IsWord 64 v → bit_and v (complement 64 3) ≡ v / 4 * 4
aligned v word = bit_ext _ _ (λ i.
    rw
      (
        bit-bit_and v (complement 64 3) i,
        bit-complement 64 3 i,
        bit-ones 2 i,
        bit-shl 2 (v / 4) i,
        bit-shr 2 v (i - 2),
      )
      (elim (Bool-cases (leb 2 i)) [
        | inl above ↦
            let e : i - 2 + 2 ≡ i = ground (arith, above) in
            rw e (ground (arith, above, bit-above 64 v i word))
        | inr below ↦ ground (arith, below)
      ]))

trap_target-vector_of :
    (tvec : SimpleCsr) (code : ℕ)
    → IsWord 64 (as_uint64 tvec)
    → trap_target tvec code ≡ vector_of (as_uint64 tvec) code
unfolding trap_target
trap_target-vector_of tvec code word =
    let v = as_uint64 tvec in
    let low : bit_and v 3 ≡ v % 4 = bit_and-ones 2 v in
    let cut : v / 4 * 4 < 2 ^ 64 = omega (arith, word) in
    rw (low, aligned v word)
      (elim (Bool-cases (v % 4 == 1)) [
        | inl vectored ↦ rw vectored refl
        | inr direct ↦ rw direct (omega (arith, mod-eq_of_lt cut))
      ])

-- The mode that takes a trap: an interrupt that the delegation registers of machine mode and of supervisor
-- mode delegate goes to user mode, which takes none.
abbrev pub taker : Bool → ℕ → Hart → ℕ
taker is_interrupt code h =
    if is_interrupt
    then (if bit (as_uint32 h.mideleg) code
        then (if bit (as_uint32 h.sideleg) code then k_user else k_supervisor)
        else k_machine)
    else if h.privilege_mode /= k_machine && bit (as_uint64 h.medeleg) code
    then k_supervisor
    else k_machine

destination_mode-taker :
    (is_interrupt : Bool) (code : ℕ) (h : Hart)
    → code < 32
    → destination_mode is_interrupt code h ≡ taker is_interrupt code h
destination_mode-taker false code h small = ground (arith, destination_mode_exception h code, small)
destination_mode-taker true code h small = destination_mode_interrupt h code small

taker-cases :
    (is_interrupt : Bool) (code : ℕ) (h : Hart)
    → (taker is_interrupt code h ≡ k_machine)
      ⊎ ((taker is_interrupt code h ≡ k_supervisor) ⊎ (taker is_interrupt code h ≡ k_user))
taker-cases is_interrupt code h = ground arith

-- A hart of 64 bits, with 64-bit trap registers.
pub record IsHart64 (h : Hart) : Type 0 where
  pub xlen : h.xlen ≡ rv64
  pub mtvec : IsWord 64 (as_uint64 h.mtvec)
  pub stvec : IsWord 64 (as_uint64 h.stvec)
  pub mepc : h.mepc.width ≡ 64
  pub mtval : h.mtval.width ≡ 64
  pub mcause : IsCause h.mcause
  pub sepc : h.sepc.width ≡ 64
  pub stval : h.stval.width ≡ 64
  pub scause : IsCause h.scause

-- mstatus after a trap to machine mode and to supervisor mode, bit by bit.
abbrev pub machine_status : Hart → ℕ → Bool
machine_status h i =
    if i == 3
    then false
    else if i == 7
    then bit h.mstatus.value 3
    else if i == 11
    then bit h.privilege_mode 0
    else if i == 12
    then bit h.privilege_mode 1
    else bit h.mstatus.value i && is_kept i

abbrev pub supervisor_status : Hart → ℕ → Bool
supervisor_status h i =
    if i == 1
    then false
    else if i == 5
    then bit h.mstatus.value 1
    else if i == 8
    then bit h.privilege_mode 0
    else bit h.mstatus.value i && is_kept i

-- The value for the mode `to`: the first one in machine mode, the second one in supervisor mode, and the last
-- one where no mode takes the trap.
abbrev pub taken {ℓ} : {A : Type ℓ} → ℕ → A → A → A → A
taken to machine supervisor untaken =
    if to == k_machine then machine else if to == k_supervisor then supervisor else untaken

-- A hart after a trap.
pub record Taken (is_interrupt : Bool) (trap_value code epc : ℕ) (h r : Hart) : Type 0 where
  pub mode :
      r.privilege_mode ≡ taken (taker is_interrupt code h) k_machine k_supervisor h.privilege_mode
  pub pc :
      r.regs.pc
      ≡ taken
          (taker is_interrupt code h)
          (vector_of (as_uint64 h.mtvec) code)
          (vector_of (as_uint64 h.stvec) code)
          h.regs.pc
  pub mepc :
      r.mepc.value ≡ taken (taker is_interrupt code h) (epc % 2 ^ 64) h.mepc.value h.mepc.value
  pub mtval :
      r.mtval.value
      ≡ taken (taker is_interrupt code h) (trap_value % 2 ^ 64) h.mtval.value h.mtval.value
  pub mcause :
      (i : ℕ)
      → bit r.mcause.value i
        ≡ taken
            (taker is_interrupt code h)
            ((is_interrupt && i == 63) || bit code i)
            (bit h.mcause.value i)
            (bit h.mcause.value i)
  pub sepc :
      r.sepc.value ≡ taken (taker is_interrupt code h) h.sepc.value (epc % 2 ^ 64) h.sepc.value
  pub stval :
      r.stval.value
      ≡ taken (taker is_interrupt code h) h.stval.value (trap_value % 2 ^ 64) h.stval.value
  pub scause :
      (i : ℕ)
      → bit r.scause.value i
        ≡ taken
            (taker is_interrupt code h)
            (bit h.scause.value i)
            ((is_interrupt && i == 63) || bit code i)
            (bit h.scause.value i)
  pub status :
      (i : ℕ)
      → bit r.mstatus.value i
        ≡ taken
            (taker is_interrupt code h)
            (machine_status h i)
            (supervisor_status h i)
            (bit h.mstatus.value i)

set_value : (c : SimpleCsr) (v : ℕ) → c.width ≡ 64 → (set c v).value ≡ v % 2 ^ 64
unfolding set
set_value c v wide = rw wide refl

take_trap-untaken :
    (env : Env) (is_interrupt : Bool) (trap_value code epc : ℕ) (h : Hart)
    → destination_mode is_interrupt code h ≡ k_user
    → take_trap env is_interrupt trap_value code epc h ≡ h
unfolding take_trap
take_trap-untaken env is_interrupt trap_value code epc h to = rw to refl

module _ (env : Env) (is_interrupt : Bool) (trap_value code epc : ℕ) (h : Hart) (small : code < 32)
    (wide : IsHart64 h) (idle : IsIdle h.mstatus) where
  abbrev after : Hart
  after = take_trap env is_interrupt trap_value code epc h

  abbrev to_is :
      (mode : ℕ) → taker is_interrupt code h ≡ mode → destination_mode is_interrupt code h ≡ mode
  to_is mode e = destination_mode-taker is_interrupt code h small ∙ e

  machine-Taken :
      IsMode h
      → taker is_interrupt code h ≡ k_machine
      → Taken is_interrupt trap_value code epc h after
  machine-Taken existing e =
      let t = take_trap-TakenByMachine env is_interrupt trap_value code epc h (to_is k_machine e) in
      record {
        mode = rw e t.mode;
        pc = rw e (t.pc ∙ rw wide.xlen (trap_target-vector_of h.mtvec code wide.mtvec));
        mepc = rw e (ap (λ c. c.value) t.epc_saved ∙ set_value h.mepc epc wide.mepc);
        mtval = rw e (ap (λ c. c.value) t.value_saved ∙ set_value h.mtval trap_value wide.mtval);
        mcause = λ i. rw e (
            ap (λ c. bit c.value i) t.cause_saved
            ∙ rw wide.xlen
                (bit-set_cause is_interrupt code h.mcause i wide.mcause (omega (arith, small))));
        sepc = rw e (ap (λ c. c.value) t.supervisor_kept.0);
        stval = rw e (ap (λ c. c.value) t.supervisor_kept.1);
        scause = λ i. rw e (ap (λ c. bit c.value i) t.supervisor_kept.2);
        status = λ i. rw e (ap (λ m. bit m.value i) t.status ∙ bit-enter_machine h i idle existing);
      }

  supervisor-Taken :
      taker is_interrupt code h ≡ k_supervisor → Taken is_interrupt trap_value code epc h after
  supervisor-Taken e =
      let t =
        take_trap-TakenBySupervisor env is_interrupt trap_value code epc h (to_is k_supervisor e) in
      record {
        mode = rw e t.mode;
        pc = rw e (t.pc ∙ rw wide.xlen (trap_target-vector_of h.stvec code wide.stvec));
        mepc = rw e (ap (λ c. c.value) t.machine_kept.0);
        mtval = rw e (ap (λ c. c.value) t.machine_kept.1);
        mcause = λ i. rw e (ap (λ c. bit c.value i) t.machine_kept.2);
        sepc = rw e (ap (λ c. c.value) t.epc_saved ∙ set_value h.sepc epc wide.sepc);
        stval = rw e (ap (λ c. c.value) t.value_saved ∙ set_value h.stval trap_value wide.stval);
        scause = λ i. rw e (
            ap (λ c. bit c.value i) t.cause_saved
            ∙ rw wide.xlen
                (bit-set_cause is_interrupt code h.scause i wide.scause (omega (arith, small))));
        status = λ i. rw e (ap (λ m. bit m.value i) t.status ∙ bit-enter_supervisor h i idle);
      }

  untaken-Taken :
      taker is_interrupt code h ≡ k_user → Taken is_interrupt trap_value code epc h after
  untaken-Taken e =
      let same = take_trap-untaken env is_interrupt trap_value code epc h (to_is k_user e) in
      record {
        mode = rw e (ap (λ r. r.privilege_mode) same);
        pc = rw e (ap (λ r. r.regs.pc) same);
        mepc = rw e (ap (λ r. r.mepc.value) same);
        mtval = rw e (ap (λ r. r.mtval.value) same);
        mcause = λ i. rw e (ap (λ r. bit r.mcause.value i) same);
        sepc = rw e (ap (λ r. r.sepc.value) same);
        stval = rw e (ap (λ r. r.stval.value) same);
        scause = λ i. rw e (ap (λ r. bit r.scause.value i) same);
        status = λ i. rw e (ap (λ r. bit r.mstatus.value i) same);
      }

  -- The default behaviour of a trap with a code below 32, on a hart of 64 bits with 64-bit trap registers,
  -- whose mode is one of its misa and on which no write of mstatus waits. The delegation
  -- registers and the mode of the hart say which mode takes it, and a trap that user mode would take has no
  -- effect on these registers. The mode that takes it gets the hart: the pc is the base of its vector, and
  -- four bytes per code further if that is vectored; its epc, tval and cause registers hold the saved pc,
  -- the trap value, and the code with bit 63 for an interrupt; those of the other mode stay. In mstatus
  -- the interrupt enable of the mode moves to its previous enable and is cleared, the previous mode is the one that was
  -- left, and of the other bits only the writable ones, sxl and uxl keep their values.
  pub take_trap-Taken : IsMode h → Taken is_interrupt trap_value code epc h after
  take_trap-Taken existing = elim (taker-cases is_interrupt code h) [
    | inl machine ↦ machine-Taken existing machine
    | inr (inl supervisor) ↦ supervisor-Taken supervisor
    | inr (inr user) ↦ untaken-Taken user
  ]

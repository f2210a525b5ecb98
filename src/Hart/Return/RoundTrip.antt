-- ===== src/Hart/Return/RoundTrip.antt =====
-- A return undoes the trap before it.
use mpact_riscv.Common.{
  subst, ltb, ◌&&◌, ℕ, ◌+◌, ◌<◌, ◌≡◌, refl, arith, Bool, true, false, ◌==◌, ◌||◌, if◌then◌else◌, ap,
  ◌∙◌, sym,
}
use mpact_riscv.Bits.{bit-ones, bit-bit_and, bit, bit_ext, bit-mod, bit_laws}
use mpact_riscv.Words.{IsWord, field}
use mpact_riscv.Words.Laws.{bit-above}
use mpact_riscv.Csr.Simple.{get_uint64, SimpleCsr, as_uint64, set, word_max}
use mpact_riscv.Hart.Defs.{Hart, Env, MStatus, k_machine}
use mpact_riscv.Hart.Interrupt.{getter}
use mpact_riscv.Hart.Status.{get_mpp}
use mpact_riscv.Hart.Status.Fields.{submitted, is_kept, submit_frame, bit-three}
use mpact_riscv.Hart.Trap.{take_trap, destination_mode, enter_machine}
use mpact_riscv.Hart.Trap.Status.{IsIdle, IsMode, bit-enter_machine, machine_writable}
use mpact_riscv.Hart.Trap.Effects.{take_trap-TakenByMachine}
use mpact_riscv.Hart.Return.{mret64, return_to, leave_machine}
use mpact_riscv.Hart.Return.Status.{bit-leave_machine}

-- mstatus after a trap: idle again, and the mode that was left.
submitted-IsIdle : (m : MStatus) → IsIdle (submitted m)
submitted-IsIdle m = record { no_buffer = refl; no_mask = refl }

bit-get_mpp : (m : MStatus) (i : ℕ) → bit (get_mpp m) i ≡ (bit m.value (i + 11) && ltb i 2)
unfolding get_mpp getter field
bit-get_mpp m i = simp (bit_laws, bit-three)

split_two :
    (x i : ℕ) (b c : Bool)
    → x < 4
    → ((if i + 11 == 3
          then false
          else if i + 11 == 7
          then b
          else if i + 11 == 11
          then bit x 0
          else if i + 11 == 12
          then bit x 1
          else c)
        && ltb i 2)
      ≡ bit x i
split_two x i b c small = ground (arith, bit-above 2 x i small)

mpp-enter_machine :
    (h : Hart)
    → IsIdle h.mstatus
    → IsMode h
    → h.privilege_mode < 4
    → get_mpp (submitted (enter_machine h)) ≡ h.privilege_mode
mpp-enter_machine h idle mode small = bit_ext _ _ λ i.
    bit-get_mpp (submitted (enter_machine h)) i
    ∙ rw (bit-enter_machine h (i + 11) idle mode) (
        split_two h.privilege_mode i (bit h.mstatus.value 3)
          (bit h.mstatus.value (i + 11) && is_kept (i + 11)) small)

-- A pc that is written to an xepc register of a 64-bit hart reads back.
as_uint64-set :
    (c : SimpleCsr) (v : ℕ)
    → c.width ≡ 64
    → c.read_mask ≡ word_max 64
    → IsWord 64 v
    → as_uint64 (set c v) ≡ v
unfolding as_uint64 set get_uint64
as_uint64-set c v w r fits =
    rw (w, r)
      (bit_ext _ _
        λ i. simp (bit-bit_and, bit-mod) (ground (arith, bit-ones 64 i, bit-above 64 v i fits)))

-- Where a return leaves the hart, up to the interrupt that the write of mstatus may announce.
record Returned (target mode : ℕ) (m : MStatus) (r : Hart) : Type 0 where
  mode_set : r.privilege_mode ≡ mode
  jumped : r.regs.pc ≡ target
  status : r.mstatus ≡ submitted m

return_to-Returned :
    (target mode : ℕ) (m : MStatus) (h : Hart) → Returned target mode m (return_to target mode m h)
unfolding return_to
return_to-Returned target mode m h =
    let before : Hart = record h {
      regs = record (h.regs) { pc = target };
      branch = true;
      mstatus = m;
      privilege_mode = mode;
      interrupt_returns = h.interrupt_returns + 1;
    } in
    let f = submit_frame before in ground (arith, f)

mret64-Returned :
    (env : Env) (address : ℕ) (h : Hart)
    → h.privilege_mode ≡ k_machine
    → Returned (as_uint64 h.mepc) (get_mpp h.mstatus) (leave_machine h) (mret64 env address h)
unfolding mret64
mret64-Returned env address h mode =
    ground
      (arith, mode, return_to-Returned (as_uint64 h.mepc) (get_mpp h.mstatus) (leave_machine h) h)

mie_kept : (i : ℕ) → i ≡ 3 → is_kept i ≡ true
mie_kept i e = rw (e, machine_writable.0) refl

-- mret straight after a trap that machine mode takes, with a saved pc of 64 bits, on a hart whose mode is a
-- mode of its misa and has two bits,
-- with no write of mstatus pending and an mepc of 64 readable bits: it goes back to the pc and the
-- mode of the trap, sets mpie and makes mpp user mode. Of mstatus it restores the other writable bits and
-- the fields sxl and uxl; all bits beside these are cleared, whatever they were before the trap.
pub mret64-take_trap :
    (env : Env) (is_interrupt : Bool) (trap_value code epc address : ℕ) (h : Hart)
    → destination_mode is_interrupt code h ≡ k_machine
    → IsIdle h.mstatus
    → IsMode h
    → h.privilege_mode < 4
    → h.mepc.width ≡ 64
    → h.mepc.read_mask ≡ word_max 64
    → IsWord 64 epc
    → let r = mret64 env address (take_trap env is_interrupt trap_value code epc h) in
      (r.privilege_mode ≡ h.privilege_mode)
      × (r.regs.pc ≡ epc)
      × ((i : ℕ)
          → bit r.mstatus.value i ≡ (
              if i == 7
              then true
              else if i == 11 || i == 12
              then false
              else bit h.mstatus.value i && is_kept i))
mret64-take_trap env is_interrupt trap_value code epc address h to idle mode small wide full fits =
    let t = take_trap env is_interrupt trap_value code epc h in
    let taken = take_trap-TakenByMachine env is_interrupt trap_value code epc h to in
    let back = mret64-Returned env address t taken.mode in
    let t_idle : IsIdle t.mstatus =
      subst IsIdle (sym taken.status) (submitted-IsIdle (enter_machine h)) in
    (
      back.mode_set ∙ ap get_mpp taken.status ∙ mpp-enter_machine h idle mode small,
      back.jumped ∙ ap as_uint64 taken.epc_saved ∙ as_uint64-set h.mepc epc wide full fits,
      λ i.
          ap (λ m. bit m.value i) back.status
          ∙ bit-leave_machine t i t_idle
          ∙ ap
              (λ m.
                if i == 3
                then bit m.value 7
                else if i == 7
                then true
                else if i == 11
                then false
                else if i == 12
                then false
                else bit m.value i && is_kept i)
              taken.status
          ∙ ground
              (arith, bit-enter_machine h 7 idle mode, bit-enter_machine h i idle mode, mie_kept i),
    )

-- ===== src/Hart/Interrupt.antt =====
-- CheckForInterrupt and PickInterrupt of riscv/riscv_state.cc, and the reads that they make of mip,
-- mie and mstatus (riscv/riscv_xip_xie.cc, riscv/riscv_xstatus.h).
pub mod Pick
pub mod Check
use mpact_riscv.Common.{
  bit_and, bit_or, ℕ, Bool, true, ◌&&◌, ◌||◌, not, ◌==◌, ◌/=◌, ltb, if◌then◌else◌,
}
use mpact_riscv.Words.{u32, complement, to_bool, field, ◌<<<◌}
use mpact_riscv.Csr.Simple.{as_uint32}
use mpact_riscv.Hart.Defs.{Hart, MStatus, MIp, k_user, k_supervisor, k_machine}
use mpact_riscv.Hart.Code

-- The read mask of mip and of mie.
abbrev pub xip_read_mask : ℕ
xip_read_mask = 0b1011_1011_1011

unfoldable pub mip_get_uint64 : MIp → ℕ
mip_get_uint64 p = bit_or p.value p.ext_seip

unfoldable pub mip_as_uint32 : MIp → ℕ
mip_as_uint32 p = u32 (bit_and (u32 (mip_get_uint64 p)) xip_read_mask)

unfoldable pub mie_as_uint32 : ℕ → ℕ
mie_as_uint32 value = u32 (bit_and (u32 value) xip_read_mask)

-- GetterHelper of RiscVMStatus, and the fields read here.
unfoldable pub getter : ℕ → ℕ → MStatus → ℕ
getter shift mask m = field shift mask m.value

unfoldable pub get_mie : MStatus → Bool
get_mie m = to_bool (getter 3 1 m)

unfoldable pub get_sie : MStatus → Bool
get_sie m = to_bool (getter 1 1 m)

unfoldable pub get_uie : MStatus → Bool
get_uie m = to_bool (getter 0 1 m)

-- `interrupts & (1 << code)`.
unfoldable pub has : ℕ → ℕ → Bool
has interrupts code = to_bool (bit_and interrupts (1 <<< code))

unfoldable pub pick_interrupt : ℕ → ℕ
pick_interrupt is =
    if has is Code.machine_external
    then Code.machine_external
    else if has is Code.machine_software
    then Code.machine_software
    else if has is Code.machine_timer
    then Code.machine_timer
    else if has is Code.supervisor_external
    then Code.supervisor_external
    else if has is Code.supervisor_software
    then Code.supervisor_software
    else if has is Code.supervisor_timer
    then Code.supervisor_timer
    else if has is Code.user_external
    then Code.user_external
    else if has is Code.user_software
    then Code.user_software
    else if has is Code.user_timer
    then Code.user_timer
    else Code.none

-- Whether interrupts are enabled at each level.
unfoldable pub machine_enabled : ℕ → MStatus → Bool
machine_enabled mode m = mode /= k_machine || get_mie m

unfoldable pub supervisor_enabled : ℕ → MStatus → Bool
supervisor_enabled mode m = (ltb mode k_supervisor || get_sie m) && mode /= k_machine

unfoldable pub user_enabled : ℕ → MStatus → Bool
user_enabled mode m = get_uie m && mode == k_user

abbrev available : Hart → ℕ → Hart
available h code = record h { available_interrupt_code = code; is_interrupt_available = true }

unfoldable pub pending_enabled : Hart → ℕ
pending_enabled h = bit_and (mip_as_uint32 h.mip) (mie_as_uint32 h.mie)

unfoldable pub check_for_interrupt : Hart → Hart
check_for_interrupt h =
    let interrupts = pending_enabled h in
    let m_interrupts = bit_and interrupts (complement 32 (as_uint32 h.mideleg)) in
    let delegated = bit_and interrupts (as_uint32 h.mideleg) in
    let s_interrupts = bit_and delegated (complement 32 (as_uint32 h.sideleg)) in
    let mie = machine_enabled h.privilege_mode h.mstatus in
    let sie = supervisor_enabled h.privilege_mode h.mstatus in
    let uie = user_enabled h.privilege_mode h.mstatus in
    if interrupts == 0
    then h
    else if not (mie || sie || uie)
    then h
    else if mie && m_interrupts /= 0
    then available h (pick_interrupt m_interrupts)
    else if sie && s_interrupts /= 0
    then available h (pick_interrupt s_interrupts)
    -- A user mode interrupt is logged as not supported, and none is made available.
    else h

-- ===== src/Hart/Code.antt =====
-- InterruptCode of riscv/riscv_state.h, and the values of ExceptionCode that the modelled code raises.
use mpact_riscv.Common.{ℕ, ◌-◌, ◌^◌}

abbrev pub user_software : ℕ
user_software = 0

abbrev pub supervisor_software : ℕ
supervisor_software = 1

abbrev pub machine_software : ℕ
machine_software = 3

abbrev pub user_timer : ℕ
user_timer = 4

abbrev pub supervisor_timer : ℕ
supervisor_timer = 5

abbrev pub machine_timer : ℕ
machine_timer = 7

abbrev pub user_external : ℕ
user_external = 8

abbrev pub supervisor_external : ℕ
supervisor_external = 9

abbrev pub machine_external : ℕ
machine_external = 11

abbrev pub none : ℕ
none = 2 ^ 64 - 1

-- ExceptionCode.
abbrev pub instruction_address_misaligned : ℕ
instruction_address_misaligned = 0

abbrev pub illegal_instruction : ℕ
illegal_instruction = 2

abbrev pub breakpoint : ℕ
breakpoint = 3

abbrev pub load_access_fault : ℕ
load_access_fault = 5

abbrev pub store_access_fault : ℕ
store_access_fault = 7

abbrev pub env_call_from_u_mode : ℕ
env_call_from_u_mode = 8

abbrev pub env_call_from_s_mode : ℕ
env_call_from_s_mode = 9

abbrev pub env_call_from_m_mode : ℕ
env_call_from_m_mode = 11

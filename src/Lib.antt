-- ===== src/Lib.antt =====
-- A model of the RISC-V simulator in riscv/: its control and status registers, its traps and
-- interrupts, its two interrupt controllers, and its integer, multiplication, bit manipulation and register
-- instructions, with the theorems on them.
--
-- The program. A hart (RiscVState of riscv/riscv_state.h) keeps a set of control and status registers,
-- raises and returns from traps, and looks for pending interrupts whenever a register that decides on
-- them is written. A core level interrupt controller (riscv/riscv_clint.cc) counts time and drives the
-- timer and the software interrupt of the hart, and a platform level interrupt controller
-- (riscv/riscv_plic.cc) takes the requests of devices and raises lines of contexts.
--
-- The files.
--   Common, Bits, Words: numbers as words, the bits of a number, and the laws that the parts share.
--   Csr/Simple: RiscVSimpleCsr of riscv/riscv_csr.h and the data buffers of riscv/riscv_csr.cc.
--   Csr/Set: RiscVCsrSet of riscv/riscv_csr.cc.
--   Csr/Counter: the counter registers of riscv/riscv_counter_csr.h.
--   Hart/Defs, Hart/Code: the state of riscv/riscv_state.h and its codes. Hart/Misa: riscv/riscv_misa.cc.
--   Hart/Status: mstatus of riscv/riscv_xstatus.h and .cc, and Hart/Substatus its views sstatus and
--     ustatus. Hart/Pending: mip, mie and the views of
--     supervisor mode, of riscv/riscv_xip_xie.h and .cc.
--   Hart/Interrupt: CheckForInterrupt and PickInterrupt. Hart/Trap: Trap, TakeAvailableInterrupt, ECall,
--     EBreak, WFI and Cease of riscv/riscv_state.cc.
--   Hart/Return: mret, sret and sfence.vma of riscv/riscv_priv_instructions.cc.
--   Clint: the whole of riscv/riscv_clint.cc. Clint/Lines is the interface to a hart, and Clint/Hart
--     fills it with the pending bits of the modelled hart.
--   Plic: riscv/riscv_plic.cc. Plic/Defs is the state, Plic/Config the configuration, Plic/Map the
--     memory mapped registers, Plic itself the requests, claims and completions.
--   Muldiv: riscv/riscv_m_instructions.cc, as functions on words.
--   Integer: riscv/riscv_i_instructions.cc and riscv/riscv_zicond_instructions.cc with the helpers of
--     riscv/riscv_instruction_helpers.h: Integer computes, Integer/Control jumps and branches,
--     Integer/Memory loads and stores, with LoadMemory and StoreMemory of riscv/riscv_state.cc.
--   Bitmanip: riscv/riscv_bitmanip_instructions.cc, and Bitmanip/Basic riscv/riscv_b_instructions.cc.
--   Convert: the conversion of floating point numbers to integers, RiscVConvertFloatWithFflagsOp of
--     riscv/riscv_instruction_helpers.h.
--   Vector: the vector configuration of riscv/riscv_vector_state.h and .cc, and Vsetvl of
--     riscv/riscv_vector_memory_instructions.cc. Vector/Loop and Vector/Mask are the loops over elements of
--     riscv/riscv_vector_instruction_helpers.h, Vector/Fixed the arithmetic of elements, Vector/Opi and
--     Vector/Opm the instructions of riscv/riscv_vector_opi_instructions.cc and
--     riscv/riscv_vector_opm_instructions.cc, Vector/Permute and Vector/Reduction those of
--     riscv/riscv_vector_permute_instructions.cc and riscv/riscv_vector_reduction_instructions.cc,
--     Vector/Unary and Vector/Basic those of riscv/riscv_vector_unary_instructions.cc and
--     riscv/riscv_vector_basic_bit_manipulation_instructions.cc.
--   Zcmp: the pushes, pops and table jumps of riscv/riscv_zc_instructions.cc, over the memory of Integer,
--     and Zcmp/Jvt the register of riscv/riscv_jvt.h.
--   Atomic: riscv/riscv_a_instructions.cc, over an interface of the atomic memory.
--   Zicsr: riscv/riscv_zicsr_instructions.cc, over the hart and an interface of its registers.
--   Tests: runs at concrete inputs.
--
-- Conventions. A w-bit word is a native number below 2 ^ w, and wrap-around is written out. State is
-- passed and returned. An array is a function with its size, and an access out of range, which C++ leaves
-- undefined, is `none`. A loop over a container is a recursion on its list,
-- and a counted loop one on the number of its rounds, so nothing needs fuel. A
-- callback, the data buffer delay line and the lines of the hart are parameters.
--
-- Not modelled. The compressed instructions but the pushes, the pops and the table jumps; the counts of
-- zeros and ones of the scalar instructions, which are calls of a library outside the repository; the
-- fences, which do nothing; of the vector instructions the loads, the stores, viota, vid and those of
-- floating point; the scalar floating point instructions but the conversion to integers; the decoders,
-- which a generator outside the repository makes; the debug shell, semihosting, and the programs that
-- wire the parts together. Text, logging and the parsing of the configuration
-- strings of the platform level controller are left out: the configuration is the list of its numbers.
pub mod Common
pub mod Bits
pub mod Words
pub mod Csr
pub mod Hart
pub mod Clint
pub mod Plic
pub mod Muldiv
pub mod Zicsr
pub mod Bitmanip
pub mod Integer
pub mod Convert
pub mod Vector
pub mod Zcmp
pub mod Atomic
pub mod Tests

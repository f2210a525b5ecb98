-- ===== src/Tests/Samples.antt =====
-- The states that the tests run from.
use mpact_riscv.Common.{ℕ, ◌-◌, ◌^◌, true, false, none, some, [], ◌∷◌}
use mpact_riscv.Csr.Simple.{SimpleCsr}
use mpact_riscv.Hart.Defs.{Hart, Env, rv64}
use mpact_riscv.Plic.Defs.{Plic}

abbrev pub plain : ℕ → SimpleCsr
plain v = record { width = 64; value = v; read_mask = 2 ^ 64 - 1; write_mask = 2 ^ 64 - 1 }

-- A register with four writable bits.
abbrev pub masked : SimpleCsr
masked = record { width = 64; value = 0xa5; read_mask = 0xff; write_mask = 0x0f }

-- A 64-bit hart in machine mode with the timer interrupt pending and enabled.
abbrev pub hart : Hart
hart = record {
  xlen = rv64;
  privilege_mode = 3;
  mstatus = record { value = 0x8; buffer = 0; buffer_mask = 0 };
  misa = 0x8000_0000_0014_1105;
  mip = record { value = 0x80; ext_seip = 0 };
  mie = 0x80;
  medeleg = plain 0;
  mideleg = plain 0;
  sideleg = plain 0;
  mepc = plain 0;
  mcause = plain 0;
  mtvec = plain 0x1001;
  mtval = plain 0;
  sepc = plain 0;
  scause = plain 0;
  stvec = plain 0x2000;
  stval = plain 0;
  minstret = some (record { width = 64; counter = some 7; offset = 0 });
  regs = record { pc = 0x100; x = λ r. 0 };
  branch = false;
  is_interrupt_available = false;
  available_interrupt_code = 2 ^ 64 - 1;
  interrupts_taken = 0;
  interrupt_returns = 0;
}

-- The same hart in user mode, with a supervisor interrupt that is delegated.
abbrev pub delegating_hart : Hart
delegating_hart = record hart {
  privilege_mode = 0;
  mip = record { value = 0x20; ext_seip = 0 };
  mie = 0x20;
  mideleg = plain 0x20;
  medeleg = plain 0x100;
}

abbrev pub quiet_hart : Hart
quiet_hart = record hart { mie = 0 }

abbrev pub env : Env
env = record {
  on_trap = none;
  on_ecall = none;
  on_ebreak = [];
  on_wfi = none;
  on_cease = none;
  flush = λ r. r;
}

-- Three sources, of which 1 and 2 are enabled for the one context, 1 with the higher priority.
abbrev pub plic : Plic
plic = record {
  num_sources = 3;
  num_contexts = 1;
  context_if = λ c. true;
  context_irq = λ c. false;
  gateway_info = λ s. record { ready = true; pending = false };
  interrupt_priority = λ s. 7 - s;
  interrupt_pending = λ w. 0;
  interrupt_enabled = λ c w. 6;
  priority_threshold = λ c. 2;
  interrupt_claim_complete = λ c. 0;
  source_to_context = (1, 0) ∷ (2, 0) ∷ [];
  context_to_source = (0, 1) ∷ (0, 2) ∷ [];
  sent = [];
}

-- Both are pending, and the line is up.
abbrev pub pending_plic : Plic
pending_plic = record plic { interrupt_pending = λ w. 6; context_irq = λ c. true }

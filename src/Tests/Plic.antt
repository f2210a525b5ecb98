-- ===== src/Tests/Plic.antt =====
-- The platform level interrupt controller: riscv/riscv_plic.cc.
use mpact_riscv.Common.{
  ℕ, ◌<◌, ◌≡◌, ◌⊎◌, refl, arith, true, false, none, some, Option, List, [], ◌∷◌, ◌==◌, ◌/=◌, ◌&&◌,
  if◌then◌else◌,
}
use mpact_riscv.Bits.{bit}
use mpact_riscv.Plic.Defs.{
  Plic, equal_range, contains, insert, erase_first, create, update, set_irq, set_pending,
  is_pending, set_context,
}
use mpact_riscv.Plic.Claim.{claim_interrupt_best, NothingToClaim, Claimed}
use mpact_riscv.Plic.Claim.Total.{InRange, claim_interrupt-total}
use mpact_riscv.Plic.Claim.Line.{claim_interrupt_drops}
use mpact_riscv.Plic.Pending.{pends}
use mpact_riscv.Plic.{
  claim_interrupt, complete_interrupt, set_interrupt, latch, scan, better, take_claimed, settle,
  set_gateway, set_plic_pending_interrupt, trigger,
}
use mpact_riscv.Plic.Map.{
  write, store, write_enabled, add_sources, set_bits, set_bits_from, add_source, remove_sources,
  write_priority,
}
use mpact_riscv.Words.{complement}
use mpact_riscv.Plic.Config.{enable_source}
use mpact_riscv.Plic.Request.{Accepted, ContextsInRange, set_interrupt-Accepted}
use mpact_riscv.Plic.Complete.{Reopened, complete_interrupt-claim_interrupt}
use mpact_riscv.Plic.Consistent.{IsConsistent}
use mpact_riscv.Plic.Consistent.Trace.{
  run, apply, Event, requested, connected, stored, run-IsConsistent,
}
use mpact_riscv.Tests.Samples.{plic, pending_plic}

-- The context's sources are sources, and the sources' contexts are contexts.
sources-InRange : InRange pending_plic (equal_range 0 pending_plic.context_to_source)
unfolding equal_range contains
sources-InRange t c = ground arith

contexts_in_range : ContextsInRange plic (equal_range 1 plic.source_to_context)
unfolding equal_range contains
contexts_in_range c l = ground arith

no_zero : contains 0 (equal_range 0 pending_plic.context_to_source) ≡ false
unfolding equal_range contains
no_zero = refl

-- The controller after the claim of source 1.
abbrev claimed : Plic
claimed = record pending_plic {
  interrupt_pending = update pending_plic.interrupt_pending 0 4;
  interrupt_claim_complete = update pending_plic.interrupt_claim_complete 0 1;
  context_irq = update pending_plic.context_irq 0 false;
  sent = (0, false) ∷ [];
}

claimed_lem : claim_interrupt 0 pending_plic ≡ some (1, claimed)
unfolding claim_interrupt equal_range scan is_pending better take_claimed set_pending complement
    settle set_irq
claimed_lem = refl

claim_interrupt_best_example :
    (NothingToClaim pending_plic 0 1 ⊎ Claimed pending_plic 0 1)
    × ((t : ℕ) → pends claimed t ≡ (if 1 /= 0 && t == 1 then false else pends pending_plic t))
claim_interrupt_best_example =
    claim_interrupt_best 0 1 pending_plic claimed (omega arith) no_zero claimed_lem

claim_interrupt-total_example :
    (id : ℕ) × (q : Plic) × (claim_interrupt 0 pending_plic ≡ some (id, q))
claim_interrupt-total_example = claim_interrupt-total 0 pending_plic (λ small. refl) sources-InRange

range_listed : InRange pending_plic (1 ∷ 2 ∷ [])
unfolding contains
range_listed t c = ground arith

two_pends : pends pending_plic 2 ≡ true
unfolding bit
two_pends = refl

one_pends : pends pending_plic 1 ≡ true
unfolding bit
one_pends = refl

two_lower :
    (t : ℕ)
    → contains t (2 ∷ []) ≡ true
    → pending_plic.interrupt_priority t < pending_plic.interrupt_priority 1
unfolding contains
two_lower t c = ground arith

two_listed : equal_range 0 pending_plic.context_to_source ≡ 1 ∷ 2 ∷ []
unfolding equal_range
two_listed = refl

claim_interrupt_drops_example :
    (q : Plic) × (claim_interrupt 0 pending_plic ≡ some (1, q))
    × (q.context_irq 0 ≡ false)
    × ((b : ℕ) → contains b (2 ∷ []) ≡ true → pends pending_plic b ≡ true → pends q b ≡ true)
claim_interrupt_drops_example =
    claim_interrupt_drops pending_plic 0 1 (2 ∷ []) (omega arith) refl two_listed range_listed
      (omega arith) one_pends two_lower (omega arith)

not_pending : pends plic 1 ≡ false
unfolding bit
not_pending = refl

set_interrupt-Accepted_example :
    (q : Plic) × (set_interrupt 1 true true plic ≡ some q) × Accepted 1 true plic q
set_interrupt-Accepted_example =
    set_interrupt-Accepted 1 true plic (omega arith) (omega arith) (omega arith) refl not_pending
      contexts_in_range

gateway_busy :
    ((set_gateway 1 (record { ready = false; pending = false }) plic).gateway_info 1).ready ≡ false
unfolding set_gateway
gateway_busy = refl

complete_interrupt-claim_interrupt_example :
    (r : Plic) × (complete_interrupt 0 1 claimed ≡ some r) × Reopened 0 1 claimed r
complete_interrupt-claim_interrupt_example =
    complete_interrupt-claim_interrupt 0 1 pending_plic claimed (omega arith) no_zero
      sources-InRange claimed_lem (omega arith) refl

one_listed : contains 1 (equal_range 0 pending_plic.context_to_source) ≡ true
unfolding equal_range contains
one_listed = refl

-- A context is connected, source 1 gets a priority and is enabled, and it requests an interrupt.
abbrev calls : List Event
calls = connected 0 true ∷ stored 8 4 7 ∷ stored 0x2000 4 2 ∷ requested 1 true false ∷ []

abbrev or_new : Option Plic → Plic
or_new none = create 3 1
or_new (some p) = p

abbrev after_calls : Plic
after_calls = or_new (run calls (create 3 1))

run-calls : run calls (create 3 1) ≡ some after_calls
unfolding run apply set_context create store write write_priority write_enabled add_sources set_bits
    set_bits_from bit add_source set_interrupt remove_sources complement set_irq
    set_plic_pending_interrupt set_gateway equal_range insert contains is_pending set_pending
    trigger latch erase_first
run-calls = refl

after_calls_line : after_calls.context_irq 0 ≡ true
unfolding run apply set_context create store write write_priority write_enabled add_sources set_bits
    set_bits_from bit add_source set_interrupt remove_sources complement set_irq
    set_plic_pending_interrupt set_gateway equal_range insert contains is_pending set_pending
    trigger latch erase_first
after_calls_line = refl

run-IsConsistent_example : IsConsistent after_calls
run-IsConsistent_example = run-IsConsistent 3 1 calls after_calls run-calls

abbrev prioritized : Plic
prioritized = record plic { interrupt_priority = update plic.interrupt_priority 1 5 }

prioritized_lem : write 8 5 plic ≡ some prioritized
unfolding write write_priority
prioritized_lem = refl

no_contexts : ContextsInRange plic (equal_range 1 (enable_source 0 1 0 plic).source_to_context)
unfolding enable_source equal_range contains insert
no_contexts c l = ground arith

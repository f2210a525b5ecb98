-- ===== src/Plic.antt =====
-- RiscVPlic, the platform level interrupt controller: riscv/riscv_plic.h and riscv/riscv_plic.cc. The
-- state is in Plic/Defs. A call that the source leaves undefined (an index out of range, a call through
-- a null interface) is `none`. Sources, contexts and priorities, ints in the source, are natural numbers.
-- The vector loads and stores, which end the program, have no model.
pub mod Defs
pub mod Map
pub mod Divergence
pub mod Complete
pub mod Request
pub mod Consistent
pub mod Claim
pub mod Pending
pub mod Config
use mpact_riscv.Common.{
  ℕ, ◌+◌, ◌-◌, ◌/◌, ◌%◌, ◌≡◌, Bool, true, false, not, ◌&&◌, ◌||◌, ◌==◌, ◌/=◌, ltb, leb,
  if◌then◌else◌, bit_and, bit_or, Option, none, some, List, [], ◌∷◌, ◌++◌,
}
use mpact_riscv.Words.{u8, u16, u32, complement, to_bool, ◌<<<◌, ◌>>>◌}
use Defs.{
  ◌>>=◌, at, update, equal_range, insert, erase_first, contains, GatewayInfo, Plic, num_words,
  set_irq, is_pending, set_pending,
}

-- The loop of SetPlicPendingInterrupt over the contexts that have the source enabled.
unfoldable pub trigger : ℕ → List ℕ → Plic → Option Plic
trigger priority [] p = some p
trigger priority (context ∷ rest) p = do
  threshold ← at p.num_contexts p.priority_threshold context
  connected ← at p.num_contexts p.context_if context
  trigger priority rest
      (if leb priority threshold || not connected then p else set_irq context true p)

unfoldable pub set_plic_pending_interrupt : ℕ → Plic → Option Plic
set_plic_pending_interrupt source p = if source == 0 || leb p.num_sources source then some p else do
  already ← is_pending source p
  if already || p.interrupt_priority source == 0 then some p else do
    p' ← set_pending source true p
    trigger (p.interrupt_priority source) (equal_range source p.source_to_context) p'

unfoldable pub set_gateway : ℕ → GatewayInfo → Plic → Plic
set_gateway source info p = record p { gateway_info = update p.gateway_info source info }

-- `if (is_level) info.pending = value`.
unfoldable pub latch : ℕ → Bool → Bool → Plic → Plic
latch source value is_level p = record p {
  gateway_info =
      if is_level
      then update p.gateway_info source (record (p.gateway_info source) { pending = value })
      else p.gateway_info;
}

unfoldable pub set_interrupt : ℕ → Bool → Bool → Plic → Option Plic
set_interrupt source value is_level p =
    let info = p.gateway_info source in
    let latched = latch source value is_level p in
    if leb p.num_sources source
    then some p
    else if not value && not is_level
    then some p
    else if not info.ready || not value
    then some latched
    else if p.interrupt_priority source == 0
    then some latched
    else set_plic_pending_interrupt source
        (set_gateway source (record (latched.gateway_info source) { ready = false }) latched)

-- The candidate of ClaimInterrupt.
pub record Best : Type 0 where
  pub id : ℕ
  pub priority : ℕ
  pub count : ℕ

-- A source replaces the candidate if its priority is higher, or the same and its number not higher.
unfoldable pub better : ℕ → ℕ → Best → Best
better source priority best =
    if ltb priority best.priority || (best.priority == priority && ltb best.id source)
    then best
    else record { id = source; priority = priority; count = best.count + 1 }

-- The loop of ClaimInterrupt over the sources that the context has enabled.
unfoldable pub scan : Plic → List ℕ → Best → Option Best
scan p [] best = some best
scan p (source ∷ rest) best = do
  pending ← is_pending source p
  next ← if not pending then some best else do
    priority ← at p.num_sources p.interrupt_priority source
    some (better source priority best)
  scan p rest next

-- The bookkeeping for the interrupt that is claimed.
unfoldable pub take_claimed : ℕ → ℕ → Plic → Option Plic
take_claimed context id p =
    if id /= 0
    then (do
      cleared ← set_pending id false p
      some (record cleared {
        interrupt_claim_complete = update cleared.interrupt_claim_complete context id;
      }))
    else some p

-- The line goes down if `left` interrupts, none, remain.
unfoldable pub settle : ℕ → ℕ → Plic → Option Plic
settle context left p =
    if left == 0
    then (if p.context_if context then some (set_irq context false p) else none)
    else some p

unfoldable pub claim_interrupt : ℕ → Plic → Option (ℕ × Plic)
claim_interrupt context p = if leb p.num_contexts context then some (0, p) else do
  best ←
      scan p (equal_range context p.context_to_source) (record { id = 0; priority = 0; count = 0 })
  claimed ← take_claimed context best.id p
  settled ← settle context (if best.id /= 0 then best.count - 1 else best.count) claimed
  some (best.id, settled)

unfoldable pub complete_interrupt : ℕ → ℕ → Plic → Option Plic
complete_interrupt context id p =
    if leb p.num_contexts context
    then some p
    else if not (contains id (equal_range context p.context_to_source))
    then some p
    else do
      let source = p.interrupt_claim_complete context
      let cleared : Plic = record p {
        interrupt_claim_complete = update p.interrupt_claim_complete context 0;
      }
      info ← at p.num_sources p.gateway_info source
      if info.pending && ltb 0 (p.interrupt_priority source)
          then set_plic_pending_interrupt source cleared
          else some (set_gateway source (record info { ready = true }) cleared)

-- ===== src/Plic/Complete.antt =====
-- A claim and the completion after it.
use mpact_riscv.Common.{
  ℕ, ◌<◌, ◌≡◌, ◌≢◌, inl, inr, refl, arith, ap, ◌∙◌, sym, subst, true, false, ◌&&◌, ltb,
  if◌then◌else◌, some,
}
use mpact_riscv.Plic.Defs.{update, equal_range, contains, Plic}
use mpact_riscv.Plic.Pending.{pends}
use mpact_riscv.Plic.{claim_interrupt, complete_interrupt, set_gateway, set_plic_pending_interrupt}
use mpact_riscv.Plic.Claim.{claim_interrupt_best, claim_frame}
use mpact_riscv.Plic.Claim.Total.{InRange}

-- The completion by a context of the source that its register holds.
complete_interrupt_lem :
    (context source id : ℕ) (p : Plic)
    → context < p.num_contexts
    → contains id (equal_range context p.context_to_source) ≡ true
    → p.interrupt_claim_complete context ≡ source
    → source < p.num_sources
    → let cleared : Plic = record p {
      interrupt_claim_complete = update p.interrupt_claim_complete context 0;
    } in
      complete_interrupt context id p ≡ (
        if (p.gateway_info source).pending && ltb 0 (p.interrupt_priority source)
        then set_plic_pending_interrupt source cleared
        else some (set_gateway source (record (p.gateway_info source) { ready = true }) cleared))
unfolding complete_interrupt
complete_interrupt_lem context source id p small listed holds exists =
    subst
      (λ s.
        s < p.num_sources
        → complete_interrupt context id p ≡ (
            if (p.gateway_info s).pending && ltb 0 (p.interrupt_priority s)
            then set_plic_pending_interrupt s (record p {
              interrupt_claim_complete = update p.interrupt_claim_complete context 0;
            })
            else some (
                set_gateway s (record (p.gateway_info s) { ready = true })
                  (record p {
                    interrupt_claim_complete = update p.interrupt_claim_complete context 0;
                  }))))
      holds (λ e. ground arith) exists

-- The claim of an edge, and its completion by the same context.
pub record Reopened (context id : ℕ) (q r : Plic) : Type 0 where
  pub ready : (r.gateway_info id).ready ≡ true
  pub others : (t : ℕ) → t ≢ id → r.gateway_info t ≡ q.gateway_info t
  pub forgotten : r.interrupt_claim_complete context ≡ 0
  pub same_pending : (t : ℕ) → pends r t ≡ pends q t

-- An interrupt that a context has claimed, where the enabled sources exist and 0 is none of them,
-- and that is not held pending as a level, is completed by the context with its number: the gateway
-- of the source is ready again, no other gateway changes, no source becomes pending, and the
-- context's register is cleared.
pub complete_interrupt-claim_interrupt :
    (context id : ℕ) (p q : Plic)
    → context < p.num_contexts
    → contains 0 (equal_range context p.context_to_source) ≡ false
    → InRange p (equal_range context p.context_to_source)
    → claim_interrupt context p ≡ some (id, q)
    → id ≢ 0
    → (p.gateway_info id).pending ≡ false
    → (r : Plic) × (complete_interrupt context id q ≡ some r) × Reopened context id q r
complete_interrupt-claim_interrupt context id p q small no_zero range h positive edge =
    let f = claim_frame context id p q small h in
    let listed = claimed_listed context id p q small no_zero h positive in
    let q_edge : (q.gateway_info id).pending ≡ false =
      ap (λ g. (g id).pending) f.same_gateway ∙ edge in
    (
      set_gateway id (record (q.gateway_info id) { ready = true })
          (record q { interrupt_claim_complete = update q.interrupt_claim_complete context 0 }),
      complete_interrupt_lem context id id q (ground (arith, f.same_contexts))
            (subst (λ m. contains id (equal_range context m) ≡ true) (sym f.same_map) listed)
            (f.remembered positive) (ground (arith, range id listed, f.same_sources))
          ∙ ground (arith, q_edge),
      unfold set_gateway in
          record {
            ready = ground arith;
            others = λ t other. ground arith;
            forgotten = ground arith;
            same_pending = λ t. refl;
          },
    )
  where
    claimed_listed :
        (context id : ℕ) (p q : Plic)
        → context < p.num_contexts
        → contains 0 (equal_range context p.context_to_source) ≡ false
        → claim_interrupt context p ≡ some (id, q)
        → id ≢ 0
        → contains id (equal_range context p.context_to_source) ≡ true
    claimed_listed context id p q small no_zero h positive =
        elim ((claim_interrupt_best context id p q small no_zero h).0) [
          | inl n ↦ absurd (positive n.0)
          | inr c ↦ c.0
        ]

-- A context that completes an enabled source while its register holds another source, which exists
-- and is not held pending as a level, reopens the gateway of that other source. The gateway of the
-- number completed stays as it is.
pub complete_interrupt_other :
    (context id source : ℕ) (p : Plic)
    → context < p.num_contexts
    → contains id (equal_range context p.context_to_source) ≡ true
    → p.interrupt_claim_complete context ≡ source
    → source < p.num_sources
    → source ≢ id
    → (p.gateway_info source).pending ≡ false
    → (r : Plic) × (complete_interrupt context id p ≡ some r)
      × (r.gateway_info id ≡ p.gateway_info id)
      × ((r.gateway_info source).ready ≡ true)
      × (r.interrupt_claim_complete context ≡ 0)
complete_interrupt_other context id source p small listed holds exists other edge = (
  set_gateway source (record (p.gateway_info source) { ready = true })
      (record p { interrupt_claim_complete = update p.interrupt_claim_complete context 0 }),
  complete_interrupt_lem context source id p small listed holds exists ∙ ground (arith, edge),
  unfold set_gateway in ground arith,
  unfold set_gateway in ground arith,
  unfold set_gateway in ground arith,
)

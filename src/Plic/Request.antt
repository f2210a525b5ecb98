-- ===== src/Plic/Request.antt =====
-- What an accepted request of a source does.
use mpact_riscv.Common.{
  ℕ, ◌/◌, ◌%◌, ◌<◌, ◌≡◌, ◌≢◌, refl, arith, ap, ◌∙◌, Bool, true, false, not, ◌&&◌, ◌||◌, ◌==◌, ltb,
  leb, if◌then◌else◌, some, List, [], ◌∷◌, bit_or, bit_and,
}
use mpact_riscv.Bits.{bit}
use mpact_riscv.Words.{◌<<<◌, ◌>>>◌}
use mpact_riscv.Plic.Defs.{update, equal_range, contains, Plic, set_irq, set_pending}
use mpact_riscv.Plic.Pending.{pends, is_pending_lem, pends-set_pending}
use mpact_riscv.Plic.{trigger, set_plic_pending_interrupt, set_gateway, latch, set_interrupt}

-- The contexts of a list exist.
abbrev pub ContextsInRange : Plic → List ℕ → Type 0
ContextsInRange p l = (c : ℕ) → contains c l ≡ true → c < p.num_contexts

-- Whether an interrupt of this priority reaches a context.
abbrev pub reaches : ℕ → ℕ → Plic → Bool
reaches priority c p = ltb (p.priority_threshold c) priority && p.context_if c

-- The controller after the loop over the contexts, but for the lines.
pub record Triggered (priority : ℕ) (l : List ℕ) (p q : Plic) : Type 0 where
  pub irq : (c : ℕ) → q.context_irq c ≡ (p.context_irq c || (contains c l && reaches priority c p))
  pub same_pending : q.interrupt_pending ≡ p.interrupt_pending
  pub same_gateway : q.gateway_info ≡ p.gateway_info
  pub same_priority : q.interrupt_priority ≡ p.interrupt_priority
  pub same_threshold : q.priority_threshold ≡ p.priority_threshold
  pub same_if : q.context_if ≡ p.context_if
  pub same_contexts : q.num_contexts ≡ p.num_contexts
  pub same_sources : q.num_sources ≡ p.num_sources

abbrev raised : ℕ → ℕ → Plic → Plic
raised priority c p =
    if leb priority (p.priority_threshold c) || not (p.context_if c) then p else set_irq c true p

raised-Triggered : (priority c : ℕ) (p : Plic) → Triggered priority (c ∷ []) p (raised priority c p)
unfolding set_irq contains
raised-Triggered priority c p = record {
  irq = λ d. ground arith;
  same_pending = ground arith;
  same_gateway = ground arith;
  same_priority = ground arith;
  same_threshold = ground arith;
  same_if = ground arith;
  same_contexts = ground arith;
  same_sources = ground arith;
}

Triggered-cons :
    (priority c : ℕ) (l : List ℕ) (p q r : Plic)
    → Triggered priority (c ∷ []) p q
    → Triggered priority l q r
    → Triggered priority (c ∷ l) p r
unfolding contains
Triggered-cons priority c l p q r h k = record {
  irq = λ d.
      ground (arith, h.irq d, k.irq d, ap (λ f. f d) h.same_threshold, ap (λ f. f d) h.same_if);
  same_pending = k.same_pending ∙ h.same_pending;
  same_gateway = k.same_gateway ∙ h.same_gateway;
  same_priority = k.same_priority ∙ h.same_priority;
  same_threshold = k.same_threshold ∙ h.same_threshold;
  same_if = k.same_if ∙ h.same_if;
  same_contexts = k.same_contexts ∙ h.same_contexts;
  same_sources = k.same_sources ∙ h.same_sources;
}

trigger_cons :
    (priority c : ℕ) (l : List ℕ) (p : Plic)
    → c < p.num_contexts
    → trigger priority (c ∷ l) p ≡ trigger priority l (raised priority c p)
unfolding trigger
trigger_cons priority c l p small = ground arith

trigger-Triggered :
    (priority : ℕ) (l : List ℕ) (p : Plic)
    → ContextsInRange p l
    → (q : Plic) × (trigger priority l p ≡ some q) × Triggered priority l p q
trigger-Triggered priority [] p range = (
  p,
  unfold trigger in refl,
  unfold contains in
      record {
        irq = λ c. ground arith;
        same_pending = refl;
        same_gateway = refl;
        same_priority = refl;
        same_threshold = refl;
        same_if = refl;
        same_contexts = refl;
        same_sources = refl;
      },
)
trigger-Triggered priority (c ∷ l) p range =
    let here = raised-Triggered priority c p in
    let p' = raised priority c p in
    let (q, e, t) =
      trigger-Triggered priority l p'
        (λ d listed. unfold contains in ground (arith, range d, here.same_contexts)) in
    (
      q,
      trigger_cons priority c l p (unfold contains in ground (arith, range c)) ∙ e,
      Triggered-cons priority c l p p' q here t,
    )

abbrev with_pending : ℕ → Plic → Plic
with_pending source p =
    let index = source >>> 5 in
    record p {
      interrupt_pending =
          update p.interrupt_pending index
            (bit_or (p.interrupt_pending index) (1 <<< bit_and source 0x1f));
    }

set_pending_lem :
    (source : ℕ) (p : Plic)
    → source < p.num_sources
    → set_pending source true p ≡ some (with_pending source p)
unfolding set_pending
set_pending_lem source p small = ground arith

-- A request that reaches the core of the controller.
set_plic_pending_interrupt_lem :
    (source : ℕ) (p : Plic)
    → 0 < source
    → source < p.num_sources
    → p.interrupt_priority source ≢ 0
    → pends p source ≡ false
    → set_plic_pending_interrupt source p
      ≡ trigger
          (p.interrupt_priority source)
          (equal_range source p.source_to_context)
          (with_pending source p)
unfolding set_plic_pending_interrupt
set_plic_pending_interrupt_lem source p positive small enabled clear =
    ground (arith, is_pending_lem source p, set_pending_lem source p small)

-- The controller after it accepted a request.
pub record Accepted (source : ℕ) (is_level : Bool) (p q : Plic) : Type 0 where
  pub pending : (t : ℕ) → pends q t ≡ (if t == source then true else pends p t)
  pub busy : (q.gateway_info source).ready ≡ false
  pub latched : (q.gateway_info source).pending ≡ (is_level || (p.gateway_info source).pending)
  pub others : (t : ℕ) → t ≢ source → q.gateway_info t ≡ p.gateway_info t
  pub irq :
      (c : ℕ)
      → q.context_irq c ≡ (
          p.context_irq c
          || (contains c (equal_range source p.source_to_context)
              && reaches (p.interrupt_priority source) c p))

abbrev held : ℕ → Bool → Plic → Plic
held source is_level p =
    let latched = latch source true is_level p in
    set_gateway source (record (latched.gateway_info source) { ready = false }) latched

set_interrupt_lem :
    (source : ℕ) (is_level : Bool) (p : Plic)
    → source < p.num_sources
    → p.interrupt_priority source ≢ 0
    → (p.gateway_info source).ready ≡ true
    → set_interrupt source true is_level p
      ≡ set_plic_pending_interrupt source (held source is_level p)
unfolding set_interrupt
set_interrupt_lem source is_level p small enabled ready = ground arith

-- A request of a source other than 0 that exists, has a priority, is ready and not pending, and
-- whose contexts exist, is accepted: the source becomes pending and its gateway busy, and the lines
-- of the connected contexts that have it enabled and whose threshold is below its priority go up. No
-- other pending bit, gateway or line changes.
pub set_interrupt-Accepted :
    (source : ℕ) (is_level : Bool) (p : Plic)
    → 0 < source
    → source < p.num_sources
    → p.interrupt_priority source ≢ 0
    → (p.gateway_info source).ready ≡ true
    → pends p source ≡ false
    → ContextsInRange p (equal_range source p.source_to_context)
    → (q : Plic) × (set_interrupt source true is_level p ≡ some q) × Accepted source is_level p q
unfolding set_gateway latch
set_interrupt-Accepted source is_level p positive small enabled ready clear range =
    let p₁ = held source is_level p in
    let p₂ = with_pending source p₁ in
    let priority = p.interrupt_priority source in
    let (q, e, t) = trigger-Triggered priority (equal_range source p.source_to_context) p₂ range in
    (
      q,
      set_interrupt_lem source is_level p small enabled ready
          ∙ set_plic_pending_interrupt_lem source p₁ positive small enabled clear
          ∙ e,
      record {
        pending = λ s.
            ap (λ f. bit (f (s / 32)) (s % 32)) t.same_pending
            ∙ pends-set_pending source s true p₁ (set_pending_lem source p₁ small);
        busy = ground (arith, ap (λ f. (f source).ready) t.same_gateway);
        latched = ground (arith, ap (λ f. (f source).pending) t.same_gateway);
        others = λ s other. ground (arith, ap (λ f. f s) t.same_gateway);
        irq = t.irq;
      },
    )

-- While a gateway is busy, a source that requests changes at most the pending flag of its own gateway, as
-- a level: no request reaches the core of the controller until the one before it is completed.
pub set_interrupt_busy :
    (source : ℕ) (value is_level : Bool) (p : Plic)
    → (p.gateway_info source).ready ≡ false
    → set_interrupt source value is_level p
      ≡ some (if ltb source p.num_sources then latch source value is_level p else p)
unfolding set_interrupt latch
set_interrupt_busy source value is_level p busy = ground arith

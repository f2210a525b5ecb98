-- ===== src/Plic/Consistent/Core.antt =====
-- The calls of the interrupt sources, claims and completions keep the controller consistent.
use mpact_riscv.Common.{
  ℕ, Bool, true, false, not, ◌&&◌, ◌||◌, ◌==◌, ◌/=◌, ltb, leb, Option, List, [], ◌∷◌,
}
use mpact_riscv.Words.{◌>>>◌}
use mpact_riscv.Plic.Defs.{
  num_words, at, GatewayInfo, Plic, set_irq, is_pending, set_pending, equal_range, contains,
}
use mpact_riscv.Plic.{
  trigger, set_plic_pending_interrupt, set_gateway, latch, set_interrupt, scan, take_claimed,
  settle, claim_interrupt, complete_interrupt,
}
use mpact_riscv.Plic.Consistent.{
  Holds, Holds->>=, Holds->>=_any, Holds-if, if_either, IsConsistent, set_irq-IsConsistent,
}

-- A call that may return the controller.
abbrev pub Keeps : Option Plic → Type 0
Keeps = Holds IsConsistent

pub trigger-IsConsistent :
    (priority : ℕ) (l : List ℕ) (p : Plic) → IsConsistent p → Keeps (trigger priority l p)
unfolding trigger
trigger-IsConsistent priority [] p h = h
trigger-IsConsistent priority (c ∷ rest) p h =
    Holds->>=_any IsConsistent (at p.num_contexts p.priority_threshold c) _ λ threshold.
      Holds->>=_any IsConsistent (at p.num_contexts p.context_if c) _ λ connected.
        trigger-IsConsistent priority rest _ (
          if_either IsConsistent (leb priority threshold || not connected) p (set_irq c true p) h
            (set_irq-IsConsistent c true p h))

pub set_pending-IsConsistent :
    (source : ℕ) (value : Bool) (p : Plic) → IsConsistent p → Keeps (set_pending source value p)
unfolding set_pending
set_pending-IsConsistent source value p h =
    Holds->>=_any IsConsistent (at (num_words p) p.interrupt_pending (source >>> 5)) _
      λ word. record { lines = h.lines; maps = h.maps }

pub set_plic_pending_interrupt-IsConsistent :
    (source : ℕ) (p : Plic) → IsConsistent p → Keeps (set_plic_pending_interrupt source p)
unfolding set_plic_pending_interrupt
set_plic_pending_interrupt-IsConsistent source p h =
    Holds-if IsConsistent (source == 0 || leb p.num_sources source) _ _ h (
      Holds->>=_any IsConsistent (is_pending source p) _ λ already.
        Holds-if IsConsistent (already || p.interrupt_priority source == 0) _ _ h (
          Holds->>= IsConsistent IsConsistent (set_pending source true p) _
            (set_pending-IsConsistent source true p h) λ q g. trigger-IsConsistent _ _ q g))

pub set_gateway-IsConsistent :
    (source : ℕ) (info : GatewayInfo) (p : Plic)
    → IsConsistent p
    → IsConsistent (set_gateway source info p)
unfolding set_gateway
set_gateway-IsConsistent source info p h = record { lines = h.lines; maps = h.maps }

latch-IsConsistent :
    (source : ℕ) (value is_level : Bool) (p : Plic)
    → IsConsistent p
    → IsConsistent (latch source value is_level p)
unfolding latch
latch-IsConsistent source value is_level p h = record { lines = h.lines; maps = h.maps }

pub set_interrupt-IsConsistent :
    (source : ℕ) (value is_level : Bool) (p : Plic)
    → IsConsistent p
    → Keeps (set_interrupt source value is_level p)
unfolding set_interrupt
set_interrupt-IsConsistent source value is_level p h =
    let latched = latch-IsConsistent source value is_level p h in
    Holds-if IsConsistent (leb p.num_sources source) _ _ h (
      Holds-if IsConsistent (not value && not is_level) _ _ h (
        Holds-if IsConsistent (not (p.gateway_info source).ready || not value) _ _ latched (
          Holds-if IsConsistent (p.interrupt_priority source == 0) _ _ latched (
            set_plic_pending_interrupt-IsConsistent source _
              (set_gateway-IsConsistent source _ _ latched)))))

take_claimed-IsConsistent :
    (context id : ℕ) (p : Plic) → IsConsistent p → Keeps (take_claimed context id p)
unfolding take_claimed
take_claimed-IsConsistent context id p h =
    Holds-if IsConsistent (id /= 0) _ _
      (Holds->>= IsConsistent IsConsistent (set_pending id false p) _
        (set_pending-IsConsistent id false p h) λ q g. record { lines = g.lines; maps = g.maps })
      h

settle-IsConsistent : (context left : ℕ) (p : Plic) → IsConsistent p → Keeps (settle context left p)
unfolding settle
settle-IsConsistent context left p h =
    Holds-if IsConsistent (left == 0) _ _
      (Holds-if IsConsistent (p.context_if context) _ _ (set_irq-IsConsistent context false p h) tt)
      h

-- A read also returns a value.
abbrev pub KeepsAfter : {A : Type 0} → Option (A × Plic) → Type 0
KeepsAfter = Holds (λ r. IsConsistent r.1)

pub claim_interrupt-IsConsistent :
    (context : ℕ) (p : Plic) → IsConsistent p → KeepsAfter (claim_interrupt context p)
unfolding claim_interrupt
claim_interrupt-IsConsistent context p h =
    Holds-if (λ r. IsConsistent r.1) (leb p.num_contexts context) _ _ h
      (Holds->>=_any (λ r. IsConsistent r.1) (scan p _ _) _
        λ best.
          Holds->>= IsConsistent (λ r. IsConsistent r.1) (take_claimed context best.id p) _
            (take_claimed-IsConsistent context best.id p h)
            λ q g.
              Holds->>= IsConsistent (λ r. IsConsistent r.1) (settle context _ q) _
                (settle-IsConsistent context _ q g) λ r k. k)

pub complete_interrupt-IsConsistent :
    (context id : ℕ) (p : Plic) → IsConsistent p → Keeps (complete_interrupt context id p)
unfolding complete_interrupt
complete_interrupt-IsConsistent context id p h =
    Holds-if IsConsistent (leb p.num_contexts context) _ _ h (
      Holds-if IsConsistent (not (contains id (equal_range context p.context_to_source))) _ _ h (
        Holds->>=_any IsConsistent (at p.num_sources p.gateway_info _) _ λ info.
          Holds-if IsConsistent (info.pending && ltb 0 (p.interrupt_priority _)) _ _
            (set_plic_pending_interrupt-IsConsistent _ _
              (record { lines = h.lines; maps = h.maps }))
            (set_gateway-IsConsistent _ _ _ (record { lines = h.lines; maps = h.maps }))))

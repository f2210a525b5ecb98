-- ===== src/Plic/Divergence.antt =====
-- Where the registers of the controller do something else than the comments beside them say.
use mpact_riscv.Common.{
  bit_and, bit_or, Option-cases, ℕ, ◌-◌, ◌/◌, ◌%◌, ◌<◌, ◌≤◌, ◌≡◌, inl, inr, refl, arith, ap, ◌∙◌,
  sym, subst, Bool, true, false, not, ◌&&◌, ◌||◌, ◌==◌, ◌/=◌, leb, if◌then◌else◌, some, List, [],
  ◌∷◌,
}
use mpact_riscv.Bits.{bit, bit_laws, bit-ones}
use mpact_riscv.Words.{◌<<<◌, u32, complement}
use mpact_riscv.Words.Laws.{bit-complement}
use mpact_riscv.Words.Halves.{bit_and-ones}
use mpact_riscv.Plic.Defs.{
  at, update, equal_range, insert, contains, Multimap, Plic, set_irq, set_pending, is_pending,
}
use mpact_riscv.Plic.Pending.{pends}
use mpact_riscv.Plic.{trigger, set_plic_pending_interrupt, set_interrupt}
use mpact_riscv.Plic.Map.{write_threshold, any_above, read, write, write_priority}
use mpact_riscv.Plic.Config.{enable_source}
use mpact_riscv.Plic.Consistent.{Holds, Holds->>=, Holds->>=_any, Holds-if, if_either}
use mpact_riscv.Plic.Request.{ContextsInRange, set_interrupt-Accepted}

-- If the threshold of a connected context whose line is down is lowered, and the first of its
-- enabled sources exists and has a priority above the new threshold, the line goes up, whatever is
-- pending.
pub write_threshold_raises :
    (context value source : ℕ) (rest : List ℕ) (p : Plic)
    → value < p.priority_threshold context
    → p.context_irq context ≡ false
    → p.context_if context ≡ true
    → equal_range context p.context_to_source ≡ source ∷ rest
    → source < p.num_sources
    → value < p.interrupt_priority source
    → (q : Plic) × (write_threshold context value p ≡ some q)
      × (q.context_irq context ≡ true)
      × (q.interrupt_pending ≡ p.interrupt_pending)
unfolding write_threshold any_above set_irq
write_threshold_raises context value source rest p lower down connected listed exists above = (
  set_irq context true
      (record p { priority_threshold = update p.priority_threshold context value }),
  ground (arith, listed),
  ground arith,
  refl,
)

-- The priorities after a call, and the size of their array.
Same : (ℕ → ℕ) → ℕ → Plic → Type 0
Same f n q = (q.interrupt_priority ≡ f) × (q.num_sources ≡ n)

trigger-Same :
    (f : ℕ → ℕ) (n priority : ℕ) (l : List ℕ) (p : Plic)
    → Same f n p
    → Holds (Same f n) (trigger priority l p)
unfolding trigger Same set_irq
trigger-Same f n priority [] p h = h
trigger-Same f n priority (c ∷ rest) p h =
    Holds->>=_any (Same f n) (at p.num_contexts p.priority_threshold c) _ λ threshold.
      Holds->>=_any (Same f n) (at p.num_contexts p.context_if c) _ λ connected.
        trigger-Same f n priority rest _
          (if_either (Same f n) (leb priority threshold || not connected) p (set_irq c true p) h h)

set_pending-Same :
    (f : ℕ → ℕ) (n source : ℕ) (value : Bool) (p : Plic) {q : Plic}
    → Same f n p
    → set_pending source value p ≡ some q
    → Same f n q
unfolding set_pending Same
set_pending-Same f n source value p h e = ground arith

set_pending-Holds :
    (f : ℕ → ℕ) (n source : ℕ) (value : Bool) (p : Plic)
    → Same f n p
    → Holds (Same f n) (set_pending source value p)
set_pending-Holds f n source value p h = elim (Option-cases (set_pending source value p)) [
  | inl e ↦ subst (Holds (Same f n)) (sym e) tt
  | inr (q, e) ↦ subst (Holds (Same f n)) (sym e) (set_pending-Same f n source value p h e)
]

set_plic_pending_interrupt-Same :
    (f : ℕ → ℕ) (n source : ℕ) (p : Plic)
    → Same f n p
    → Holds (Same f n) (set_plic_pending_interrupt source p)
unfolding set_plic_pending_interrupt
set_plic_pending_interrupt-Same f n source p h =
    Holds-if (Same f n) (source == 0 || leb p.num_sources source) _ _ h (
      Holds->>=_any (Same f n) (is_pending source p) _ λ already.
        Holds-if (Same f n) (already || p.interrupt_priority source == 0) _ _ h (
          Holds->>= (Same f n) (Same f n) (set_pending source true p) _
            (set_pending-Holds f n source true p h) λ q g. trigger-Same f n _ _ q g))

write_priority_lem :
    (source value : ℕ) (p : Plic)
    → source < p.num_sources
    → let p' : Plic = record p { interrupt_priority = update p.interrupt_priority source value } in
      write_priority source value p ≡ (
        if p.interrupt_priority source == 0
          && value /= 0
          && (p.gateway_info source).ready
          && (p.gateway_info source).pending
        then set_plic_pending_interrupt source p'
        else some p')
unfolding write_priority
write_priority_lem source value p small = ground arith

write_priority-Same :
    (source value : ℕ) (p q : Plic)
    → source < p.num_sources
    → write_priority source value p ≡ some q
    → Same (update p.interrupt_priority source value) p.num_sources q
unfolding Same
write_priority-Same source value p q small e =
    let f = update p.interrupt_priority source value in
    let n = p.num_sources in
    let p' : Plic = record p { interrupt_priority = f } in
    subst (Holds (Same f n)) (sym (write_priority_lem source value p small) ∙ e) (
      Holds-if (Same f n)
        (p.interrupt_priority source == 0
          && value /= 0
          && (p.gateway_info source).ready
          && (p.gateway_info source).pending)
        _ _ (set_plic_pending_interrupt-Same f n source p' (refl, refl)) (refl, refl))

-- A write that returns, at an offset from 4 to below 0x1000 whose quarter is a source, sets the
-- priority of the source at an eighth of the offset, and a read of the same offset returns that of
-- the source at a quarter.
pub read-write_priority :
    (offset value : ℕ) (p q : Plic)
    → 4 ≤ offset
    → offset < 0x1000
    → offset / 4 < p.num_sources
    → write offset value p ≡ some q
    → (q.interrupt_priority (offset / 8) ≡ value)
      × (read offset q ≡ some (p.interrupt_priority (offset / 4), q))
unfolding read write Same
read-write_priority offset value p q low high exists e =
    let wrote : write_priority (offset / 8) value p ≡ some q = ground arith in
    let s = write_priority-Same (offset / 8) value p q (omega arith) wrote in
    (
      ground (arith, ap (λ f. f (offset / 8)) s.0),
      ground (arith, ap (λ f. f (offset / 4)) s.0, s.1),
    )

equal_range_added : (k v : ℕ) (m : Multimap) → contains v (equal_range k (insert k v m)) ≡ true
unfolding equal_range insert contains
equal_range_added k v [] = ground arith
equal_range_added k v ((j, w) ∷ m) = ground (arith, equal_range_added k v m)

cleared_bit :
    (word k i : ℕ)
    → i < 32
    → i ≡ k
    → bit (u32 (bit_or (bit_and word (complement 32 (1 <<< k))) (0 <<< k))) i ≡ false
cleared_bit word k i small e = simp (bit_laws, bit-complement) (ground (arith, bit-ones 1 (i - k)))

-- A configuration that lists a source for a context with an enable of 0 clears its enable bit and
-- still connects the two: a request of the source, if the source is ready and not pending and has a
-- priority above the threshold of the connected context, raises the line of the context.
pub enable_source_zero :
    (context source : ℕ) (p : Plic)
    → let q = enable_source context source 0 p in
      0 < source
      → source < p.num_sources
      → (p.gateway_info source).ready ≡ true
      → pends p source ≡ false
      → p.priority_threshold context < p.interrupt_priority source
      → p.context_if context ≡ true
      → ContextsInRange p (equal_range source q.source_to_context)
      → (bit (q.interrupt_enabled context (source / 32)) (source % 32) ≡ false)
        × ((r : Plic) × (set_interrupt source true false q ≡ some r)
            × (r.context_irq context ≡ true))
unfolding enable_source
enable_source_zero context source p positive small ready clear above connected range =
    let q = enable_source context source 0 p in
    let (r, e, a) =
      set_interrupt-Accepted source false q positive small (omega arith) ready clear range in
    (
      ground (
        arith,
        bit_and-ones 5 source,
        cleared_bit (p.interrupt_enabled context (source / 32)) (source % 32) (source % 32)
            (omega arith) refl,
      ),
      (r, e, ground (arith, a.irq context, equal_range_added source context p.source_to_context)),
    )

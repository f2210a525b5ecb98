-- ===== src/Plic/Claim/Total.antt =====
-- A claim is defined where the enabled sources exist, and what it does to the line of the context.
use mpact_riscv.Common.{
  ℕ, ◌-◌, ◌<◌, ◌≡◌, ◌⊎◌, inl, refl, arith, ap, ◌∙◌, true, false, ◌==◌, ◌/=◌, if◌then◌else◌, some,
  List, [], ◌∷◌, bit_and,
}
use native.Mathlib.Decide.{dec_lt}
use mpact_riscv.Words.{complement, ◌<<<◌, ◌>>>◌}
use mpact_riscv.Plic.Defs.{update, equal_range, contains, Plic, set_pending, set_irq}
use mpact_riscv.Plic.Pending.{pends, is_pending_lem}
use mpact_riscv.Plic.{Best, better, scan, take_claimed, settle, claim_interrupt}

-- The sources of a list exist.
abbrev pub InRange : Plic → List ℕ → Type 0
InRange p l = (t : ℕ) → contains t l ≡ true → t < p.num_sources

pub InRange-head : (p : Plic) (s : ℕ) (l : List ℕ) → InRange p (s ∷ l) → s < p.num_sources
unfolding contains
InRange-head p s l h = h s (ground arith)

pub InRange-tail : (p : Plic) (s : ℕ) (l : List ℕ) → InRange p (s ∷ l) → InRange p l
unfolding contains
InRange-tail p s l h t c = h t (ground arith)

abbrev pub next : Plic → ℕ → Best → Best
next p source best =
    if pends p source then better source (p.interrupt_priority source) best else best

pub scan_cons :
    (p : Plic) (source : ℕ) (rest : List ℕ) (best : Best)
    → source < p.num_sources
    → scan p (source ∷ rest) best ≡ scan p rest (next p source best)
unfolding scan
scan_cons p source rest best small = ground (arith, is_pending_lem source p)

next_in_range :
    (p : Plic) (source : ℕ) (best : Best)
    → source < p.num_sources
    → (best.id ≡ 0) ⊎ (best.id < p.num_sources)
    → ((next p source best).id ≡ 0) ⊎ ((next p source best).id < p.num_sources)
unfolding better
next_in_range p source best small h = ground arith

scan-total :
    (p : Plic) (l : List ℕ) (best : Best)
    → InRange p l
    → (best.id ≡ 0) ⊎ (best.id < p.num_sources)
    → (r : Best) × (scan p l best ≡ some r) × ((r.id ≡ 0) ⊎ (r.id < p.num_sources))
unfolding scan
scan-total p [] best range h = (best, refl, h)
scan-total p (source ∷ rest) best range h =
    let small = InRange-head p source rest range in
    let (r, e, bound) =
      scan-total p rest (next p source best) (InRange-tail p source rest range)
        (next_in_range p source best small h) in
    (r, scan_cons p source rest best small ∙ e, bound)

-- The controller once an interrupt that exists is claimed.
abbrev pub after_claim : ℕ → ℕ → Plic → Plic
after_claim context id p =
    let index = id >>> 5 in
    let mask = 1 <<< bit_and id 0x1f in
    if id /= 0
    then record p {
      interrupt_pending =
          update p.interrupt_pending index
            (bit_and (p.interrupt_pending index) (complement 32 mask));
      interrupt_claim_complete = update p.interrupt_claim_complete context id;
    }
    else p

take_claimed_lem :
    (context id : ℕ) (p : Plic)
    → (id ≡ 0) ⊎ (id < p.num_sources)
    → take_claimed context id p ≡ some (after_claim context id p)
unfolding take_claimed set_pending
take_claimed_lem context id p h = ground arith

after_claim_if : (context id : ℕ) (p : Plic) → (after_claim context id p).context_if ≡ p.context_if
after_claim_if context id p = ground arith

abbrev pub left : Best → ℕ
left best = if best.id /= 0 then best.count - 1 else best.count

settle-total :
    (context n : ℕ) (p : Plic)
    → p.context_if context ≡ true
    → settle context n p ≡ some (if n == 0 then set_irq context false p else p)
unfolding settle
settle-total context n p h = ground arith

-- What a claim does, from the result of its loop.
pub claim_interrupt_run :
    (context : ℕ) (p : Plic) (r : Best)
    → context < p.num_contexts
    → p.context_if context ≡ true
    → scan p (equal_range context p.context_to_source) (record { id = 0; priority = 0; count = 0 })
      ≡ some r
    → (r.id ≡ 0) ⊎ (r.id < p.num_sources)
    → claim_interrupt context p
      ≡ some (
        r.id,
        (if left r == 0
            then set_irq context false (after_claim context r.id p)
            else after_claim context r.id p),
      )
unfolding claim_interrupt
claim_interrupt_run context p r small connected ran bound =
    let c = after_claim context r.id p in
    let still : c.context_if context ≡ true =
      ap (λ f. f context) (after_claim_if context r.id p) ∙ connected in
    ground
      (arith, ran, take_claimed_lem context r.id p bound, settle-total context (left r) c still)

-- A claim of a context whose enabled sources exist and which, if it exists, has an interface,
-- returns: no index is out of range and no interface is missing.
pub claim_interrupt-total :
    (context : ℕ) (p : Plic)
    → (context < p.num_contexts → p.context_if context ≡ true)
    → InRange p (equal_range context p.context_to_source)
    → (id : ℕ) × (q : Plic) × (claim_interrupt context p ≡ some (id, q))
claim_interrupt-total context p connected range = elim (dec_lt context p.num_contexts) [
  | yes small ↦
      let sources = equal_range context p.context_to_source in
      let (r, ran, bound) =
        scan-total p sources (record { id = 0; priority = 0; count = 0 }) range (inl refl) in
      (_, _, claim_interrupt_run context p r small (connected small) ran bound)
  | no big ↦ (0, p, unfold claim_interrupt in ground arith)
]

-- Sources of a lower priority do not replace the candidate.
pub scan_lower :
    (p : Plic) (l : List ℕ) (best : Best)
    → InRange p l
    → ((t : ℕ) → contains t l ≡ true → p.interrupt_priority t < best.priority)
    → scan p l best ≡ some best
unfolding scan
scan_lower p [] best range lower = refl
scan_lower p (source ∷ rest) best range lower =
    scan_cons p source rest best (InRange-head p source rest range)
    ∙ ap (scan p rest) (kept source rest best lower)
    ∙ scan_lower p rest best (InRange-tail p source rest range) (tail_lower source rest best lower)
  where
    kept :
        (source : ℕ) (rest : List ℕ) (best : Best)
        → ((t : ℕ) → contains t (source ∷ rest) ≡ true → p.interrupt_priority t < best.priority)
        → next p source best ≡ best
    kept source rest best lower = unfold better contains in ground (arith, lower source)

    tail_lower :
        (source : ℕ) (rest : List ℕ) (best : Best)
        → ((t : ℕ) → contains t (source ∷ rest) ≡ true → p.interrupt_priority t < best.priority)
        → (t : ℕ) → contains t rest ≡ true
        → p.interrupt_priority t < best.priority
    tail_lower source rest best lower t c = lower t (unfold contains in ground arith)

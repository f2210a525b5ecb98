-- ===== src/Plic/Claim/Line.antt =====
-- The line of a context after a claim. The loop counts how often its candidate was replaced, and the line
-- goes down when that count, less one, is 0.
use mpact_riscv.Common.{
  ℕ, ◌<◌, ◌≡◌, ◌≢◌, inr, arith, ap, ◌∙◌, true, false, ◌==◌, if◌then◌else◌, some, List, ◌∷◌,
}
use mpact_riscv.Plic.Defs.{equal_range, contains, Plic, set_irq}
use mpact_riscv.Plic.Pending.{pends}
use mpact_riscv.Plic.{Best, better, scan, claim_interrupt}
use mpact_riscv.Plic.Claim.{claim_run}
use mpact_riscv.Plic.Claim.Total.{
  InRange, InRange-head, InRange-tail, scan_cons, scan_lower, claim_interrupt_run, after_claim,
  next, left,
}

module _ (p : Plic) (context a : ℕ) (rest : List ℕ) (small : context < p.num_contexts)
    (connected : p.context_if context ≡ true)
    (listed : equal_range context p.context_to_source ≡ a ∷ rest) (range : InRange p (a ∷ rest))
    (a_is : 0 < a) (a_pends : pends p a ≡ true)
    (a_first : (t : ℕ) → contains t rest ≡ true → p.interrupt_priority t < p.interrupt_priority a)
    (a_above : 0 < p.interrupt_priority a) where
  found : Best
  found = record { id = a; priority = p.interrupt_priority a; count = 1 }

  first : next p a (record { id = 0; priority = 0; count = 0 }) ≡ found
  unfolding better found
  first = ground arith

  ran :
      scan p (equal_range context p.context_to_source) (record { id = 0; priority = 0; count = 0 })
      ≡ some found
  unfolding found
  ran =
      ap (λ l. scan p l (record { id = 0; priority = 0; count = 0 })) listed
      ∙ scan_cons p a rest _ (InRange-head p a rest range)
      ∙ ap (scan p rest) first
      ∙ scan_lower p rest found (InRange-tail p a rest range) a_first

  lowered : claim_interrupt context p ≡ some (a, set_irq context false (after_claim context a p))
  unfolding found
  lowered =
      let none_left : (left found == 0) ≡ true = ground arith in
      claim_interrupt_run context p found small connected ran (inr (InRange-head p a rest range))
      ∙ ap
          (λ b. some (
            a,
            (if b
                then set_irq context false (after_claim context a p)
                else after_claim context a p),
          ))
          none_left

  irq_down : (q : Plic) → (set_irq context false q).context_irq context ≡ false
  unfolding set_irq
  irq_down q = ground arith

  -- If a context is connected and its enabled sources exist, and the first of them is not 0, is
  -- pending and has a priority above those of the others, a claim takes it and lowers the line of
  -- the context, though each other source that was pending still is.
  pub claim_interrupt_drops :
      (q : Plic) × (claim_interrupt context p ≡ some (a, q))
      × (q.context_irq context ≡ false)
      × ((b : ℕ) → contains b rest ≡ true → pends p b ≡ true → pends q b ≡ true)
  claim_interrupt_drops =
      let q = set_irq context false (after_claim context a p) in
      let run = claim_run context a p q small lowered in
      (
        q,
        lowered,
        irq_down (after_claim context a p),
        λ b c pending. ground (arith, run.cleared b, a_first b c, other b c, pending),
      )
    where
      other : (b : ℕ) → contains b rest ≡ true → b ≢ a
      other b c e = ground (arith, a_first b c, ap p.interrupt_priority e)

-- ===== src/Plic/Claim.antt =====
-- ClaimInterrupt takes the pending interrupt of the highest priority, the lowest number among equals.
pub mod Total
pub mod Line
use mpact_riscv.Common.{
  ℕ, ◌+◌, ◌-◌, ◌/◌, ◌%◌, ◌<◌, ◌≤◌, ◌≡◌, ◌≢◌, ◌⊎◌, inl, inr, refl, arith, ap, sym, subst, ◌/=◌,
  Option-cases, ◌∙◌, Bool, true, false, not, ◌&&◌, ◌||◌, ◌==◌, ltb, leb, if◌then◌else◌, Option,
  none, some, List, [], ◌∷◌,
}
use mpact_riscv.Bits.{bit}
use mpact_riscv.Plic.Defs.{
  at, update, equal_range, contains, Plic, num_words, is_pending, set_pending, set_irq,
}
use mpact_riscv.Plic.Pending.{pends, has_word, is_pending_lem, pends-set_pending}
use mpact_riscv.Plic.{Best, better, scan, take_claimed, settle, claim_interrupt}

-- A candidate that no source with this priority and number would replace.
abbrev pub Beats : ℕ → ℕ → ℕ → ℕ → Type 0
Beats id priority source q = (q < priority) ⊎ ((q ≡ priority) × (id ≤ source))

here_or_later :
    (s t : ℕ) (rest : List ℕ) → contains t (s ∷ rest) ≡ true → (s ≡ t) ⊎ (contains t rest ≡ true)
unfolding contains
here_or_later s t rest h = ground arith

module _ (p : Plic) where
  -- The candidate is where the loop began, or a pending source of the list.
  abbrev IsFrom : List ℕ → Best → Best → Type 0
  IsFrom l b r =
      ((r.id ≡ b.id) × (r.priority ≡ b.priority))
      ⊎ ((contains r.id l ≡ true)
          × (pends p r.id ≡ true)
          × (r.priority ≡ p.interrupt_priority r.id))

  better-Beats :
      (source q : ℕ) (b : Best)
      → Beats (better source q b).id (better source q b).priority source q
        × Beats (better source q b).id (better source q b).priority b.id b.priority
  unfolding better
  better-Beats source q b = ground arith

  Beats-trans : (i a j b k c : ℕ) → Beats i a j b → Beats j b k c → Beats i a k c
  Beats-trans i a j b k c h g = ground arith

  step : ℕ → Best → Best
  step source b = if pends p source then better source (p.interrupt_priority source) b else b

  scan-step :
      (source : ℕ) (rest : List ℕ) (b r : Best)
      → scan p (source ∷ rest) b ≡ some r
      → scan p rest (step source b) ≡ some r
  unfolding scan step
  scan-step source rest b r h = ground (arith, is_pending_lem source p)

  step-Beats :
      (source : ℕ) (b : Best)
      → Beats (step source b).id (step source b).priority b.id b.priority
        × (pends p source ≡ true
            → Beats
                (step source b).id
                (step source b).priority
                source
                (p.interrupt_priority source))
  unfolding step
  step-Beats source b = ground (arith, better-Beats source (p.interrupt_priority source) b)

  step-IsFrom :
      (source : ℕ) (rest : List ℕ) (b r : Best)
      → IsFrom rest (step source b) r
      → IsFrom (source ∷ rest) b r
  unfolding step better contains
  step-IsFrom source rest b r h = ground arith

  scan-IsFrom : (l : List ℕ) (b r : Best) → scan p l b ≡ some r → IsFrom l b r
  unfolding scan
  scan-IsFrom [] b r h = ground arith
  scan-IsFrom (source ∷ rest) b r h =
      step-IsFrom source rest b r (scan-IsFrom rest (step source b) r (scan-step source rest b r h))

  scan-Beats_start :
      (l : List ℕ) (b r : Best) → scan p l b ≡ some r → Beats r.id r.priority b.id b.priority
  unfolding scan
  scan-Beats_start [] b r h = ground arith
  scan-Beats_start (source ∷ rest) b r h =
      let s = step source b in
      Beats-trans r.id r.priority s.id s.priority b.id b.priority
        (scan-Beats_start rest s r (scan-step source rest b r h)) ((step-Beats source b).0)

  scan-Beats :
      (l : List ℕ) (b r : Best) (t : ℕ)
      → scan p l b ≡ some r
      → contains t l ≡ true
      → pends p t ≡ true
      → Beats r.id r.priority t (p.interrupt_priority t)
  scan-Beats [] b r t h c pending = absurd (unfold contains in cc)
  scan-Beats (source ∷ rest) b r t h c pending =
      let s = step source b in
      let later = scan-step source rest b r h in
      elim (here_or_later source t rest c) [
        | inl e ↦
            Beats-trans r.id r.priority s.id s.priority t (p.interrupt_priority t)
              (scan-Beats_start rest s r later)
              (subst (λ x. Beats s.id s.priority x (p.interrupt_priority x)) e
                ((step-Beats source b).1 (subst (λ x. pends p x ≡ true) (sym e) pending)))
        | inr c' ↦ scan-Beats rest s r t later c' pending
      ]

  -- What ClaimInterrupt returns: nothing to claim, or the interrupt that is claimed.
  abbrev pub NothingToClaim : ℕ → ℕ → Type 0
  NothingToClaim context id =
      (id ≡ 0)
      × ((t : ℕ)
          → contains t (equal_range context p.context_to_source) ≡ true
          → pends p t ≡ true
          → p.interrupt_priority t ≡ 0)

  abbrev pub Claimed : ℕ → ℕ → Type 0
  Claimed context id =
      (contains id (equal_range context p.context_to_source) ≡ true)
      × (pends p id ≡ true)
      × (0 < p.interrupt_priority id)
      × ((t : ℕ)
          → contains t (equal_range context p.context_to_source) ≡ true
          → pends p t ≡ true
          → Beats id (p.interrupt_priority id) t (p.interrupt_priority t))

abbrev no_best : Best
no_best = record { id = 0; priority = 0; count = 0 }

-- What a claim leaves alone, and the register that keeps the number.
pub record ClaimFrame (context id : ℕ) (p q : Plic) : Type 0 where
  pub remembered : id ≢ 0 → q.interrupt_claim_complete context ≡ id
  pub same_gateway : q.gateway_info ≡ p.gateway_info
  pub same_map : q.context_to_source ≡ p.context_to_source
  pub same_priority : q.interrupt_priority ≡ p.interrupt_priority
  pub same_sources : q.num_sources ≡ p.num_sources
  pub same_contexts : q.num_contexts ≡ p.num_contexts

take_claimed_frame :
    (context id : ℕ) (p : Plic) {q : Plic}
    → take_claimed context id p ≡ some q
    → ClaimFrame context id p q
unfolding take_claimed set_pending
take_claimed_frame context id p h = ground arith

settle_frame :
    (context id left : ℕ) (p q : Plic) {r : Plic}
    → settle context left q ≡ some r
    → ClaimFrame context id p q
    → ClaimFrame context id p r
unfolding settle set_irq
settle_frame context id left p q h f = ground arith

-- The result of the loop behind a claim, and the pending bits after it.
record ClaimRun (p : Plic) (context id : ℕ) (q : Plic) : Type 0 where
  best : Best
  ran : scan p (equal_range context p.context_to_source) no_best ≡ some best
  id_is : best.id ≡ id
  cleared : (t : ℕ) → pends q t ≡ (if id /= 0 && t == id then false else pends p t)
  kept : ClaimFrame context id p q

pends-take_claimed :
    (context id t : ℕ) (p : Plic) {q : Plic}
    → take_claimed context id p ≡ some q
    → pends q t ≡ (if id /= 0 && t == id then false else pends p t)
unfolding take_claimed
pends-take_claimed context id t p h = elim (Option-cases (set_pending id false p)) [
  | inl e ↦ ground (arith, e)
  | inr (c, e) ↦ ground (arith, pends-set_pending id t false p e, e)
]

pends-settle :
    (context left t : ℕ) (p : Plic) {q : Plic}
    → settle context left p ≡ some q
    → pends q t ≡ pends p t
unfolding settle set_irq
pends-settle context left t p h = ground arith

claim_run :
    (context id : ℕ) (p q : Plic)
    → context < p.num_contexts
    → claim_interrupt context p ≡ some (id, q)
    → ClaimRun p context id q
unfolding claim_interrupt
claim_run context id p q small h =
    elim (Option-cases (scan p (equal_range context p.context_to_source) no_best)) [
      | inl e ↦ absurd (ground (arith, e))
      | inr (best, e) ↦ elim (Option-cases (take_claimed context best.id p)) [
        | inl e' ↦ absurd (ground (arith, e, e'))
        | inr (c, e') ↦ elim (Option-cases (settle context (left best) c)) [
          | inl e'' ↦ absurd (ground (arith, e, e', e''))
          | inr (d, e'') ↦ record {
            best = best;
            ran = e;
            id_is = ground (arith, e, e', e'');
            cleared = λ t. ground (
              arith,
              e,
              e',
              e'',
              pends-take_claimed context best.id t p e',
              pends-settle context (left best) t c e'',
            );
            kept = frame best c d e e' e'';
          }
        ]
      ]
    ]
  where
    left : Best → ℕ
    left best = if best.id /= 0 then best.count - 1 else best.count

    frame :
        (best : Best) (c d : Plic)
        → scan p (equal_range context p.context_to_source) no_best ≡ some best
        → take_claimed context best.id p ≡ some c
        → settle context (left best) c ≡ some d
        → ClaimFrame context id p q
    frame best c d e e' e'' =
        let f =
          settle_frame context best.id (left best) p c e''
            (take_claimed_frame context best.id p e') in
        ground (arith, e, e', e'', f)

nothing_claimed :
    (p : Plic) (context : ℕ) (r : Best)
    → scan p (equal_range context p.context_to_source) no_best ≡ some r
    → r.id ≡ 0
    → r.priority ≡ 0
    → NothingToClaim p context r.id
nothing_claimed p context r ran i z = (
  i,
  λ t listed pending. ground (
    arith,
    scan-Beats p (equal_range context p.context_to_source) no_best r t ran listed pending,
  ),
)

best-Claimed :
    (p : Plic) (context : ℕ) (r : Best)
    → contains 0 (equal_range context p.context_to_source) ≡ false
    → scan p (equal_range context p.context_to_source) no_best ≡ some r
    → contains r.id (equal_range context p.context_to_source) ≡ true
    → pends p r.id ≡ true
    → r.priority ≡ p.interrupt_priority r.id
    → Claimed p context r.id
best-Claimed p context r no_zero ran listed pending its =
    let sources = equal_range context p.context_to_source in
    let not_zero : r.id ≢ 0 = λ e. cc in
    (
      listed,
      pending,
      ground (arith, scan-Beats_start p sources no_best r ran, not_zero),
      λ t t_listed t_pending.
          subst (λ x. Beats r.id x t (p.interrupt_priority t)) its
            (scan-Beats p sources no_best r t ran t_listed t_pending),
    )

-- A context that claims an interrupt, of sources other than 0, gets 0 if no enabled source with a
-- priority is pending. Otherwise it gets an enabled pending source, which no other one beats in priority,
-- or at the same priority by a lower number; that source is not pending any more, and the others are as
-- before.
pub claim_interrupt_best :
    (context id : ℕ) (p q : Plic)
    → context < p.num_contexts
    → contains 0 (equal_range context p.context_to_source) ≡ false
    → claim_interrupt context p ≡ some (id, q)
    → (NothingToClaim p context id ⊎ Claimed p context id)
      × ((t : ℕ) → pends q t ≡ (if id /= 0 && t == id then false else pends p t))
claim_interrupt_best context id p q small no_zero h =
    let r = claim_run context id p q small h in
    let sources = equal_range context p.context_to_source in
    (
      elim (scan-IsFrom p sources no_best r.best r.ran) [
        | inl (i, z) ↦
            inl (
              subst (NothingToClaim p context) r.id_is (nothing_claimed p context r.best r.ran i z))
        | inr (listed, pending, its) ↦ inr (
            subst (Claimed p context) r.id_is
              (best-Claimed p context r.best no_zero r.ran listed pending its))
      ],
      r.cleared,
    )

pub claim_frame :
    (context id : ℕ) (p q : Plic)
    → context < p.num_contexts
    → claim_interrupt context p ≡ some (id, q)
    → ClaimFrame context id p q
claim_frame context id p q small h = (claim_run context id p q small h).kept

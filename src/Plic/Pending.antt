-- ===== src/Plic/Pending.antt =====
-- The pending bits as a set of sources.
use mpact_riscv.Common.{ℕ, ◌/◌, ◌%◌, ◌≡◌, arith, Bool, ◌==◌, ltb, if◌then◌else◌, none, some}
use mpact_riscv.Bits.{bit, bit-bit_and, bit-bit_or}
use mpact_riscv.Words.{complement, ◌<<<◌}
use mpact_riscv.Words.Laws.{to_bool-one_hot, bit-one_hot, bit-complement}
use mpact_riscv.Words.Halves.{bit_and-ones}
use mpact_riscv.Plic.Defs.{Plic, num_words, is_pending, set_pending}

-- Whether a source is pending.
abbrev pub pends : Plic → ℕ → Bool
pends p source = bit (p.interrupt_pending (source / 32)) (source % 32)

-- The word of a source exists.
abbrev pub has_word : Plic → ℕ → Bool
has_word p source = ltb (source / 32) (num_words p)

pub is_pending_lem :
    (source : ℕ) (p : Plic)
    → is_pending source p ≡ (if has_word p source then some (pends p source) else none)
unfolding is_pending
is_pending_lem source p = ground (
  arith,
  bit_and-ones 5 source,
  to_bool-one_hot (p.interrupt_pending (source / 32)) (source % 32),
)

same_bit : (s t : ℕ) → s / 32 ≡ t / 32 → s % 32 ≡ t % 32 → s ≡ t
same_bit s t h l = omega arith

-- Setting or clearing one source leaves the others as they are.
pub pends-set_pending :
    (source t : ℕ) (value : Bool) (p : Plic) {q : Plic}
    → set_pending source value p ≡ some q
    → pends q t ≡ (if t == source then value else pends p t)
unfolding set_pending
pends-set_pending source t value p h = ground (
  arith,
  bit_and-ones 5 source,
  bit-bit_or (p.interrupt_pending (source / 32)) (1 <<< (source % 32)) (t % 32),
  bit-bit_and (p.interrupt_pending (source / 32)) (complement 32 (1 <<< (source % 32))) (t % 32),
  bit-complement 32 (1 <<< (source % 32)) (t % 32),
  bit-one_hot (source % 32) (t % 32),
  same_bit source t,
)

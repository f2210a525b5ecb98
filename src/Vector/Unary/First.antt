-- ===== src/Vector/Unary/First.antt =====
-- The bits that the instructions on the first element of a mask give.
use mpact_riscv.Common.{
  ℕ, zero, suc, ◌+◌, ◌-◌, ◌≡◌, refl, ap, ◌∙◌, sym, arith, Bool, true, false, not, ◌&&◌, ltb, leb,
  ◌==◌, ◌/=◌, if◌then◌else◌, Bool-cases, inl, inr,
}
use mpact_riscv.Vector.Loop.{Span, Operands, VectorUnit, mask_bit, raise}
use mpact_riscv.Vector.Mask.{set_mask_bit, submitted}
use mpact_riscv.Vector.Mask.Bitwise.{mask_bit-set_mask_bit}
use mpact_riscv.Vector.Unary.{first_loop, vmsif, vmsof, is_set}

-- None of the `n` elements from `i` on is set.
abbrev pub none_set : (ℕ → Bool) → ℕ → ℕ → Bool
none_set f zero i = true
none_set f (suc n) i = not (f i) && none_set f n (i + 1)

none_set-later :
    (f : ℕ → Bool) (n i : ℕ)
    → ltb 0 n ≡ true
    → none_set f n i ≡ (not (f i) && none_set f (n - 1) (i + 1))
none_set-later f zero i pos = ground (arith, pos)
none_set-later f (suc n) i pos = let e : suc n - 1 ≡ n = omega arith in rw e refl

next_test :
    (active src_value first rest : Bool)
    → ((if active then first && not src_value else first) && rest)
      ≡ (first && (not (active && src_value) && rest))
next_test active src_value first rest = ground arith

written_bit :
    (active b : Bool) (i : ℕ) (span : Span) (k : ℕ)
    → mask_bit (if active then set_mask_bit i b span else span) k
      ≡ (if active && k == i then b else mask_bit span k)
written_bit false b i span k = refl
written_bit true b i span k = mask_bit-set_mask_bit i b span k

module _ (out : Bool → Bool → Bool) (mask source : Span) where
  abbrev found : ℕ → Bool
  found j = mask_bit mask j && mask_bit source j

  mask_bit-first_loop :
      (n i : ℕ) (first : Bool) (span : Span) (k : ℕ)
      → mask_bit (first_loop out mask source n i first span) k ≡ (
          if leb i k && ltb k (i + n) && mask_bit mask k
          then out (first && none_set found (k - i) i) (mask_bit source k)
          else mask_bit span k)
  unfolding first_loop
  mask_bit-first_loop zero i first span k = ground arith
  mask_bit-first_loop (suc n) i first span k =
      let active = mask_bit mask i in
      let src_value = mask_bit source i in
      let next = if active then first && not src_value else first in
      let written = if active then set_mask_bit i (out first src_value) span else span in
      let step = mask_bit-first_loop n (i + 1) next written k in
      let bits = written_bit active (out first src_value) i span k in
      let end : i + 1 + n ≡ i + suc n = omega arith in
      elim (Bool-cases (leb (i + 1) k)) [
        | inl later ↦
            let from : leb i k ≡ true = ground (arith, later) in
            let apart : k == i ≡ false = ground (arith, later) in
            let index : k - i - 1 ≡ k - (i + 1) = omega arith in
            let unset = none_set-later found (k - i) i (ground (arith, later)) in
            step
            ∙ rw
                (
                  later,
                  from,
                  end,
                  bits,
                  apart,
                  unset,
                  index,
                  next_test active src_value first (none_set found (k - (i + 1)) (i + 1)),
                )
                (ground arith)
        | inr not_later ↦ elim (Bool-cases (k == i)) [
          | inl here ↦
              let e : k ≡ i = ground (arith, here) in
              let from : leb k k ≡ true = ground arith in
              let below : ltb k (k + suc n) ≡ true = ground arith in
              let none : k - k ≡ 0 = omega arith in
              step ∙ rw (not_later, bits, here) (rw (sym e, from, below, none) (ground arith))
          | inr other ↦
              let from : leb i k ≡ false = ground (arith, not_later, other) in
              step ∙ rw (not_later, bits, other, from) (ground arith)
        ]
      ]

unstarted_lem :
    (u after : VectorUnit)
    → u.state.vstart ≡ 0
    → (if u.state.vstart /= 0 then raise u else after) ≡ after
unstarted_lem u after start =
    let test : (u.state.vstart /= 0) ≡ false = ground (arith, start) in
    ap (λ b. if b then raise u else after) test

-- With vstart 0, set-including-first gives each element under the mask whether no element before it is
-- set in the source and the mask, and set-only-first gives whether it is the first that is set. The
-- bits from the length on and those that are masked off stay.
pub first_masks :
    (o : Operands) (u : VectorUnit) (k : ℕ)
    → u.state.vstart ≡ 0
    → let body = ltb k u.state.vector_length && mask_bit o.mask k in
      let before = none_set (is_set o u) k 0 in
      let old = mask_bit (u.dest 0) k in
      (mask_bit ((vmsif o u).dest 0) k ≡ (if body then before else old))
      × (mask_bit ((vmsof o u).dest 0) k
          ≡ (if body then before && mask_bit (o.vs2 u.dest) k else old))
unfolding vmsif vmsof submitted
first_masks o u k start =
    let loop = λ (out : Bool → Bool → Bool).
      first_loop out o.mask (o.vs2 u.dest) u.state.vector_length 0 true (u.dest 0) in
    let bits = λ (out : Bool → Bool → Bool).
      mask_bit-first_loop out o.mask (o.vs2 u.dest) u.state.vector_length 0 true (u.dest 0) k in
    let from : leb 0 k ≡ true = ground arith in
    let index : k - 0 ≡ k = omega arith in
    let end : 0 + u.state.vector_length ≡ u.state.vector_length = omega arith in
    (
      ap (λ (u : VectorUnit). mask_bit (u.dest 0) k)
            (unstarted_lem u (submitted u (loop (λ first src. first))) start)
          ∙ bits (λ first src. first)
          ∙ rw (from, index, end) refl,
      ap (λ (u : VectorUnit). mask_bit (u.dest 0) k)
            (unstarted_lem u (submitted u (loop (λ first src. first && src))) start)
          ∙ bits (λ first src. first && src)
          ∙ rw (from, index, end) refl,
    )

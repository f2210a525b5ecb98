-- ===== src/Vector/Reduction/Sum.antt =====
-- The sums that the reductions compute.
use native.Mathlib.Nat.{mod-eq_of_lt, add-zero, one-le-pow, mod-add-mod, pow-le-pow_right, mod-lt}
use mpact_riscv.Common.{
  ℕ, zero, suc, ◌+◌, ◌*◌, ◌%◌, ◌^◌, ◌<◌, ◌≤◌, ◌≡◌, refl, ap, ◌∙◌, sym, arith, true, false, not,
  ◌&&◌, ◌==◌, ◌/=◌, if◌then◌else◌, [], ◌∷◌, Bool-cases, inl, inr,
}
use mpact_riscv.Words.{IsWord}
use mpact_riscv.Vector.Loop.{Span, Group, Operands, VectorUnit, mask_bit, all_legal}
use mpact_riscv.Vector.Loop.Operations.{checked_lem}
use mpact_riscv.Vector.Mask.{reduction_loop, binary_reduction_vector_op, submitted}
use mpact_riscv.Vector.Opi.{widths, narrow_widths}
use mpact_riscv.Vector.Opi.Widths.{one_of, by_width_lem}
use mpact_riscv.Vector.Opm.{sign_extended}
use mpact_riscv.Integer.{add}
use mpact_riscv.Vector.Reduction.{vredsum, vwredsumu, vwredsum}

-- The sum of the elements under the mask, from element `i` on.
abbrev pub total : (ℕ → ℕ) → Span → Span → ℕ → ℕ → ℕ
total extend mask source zero i = 0
total extend mask source (suc n) i =
    (if mask_bit mask i then extend (source i) else 0) + total extend mask source n (i + 1)

reduction_loop-total :
    (w : ℕ) (extend : ℕ → ℕ) (o : Operands) (dest : Group) (n i acc : ℕ)
    → IsWord w acc
    → reduction_loop (λ acc x. (acc + extend x) % 2 ^ w) o dest n i acc
      ≡ (acc + total extend o.mask (o.vs2 dest) n i) % 2 ^ w
unfolding reduction_loop
reduction_loop-total w extend o dest zero i acc word =
    sym (ap (λ t. t % 2 ^ w) (add-zero acc) ∙ mod-eq_of_lt word)
reduction_loop-total w extend o dest (suc n) i acc word =
    let x = extend (o.vs2 dest i) in
    let rest = total extend o.mask (o.vs2 dest) n (i + 1) in
    elim (Bool-cases (mask_bit o.mask i)) [
      | inl active ↦ rw active (
          reduction_loop-total w extend o dest n (i + 1) ((acc + x) % 2 ^ w)
            (mod-lt (acc + x) (one-le-pow w 2 (omega arith)))
          ∙ mod-add-mod (acc + x) (2 ^ w) rest
          ∙ ap (λ t. t % 2 ^ w) (omega arith))
      | inr masked ↦ rw masked (
          reduction_loop-total w extend o dest n (i + 1) acc word
          ∙ ap (λ t. t % 2 ^ w) (omega arith))
    ]

-- What a reduction leaves: the first element of the destination, and vstart.
abbrev pub with_first : ℕ → VectorUnit → VectorUnit
with_first x u = submitted u (λ k. if k == 0 then x else u.dest 0 k)

binary_reduction_vector_op-total :
    (d s2 s1 w : ℕ) (convert extend : ℕ → ℕ) (o : Operands) (u : VectorUnit)
    → u.state.vector_exception ≡ false
    → u.state.vstart ≡ 0
    → all_legal u.state (d ∷ s2 ∷ s1 ∷ []) ≡ true
    → IsWord w (convert (o.vs1 u.dest 0))
    → binary_reduction_vector_op d s2 s1 convert (λ acc x. (acc + extend x) % 2 ^ w) o u
      ≡ with_first
          ((convert (o.vs1 u.dest 0) + total extend o.mask (o.vs2 u.dest) u.state.vector_length 0)
            % 2 ^ w)
          u
unfolding binary_reduction_vector_op
binary_reduction_vector_op-total d s2 s1 w convert extend o u quiet start legal word =
    let run = λ (u : VectorUnit).
      with_first
        (reduction_loop (λ acc x. (acc + extend x) % 2 ^ w) o u.dest u.state.vector_length 0
          (convert (o.vs1 u.dest 0)))
        u in
    let test : (not u.state.vector_exception && u.state.vstart /= 0) ≡ false =
      rw (quiet, start) refl in
    rw test (
      checked_lem (d ∷ s2 ∷ s1 ∷ []) run u quiet legal
      ∙ ap (λ x. with_first x u)
          (reduction_loop-total w extend o u.dest u.state.vector_length 0 (convert (o.vs1 u.dest 0))
            word))

sign_extended-IsWord :
    (n x : ℕ) → IsWord (8 * n) x → IsWord (16 * n) x × IsWord (16 * n) (sign_extended (8 * n) x)
sign_extended-IsWord n x word =
    let two : 0 < 2 = omega arith in
    let more : 2 ^ (8 * n) ≤ 2 ^ (16 * n) = pow-le-pow_right two (omega arith) in
    let width : 2 ^ (2 * (8 * n)) ≡ 2 ^ (16 * n) = ap (λ k. 2 ^ k) (omega arith) in
    (omega (arith, word, more), rw width (ground (arith, word, more)))

module _ (o : Operands) (u : VectorUnit) (quiet : u.state.vector_exception ≡ false)
    (start : u.state.vstart ≡ 0) where
  -- The sum reduction leaves in the first element the sum of the first one of the second source and
  -- of all elements under the mask below the length, modulo the width of an element, and nothing else changes:
  -- for the four widths, with vstart 0, no exception, legal multipliers, and a first element of the
  -- second source that is a word of the width.
  pub vredsum-total :
      let n = u.state.selected_element_width in
      let sum = o.vs1 u.dest 0 + total (λ x. x) o.mask (o.vs2 u.dest) u.state.vector_length 0 in
      one_of widths n ≡ true
      → all_legal u.state (n ∷ n ∷ n ∷ []) ≡ true
      → IsWord (8 * n) (o.vs1 u.dest 0)
      → vredsum o u ≡ with_first (sum % 2 ^ (8 * n)) u
  unfolding vredsum add
  vredsum-total known legal word =
      let n = u.state.selected_element_width in
      by_width_lem widths (λ n. binary_reduction_vector_op n n n (λ a. a) (add (8 * n)) o) u known
      ∙ binary_reduction_vector_op-total n n n (8 * n) (λ a. a) (λ x. x) o u quiet start legal word

  -- The widening sum reductions leave in the first element the sum of the first element of the second source,
  -- which is read with the narrow width, and of all elements under the mask below the length, each with zeros
  -- or with copies of its sign before it, modulo the double width. Nothing else changes. No exception is set,
  -- vstart is 0, the width is one of the three that can be doubled, the multipliers are legal, and the first
  -- element of the second source is a word of the width.
  pub vwredsum-total :
      let n = u.state.selected_element_width in
      let total_of = λ (extend : ℕ → ℕ).
        (extend (o.vs1 u.dest 0) + total extend o.mask (o.vs2 u.dest) u.state.vector_length 0)
        % 2 ^ (16 * n) in
      one_of narrow_widths n ≡ true
      → all_legal u.state (2 * n ∷ n ∷ n ∷ []) ≡ true
      → IsWord (8 * n) (o.vs1 u.dest 0)
      → (vwredsumu o u ≡ with_first (total_of (λ x. x)) u)
        × (vwredsum o u ≡ with_first (total_of (sign_extended (8 * n))) u)
  unfolding vwredsumu vwredsum
  vwredsum-total known legal word =
      let n = u.state.selected_element_width in
      (
        by_width_lem narrow_widths
              (λ n.
                binary_reduction_vector_op (2 * n) n n (λ a. a) (λ acc x. (acc + x) % 2 ^ (16 * n))
                  o)
              u known
            ∙ binary_reduction_vector_op-total (2 * n) n n (16 * n) (λ a. a) (λ x. x) o u quiet
                start legal ((sign_extended-IsWord n (o.vs1 u.dest 0) word).0),
        by_width_lem narrow_widths
              (λ n.
                binary_reduction_vector_op (2 * n) n n (sign_extended (8 * n))
                  (λ acc x. (acc + sign_extended (8 * n) x) % 2 ^ (16 * n)) o)
              u known
            ∙ binary_reduction_vector_op-total (2 * n) n n (16 * n) (sign_extended (8 * n))
                (sign_extended (8 * n)) o u quiet start legal
                ((sign_extended-IsWord n (o.vs1 u.dest 0) word).1),
      )

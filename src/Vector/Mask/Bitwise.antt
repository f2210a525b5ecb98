-- ===== src/Vector/Mask/Bitwise.antt =====
-- The bits of a mask register that an instruction writes.
use mpact_riscv.Common.{
  ℕ, zero, suc, ◌+◌, ◌-◌, ◌/◌, ◌%◌, ◌^◌, ◌<◌, ◌≡◌, refl, ap, ◌∙◌, arith, Bool, true, false, not,
  ◌&&◌, ◌==◌, ltb, leb, if◌then◌else◌, bit_and, bit_or, Bool-cases, inl, inr,
}
use mpact_riscv.Bits.{bit, bit-bit_and, bit-bit_or, bit-shr, bit-shl}
use mpact_riscv.Words.{complement, of_bool, ◌<<<◌}
use mpact_riscv.Words.Laws.{bit-complement, bit-one_hot, bit-of_bool}
use mpact_riscv.Words.Halves.{bit_and-ones}
use mpact_riscv.Vector.Loop.{Span, Group, Operands, VectorUnit, mask_bit}
use mpact_riscv.Vector.Loop.Operations.{second}
use mpact_riscv.Vector.Mask.{set_mask_bit, mask_step, mask_loop, submitted, mask_vector_op}

pub mask_bit_lem : (span : Span) (i : ℕ) → mask_bit span i ≡ bit (span (i / 8)) (i % 8)
unfolding mask_bit bit
mask_bit_lem span i =
    let low : bit_and i 0b111 ≡ i % 8 = bit_and-ones 3 i in
    let at = bit_and-ones 1 (span (i / 8) / 2 ^ (i % 8)) in
    let shifted = bit-shr (i % 8) (span (i / 8)) 0 in
    let index : 0 + i % 8 ≡ i % 8 = omega arith in
    rw low (ground (arith, at) ∙ shifted ∙ ap (bit (span (i / 8))) index)

-- The bit of the byte after the bit `k` is set to `b`.
byte_bit :
    (x k : ℕ) (b : Bool) (i : ℕ)
    → k < 8
    → bit (bit_or (bit_and x (complement 8 (1 <<< k))) (of_bool b <<< k)) i
      ≡ (if i == k then b else ltb i 8 && bit x i)
byte_bit x k b i small =
    rw (bit-bit_or, bit-bit_and, bit-complement, bit-one_hot, bit-shl k (of_bool b) i, bit-of_bool)
      (ground arith)

pub mask_bit-set_mask_bit :
    (i : ℕ) (b : Bool) (span : Span) (j : ℕ)
    → mask_bit (set_mask_bit i b span) j ≡ (if j == i then b else mask_bit span j)
unfolding set_mask_bit
mask_bit-set_mask_bit i b span j =
    let low : bit_and i 0b111 ≡ i % 8 = bit_and-ones 3 i in
    rw (mask_bit_lem (set_mask_bit i b span) j, mask_bit_lem span j, low)
      (elim (Bool-cases (j / 8 == i / 8)) [
        | inl e ↦ rw e (byte_bit (span (j / 8)) (i % 8) b (j % 8) (omega arith) ∙ ground (arith, e))
        | inr e ↦ ground (arith, e)
      ])

same_at : (f : ℕ → Bool) (i j : ℕ) → f j ≡ (if j == i then f i else f j)
same_at f i j = elim (Bool-cases (j == i)) [
  | inl e ↦ let at : j ≡ i = ground (arith, e) in rw e (ap f at)
  | inr e ↦ rw e refl
]

-- A step for `i`, and then steps for the elements above it.
loop_range :
    (new : ℕ → Bool) (later : Bool → Bool) (before : Bool) (n i j : ℕ)
    → (i ≡ j → new i ≡ later before)
    → (if leb (i + 1) j && ltb j (i + 1 + n)
        then later (if j == i then new i else before)
        else if j == i
        then new i
        else before)
      ≡ (if leb i j && ltb j (i + suc n) then later before else before)
loop_range new later before n i j at = elim (Bool-cases (j == i)) [
  | inl e ↦
      let here : i ≡ j = ground (arith, e) in
      let value = at here in
      let first : (leb (i + 1) j && ltb j (i + 1 + n)) ≡ false = ground (arith, e) in
      let all : (leb i j && ltb j (i + suc n)) ≡ true = ground (arith, e) in
      rw (e, first, all) value
  | inr e ↦
      let range : (leb (i + 1) j && ltb j (i + 1 + n)) ≡ (leb i j && ltb j (i + suc n)) =
        ground (arith, e) in
      rw (e, range) refl
]

-- The loop from `start` on, over the elements below `start + n`.
module _ (skips : Bool) (op : ℕ → ℕ → Bool → Bool) (o : Operands) (dest : Group) where
  abbrev pub new_bit : ℕ → Bool → Bool
  new_bit j before =
      let mask_used = not o.vm_unmasked_bit in
      let active = mask_bit o.mask j in
      if skips && mask_used && not active
      then before
      else op (o.vs2 dest j) (second o dest j) (mask_used && active)

  mask_bit-mask_step :
      (i : ℕ) (span : Span) (j : ℕ)
      → mask_bit (mask_step skips op o dest i span) j
        ≡ (if j == i then new_bit i (mask_bit span i) else mask_bit span j)
  unfolding mask_step
  mask_bit-mask_step i span j =
      elim (Bool-cases (skips && not o.vm_unmasked_bit && not (mask_bit o.mask i))) [
        | inl e ↦ rw e (same_at (mask_bit span) i j)
        | inr e ↦ rw e (mask_bit-set_mask_bit i _ span j)
      ]

  mask_bit-mask_loop :
      (n i : ℕ) (span : Span) (j : ℕ)
      → mask_bit (mask_loop skips op o dest n i span) j
        ≡ (if leb i j && ltb j (i + n) then new_bit j (mask_bit span j) else mask_bit span j)
  unfolding mask_loop
  mask_bit-mask_loop zero i span j = ground arith
  mask_bit-mask_loop (suc n) i span j =
      mask_bit-mask_loop n (i + 1) (mask_step skips op o dest i span) j
      ∙ rw (mask_bit-mask_step i span j) (
          loop_range (λ k. new_bit k (mask_bit span k)) (λ b. new_bit j b) (mask_bit span j) n i j
            (λ at. ap (λ k. new_bit k (mask_bit span k)) at))

mask_vector_op_lem :
    (skips : Bool) (op : ℕ → ℕ → Bool → Bool) (o : Operands) (u : VectorUnit)
    → u.state.vector_exception ≡ false
    → mask_vector_op skips op o u
      ≡ submitted u (
          mask_loop skips op o u.dest
            (u.state.vector_length - u.state.vstart)
            u.state.vstart
            (u.dest 0))
unfolding mask_vector_op
mask_vector_op_lem skips op o u quiet =
    ap
      (λ b.
        if b
        then u
        else submitted u (
            mask_loop skips op o u.dest (u.state.vector_length - u.state.vstart) u.state.vstart
              (u.dest 0)))
      quiet

-- An instruction that writes a mask, without an exception before it, sets the bits of the elements from vstart
-- on and below the length to what the operation gives for the elements of the sources and the bit of the mask,
-- except that one that skips elements keeps those that the mask turns off. All other bits of the register
-- and all other registers are as before, and but for vstart, which gets 0, so is the state.
pub mask_bit-mask_vector_op :
    (skips : Bool) (op : ℕ → ℕ → Bool → Bool) (o : Operands) (u : VectorUnit) (j r : ℕ)
    → u.state.vector_exception ≡ false
    → let after = mask_vector_op skips op o u in
      (after.state ≡ record (u.state) { vstart = 0 })
      × (mask_bit (after.dest 0) j ≡ (
          if leb u.state.vstart j && ltb j u.state.vector_length
          then new_bit skips op o u.dest j (mask_bit (u.dest 0) j)
          else mask_bit (u.dest 0) j))
      × (after.dest (suc r) ≡ u.dest (suc r))
unfolding submitted
mask_bit-mask_vector_op skips op o u j r quiet =
    let num = u.state.vector_length in
    let start = u.state.vstart in
    let loop = mask_bit-mask_loop skips op o u.dest (num - start) start (u.dest 0) j in
    let range : (leb start j && ltb j (start + (num - start))) ≡ (leb start j && ltb j num) =
      ground arith in
    rw (mask_vector_op_lem skips op o u quiet) (
      refl,
      loop
          ∙ ap
              (λ b.
                if b
                then new_bit skips op o u.dest j (mask_bit (u.dest 0) j)
                else mask_bit (u.dest 0) j)
              range,
      let other : (suc r == 0) ≡ false = ground arith in rw other refl,
    )

-- ===== src/Vector/Opm/Masks.antt =====
-- The bits that the logical operations on masks write.
use mpact_riscv.Common.{
  ℕ, zero, suc, ◌+◌, ◌-◌, ◌/◌, ◌%◌, ◌^◌, ◌<◌, ◌≡◌, refl, ap, ◌∙◌, arith, Bool, false, not, ◌&&◌,
  ◌||◌, ◌==◌, ltb, leb, if◌then◌else◌, bit_and, bit_or, Bool-cases, inl, inr,
}
use mpact_riscv.Bits.{bit, bit-bit_and, bit-bit_or, bit-shr, bit-shl, bit-mod, bit-ones, bit-zero}
use mpact_riscv.Words.{complement, ◌<<<◌, ◌>>>◌}
use mpact_riscv.Words.Laws.{bit-complement}
use mpact_riscv.Vector.Loop.{Span, Operands, VectorUnit, mask_bit}
use mpact_riscv.Vector.Mask.{submitted}
use mpact_riscv.Vector.Mask.Bitwise.{mask_bit_lem}
use mpact_riscv.Vector.Opm.{put_byte, middle_loop, bitwise_bytes, bitwise_mask_binary_op}

merged_bit :
    (v x m k : ℕ)
    → k < 8
    → bit (bit_or (bit_and v m) (bit_and x (complement 8 m))) k
      ≡ (if bit m k then bit v k else bit x k)
merged_bit v x m k small =
    rw (bit-bit_or, bit-bit_and v m k, bit-bit_and, bit-complement) (ground arith)

-- The span with the byte `i` merged by a mask, and with the bytes from `i` on.
module _ (value : Span) where
  mask_bit-merged :
      (i m : ℕ) (span : Span) (j : ℕ)
      → mask_bit
          (put_byte i (bit_or (bit_and (value i) m) (bit_and (span i) (complement 8 m))) span)
          j
        ≡ (if j / 8 == i && bit m (j % 8) then mask_bit value j else mask_bit span j)
  mask_bit-merged i m span j =
      rw
        (
          mask_bit_lem
              (put_byte i (bit_or (bit_and (value i) m) (bit_and (span i) (complement 8 m))) span)
              j,
          mask_bit_lem value j,
          mask_bit_lem span j,
        )
        (elim (Bool-cases (j / 8 == i)) [
          | inl e ↦
              let at : j / 8 ≡ i = ground (arith, e) in
              rw (e, at) (merged_bit (value i) (span i) m (j % 8) (omega arith))
          | inr e ↦ rw e refl
        ])

  mask_bit-middle_loop :
      (n i : ℕ) (span : Span) (j : ℕ)
      → mask_bit (middle_loop value n i span) j
        ≡ (if leb i (j / 8) && ltb (j / 8) (i + n) then mask_bit value j else mask_bit span j)
  unfolding middle_loop
  mask_bit-middle_loop zero i span j = ground arith
  mask_bit-middle_loop (suc n) i span j =
      let step : mask_bit (put_byte i (value i) span) j
          ≡ (if j / 8 == i then mask_bit value j else mask_bit span j) =
        rw (mask_bit_lem (put_byte i (value i) span) j, mask_bit_lem value j, mask_bit_lem span j)
          (elim (Bool-cases (j / 8 == i)) [
            | inl e ↦ let at : j / 8 ≡ i = ground (arith, e) in rw (e, at) refl
            | inr e ↦ rw e refl
          ]) in
      mask_bit-middle_loop n (i + 1) (put_byte i (value i) span) j ∙ rw step (ground arith)

-- The masks of the first and of the last byte.
start_bit : (s k : ℕ) → k < 8 → bit ((0xff <<< (s % 8)) % 2 ^ 8) k ≡ leb (s % 8) k
start_bit s k small = rw (bit-mod, bit-shl (s % 8) 0xff k, bit-ones 8 (k - s % 8)) (ground arith)

end_bit :
    (l k : ℕ)
    → k < 8
    → bit (if l == 0 then 0 else 0xff >>> (7 - (l - 1) % 8)) k
      ≡ (not (l == 0) && leb k ((l - 1) % 8))
end_bit l k small = elim (Bool-cases (l == 0)) [
  | inl e ↦ rw e (bit-zero k)
  | inr e ↦
      rw e (bit-shr (7 - (l - 1) % 8) 0xff k ∙ bit-ones 8 (k + (7 - (l - 1) % 8)) ∙ ground arith)
]

-- The bits that are written with vstart `s` and the length `l`.
abbrev pub is_written : ℕ → ℕ → ℕ → Bool
is_written s l j =
    j / 8 == s / 8 && leb s j
    || j / 8 == (l - 1) / 8 && ltb j l
    || ltb (s / 8) (j / 8) && ltb (j / 8) ((l - 1) / 8)

written_parts :
    (s l j : ℕ) (x y : Bool)
    → (if j / 8 == (l - 1) / 8 && (not (l == 0) && leb (j % 8) ((l - 1) % 8))
        then x
        else if leb (s / 8 + 1) (j / 8) && ltb (j / 8) (s / 8 + 1 + ((l - 1) / 8 - (s / 8 + 1)))
        then x
        else if j / 8 == s / 8 && leb (s % 8) (j % 8)
        then x
        else y)
      ≡ (if is_written s l j then x else y)
written_parts s l j x y =
    let first : (j / 8 == s / 8 && leb (s % 8) (j % 8)) ≡ (j / 8 == s / 8 && leb s j) =
      ground arith in
    let last : (j / 8 == (l - 1) / 8 && (not (l == 0) && leb (j % 8) ((l - 1) % 8)))
        ≡ (j / 8 == (l - 1) / 8 && ltb j l) =
      ground arith in
    let middle : (leb (s / 8 + 1) (j / 8) && ltb (j / 8) (s / 8 + 1 + ((l - 1) / 8 - (s / 8 + 1))))
        ≡ (ltb (s / 8) (j / 8) && ltb (j / 8) ((l - 1) / 8)) =
      ground arith in
    rw (first, last, middle) (ground arith)

mask_bit-bitwise_bytes :
    (op : ℕ → ℕ → ℕ) (o : Operands) (u : VectorUnit) (j : ℕ)
    → mask_bit (bitwise_bytes op o u) j ≡ (
        if is_written u.state.vstart u.state.vector_length j
        then mask_bit (λ i. op (o.vs2 u.dest i) (o.vs1 u.dest i)) j
        else mask_bit (u.dest 0) j)
unfolding bitwise_bytes
mask_bit-bitwise_bytes op o u j =
    let s = u.state.vstart in
    let l = u.state.vector_length in
    let value : Span = λ i. op (o.vs2 u.dest i) (o.vs1 u.dest i) in
    let old = u.dest 0 in
    let start_mask = (0xff <<< (s % 8)) % 2 ^ 8 in
    let end_mask = if l == 0 then 0 else 0xff >>> (7 - (l - 1) % 8) in
    let first : Span =
      put_byte (s / 8)
        (bit_or (bit_and (value (s / 8)) start_mask)
          (bit_and (old (s / 8)) (complement 8 start_mask)))
        old in
    let n = (l - 1) / 8 - (s / 8 + 1) in
    let middle = middle_loop value n (s / 8 + 1) first in
    rw
      (
        mask_bit-merged value ((l - 1) / 8) end_mask middle j,
        mask_bit-middle_loop value n (s / 8 + 1) first j,
        mask_bit-merged value (s / 8) start_mask old j,
        start_bit s (j % 8) (omega arith),
        end_bit l (j % 8) (omega arith),
      )
      (written_parts s l j (mask_bit value j) (mask_bit old j))

-- A logical operation on masks, without an exception before it, gives these bits what the operation gives for
-- the bytes of the sources and keeps the other bits and registers: from vstart on in its byte, below the
-- length in the byte of the last element, and all bits of the bytes between these. Where the byte of vstart
-- is below that of the last element these are the bits from vstart on and below the length.
pub mask_bit-bitwise_mask_binary_op :
    (op : ℕ → ℕ → ℕ) (o : Operands) (u : VectorUnit) (j r s l : ℕ)
    → u.state.vector_exception ≡ false
    → s / 8 < (l - 1) / 8
    → let after = bitwise_mask_binary_op op o u in
      (mask_bit (after.dest 0) j ≡ (
        if is_written u.state.vstart u.state.vector_length j
        then mask_bit (λ i. op (o.vs2 u.dest i) (o.vs1 u.dest i)) j
        else mask_bit (u.dest 0) j))
      × (after.dest (suc r) ≡ u.dest (suc r))
      × (is_written s l j ≡ (leb s j && ltb j l))
unfolding bitwise_mask_binary_op submitted
mask_bit-bitwise_mask_binary_op op o u j r s l quiet several =
    let runs : bitwise_mask_binary_op op o u ≡ submitted u (bitwise_bytes op o u) =
      ap (λ b. if b then u else submitted u (bitwise_bytes op o u)) quiet in
    (
      ap (λ (t : VectorUnit). mask_bit (t.dest 0) j) runs ∙ mask_bit-bitwise_bytes op o u j,
      ap (λ (t : VectorUnit). t.dest (suc r)) runs
          ∙ (let other : (suc r == 0) ≡ false = ground arith in rw other refl),
      ground (arith, several),
    )

-- ===== src/Vector/Permute.antt =====
-- The permutations of riscv/riscv_vector_permute_instructions.cc. The bit of the mask is that of the item in
-- its register. A group has one register at least. A source index is an `int`, which wraps around.
pub mod Compress
pub mod Slide
pub mod Moves
use mpact_riscv.Common.{
  ℕ, zero, suc, ◌+◌, ◌-◌, ◌*◌, ◌/◌, ◌%◌, ◌^◌, Bool, true, false, ◌&&◌, ◌==◌, ltb, if◌then◌else◌,
  List, [], ◌∷◌,
}
use mpact_riscv.Vector.Loop.{
  Span, Group, Operands, Outcome, VectorUnit, mask_bit, raise, masked, vector_loop,
}
use mpact_riscv.Vector.Opi.{by_width, widths}

abbrev pub per_vector : ℕ → VectorUnit → ℕ
per_vector d u = u.state.vector_register_byte_length / d

-- The loops over the elements under the mask, which take the value for element `j`.
unfoldable pub permuted :
    ℕ → (Group → ℕ → Bool) → (Group → ℕ → ℕ) → Operands → VectorUnit → VectorUnit
permuted d writes value o u =
    let compute = λ (g : Group) (j : ℕ) (active : Bool).
      masked (mask_bit o.mask (j % per_vector d u) && writes g j) (value g j) false in
    if u.state.vector_exception then u else vector_loop d compute o u

-- VrgatherHelper, with indices of `s1` bytes and `source_size` registers.
unfoldable pub vrgather_helper : ℕ → ℕ → ℕ → Operands → VectorUnit → VectorUnit
vrgather_helper source_size d s1 o u =
    let max_index = source_size * per_vector d u in
    let value = λ (g : Group) (j : ℕ).
      let vs1 = o.vs1 g (if o.vector_scalar then 0 else j) % 2 ^ 32 in
      if ltb vs1 max_index then o.vs2 g vs1 else 0 in
    if u.state.vector_exception
    then u
    else if ltb 64 (u.state.vector_length_multiplier * s1 / d)
    then raise u
    else permuted d (λ g j. true) value o u

unfoldable pub vrgather : ℕ → Operands → VectorUnit → VectorUnit
vrgather source_size o = by_width widths (λ n. vrgather_helper source_size n n o)

unfoldable pub vrgatherei16 : ℕ → Operands → VectorUnit → VectorUnit
vrgatherei16 source_size o = by_width widths (λ n. vrgather_helper source_size n 2 o)

-- The index of the source of element `j`, as a word, where `shift` is minus the offset.
abbrev pub source_index : ℕ → ℕ → ℕ
source_index shift j = (j + shift) % 2 ^ 32

-- VSlideHelper.
unfoldable pub vslide_helper : ℕ → ℕ → Operands → VectorUnit → VectorUnit
vslide_helper d shift o u =
    permuted d (λ g j. ltb (source_index shift j) (2 ^ 31))
      (λ g j.
        let src_index = source_index shift j in
        if ltb src_index u.state.max_vector_length then o.vs2 g src_index else 0)
      o u

unfoldable pub vslideup : Operands → VectorUnit → VectorUnit
vslideup o u =
    let offset = o.vs1 u.dest 0 % 2 ^ 32 in
    if ltb u.state.max_vector_length offset
    then u
    else by_width widths (λ n. vslide_helper n (2 ^ 32 - offset) o) u

unfoldable pub vslidedown : Operands → VectorUnit → VectorUnit
vslidedown o u = by_width widths (λ n. vslide_helper n (o.vs1 u.dest 0 % 2 ^ 32) o) u

-- VSlide1Helper, which reads the scalar with the width of an element.
unfoldable pub vslide1_helper : ℕ → ℕ → Operands → VectorUnit → VectorUnit
vslide1_helper d shift o u =
    let slide_value = o.vs1 u.dest 0 % 2 ^ (8 * d) in
    permuted d (λ g j. true)
      (λ g j.
        let src_index = source_index shift j in
        if ltb 0 src_index && ltb src_index (2 ^ 31) && ltb src_index u.state.max_vector_length
        then o.vs2 g src_index
        else slide_value)
      o u

abbrev pub float_widths : List ℕ
float_widths = 4 ∷ 8 ∷ []

unfoldable pub vslide1up : Operands → VectorUnit → VectorUnit
vslide1up o = by_width widths (λ n. vslide1_helper n (2 ^ 32 - 1) o)

unfoldable pub vslide1down : Operands → VectorUnit → VectorUnit
vslide1down o = by_width widths (λ n. vslide1_helper n 1 o)

unfoldable pub vfslide1up : Operands → VectorUnit → VectorUnit
vfslide1up o = by_width float_widths (λ n. vslide1_helper n (2 ^ 32 - 1) o)

unfoldable pub vfslide1down : Operands → VectorUnit → VectorUnit
vfslide1down o = by_width float_widths (λ n. vslide1_helper n 1 o)

-- VCompressHelper, of a source apart from the destination: the elements under the mask, from vstart on, are
-- written one after the other.
unfoldable pub compress_loop : Span → Span → ℕ → ℕ → ℕ → ℕ → Group → Group
compress_loop source mask pv zero i dest_index g = g
compress_loop source mask pv (suc n) i dest_index g =
    let active = mask_bit mask i in
    let written =
      λ (r k : ℕ). if r == dest_index / pv && k == dest_index % pv then source i else g r k in
    compress_loop source mask pv n (i + 1) (if active then dest_index + 1 else dest_index)
      (if active then written else g)

unfoldable pub vcompress_helper : ℕ → Operands → VectorUnit → VectorUnit
vcompress_helper d o u =
    let v = u.state in
    let pv = per_vector d u in
    let max_regs = (v.vector_length + pv - 1) / pv in
    let packed =
      compress_loop (o.vs2 u.dest) o.mask pv (v.vector_length - v.vstart) v.vstart 0 u.dest in
    if v.vector_exception
    then u
    else if ltb o.dest_size max_regs
    then raise u
    else record { state = record v { vstart = 0 }; dest = packed }

unfoldable pub vcompress : Operands → VectorUnit → VectorUnit
vcompress o = by_width widths (λ n. vcompress_helper n o)

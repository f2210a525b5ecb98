-- ===== src/Vector/Permute/Moves.antt =====
-- The elements that the slide instructions move, for an offset and a length that fit.
use mpact_riscv.Common.{
  ℕ, ◌+◌, ◌*◌, ◌-◌, ◌%◌, ◌^◌, ◌<◌, ◌≤◌, ◌≡◌, refl, ap, ◌∙◌, arith, Bool, true, false, ◌&&◌, ltb,
  leb, if◌then◌else◌,
}
use mpact_riscv.Vector.Loop.{Group, Operands, VectorUnit}
use mpact_riscv.Vector.Loop.Elements.{IsReady, IsSteady}
use mpact_riscv.Vector.Loop.Operations.{index_of}
use mpact_riscv.Vector.Opi.{widths}
use mpact_riscv.Vector.Opi.Widths.{one_of, by_width_lem}
use mpact_riscv.Vector.Permute.{
  per_vector, source_index, vslide_helper, vslideup, vslidedown, vslide1_helper, vslide1up,
  vslide1down,
}
use mpact_riscv.Vector.Permute.Slide.{
  is_selected, is_selected-inside, slid1, slid1-up, slid1-down, vslide_helper-element, up_test,
  down_test, permuted-element,
}

if-same :
    (a : Bool) (x y old : ℕ) → (a ≡ true → x ≡ y) → (if a then x else old) ≡ (if a then y else old)
if-same false x y old same = refl
if-same true x y old same = same refl

-- The scalar, cut to the width of an element.
abbrev pub scalar : Operands → VectorUnit → ℕ
scalar o u = o.vs1 u.dest 0 % 2 ^ (8 * u.state.selected_element_width)

abbrev pub slid1_value : Operands → VectorUnit → ℕ → Group → ℕ → ℕ
slid1_value o u shift g = slid1 shift u.state.max_vector_length (scalar o u) (o.vs2 g)

module _ (o : Operands) (u : VectorUnit) (reg item : ℕ)
    (known : one_of widths u.state.selected_element_width ≡ true)
    (ready : IsReady u.state.selected_element_width o u)
    (fits : u.state.vector_length ≤ u.state.max_vector_length) where
  -- A slide up by an offset of at most the maximal length gives each selected element from the offset on the
  -- element of the source that many places below, and keeps all other elements.
  -- An element of the destination is selected if it is in its register, not before vstart and below the length,
  -- and if the mask has the bit of its item, the place in its register: in a group of several registers this is
  -- not the bit of the element. The element width is one of the four, no exception is set, a register holds at least
  -- one element, the destination has enough registers, the length is at most the maximal one, which is below
  -- 2 ^ 31, and what the source reads for an element is in no destination register before the element's own.
  pub vslideup-element :
      let d = u.state.selected_element_width in
      let offset = o.vs1 u.dest 0 in
      let j = index_of d (u.state) reg item in
      u.state.max_vector_length < 2 ^ 31
      → offset ≤ u.state.max_vector_length
      → IsSteady (per_vector d u) u.dest (λ g j. o.vs2 g (source_index (2 ^ 32 - offset) j))
      → (vslideup o u).dest reg item ≡ (
          if is_selected d o u.state reg item && leb offset j
          then o.vs2 u.dest (j - offset)
          else u.dest reg item)
  unfolding vslideup
  vslideup-element small fair steady =
      let d = u.state.selected_element_width in
      let offset = o.vs1 u.dest 0 in
      let word : offset % 2 ^ 32 ≡ offset = omega (arith, fair, small) in
      let test : ltb u.state.max_vector_length offset ≡ false = ground (arith, fair) in
      rw (word, test)
        (ap (λ (u : VectorUnit). u.dest reg item)
            (by_width_lem widths (λ n. vslide_helper n (2 ^ 32 - offset) o) u known)
          ∙ (vslide_helper-element o u d (2 ^ 32 - offset) reg item ready steady).1
          ∙ up_test (is_selected d o u.state reg item) offset (index_of d (u.state) reg item)
              u.state.vector_length u.state.max_vector_length (o.vs2 u.dest) (u.dest reg item)
              (is_selected-inside d o u.state reg item) fits small fair)

  -- A slide down gives each selected element the element of the source that is the offset above, and 0 where
  -- that is not below the maximal length, and keeps all other elements.
  -- An element of the destination is selected if it is in its register, not before vstart and below the length,
  -- and if the mask has the bit of its item, the place in its register: in a group of several registers this is
  -- not the bit of the element. The element width is one of the four, no exception is set, a register holds at
  -- least one element, the destination has enough registers, the length is at most the maximal one, the
  -- sum of this and the offset is at most 2 ^ 31, and what the source reads for an element is in no
  -- destination register before the element's own.
  pub vslidedown-element :
      let d = u.state.selected_element_width in
      let offset = o.vs1 u.dest 0 in
      let j = index_of d (u.state) reg item in
      u.state.max_vector_length + offset ≤ 2 ^ 31
      → IsSteady (per_vector d u) u.dest (λ g j. o.vs2 g (source_index offset j))
      → (vslidedown o u).dest reg item ≡ (
          if is_selected d o u.state reg item
          then (if ltb (j + offset) u.state.max_vector_length then o.vs2 u.dest (j + offset) else 0)
          else u.dest reg item)
  unfolding vslidedown
  vslidedown-element small steady =
      let d = u.state.selected_element_width in
      let offset = o.vs1 u.dest 0 in
      let word : offset % 2 ^ 32 ≡ offset = omega (arith, small) in
      rw word (
        ap (λ (u : VectorUnit). u.dest reg item)
          (by_width_lem widths (λ n. vslide_helper n offset o) u known)
        ∙ (vslide_helper-element o u d offset reg item ready steady).1
        ∙ down_test (is_selected d o u.state reg item) offset (index_of d (u.state) reg item)
            u.state.vector_length u.state.max_vector_length (o.vs2 u.dest) (u.dest reg item)
            (is_selected-inside d o u.state reg item) fits small)

  vslide1_helper-element :
      (shift : ℕ)
      → let d = u.state.selected_element_width in
        IsSteady (per_vector d u) u.dest (slid1_value o u shift)
        → (vslide1_helper d shift o u).dest reg item ≡ (
            if is_selected d o u.state reg item
            then slid1_value o u shift u.dest (index_of d (u.state) reg item)
            else u.dest reg item)
  unfolding vslide1_helper
  vslide1_helper-element shift steady =
      let d = u.state.selected_element_width in
      (permuted-element d o u ready (λ j. true) (slid1_value o u shift) reg item steady).1
      ∙ ground arith

  -- A slide up by one gives each selected element from number 2 on the element of the source before it,
  -- and the selected ones of the elements 0 and 1 the scalar. A slide down by one gives each selected
  -- element the next one of the source, and the scalar where that is not below the maximal length. All other
  -- elements stay. The scalar is cut to the width of an element.
  -- An element of the destination is selected if it is in its register, not before vstart and below the length,
  -- and if the mask has the bit of its item, the place in its register: in a group of several registers this is
  -- not the bit of the element. The element width is one of the four, no exception is set, a register holds at least
  -- one element, the destination has enough registers, the length is at most the maximal one, which is below
  -- 2 ^ 31, and what the source reads for an element is in no destination register before the element's own.
  pub vslide1-element :
      let d = u.state.selected_element_width in
      let slide_value = scalar o u in
      let j = index_of d (u.state) reg item in
      let active = is_selected d o u.state reg item in
      u.state.max_vector_length < 2 ^ 31
      → IsSteady (per_vector d u) u.dest (slid1_value o u (2 ^ 32 - 1))
      → IsSteady (per_vector d u) u.dest (slid1_value o u 1)
      → ((vslide1up o u).dest reg item ≡ (
          if active
          then (if leb 2 j then o.vs2 u.dest (j - 1) else slide_value)
          else u.dest reg item))
        × ((vslide1down o u).dest reg item ≡ (
            if active
            then (if ltb (j + 1) u.state.max_vector_length
                then o.vs2 u.dest (j + 1)
                else slide_value)
            else u.dest reg item))
  unfolding vslide1up vslide1down
  vslide1-element small steady_up steady_down =
      let j = index_of u.state.selected_element_width (u.state) reg item in
      let max = u.state.max_vector_length in
      let active = is_selected u.state.selected_element_width o u.state reg item in
      let slide_value = scalar o u in
      let inside : active ≡ true → j < max = λ e.
        omega
          (arith, is_selected-inside u.state.selected_element_width o u.state reg item e, fits) in
      (
        ap (λ (u : VectorUnit). u.dest reg item)
              (by_width_lem widths (λ n. vslide1_helper n (2 ^ 32 - 1) o) u known)
            ∙ vslide1_helper-element (2 ^ 32 - 1) steady_up
            ∙ if-same active (slid1_value o u (2 ^ 32 - 1) u.dest j)
                (if leb 2 j then o.vs2 u.dest (j - 1) else slide_value) (u.dest reg item)
                (λ e. slid1-up max slide_value (o.vs2 u.dest) j (inside e) small),
        ap (λ (u : VectorUnit). u.dest reg item)
              (by_width_lem widths (λ n. vslide1_helper n 1 o) u known)
            ∙ vslide1_helper-element 1 steady_down
            ∙ if-same active (slid1_value o u 1 u.dest j)
                (if ltb (j + 1) max then o.vs2 u.dest (j + 1) else slide_value) (u.dest reg item)
                (λ e. slid1-down max slide_value (o.vs2 u.dest) j (inside e) small),
      )

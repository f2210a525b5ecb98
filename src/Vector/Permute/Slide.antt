-- ===== src/Vector/Permute/Slide.antt =====
-- The elements that a slide moves.
use native.Mathlib.Nat.{mod-eq_of_lt, mul-add-mod_self_right}
use mpact_riscv.Common.{
  ℕ, ◌+◌, ◌-◌, ◌%◌, ◌^◌, ◌<◌, ◌≤◌, ◌≡◌, refl, ap, ◌∙◌, arith, Bool, true, false, ◌&&◌, ltb, leb,
  if◌then◌else◌, Bool-cases, some, none, inl, inr,
}
use mpact_riscv.Muldiv.Signed.{mod_unique}
use mpact_riscv.Vector.{VectorState}
use mpact_riscv.Vector.Loop.{Group, Outcome, Operands, VectorUnit, mask_bit, masked, vector_loop}
use mpact_riscv.Vector.Loop.Elements.{or_old, apart, IsReady, IsSteady, vector_loop_lem}
use mpact_riscv.Vector.Loop.Operations.{is_body, index_of}
use mpact_riscv.Vector.Permute.{per_vector, permuted, source_index, vslide_helper}

-- An element of the body that is selected, by the bit of the mask for its item, its place in its register,
-- and not for its index in the group.
abbrev pub is_selected : ℕ → Operands → VectorState → ℕ → ℕ → Bool
is_selected d o v reg item = is_body d v reg item && mask_bit o.mask item

abbrev element_value :
    ℕ → VectorUnit → Operands → (ℕ → Bool) → (Group → ℕ → ℕ) → Group → ℕ → Bool → Outcome
element_value pv u o writes value g j active =
    masked (mask_bit o.mask (j % pv) && writes j) (value g j) false

item_test :
    (a b c : Bool) (x old : ℕ)
    → (if a then or_old (if b && c then some x else none) old else old)
      ≡ (if (a && b) && c then x else old)
item_test a b c x old = ground arith

module _ (d : ℕ) (o : Operands) (u : VectorUnit) (ready : IsReady d o u) where
  permuted_lem :
      (writes : ℕ → Bool) (value : Group → ℕ → ℕ)
      → permuted d (λ g j. writes j) value o u
        ≡ vector_loop d (element_value (per_vector d u) u o writes value) o u
  unfolding permuted
  permuted_lem writes value =
      ap (λ b. if b then u else vector_loop d (element_value (per_vector d u) u o writes value) o u)
        ready.quiet

  pub permuted-element :
      (writes : ℕ → Bool) (value : Group → ℕ → ℕ) (reg item : ℕ)
      → IsSteady (per_vector d u) u.dest value
      → let after = permuted d (λ g j. writes j) value o u in
        (apart after.state ≡ record (apart (u.state)) { vstart = 0 })
        × (let j = index_of d (u.state) reg item in
            after.dest reg item ≡ (
              if is_selected d o u.state reg item && writes j
              then value u.dest j
              else u.dest reg item))
  permuted-element writes value reg item steady =
      let pv = per_vector d u in
      let j = index_of d (u.state) reg item in
      let old = u.dest reg item in
      let run =
        vector_loop_lem d (element_value pv u o writes value) o u ready (λ j b. refl)
          (λ g j agrees.
            ap (λ x (active : Bool). masked (mask_bit o.mask (j % pv) && writes j) x false)
              (steady g j agrees)) in
      rw (permuted_lem writes value) (
        run.0,
        run.1 reg item ∙ elim (Bool-cases (ltb item pv)) [
          | inl inside ↦
              let e : j % pv ≡ item =
                mul-add-mod_self_right reg pv item ∙ mod-eq_of_lt (ground (arith, inside)) in
              rw e (
                item_test (is_body d u.state reg item) (mask_bit o.mask item) (writes j)
                  (value u.dest j) old)
          | inr outside ↦ rw outside refl
        ],
      )

-- Element `j` gets element `j - offset` of the source, if `j` is not below the offset.
-- The elements below the offset, and those that are not active, keep what they had.
module _ (o : Operands) (u : VectorUnit) where
  pub vslide_helper-element :
      (d shift reg item : ℕ)
      → IsReady d o u
      → IsSteady (per_vector d u) u.dest (λ g j. o.vs2 g (source_index shift j))
      → let after = vslide_helper d shift o u in
        (apart after.state ≡ record (apart (u.state)) { vstart = 0 })
        × (let source = source_index shift (index_of d (u.state) reg item) in
            after.dest reg item ≡ (
              if is_selected d o u.state reg item && ltb source (2 ^ 31)
              then (if ltb source u.state.max_vector_length then o.vs2 u.dest source else 0)
              else u.dest reg item))
  unfolding vslide_helper
  vslide_helper-element d shift reg item ready steady =
      permuted-element d o u ready (λ j. ltb (source_index shift j) (2 ^ 31))
        (λ g j.
          if ltb (source_index shift j) u.state.max_vector_length
          then o.vs2 g (source_index shift j)
          else 0)
        reg item
        (λ g j agrees.
          ap (λ x. if ltb (source_index shift j) u.state.max_vector_length then x else 0)
            (steady g j agrees))

source_index-up :
    (offset j : ℕ)
    → offset ≤ 2 ^ 31
    → j < 2 ^ 31
    → source_index (2 ^ 32 - offset) j ≡ (if leb offset j then j - offset else 2 ^ 32 + j - offset)
source_index-up offset j small inside = elim (Bool-cases (leb offset j)) [
  | inl above ↦ rw above (
      mod_unique (2 ^ 32) (j + (2 ^ 32 - offset)) (j - offset) 0 1 (ground (arith, above))
        (omega (arith, inside)))
  | inr below ↦ rw below (
      mod_unique (2 ^ 32) (j + (2 ^ 32 - offset)) (2 ^ 32 + j - offset) 0 0 (ground (arith, below))
        (ground (arith, below)))
]

source_index-down : (offset j : ℕ) → offset + j < 2 ^ 32 → source_index offset j ≡ j + offset
source_index-down offset j inside = mod-eq_of_lt (omega (arith, inside))

-- The tests of a slide against those of the numbers.
pub up_test :
    (active : Bool) (offset j vl max : ℕ) (f : ℕ → ℕ) (old : ℕ)
    → (active ≡ true → j < vl)
    → vl ≤ max
    → max < 2 ^ 31
    → offset ≤ max
    → (let source = source_index (2 ^ 32 - offset) j in
        if active && ltb source (2 ^ 31) then (if ltb source max then f source else 0) else old)
      ≡ (if active && leb offset j then f (j - offset) else old)
up_test false offset j vl max f old inside fits small fair = refl
up_test true offset j vl max f old inside fits small fair =
    let here = inside refl in
    rw (source_index-up offset j (omega (arith, fair, small)) (omega (arith, here, fits, small)))
      (elim (Bool-cases (leb offset j)) [
        | inl above ↦
            let low : ltb (j - offset) (2 ^ 31) ≡ true = ground (arith, here, fits, small) in
            let inner : ltb (j - offset) max ≡ true = ground (arith, here, fits) in
            rw (above, low, inner) refl
        | inr below ↦
            let high : ltb (2 ^ 32 + j - offset) (2 ^ 31) ≡ false = ground (arith, fair, small) in
            rw (below, high) refl
      ])

pub down_test :
    (active : Bool) (offset j vl max : ℕ) (f : ℕ → ℕ) (old : ℕ)
    → (active ≡ true → j < vl)
    → vl ≤ max
    → max + offset ≤ 2 ^ 31
    → (let source = source_index offset j in
        if active && ltb source (2 ^ 31) then (if ltb source max then f source else 0) else old)
      ≡ (if active then (if ltb (j + offset) max then f (j + offset) else 0) else old)
down_test false offset j vl max f old inside fits small = refl
down_test true offset j vl max f old inside fits small =
    let here = inside refl in
    let low : ltb (j + offset) (2 ^ 31) ≡ true = ground (arith, here, fits, small) in
    rw (source_index-down offset j (omega (arith, here, fits, small)), low) refl

pub is_selected-inside :
    (d : ℕ) (o : Operands) (v : VectorState) (reg item : ℕ)
    → is_selected d o v reg item ≡ true
    → index_of d v reg item < v.vector_length
is_selected-inside d o v reg item active = ground (arith, active)

-- The value of a slide by one for element `j`.
abbrev pub slid1 : ℕ → ℕ → ℕ → (ℕ → ℕ) → ℕ → ℕ
slid1 shift max slide_value source j =
    let src_index = source_index shift j in
    if ltb 0 src_index && ltb src_index (2 ^ 31) && ltb src_index max
    then source src_index
    else slide_value

module _ (max slide_value : ℕ) (source : ℕ → ℕ) (j : ℕ) (inside : j < max)
    (small : max < 2 ^ 31) where
  pub slid1-up :
      slid1 (2 ^ 32 - 1) max slide_value source j
      ≡ (if leb 2 j then source (j - 1) else slide_value)
  slid1-up =
      rw (source_index-up 1 j (omega arith) (omega (arith, inside, small)))
        (elim (Bool-cases (leb 1 j)) [
          | inl above ↦
              let low : ltb (j - 1) (2 ^ 31) ≡ true = ground (arith, inside, small) in
              let within : ltb (j - 1) max ≡ true = ground (arith, inside) in
              let first : ltb 0 (j - 1) ≡ leb 2 j = ground arith in
              rw (above, low, within, first) (ground arith)
          | inr below ↦
              let high : ltb (2 ^ 32 + j - 1) (2 ^ 31) ≡ false = ground arith in
              let first : leb 2 j ≡ false = ground (arith, below) in
              rw (below, high, first) (ground arith)
        ])

  pub slid1-down :
      slid1 1 max slide_value source j ≡ (if ltb (j + 1) max then source (j + 1) else slide_value)
  slid1-down =
      let first : ltb 0 (j + 1) ≡ true = ground arith in
      let low : ltb (j + 1) (2 ^ 31) ≡ true = ground (arith, inside, small) in
      rw (source_index-down 1 j (omega (arith, inside, small)), first, low) refl

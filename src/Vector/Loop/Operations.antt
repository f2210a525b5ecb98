-- ===== src/Vector/Loop/Operations.antt =====
-- The operations on vectors, element by element.
use mpact_riscv.Common.{
  ℕ, ◌+◌, ◌*◌, ◌/◌, ◌≡◌, refl, ap, ap₂, ◌∙◌, arith, Bool, true, false, ◌&&◌, ltb, leb,
  if◌then◌else◌, List, [], ◌∷◌,
}
use mpact_riscv.Vector.{VectorState}
use mpact_riscv.Vector.Loop.{
  Span, Group, Outcome, Operands, VectorUnit, raise, checked, mask_bit, all_legal, vector_loop,
  masked, mask_binary_vector_op, saturating_vector_op,
}
use mpact_riscv.Vector.Loop.Elements.{or_old, apart, IsReady, IsSteady, vector_loop_lem}

-- Element `j` is written: it is in a register, not before vstart, and below the length.
abbrev pub is_body : ℕ → VectorState → ℕ → ℕ → Bool
is_body size v reg item =
    let per_vector = v.vector_register_byte_length / size in
    let j = reg * per_vector + item in
    ltb item per_vector && (leb v.vstart j && ltb j v.vector_length)

abbrev pub index_of : ℕ → VectorState → ℕ → ℕ → ℕ
index_of size v reg item = reg * (v.vector_register_byte_length / size) + item

-- The second source, of which a scalar has one element.
abbrev pub second : Operands → Group → Span
second o g j = o.vs1 g (if o.vector_scalar then 0 else j)

pub checked_lem :
    (sizes : List ℕ) (run : VectorUnit → VectorUnit) (u : VectorUnit)
    → u.state.vector_exception ≡ false
    → all_legal u.state sizes ≡ true
    → checked sizes run u ≡ run u
unfolding checked
checked_lem sizes run u quiet legal =
    ap (λ b. if b then u else if all_legal u.state sizes then run u else raise u) quiet
    ∙ ap (λ b. if b then run u else raise u) legal

module _ (size s2 s1 : ℕ) (o : Operands) (u : VectorUnit) where
  pub record IsBinaryReady : Type 0 where
    pub ready : IsReady size o u
    pub legal : all_legal u.state (size ∷ s2 ∷ s1 ∷ []) ≡ true
    pub steady2 : IsSteady (u.state.vector_register_byte_length / size) u.dest o.vs2
    pub steady1 : IsSteady (u.state.vector_register_byte_length / size) u.dest (second o)

  -- An operation with a mask operand that fails for no element, on a state with no exception pending, with
  -- multipliers that are legal for the three sizes of elements, at least one element in a register,
  -- enough registers in the destination, and sources that for element j read nothing of a destination
  -- register before that of j: each element of the body, from vstart on and below the length, gets the
  -- value for the elements of the sources and the bit of the mask, if there is one, and all other
  -- elements stay. But for the saturation flag and vstart, which gets 0, the state is as before.
  pub mask_binary_vector_op-element :
      (op : ℕ → ℕ → Bool → Outcome) (reg item : ℕ)
      → IsBinaryReady
      → ((a b : ℕ) (active : Bool) → (op a b active).fails ≡ false)
      → let after = mask_binary_vector_op size s2 s1 op o u in
        (apart after.state ≡ record (apart (u.state)) { vstart = 0 })
        × (let j = index_of size (u.state) reg item in
            after.dest reg item ≡ (
              if is_body size (u.state) reg item
              then or_old
                  ((op (o.vs2 u.dest j) (second o u.dest j) (mask_bit o.mask j)).value)
                  (u.dest reg item)
              else u.dest reg item))
  unfolding mask_binary_vector_op
  mask_binary_vector_op-element op reg item binary succeeds =
      let compute = λ (g : Group) (j : ℕ) (active : Bool). op (o.vs2 g j) (second o g j) active in
      let run =
        vector_loop_lem size compute o u binary.ready
          (λ j b. succeeds (o.vs2 u.dest j) (second o u.dest j) b)
          (λ g j agrees. ap₂ op (binary.steady2 g j agrees) (binary.steady1 g j agrees)) in
      rw
        (checked_lem (size ∷ s2 ∷ s1 ∷ []) (vector_loop size compute o) u binary.ready.quiet
          binary.legal)
        (run.0, run.1 reg item)

  -- An operation without a mask operand gives the elements of the body that are under the mask their values.
  pub saturating_vector_op-element :
      (op : ℕ → ℕ → ℕ × Bool) (reg item : ℕ)
      → IsBinaryReady
      → let after = saturating_vector_op size s2 s1 op o u in
        (apart after.state ≡ record (apart (u.state)) { vstart = 0 })
        × (let j = index_of size (u.state) reg item in
            after.dest reg item ≡ (
              if is_body size (u.state) reg item && mask_bit o.mask j
              then (op (o.vs2 u.dest j) (second o u.dest j)).0
              else u.dest reg item))
  unfolding saturating_vector_op
  saturating_vector_op-element op reg item binary =
      let run =
        mask_binary_vector_op-element (λ a b active. masked active ((op a b).0) ((op a b).1)) reg
          item binary (λ a b active. refl) in
      (run.0, run.1 ∙ ground arith)

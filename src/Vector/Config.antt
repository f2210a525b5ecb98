-- ===== src/Vector/Config.antt =====
-- The vector length after a configuration.
use mpact_riscv.Common.{
  entry, ℕ, zero, suc, ◌/◌, ◌%◌, ◌^◌, ◌≤◌, ◌<◌, ◌≡◌, refl, ap, ◌∙◌, arith, Bool, Bool-cases, true,
  false, ◌&&◌, ltb, ◌/=◌, if◌then◌else◌, bit_and, min, Option, some, none, inl, inr,
}
use native.Mathlib.Nat.{mod-lt, one-le-pow}
use mpact_riscv.Words.{u32, ◌>>>◌}
use mpact_riscv.Words.Halves.{bit_and-ones}
use mpact_riscv.Vector.{
  VectorState, sew_values, length_multiplier, element_width, max_length, typed, set_vector_type,
  configured, reverted, vsetvl_typed, vsetvl,
}

-- The width of an element in bytes: a power of two, or 0 for the codes that are reserved.
sew_entry : (k : ℕ) → k < 8 → entry sew_values k >>> 3 ≡ (if ltb k 4 then 2 ^ k else 0)
sew_entry zero h = refl
sew_entry (suc zero) h = refl
sew_entry (suc (suc zero)) h = refl
sew_entry (suc (suc (suc zero))) h = refl
sew_entry (suc (suc (suc (suc zero)))) h = refl
sew_entry (suc (suc (suc (suc (suc zero))))) h = refl
sew_entry (suc (suc (suc (suc (suc (suc zero)))))) h = refl
sew_entry (suc (suc (suc (suc (suc (suc (suc zero))))))) h = refl
sew_entry (suc (suc (suc (suc (suc (suc (suc (suc k)))))))) h = absurd (omega (arith, h))

-- The code of the width in a type.
abbrev pub width_code : ℕ → ℕ
width_code vtype = vtype / 8 % 8

element_width_lem :
    (vtype : ℕ)
    → element_width vtype ≡ (if ltb (width_code vtype) 4 then 2 ^ width_code vtype else 0)
unfolding element_width
element_width_lem vtype =
    ap (λ k. entry sew_values k >>> 3) (bit_and-ones 3 (vtype / 8))
    ∙ sew_entry (width_code vtype) (mod-lt (vtype / 8) {m = 8} (omega arith))

-- A state whose fields are those of its type, which is not reserved, and whose length is not greater than
-- the maximal one.
pub record IsConsistent (v : VectorState) : Type 0 where
  pub not_reserved : width_code v.vtype < 4
  pub multiplier_is : v.vector_length_multiplier ≡ length_multiplier v.vtype
  pub width_is : v.selected_element_width ≡ element_width v.vtype
  pub max_is : v.max_vector_length ≡ max_length v.vector_register_byte_length v.vtype
  pub length_fits : v.vector_length ≤ v.max_vector_length

set_vector_type-legal :
    (vtype : ℕ) (v : VectorState)
    → width_code vtype < 4
    → set_vector_type vtype v ≡ some (typed vtype v)
unfolding set_vector_type
set_vector_type-legal vtype v legal =
    ground (arith, element_width_lem vtype, legal, one-le-pow (width_code vtype) 2)

set_vector_type-reserved :
    (vtype : ℕ) (v : VectorState) → 4 ≤ width_code vtype → set_vector_type vtype v ≡ none
unfolding set_vector_type
set_vector_type-reserved vtype v reserved = ground (arith, element_width_lem vtype, reserved)

-- The length that a configuration leaves.
abbrev pub new_length : Bool → Bool → ℕ → ℕ → ℕ → ℕ
new_length rd_zero rs1_zero avl old bound =
    if rs1_zero && rd_zero then old else if rs1_zero then bound else min (u32 avl) bound

-- A consistent state after an instruction with the type `vtype`.
abbrev pub Configured : Bool → Bool → ℕ → VectorState → Option (VectorState × Option ℕ) → Type 0
Configured rd_zero rs1_zero avl v result =
    (r : VectorState × Option ℕ) × (result ≡ some r)
    × IsConsistent r.0
    × (r.0.vector_length ≡ new_length rd_zero rs1_zero avl v.vector_length r.0.max_vector_length)

unchanged_length :
    (avl vtype : ℕ) (v : VectorState)
    → IsConsistent v
    → width_code vtype < 4
    → Configured true true avl v (vsetvl_typed true true avl v (some (typed vtype v)))
unfolding vsetvl_typed reverted typed
unchanged_length avl vtype v consistent legal =
    elim (Bool-cases (v.max_vector_length /= (typed vtype v).max_vector_length)) [
      | inl changed ↦
          let back = set_vector_type-legal v.vtype (typed vtype v) consistent.not_reserved in
          rw (changed, back)
            (
              _,
              refl,
              record {
                not_reserved = consistent.not_reserved;
                multiplier_is = refl;
                width_is = refl;
                max_is = refl;
                length_fits = omega (arith, consistent.length_fits, consistent.max_is);
              },
              refl,
            )
      | inr same ↦ rw same (
        _,
        refl,
        record {
          not_reserved = legal;
          multiplier_is = refl;
          width_is = refl;
          max_is = refl;
          length_fits = ground (arith, consistent.length_fits, same);
        },
        refl,
      )
    ]

vsetvl_typed-Configured :
    (rd_zero rs1_zero : Bool) (avl vtype : ℕ) (v : VectorState)
    → IsConsistent v
    → width_code vtype < 4
    → Configured rd_zero rs1_zero avl v (vsetvl_typed rd_zero rs1_zero avl v (some (typed vtype v)))
unfolding vsetvl_typed configured typed
vsetvl_typed-Configured true true avl vtype v consistent legal =
    unchanged_length avl vtype v consistent legal
vsetvl_typed-Configured true false avl vtype v consistent legal = (
  _,
  refl,
  record {
    not_reserved = legal;
    multiplier_is = refl;
    width_is = refl;
    max_is = refl;
    length_fits = ground arith;
  },
  ground arith,
)
vsetvl_typed-Configured false true avl vtype v consistent legal = (
  _,
  refl,
  record {
    not_reserved = legal;
    multiplier_is = refl;
    width_is = refl;
    max_is = refl;
    length_fits = ground arith;
  },
  ground arith,
)
vsetvl_typed-Configured false false avl vtype v consistent legal = (
  _,
  refl,
  record {
    not_reserved = legal;
    multiplier_is = refl;
    width_is = refl;
    max_is = refl;
    length_fits = ground arith;
  },
  ground arith,
)

-- On a consistent state, a configuration with a type whose element width is not reserved returns a
-- consistent state, so that its length is not greater than the maximal length of its type: the length is as
-- it was if both registers are zero, the maximal length if only the source is, and else the smaller one of
-- the maximal length and the requested one, of which the low 32 bits count.
pub vsetvl-Configured :
    (rd_zero rs1_zero : Bool) (avl source : ℕ) (v : VectorState)
    → IsConsistent v
    → width_code source < 4
    → Configured rd_zero rs1_zero avl v (vsetvl rd_zero rs1_zero avl source v)
unfolding vsetvl
vsetvl-Configured rd_zero rs1_zero avl source v consistent legal =
    let vtype = bit_and source 0xff in
    let legal_type : width_code vtype < 4 = omega (arith, bit_and-ones 8 source, legal) in
    rw (set_vector_type-legal vtype v legal_type)
      (vsetvl_typed-Configured rd_zero rs1_zero avl vtype v consistent legal_type)

-- A configuration with a reserved element width divides by zero, in every state and with every operand.
pub vsetvl-reserved :
    (rd_zero rs1_zero : Bool) (avl source : ℕ) (v : VectorState)
    → 4 ≤ width_code source
    → vsetvl rd_zero rs1_zero avl source v ≡ none
unfolding vsetvl vsetvl_typed
vsetvl-reserved rd_zero rs1_zero avl source v reserved =
    let vtype = bit_and source 0xff in
    rw (set_vector_type-reserved vtype v (omega (arith, bit_and-ones 8 source, reserved))) refl

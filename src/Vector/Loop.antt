-- ===== src/Vector/Loop.antt =====
-- The loops over the elements of vectors, of riscv/riscv_vector_instruction_helpers.h. The registers of the
-- destination are a group of spans of its elements. A source that overlaps the destination sees the
-- registers that were submitted, so it is a function of the group. An integer has no NaN to make canonical.
pub mod Elements
pub mod Operations
use mpact_riscv.Common.{
  ℕ, zero, suc, ◌+◌, ◌-◌, ◌*◌, ◌/◌, ◌%◌, min, Bool, true, false, not, ◌&&◌, ◌||◌, ◌==◌, ◌/=◌, ltb,
  leb, if◌then◌else◌, bit_and, bit_or, Option, none, some, List, [], ◌∷◌,
}
use mpact_riscv.Words.{complement, of_bool, to_bool, ◌<<<◌, ◌>>>◌}
use mpact_riscv.Vector.{VectorState}

abbrev pub Span : Type 0
Span = ℕ → ℕ

abbrev pub Group : Type 0
Group = ℕ → Span

-- The operands of an instruction: the sources, with their elements and scalars as read in the type of the
-- operation, so cut to its width, whether the second one is a scalar, the bytes of the mask,
-- the operand that turns the mask off, and the number of destination registers.
pub record Operands : Type 0 where
  pub vs2 : Group → Span
  pub vs1 : Group → Span
  pub vd : Group → Span
  pub vector_scalar : Bool
  pub mask : Span
  pub vm_unmasked_bit : Bool
  pub dest_size : ℕ

pub record VectorUnit : Type 0 where
  pub state : VectorState
  pub dest : Group

-- What an operation does for an element: the value if it has one, and what it reports to the state.
pub record Outcome : Type 0 where
  pub value : Option ℕ
  pub saturates : Bool
  pub fails : Bool

unfoldable pub mask_bit : Span → ℕ → Bool
mask_bit mask i = to_bool (bit_and (mask (i / 8) >>> bit_and i 0b111) 1)

abbrev pub raise : VectorUnit → VectorUnit
raise u = record u { state = record (u.state) { vector_exception = true } }

unfoldable pub noted : Outcome → VectorState → VectorState
noted o v = record v {
  vxsat = v.vxsat || o.saturates;
  vector_exception = v.vector_exception || o.fails;
}

abbrev pub put : Option ℕ → ℕ → Span → Span
put none i span = span
put (some x) i span = λ k. if k == i then x else span k

abbrev pub is_none : Option ℕ → Bool
is_none none = true
is_none (some x) = false

-- The state of the inner loop, in which `stopped` is the `break`.
pub record Run : Type 0 where
  pub state : VectorState
  pub span : Span
  pub vector_index : ℕ
  pub stopped : Bool

unfoldable pub item_step : (ℕ → Bool → Outcome) → Span → ℕ → Run → Run
unfolding noted
item_step compute mask i r =
    let active = mask_bit mask r.vector_index in
    let outcome = compute r.vector_index active in
    let after = noted outcome r.state in
    let failed = is_none outcome.value && active && after.vector_exception in
    record {
      state = if failed then record after { vstart = r.vector_index } else after;
      span = put outcome.value i r.span;
      vector_index = if failed then r.vector_index else r.vector_index + 1;
      stopped = failed;
    }

unfoldable pub item_loop : (ℕ → Bool → Outcome) → Span → ℕ → ℕ → ℕ → Run → Run
item_loop compute mask num zero i r = r
item_loop compute mask num (suc n) i r =
    if r.stopped || not (ltb r.vector_index num)
    then r
    else item_loop compute mask num n (i + 1) (item_step compute mask i r)

-- The state of the outer loop.
pub record Progress : Type 0 where
  pub state : VectorState
  pub dest : Group
  pub vector_index : ℕ
  pub stopped : Bool

-- The elements of one register from `item_index` on, and its submission.
unfoldable pub register_step :
    (Group → ℕ → Bool → Outcome) → Span → ℕ → ℕ → ℕ → ℕ → Progress → Progress
register_step compute mask num per_vector reg item_index p =
    let r =
      item_loop (compute p.dest) mask num (min per_vector num - item_index) item_index (record {
        state = p.state;
        span = p.dest reg;
        vector_index = p.vector_index;
        stopped = false;
      }) in
    record {
      state = r.state;
      dest = λ k. if k == reg then r.span else p.dest k;
      vector_index = r.vector_index;
      stopped = r.stopped;
    }

unfoldable pub register_loop :
    (Group → ℕ → Bool → Outcome) → Span → ℕ → ℕ → ℕ → ℕ → ℕ → Progress → Progress
register_loop compute mask num per_vector zero reg item_index p = p
register_loop compute mask num per_vector (suc n) reg item_index p =
    if p.stopped || not (ltb p.vector_index num)
    then p
    else register_loop compute mask num per_vector n (reg + 1) 0
        (register_step compute mask num per_vector reg item_index p)

-- The test of the destination, the loops and the reset of vstart, for elements of `size` bytes.
unfoldable pub vector_loop : ℕ → (Group → ℕ → Bool → Outcome) → Operands → VectorUnit → VectorUnit
vector_loop size compute o u =
    let v = u.state in
    let num_elements = v.vector_length in
    let per_vector = v.vector_register_byte_length / size in
    let max_regs = (num_elements + per_vector - 1) / per_vector in
    let start_reg = v.vstart / per_vector in
    let p =
      register_loop compute o.mask num_elements per_vector (max_regs - start_reg) start_reg
        (v.vstart % per_vector)
        (record { state = v; dest = u.dest; vector_index = v.vstart; stopped = false }) in
    if ltb o.dest_size max_regs
    then raise u
    else record { state = record (p.state) { vstart = 0 }; dest = p.dest }

-- The lengths of the register groups of operands with elements of these sizes.
abbrev pub all_legal : VectorState → List ℕ → Bool
all_legal v [] = true
all_legal v (size ∷ sizes) =
    let lmul = v.vector_length_multiplier * size / v.selected_element_width in
    leb lmul 64 && lmul /= 0 && all_legal v sizes

unfoldable pub checked : List ℕ → (VectorUnit → VectorUnit) → VectorUnit → VectorUnit
checked sizes run u =
    if u.state.vector_exception then u else if all_legal u.state sizes then run u else raise u

-- RiscVMaskBinaryVectorOp, of elements of the sizes `d`, `s2` and `s1`.
unfoldable pub mask_binary_vector_op :
    ℕ → ℕ → ℕ → (ℕ → ℕ → Bool → Outcome) → Operands → VectorUnit → VectorUnit
mask_binary_vector_op d s2 s1 op o = checked (d ∷ s2 ∷ s1 ∷ []) (
    vector_loop d
      (λ dest i active. op (o.vs2 dest i) (o.vs1 dest (if o.vector_scalar then 0 else i)) active) o)

-- An operation on the elements under the mask.
abbrev pub masked : Bool → ℕ → Bool → Outcome
masked active x saturates = record {
  value = if active then some x else none;
  saturates = active && saturates;
  fails = false;
}

-- RiscVBinaryVectorOp, of an operation without and of one with a saturation.
unfoldable pub saturating_vector_op :
    ℕ → ℕ → ℕ → (ℕ → ℕ → ℕ × Bool) → Operands → VectorUnit → VectorUnit
saturating_vector_op d s2 s1 op =
    mask_binary_vector_op d s2 s1
      (λ a b active. let (x, saturates) = op a b in masked active x saturates)

unfoldable pub binary_vector_op : ℕ → ℕ → ℕ → (ℕ → ℕ → ℕ) → Operands → VectorUnit → VectorUnit
binary_vector_op d s2 s1 op =
    mask_binary_vector_op d s2 s1 (λ a b active. masked active (op a b) false)

-- RiscVTernaryVectorOp.
unfoldable pub ternary_vector_op : ℕ → ℕ → ℕ → (ℕ → ℕ → ℕ → ℕ) → Operands → VectorUnit → VectorUnit
ternary_vector_op d s2 s1 op o = checked (d ∷ s2 ∷ s1 ∷ []) (
    vector_loop d
      (λ dest i active.
        let b = o.vs1 dest (if o.vector_scalar then 0 else i) in
        masked active (op (o.vs2 dest i) b (o.vd dest i)) false)
      o)

-- RiscVUnaryVectorOp.
unfoldable pub unary_vector_op : ℕ → ℕ → (ℕ → ℕ) → Operands → VectorUnit → VectorUnit
unary_vector_op d s2 op o =
    checked (d ∷ s2 ∷ [])
      (vector_loop d (λ dest i active. masked active (op (o.vs2 dest i)) false) o)

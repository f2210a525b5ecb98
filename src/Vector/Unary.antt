-- ===== src/Vector/Unary.antt =====
-- The vector instructions of riscv/riscv_vector_unary_instructions.cc, but viota and vid. The result for a
-- scalar register stands beside the vector unit, if it is written.
pub mod First
use mpact_riscv.Common.{
  ℕ, zero, suc, ◌+◌, ◌-◌, ◌*◌, ◌/◌, ◌%◌, ◌^◌, Bool, true, false, not, ◌&&◌, ◌||◌, ◌==◌, ◌/=◌,
  if◌then◌else◌, Option, none, some, List, [], ◌∷◌,
}
use mpact_riscv.Words.{u32}
use mpact_riscv.Muldiv.{widen}
use mpact_riscv.Hart.Defs.{Xlen, rv32, rv64, rv_unknown}
use mpact_riscv.Vector.Loop.{Span, Operands, VectorUnit, mask_bit, raise, unary_vector_op}
use mpact_riscv.Vector.Mask.{set_mask_bit, submitted}
use mpact_riscv.Vector.Opi.{by_width}

abbrev pub is_width : ℕ → Bool
is_width n = n == 1 || n == 2 || n == 4 || n == 8

-- The element is sign extended, and the low word of it is written.
unfoldable pub vmv_to_scalar : Operands → VectorUnit → VectorUnit × Option ℕ
vmv_to_scalar o u =
    let sew = u.state.selected_element_width in
    if u.state.vstart /= 0 || u.state.vector_length == 0
    then (u, none)
    else if is_width sew
    then (u, some (u32 (widen (8 * sew) 64 (o.vs2 u.dest 0))))
    else (raise u, none)

-- The scalar is `vs2`, of the width of an element.
unfoldable pub vmv_from_scalar : Operands → VectorUnit → VectorUnit
vmv_from_scalar o u =
    if u.state.vstart /= 0 || u.state.vector_length == 0
    then u
    else if is_width u.state.selected_element_width
    then record u { dest = λ r k. if r == 0 && k == 0 then o.vs2 u.dest 0 else u.dest r k }
    else raise u

-- Element `i` of the source and of the mask are set.
abbrev pub is_set : Operands → VectorUnit → ℕ → Bool
is_set o u i = mask_bit o.mask i && mask_bit (o.vs2 u.dest) i

unfoldable pub count_loop : (ℕ → Bool) → ℕ → ℕ → ℕ → ℕ
count_loop f zero i count = count
count_loop f (suc n) i count = count_loop f n (i + 1) (if f i then count + 1 else count)

unfoldable pub find_loop : (ℕ → Bool) → ℕ → ℕ → ℕ
find_loop f zero i = 2 ^ 64 - 1
find_loop f (suc n) i = let rest = find_loop f n (i + 1) in if f i then i else rest

unfoldable pub scalar_result : Xlen → ℕ → VectorUnit → VectorUnit × Option ℕ
scalar_result rv32 x u = (u, some (u32 x))
scalar_result rv64 x u = (u, some x)
scalar_result rv_unknown x u = (raise u, none)

unfoldable pub vcpop : Xlen → Operands → VectorUnit → VectorUnit × Option ℕ
vcpop xlen o u =
    if u.state.vstart /= 0
    then (raise u, none)
    else scalar_result xlen (count_loop (is_set o u) u.state.vector_length 0 0) u

unfoldable pub vfirst : Xlen → Operands → VectorUnit → VectorUnit × Option ℕ
vfirst xlen o u =
    if u.state.vstart /= 0
    then (raise u, none)
    else scalar_result xlen (find_loop (is_set o u) u.state.vector_length 0) u

-- The extensions of elements from a part of the width.
abbrev pub extended : List ℕ → ℕ → (ℕ → ℕ → ℕ → ℕ) → Operands → VectorUnit → VectorUnit
extended ns factor extend o =
    by_width ns (λ n. unary_vector_op n (n / factor) (extend (8 * (n / factor)) (8 * n)) o)

unfoldable pub vzext2 : Operands → VectorUnit → VectorUnit
vzext2 = extended (2 ∷ 4 ∷ 8 ∷ []) 2 (λ w v a. a)

unfoldable pub vsext2 : Operands → VectorUnit → VectorUnit
vsext2 = extended (2 ∷ 4 ∷ 8 ∷ []) 2 widen

unfoldable pub vzext4 : Operands → VectorUnit → VectorUnit
vzext4 = extended (4 ∷ 8 ∷ []) 4 (λ w v a. a)

unfoldable pub vsext4 : Operands → VectorUnit → VectorUnit
vsext4 = extended (4 ∷ 8 ∷ []) 4 widen

unfoldable pub vzext8 : Operands → VectorUnit → VectorUnit
vzext8 = extended (8 ∷ []) 8 (λ w v a. a)

unfoldable pub vsext8 : Operands → VectorUnit → VectorUnit
vsext8 = extended (8 ∷ []) 8 widen

-- The loops of Vmsbf: up to the first element that is set, and from there on.
unfoldable pub clear_loop : ℕ → ℕ → Span → Span
clear_loop zero i span = span
clear_loop (suc n) i span = clear_loop n (i + 1) (set_mask_bit i false span)

unfoldable pub before_loop : Operands → Span → ℕ → ℕ → Span → Span
before_loop o source zero i span = span
before_loop o source (suc n) i span =
    let rest = before_loop o source n (i + 1) in
    if mask_bit o.mask i
    then (if mask_bit source i then clear_loop (suc n) i span else rest (set_mask_bit i true span))
    else rest span

-- The loops of Vmsif and Vmsof: `out` gives the bit, from whether no element before was set and from that
-- of the source.
unfoldable pub first_loop : (Bool → Bool → Bool) → Span → Span → ℕ → ℕ → Bool → Span → Span
first_loop out mask source zero i first span = span
first_loop out mask source (suc n) i first span =
    let active = mask_bit mask i in
    let src_value = mask_bit source i in
    first_loop out mask source n (i + 1) (if active then first && not src_value else first)
      (if active then set_mask_bit i (out first src_value) span else span)

abbrev pub unstarted : (VectorUnit → Span) → VectorUnit → VectorUnit
unstarted run u = if u.state.vstart /= 0 then raise u else submitted u (run u)

unfoldable pub vmsbf : Operands → VectorUnit → VectorUnit
vmsbf o = unstarted (λ u. before_loop o (o.vs2 u.dest) u.state.vector_length 0 (u.dest 0))

unfoldable pub vmsif : Operands → VectorUnit → VectorUnit
vmsif o = unstarted (λ u.
    first_loop (λ first src. first) o.mask (o.vs2 u.dest) u.state.vector_length 0 true (u.dest 0))

unfoldable pub vmsof : Operands → VectorUnit → VectorUnit
vmsof o = unstarted (λ u.
    first_loop (λ first src. first && src) o.mask (o.vs2 u.dest) u.state.vector_length 0 true
      (u.dest 0))

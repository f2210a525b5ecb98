-- ===== src/Vector/Permute/Compress.antt =====
-- What a compression leaves, against the list of the elements under the mask.
use native.Mathlib.Nat.{
  mod-eq_of_lt, mod-lt, mod-add-div', mul-add-mod_self_right, div-eq_of_lt, add-mul-div_right,
}
use mpact_riscv.Common.{
  ℕ, zero, suc, ◌+◌, ◌-◌, ◌*◌, ◌/◌, ◌%◌, ◌<◌, ◌≡◌, refl, ap, ◌∙◌, sym, arith, Bool, true, false,
  ◌&&◌, ◌==◌, ltb, leb, if◌then◌else◌, List, [], ◌∷◌, Bool-cases, inl, inr,
}
use mpact_riscv.Vector.Loop.{Span, Group, Operands, VectorUnit, mask_bit, raise}
use mpact_riscv.Vector.Loop.Elements.{IsReady}
use mpact_riscv.Vector.Loop.Operations.{index_of}
use mpact_riscv.Vector.Opi.{widths}
use mpact_riscv.Vector.Opi.Widths.{one_of, by_width_lem}
use mpact_riscv.Vector.Permute.{per_vector, compress_loop, vcompress_helper, vcompress}

-- The `n` elements from `i` on that are under the mask.
abbrev pub selected : Span → Span → ℕ → ℕ → List ℕ
selected source mask zero i = []
selected source mask (suc n) i =
    let rest = selected source mask n (i + 1) in if mask_bit mask i then source i ∷ rest else rest

abbrev pub entry_or : ℕ → List ℕ → ℕ → ℕ
entry_or old [] k = old
entry_or old (x ∷ xs) zero = x
entry_or old (x ∷ xs) (suc k) = entry_or old xs k

entry_or-later :
    (old x : ℕ) (xs : List ℕ) (k : ℕ) → 0 < k → entry_or old (x ∷ xs) k ≡ entry_or old xs (k - 1)
entry_or-later old x xs zero pos = ground (arith, pos)
entry_or-later old x xs (suc k) pos = ap (entry_or old xs) (omega arith)

place_test : (pv r k d : ℕ) → 0 < pv → (r == d / pv && k == d % pv) ≡ (ltb k pv && r * pv + k == d)
place_test pv r k d pos = elim (Bool-cases (ltb k pv && r * pv + k == d)) [
  | inl same ↦
      let inside : k < pv = ground (arith, same) in
      let e : d ≡ r * pv + k = ground (arith, same) in
      let low : d % pv ≡ k =
        ap (λ t. t % pv) e ∙ mul-add-mod_self_right r pv k ∙ mod-eq_of_lt inside in
      let high : d / pv ≡ r =
        ap (λ t. t / pv) (e ∙ omega arith)
        ∙ add-mul-div_right k r pos
        ∙ omega (arith, div-eq_of_lt inside) in
      rw (same, low, high) (ground arith)
  | inr other ↦ elim (Bool-cases (r == d / pv && k == d % pv)) [
    | inl placed ↦
        let r_is : r ≡ d / pv = ground (arith, placed) in
        let k_is : k ≡ d % pv = ground (arith, placed) in
        let at : r * pv + k ≡ d =
          ap (λ t. t * pv + k) r_is ∙ omega (arith, k_is, mod-add-div' d pv) in
        let inside : k < pv = omega (arith, k_is, mod-lt d pos) in ground (arith, at, inside, other)
    | inr apart ↦ apart ∙ sym other
  ]
]

step_test :
    (inside : Bool) (d p x old : ℕ) (rest : List ℕ)
    → (if inside && leb (d + 1) p
        then entry_or (if inside && p == d then x else old) rest (p - (d + 1))
        else (if inside && p == d then x else old))
      ≡ (if inside && leb d p then entry_or old (x ∷ rest) (p - d) else old)
step_test false d p x old rest = refl
step_test true d p x old rest = elim (Bool-cases (leb (d + 1) p)) [
  | inl later ↦
      let here : p == d ≡ false = ground (arith, later) in
      let from : leb d p ≡ true = ground (arith, later) in
      rw (later, here, from)
        (sym (
          entry_or-later old x rest (p - d) (ground (arith, later))
          ∙ ap (entry_or old rest) (omega arith)))
  | inr not_later ↦ elim (Bool-cases (p == d)) [
    | inl here ↦
        let from : leb d p ≡ true = ground (arith, here) in
        let first : p - d ≡ 0 = ground (arith, here) in rw (not_later, here, from, first) refl
    | inr before ↦
        let from : leb d p ≡ false = ground (arith, before, not_later) in
        rw (not_later, before, from) refl
  ]
]

compress_loop-selected :
    (source mask : Span) (pv n i d : ℕ) (g : Group) (r k : ℕ)
    → 0 < pv
    → compress_loop source mask pv n i d g r k ≡ (
        if ltb k pv && leb d (r * pv + k)
        then entry_or (g r k) (selected source mask n i) (r * pv + k - d)
        else g r k)
unfolding compress_loop
compress_loop-selected source mask pv zero i d g r k pos = ground arith
compress_loop-selected source mask pv (suc n) i d g r k pos = elim (Bool-cases (mask_bit mask i)) [
  | inl active ↦
      let written = λ (r k : ℕ). if r == d / pv && k == d % pv then source i else g r k in
      rw active (
        compress_loop-selected source mask pv n (i + 1) (d + 1) written r k pos
        ∙ rw (place_test pv r k d pos) (
            step_test (ltb k pv) d (r * pv + k) (source i) (g r k)
              (selected source mask n (i + 1))))
  | inr masked ↦ rw masked (compress_loop-selected source mask pv n (i + 1) d g r k pos)
]

abbrev packed : ℕ → Operands → VectorUnit → VectorUnit
packed d o u =
    let v = u.state in
    record {
      state = record v { vstart = 0 };
      dest =
          compress_loop (o.vs2 u.dest) o.mask (per_vector d u) (v.vector_length - v.vstart) v.vstart
            0 u.dest;
    }

vcompress_helper-packed :
    (d : ℕ) (o : Operands) (u : VectorUnit) → IsReady d o u → vcompress_helper d o u ≡ packed d o u
unfolding vcompress_helper
vcompress_helper-packed d o u ready =
    let pv = per_vector d u in
    let room : ltb o.dest_size ((u.state.vector_length + pv - 1) / pv) ≡ false =
      ground (arith, ready.room) in
    ap
      (λ b.
        if b
        then u
        else if ltb o.dest_size ((u.state.vector_length + pv - 1) / pv)
        then raise u
        else packed d o u)
      ready.quiet
    ∙ ap (λ b. if b then raise u else packed d o u) room

-- The compression of a group writes, from the first element of the destination on, the elements
-- of the source from vstart up to the length that are under the mask, one after the other. All other elements stay
-- as they are, and of the state only vstart changes, to 0: for the four widths, without an exception and with enough
-- registers.
pub vcompress-selected :
    (o : Operands) (u : VectorUnit) (reg item : ℕ)
    → one_of widths u.state.selected_element_width ≡ true
    → IsReady u.state.selected_element_width o u
    → let v = u.state in
      let d = v.selected_element_width in
      let elements = selected (o.vs2 u.dest) o.mask (v.vector_length - v.vstart) v.vstart in
      ((vcompress o u).state ≡ record v { vstart = 0 })
      × ((vcompress o u).dest reg item ≡ (
          if ltb item (per_vector d u)
          then entry_or (u.dest reg item) elements (index_of d v reg item)
          else u.dest reg item))
unfolding vcompress
vcompress-selected o u reg item known ready =
    let d = u.state.selected_element_width in
    let v = u.state in
    let e =
      by_width_lem widths (λ n. vcompress_helper n o) u known
      ∙ vcompress_helper-packed d o u ready in
    (
      ap (λ (u : VectorUnit). u.state) e,
      ap (λ (u : VectorUnit). u.dest reg item) e
          ∙ compress_loop-selected (o.vs2 u.dest) o.mask (per_vector d u)
              (v.vector_length - v.vstart) v.vstart 0 u.dest reg item ready.fits
          ∙ ground arith,
    )

-- ===== src/Vector/Opi/Widths.antt =====
-- The switch over the widths of elements, for a width that it has.
use mpact_riscv.Common.{
  ℕ, ◌≡◌, ap, sym, arith, Bool, true, false, ◌||◌, ◌==◌, List, [], ◌∷◌, Bool-cases, inl, inr,
}
use mpact_riscv.Vector.Loop.{VectorUnit}
use mpact_riscv.Vector.Opi.{by_width}

abbrev pub one_of : List ℕ → ℕ → Bool
one_of [] n = false
one_of (k ∷ ks) n = n == k || one_of ks n

pub by_width_lem :
    (ns : List ℕ) (run : ℕ → VectorUnit → VectorUnit) (u : VectorUnit)
    → one_of ns u.state.selected_element_width ≡ true
    → by_width ns run u ≡ run u.state.selected_element_width u
by_width_lem [] run u e = ground (arith, e)
by_width_lem (k ∷ ks) run u e =
    let sew = u.state.selected_element_width in
    elim (Bool-cases (sew == k)) [
      | inl same ↦
          let named : sew ≡ k = ground (arith, same) in rw same (ap (λ n. run n u) (sym named))
      | inr other ↦ rw other (by_width_lem ks run u (ground (arith, e, other)))
    ]

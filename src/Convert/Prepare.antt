-- ===== src/Convert/Prepare.antt =====
-- The fields of a floating point number, and the shift of its significand.
use mpact_riscv.Common.{
  ℕ, ◌+◌, ◌-◌, ◌*◌, ◌/◌, ◌%◌, ◌^◌, ◌≤◌, ◌<◌, ◌≡◌, refl, sym, ap, subst, ◌∙◌, arith, Bool-cases,
  false, ◌==◌, ◌/=◌, ltb, if◌then◌else◌, bit_and, bit_or, inl, inr,
}
use native.Mathlib.Nat.{
  mod-lt, mod-eq_of_lt, div-eq_of_lt, div-one, mod-one, div-le_self, pow-suc, pow-le-pow_right,
  one-le-pow, mul-div_cancel, le-mul_of_pos_right,
}
use mpact_riscv.Bits.{bit, bit_ext, bit-bit_and, bit-bit_or, bit-mod, bit-shr, bit-shl, bit-ones}
use mpact_riscv.Words.{◌<<<◌}
use mpact_riscv.Words.Laws.{bit_or-shl}
use mpact_riscv.Words.Halves.{bit_and-ones}
use mpact_riscv.Convert.{
  FpTypeInfo, Parts, pos, negsuc, difference, right_shift, compress, prepare, k_inexact,
}
use mpact_riscv.Convert.Rounding.{Holds}

-- What the library documents of a type with `e` bits of exponent, and the sizes of the types in use.
pub record IsIeee (e : ℕ) (f : FpTypeInfo) : Type 0 where
  pub sig_mask_is : f.sig_mask ≡ 2 ^ f.sig_size - 1
  pub exp_mask_is : f.exp_mask ≡ (2 ^ e - 1) * 2 ^ f.sig_size
  pub bit_size_is : f.bit_size ≡ f.sig_size + e + 1
  pub some_exp : 1 ≤ e
  pub some_sig : 1 ≤ f.sig_size
  pub small_sig : f.sig_size ≤ 52
  pub some_bias : 2 ≤ f.exp_bias

-- The fields of the number with the bits `u`: its biased exponent, of which 0 stands for 1, and its
-- significand, as a whole number.
abbrev pub exponent_field : ℕ → FpTypeInfo → ℕ → ℕ
exponent_field e f u = u / 2 ^ f.sig_size % 2 ^ e

abbrev pub exponent : ℕ → FpTypeInfo → ℕ → ℕ
exponent e f u = if exponent_field e f u == 0 then 1 else exponent_field e f u

abbrev pub significand : ℕ → FpTypeInfo → ℕ → ℕ
significand e f u =
    if exponent_field e f u == 0 then u % 2 ^ f.sig_size else 2 ^ f.sig_size + u % 2 ^ f.sig_size

bit_and_comm : (a b : ℕ) → bit_and a b ≡ bit_and b a
bit_and_comm a b = bit_ext _ _ (λ i. bit-bit_and a b i ∙ ground arith ∙ sym (bit-bit_and b a i))

bit_or_comm : (a b : ℕ) → bit_or a b ≡ bit_or b a
bit_or_comm a b = bit_ext _ _ (λ i. bit-bit_or a b i ∙ ground arith ∙ sym (bit-bit_or b a i))

module _ (e : ℕ) (f : FpTypeInfo) (ieee : IsIeee e f) (u : ℕ) where
  pub sig_lem : bit_and f.sig_mask u ≡ u % 2 ^ f.sig_size
  sig_lem = bit_and_comm f.sig_mask u ∙ rw ieee.sig_mask_is (bit_and-ones f.sig_size u)

  pub exp_lem : bit_and f.exp_mask u ≡ exponent_field e f u * 2 ^ f.sig_size
  exp_lem = rw ieee.exp_mask_is (
      bit_ext _ _ λ i.
        rw
          (
            bit-bit_and,
            bit-shl f.sig_size (2 ^ e - 1) i,
            bit-ones e (i - f.sig_size),
            bit-shl f.sig_size (exponent_field e f u) i,
            bit-mod e (u / 2 ^ f.sig_size) (i - f.sig_size),
            bit-shr f.sig_size u (i - f.sig_size),
          )
          (ground (arith, back i)))
    where
      back : (i : ℕ) → f.sig_size ≤ i → bit u (i - f.sig_size + f.sig_size) ≡ bit u i
      back i h = ap (bit u) (omega (arith, h))

-- The significand after the shift to the right.
module _ (e : ℕ) (f : FpTypeInfo) (ieee : IsIeee e f) (m r : ℕ) where
  small_significand : 2 ^ (f.sig_size + 1) ≤ 2 ^ 53
  small_significand =
      pow-le-pow_right {n = 2} (omega arith) {j = 53} (omega (arith, ieee.small_sig))

  -- A shift by all bits or more leaves nothing.
  all_shifted : m < 2 ^ (f.sig_size + 1) → f.sig_size + 1 ≤ r → m < 2 ^ r
  all_shifted small far =
      let wide : 2 ^ (f.sig_size + 1) ≤ 2 ^ r = pow-le-pow_right {n = 2} (omega arith) far in
      omega (arith, small, wide)

  pub compress-Holds : 0 < m → m < 2 ^ (f.sig_size + 1) → Holds m (2 ^ r) (compress f (pos r) m)
  unfolding compress
  compress-Holds some_m small = elim (Bool-cases (ltb (f.bit_size - 1) r)) [
    | inl far ↦
        let beyond : m < 2 ^ r =
          all_shifted small (ground (arith, far, ieee.bit_size_is, ieee.some_exp)) in
        rw far (record {
          base_is = sym (div-eq_of_lt beyond);
          compressed_is = ap (λ t. t /= 0) (sym (mod-eq_of_lt beyond));
          no_wrap = omega arith;
          flagged = λ none_lost. ground (arith, none_lost, some_m);
        })
    | inr near ↦ elim (Bool-cases (ltb 0 r)) [
      | inl some_r ↦
          rw (near, some_r)
            (record {
              base_is = refl;
              compressed_is = ap (λ t. t /= 0) (ap (bit_and m) (omega arith) ∙ bit_and-ones r m);
              no_wrap = omega (arith, div-le_self m (2 ^ r), small, small_significand);
              flagged = λ none_lost. refl;
            })
      | inr no_r ↦
          let zero_shift : r ≡ 0 = ground (arith, no_r) in
          let rest : m % 2 ^ r ≡ 0 = ap (λ k. m % 2 ^ k) zero_shift ∙ mod-one m in
          rw (near, no_r)
            (record {
              base_is = sym (ap (λ k. m / 2 ^ k) zero_shift ∙ div-one m);
              compressed_is = ground (arith, rest);
              no_wrap = omega (arith, small, small_significand);
              flagged = λ none_lost. refl;
            })
    ]
  ]

difference-low : (a b r : ℕ) → b ≤ a → a - b ≡ r → difference a b ≡ pos r
difference-low a b r h e = ground (arith, h, e)

difference-high : (a b n : ℕ) → a < b → b - a - 1 ≡ n → difference a b ≡ negsuc n
difference-high a b n h e = ground (arith, h, e)

abbrev pub unshifted : ℕ → Parts
unshifted m = record { base = m; compressed = false; flags = 0 }

module _ (e : ℕ) (f : FpTypeInfo) (ieee : IsIeee e f) (u : ℕ) where
  fraction-lt : u % 2 ^ f.sig_size < 2 ^ f.sig_size
  fraction-lt = mod-lt u (one-le-pow f.sig_size 2 (omega arith))

  with_leading_one :
      bit_or (u % 2 ^ f.sig_size) (1 <<< f.sig_size) ≡ 2 ^ f.sig_size + u % 2 ^ f.sig_size
  with_leading_one =
      bit_or_comm (u % 2 ^ f.sig_size) (1 <<< f.sig_size)
      ∙ bit_or-shl f.sig_size 1 (u % 2 ^ f.sig_size) fraction-lt
      ∙ omega arith

  -- The test of the exponent, and its value.
  exponent-test : (v : ℕ) → (v * 2 ^ f.sig_size == 0) ≡ (v == 0)
  exponent-test v = ground (
    arith,
    le-mul_of_pos_right {m = 2 ^ f.sig_size} v (one-le-pow f.sig_size 2 (omega arith)),
    none v,
  )
    where
      none : (v : ℕ) → v ≡ 0 → v * 2 ^ f.sig_size ≡ 0
      none v z = ap (λ (t : ℕ). t * 2 ^ f.sig_size) z ∙ omega arith

  exponent-value : (v : ℕ) → v * 2 ^ f.sig_size / 2 ^ f.sig_size ≡ v
  exponent-value v = mul-div_cancel v (one-le-pow f.sig_size 2 (omega arith))

  doubled : 2 ^ (f.sig_size + 1) ≡ 2 ^ f.sig_size * 2
  doubled = ap (λ k. 2 ^ k) (omega arith) ∙ pow-suc 2 f.sig_size

  below :
      0 < u % 2 ^ f.sig_size
      → Holds
          (u % 2 ^ f.sig_size)
          (2 ^ (f.exp_bias + f.sig_size - 1 - 1))
          (record { base = 0; compressed = u % 2 ^ f.sig_size /= 0; flags = k_inexact })
  below some_fraction =
      let wide : 2 ^ f.sig_size ≤ 2 ^ (f.exp_bias + f.sig_size - 1 - 1) =
        pow-le-pow_right {n = 2} (omega arith) {j = f.exp_bias + f.sig_size - 1 - 1}
          (omega (arith, ieee.some_bias)) in
      let beyond : u % 2 ^ f.sig_size < 2 ^ (f.exp_bias + f.sig_size - 1 - 1) =
        omega (arith, fraction-lt, wide) in
      record {
        base_is = sym (div-eq_of_lt beyond);
        compressed_is = ap (λ t. t /= 0) (sym (mod-eq_of_lt beyond));
        no_wrap = omega arith;
        flagged = λ none_lost. ground (arith, none_lost, some_fraction);
      }

  normal_shift :
      exponent_field e f u < f.exp_bias + f.sig_size
      → let v = exponent_field e f u in
        let r = f.exp_bias + f.sig_size - 1 - v in
        let shift =
          difference (f.sig_size - 1 + f.exp_bias) (v * 2 ^ f.sig_size / 2 ^ f.sig_size) in
        Holds
          (2 ^ f.sig_size + u % 2 ^ f.sig_size)
          (2 ^ r)
          (compress f shift (bit_or (u % 2 ^ f.sig_size) (1 <<< f.sig_size)))
        × ((n : ℕ) × (shift ≡ pos n))
  normal_shift inside =
      let v = exponent_field e f u in
      let r = f.exp_bias + f.sig_size - 1 - v in
      let m = 2 ^ f.sig_size + u % 2 ^ f.sig_size in
      let shift : difference (f.sig_size - 1 + f.exp_bias) (v * 2 ^ f.sig_size / 2 ^ f.sig_size)
          ≡ pos r =
        ap (difference (f.sig_size - 1 + f.exp_bias)) (exponent-value v)
        ∙ difference-low (f.sig_size - 1 + f.exp_bias) v r (omega (arith, inside, ieee.some_sig))
            (omega (arith, ieee.some_sig)) in
      (
        subst (λ k. Holds m (2 ^ r) (compress f k (bit_or (u % 2 ^ f.sig_size) (1 <<< f.sig_size))))
            (sym shift)
            (subst (λ b. Holds m (2 ^ r) (compress f (pos r) b)) (sym with_leading_one)
              (compress-Holds e f ieee m r (omega (arith, one-le-pow f.sig_size 2 (omega arith)))
                (omega (arith, fraction-lt, doubled)))),
        (r, shift),
      )

  -- A number whose magnitude has bits after the point is shifted right so that one of them is left.
  pub prepare-Holds :
      0 < significand e f u
      → exponent e f u < f.exp_bias + f.sig_size
      → let r = f.exp_bias + f.sig_size - 1 - exponent e f u in
        let exp = bit_and f.exp_mask u in
        Holds (significand e f u) (2 ^ r) (prepare f exp (bit_and f.sig_mask u))
        × ((n : ℕ) × (right_shift f exp ≡ pos n))
  unfolding prepare right_shift
  prepare-Holds some_m low = elim (Bool-cases (exponent_field e f u == 0)) [
    | inl subnormal ↦
        rw (exp_lem e f ieee u, sig_lem e f ieee u, exponent-test (exponent_field e f u), subnormal)
          (below (ground (arith, some_m, subnormal)), (1, refl))
    | inr normal ↦
        rw (exp_lem e f ieee u, sig_lem e f ieee u, exponent-test (exponent_field e f u), normal)
          (normal_shift (ground (arith, low, normal)))
  ]

  -- A number whose magnitude has none is not shifted here.
  pub prepare-left :
      f.exp_bias + f.sig_size ≤ exponent e f u
      → let exp = bit_and f.exp_mask u in
        (prepare f exp (bit_and f.sig_mask u) ≡ unshifted (significand e f u))
        × (right_shift f exp ≡ negsuc (exponent e f u - (f.exp_bias + f.sig_size)))
  unfolding prepare right_shift compress
  prepare-left high =
      let v = exponent_field e f u in
      let k = f.sig_size - 1 + f.exp_bias in
      let normal : (v == 0) ≡ false = ground (arith, high, ieee.some_bias) in
      let shift : difference k (v * 2 ^ f.sig_size / 2 ^ f.sig_size)
          ≡ negsuc (v - (f.exp_bias + f.sig_size)) =
        ap (difference k) (exponent-value v)
        ∙ difference-high k v (v - (f.exp_bias + f.sig_size))
            (ground (arith, high, normal, ieee.some_sig)) (omega (arith, ieee.some_sig)) in
      rw (exp_lem e f ieee u, sig_lem e f ieee u, exponent-test v, normal)
        (
          ap (λ z. compress f z (bit_or (u % 2 ^ f.sig_size) (1 <<< f.sig_size))) shift
              ∙ ap unshifted with_leading_one,
          shift,
        )

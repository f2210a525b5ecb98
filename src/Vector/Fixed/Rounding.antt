-- ===== src/Vector/Fixed/Rounding.antt =====
-- The shifts that round: what is added to the value that is cut off.
use native.Mathlib.Nat.{
  mod-lt, mod-add-div', mod-eq_of_lt, one-le-pow, div-eq_of_lt, add-mul-div_right, pow-suc,
  mul-le-mul_right,
}
use mpact_riscv.Common.{
  ℕ, zero, suc, ◌+◌, ◌-◌, ◌*◌, ◌/◌, ◌%◌, ◌^◌, ◌≤◌, ◌<◌, ◌≡◌, refl, ap, sym, ◌∙◌, arith, Bool, true,
  false, not, ◌&&◌, ◌||◌, ◌==◌, ◌/=◌, ltb, leb, if◌then◌else◌, bit_and, bit_or, Bool-cases, inl,
  inr,
}
use mpact_riscv.Bits.{bit_ext, bit-bit_and, bit-mod, bit-shl, bit-ones, bit-zero}
use mpact_riscv.Words.{IsWord, complement, of_bool, ◌<<<◌}
use mpact_riscv.Words.Laws.{bit-complement, bit-above}
use mpact_riscv.Words.Halves.{bit_and-ones}
use mpact_riscv.Muldiv.Signed.{mod_unique}
use mpact_riscv.Vector.Fixed.{unsigned_max, get_rounding_bit, round_bits, vssr_helper}

-- A value of `s` bits after the point, rounded in a mode: to the nearest, with ties up or to even, down, or to
-- odd where it is not exact.
abbrev pub rounded : ℕ → ℕ → ℕ → ℕ
rounded rm s a =
    let q = a / 2 ^ s in
    let r = a % 2 ^ s in
    if rm == 0
    then (a + 2 ^ s / 2) / 2 ^ s
    else if rm == 1
    then (if ltb (2 * r) (2 ^ s) then q else if ltb (2 ^ s) (2 * r) then q + 1 else q + q % 2)
    else if rm == 3
    then (if r == 0 then q else q / 2 * 2 + 1)
    else q

low_mask : (w k x : ℕ) → IsWord w x → bit_and x (complement w (unsigned_max w <<< k)) ≡ x % 2 ^ k
low_mask w k x word = bit_ext _ _ (λ i.
    rw (bit-bit_and, bit-complement, bit-shl k (unsigned_max w) i, bit-mod, bit-ones)
      (ground (arith, bit-above w x i word)))

round_bits_lem : (w s a : ℕ) → s < w → IsWord w a → round_bits w s a ≡ a % 2 ^ suc s
unfolding round_bits
round_bits_lem w s a inside word = elim (Bool-cases (ltb s (w - 1))) [
  | inl e ↦ let next : s + 1 ≡ suc s = omega arith in rw (e, next) (low_mask w (suc s) a word)
  | inr e ↦
      let last : suc s ≡ w = ground (arith, e) in
      let whole : a ≡ a % 2 ^ w = omega (arith, mod-eq_of_lt word) in rw (e, last) whole
]

of_bool-le : (c : Bool) → of_bool c ≤ 1
of_bool-le true = omega arith
of_bool-le false = omega arith

and_bools : (x y : Bool) → bit_and (of_bool x) (of_bool y) ≡ of_bool (x && y)
and_bools true true = refl
and_bools true false = refl
and_bools false true = refl
and_bools false false = refl

or_bools : (x y : Bool) → bit_or (of_bool x) (of_bool y) ≡ of_bool (x || y)
or_bools true true = refl
or_bools true false = refl
or_bools false true = refl
or_bools false false = refl

of_bool-low : (x : ℕ) → x < 2 → of_bool (x /= 0) ≡ x
of_bool-low x small = ground (arith, small)

-- A value `q * (2 * p) + r` with the bits of `r` and the last one of `q`.
module _ (p q r : ℕ) (pos : 0 < p) (inside : r < 2 * p) where
  abbrev low : ℕ
  low = q % 2 * (2 * p) + r

  low-half : low / p % 2 ≡ of_bool (leb p r)
  low-half = elim (Bool-cases (leb p r)) [
    | inl e ↦
        let split : low ≡ (r - p) + (q % 2 * 2 + 1) * p = ground (arith, e) in
        let small : (r - p) / p ≡ 0 = div-eq_of_lt (ground (arith, e)) in
        rw e (
          ap (λ t. t / p % 2) split
          ∙ ap (λ t. t % 2) (add-mul-div_right (r - p) (q % 2 * 2 + 1) pos)
          ∙ omega (arith, small))
    | inr e ↦
        let split : low ≡ r + q % 2 * 2 * p = omega arith in
        let small : r / p ≡ 0 = div-eq_of_lt (ground (arith, e)) in
        rw e (
          ap (λ t. t / p % 2) split
          ∙ ap (λ t. t % 2) (add-mul-div_right r (q % 2 * 2) pos)
          ∙ omega (arith, small))
  ]

  low-last : low / (2 * p) % 2 ≡ of_bool (q % 2 /= 0)
  low-last =
      let split : low ≡ r + q % 2 * (2 * p) = omega arith in
      let small : r / (2 * p) ≡ 0 = div-eq_of_lt inside in
      ap (λ t. t / (2 * p) % 2) split
      ∙ ap (λ t. t % 2) (add-mul-div_right r (q % 2) (omega (arith, pos)))
      ∙ ground (arith, small)

  low-rest : low % (2 * p) ≡ r
  low-rest = mod_unique (2 * p) low r 0 (q % 2) (omega arith) inside

  low-below : low % p ≡ (if leb p r then r - p else r)
  low-below = elim (Bool-cases (leb p r)) [
    | inl e ↦
        rw e (mod_unique p low (r - p) 0 (q % 2 * 2 + 1) (ground (arith, e)) (ground (arith, e)))
    | inr e ↦ rw e (mod_unique p low r 0 (q % 2 * 2) (omega arith) (ground (arith, e)))
  ]

  -- Whether the value is rounded up.
  abbrev bump : ℕ → Bool
  bump rm =
      if rm == 0
      then leb p r
      else if rm == 1
      then leb p r && ((if leb p r then r - p else r) /= 0 || q % 2 /= 0)
      else if rm == 3
      then not (q % 2 /= 0) && r /= 0
      else false

to_bool-of_bool : (b : Bool) → (of_bool b /= 0) ≡ b
to_bool-of_bool true = refl
to_bool-of_bool false = refl

choose :
    (a b c x y z : Bool)
    → (if a then of_bool x else if b then of_bool y else if c then of_bool z else 0)
      ≡ of_bool (if a then x else if b then y else if c then z else false)
choose true b c x y z = refl
choose false true c x y z = refl
choose false false true x y z = refl
choose false false false x y z = refl

lower_bits :
    (w t x : ℕ)
    → IsWord w x
    → (if ltb (suc t + 1) 3
        then 0
        else of_bool (bit_and x (complement w (unsigned_max w <<< t)) /= 0))
      ≡ of_bool (x % 2 ^ t /= 0)
lower_bits w zero x word = ground arith
lower_bits w (suc t) x word =
    let test : ltb (suc (suc t) + 1) 3 ≡ false = ground arith in
    rw (test, low_mask w (suc t) x word) refl

rounding_bit-suc :
    (w rm t q r : ℕ) (inside : r < 2 * 2 ^ t)
    → IsWord w (q % 2 * (2 * 2 ^ t) + r)
    → get_rounding_bit w rm (q % 2 * (2 * 2 ^ t) + r) (suc t + 1)
      ≡ of_bool (bump (2 ^ t) q r (one-le-pow t 2 (omega arith)) inside rm)
unfolding get_rounding_bit
rounding_bit-suc w rm t q r inside word =
    let p = 2 ^ t in
    let pos : 0 < p = one-le-pow t 2 (omega arith) in
    let x = q % 2 * (2 * p) + r in
    let first : suc t + 1 - 2 ≡ t = omega arith in
    let second : suc t + 1 - 1 ≡ suc t = omega arith in
    let not_one : ltb (suc t + 1) 2 ≡ false = ground arith in
    let not_zero : (suc t + 1 == 0) ≡ false = ground arith in
    let power : 2 ^ suc t ≡ 2 * p = omega (arith, pow-suc 2 t) in
    let half : bit_and (x / p) 1 ≡ of_bool (leb p r) =
      bit_and-ones 1 (x / p) ∙ low-half p q r pos inside in
    let last : bit_and (x / (2 * p)) 1 ≡ of_bool (q % 2 /= 0) =
      bit_and-ones 1 (x / (2 * p)) ∙ low-last p q r pos inside in
    let lower = lower_bits w t x word ∙ ap (λ k. of_bool (k /= 0)) (low-below p q r pos inside) in
    let rest : bit_and x (complement w (unsigned_max w <<< suc t)) ≡ r =
      low_mask w (suc t) x word ∙ ap (λ k. x % k) power ∙ low-rest p q r pos inside in
    rw (first, second, not_one, not_zero, lower, rest, power, half, last)
      (rw (to_bool-of_bool, or_bools, and_bools, and_bools)
        (choose (rm == 0) (rm == 1) (rm == 3) _ _ _))

no_bits :
    (a b c : Bool) (k m : ℕ)
    → (if a then 0 else if b then bit_and 0 k else if c then bit_and m 0 else 0) ≡ 0
no_bits a b c k m =
    let left : bit_and 0 k ≡ 0 = bit_ext _ _ (λ i. rw (bit-bit_and, bit-zero) (ground arith)) in
    let right : bit_and m 0 ≡ 0 = bit_ext _ _ (λ i. rw (bit-bit_and, bit-zero) (ground arith)) in
    rw (left, right) (ground arith)

-- The value with what is added to it.
rounded_parts :
    (p q r a rm : ℕ) (pos : 0 < p) (inside : r < 2 * p)
    → r + q * (2 * p) ≡ a
    → q + of_bool (bump p q r pos inside rm) ≡ (
        if rm == 0
        then (a + 2 * p / 2) / (2 * p)
        else if rm == 1
        then (if ltb (2 * r) (2 * p) then q else if ltb (2 * p) (2 * r) then q + 1 else q + q % 2)
        else if rm == 3
        then (if r == 0 then q else q / 2 * 2 + 1)
        else q)
rounded_parts p q r a rm pos inside split =
    let sum : a + 2 * p / 2 ≡ (r + p) + q * (2 * p) = omega (arith, split) in
    let up : (a + 2 * p / 2) / (2 * p) ≡ (r + p) / (2 * p) + q =
      ap (λ t. t / (2 * p)) sum ∙ add-mul-div_right (r + p) q (omega (arith, pos)) in
    elim (Bool-cases (leb p r)) [
      | inl e ↦
          let more : r + p ≡ (r - p) + 1 * (2 * p) = ground (arith, e) in
          let less : r - p < 2 * p = omega (arith, inside) in
          let one : (r + p) / (2 * p) ≡ 1 =
            ap (λ t. t / (2 * p)) more
            ∙ add-mul-div_right (r - p) 1 (omega (arith, pos))
            ∙ omega (arith, div-eq_of_lt less) in
          rw (up, one, e) (ground (arith, e, mod-add-div' q 2, pos, inside))
      | inr e ↦
          let less : r + p < 2 * p = ground (arith, e) in
          let none_more : (r + p) / (2 * p) ≡ 0 = div-eq_of_lt less in
          rw (up, none_more, e) (ground (arith, e, mod-add-div' q 2))
    ]

get_rounding_bit_zero : (w rm x : ℕ) → get_rounding_bit w rm x (0 + 1) ≡ 0
unfolding get_rounding_bit
get_rounding_bit_zero w rm x = no_bits (rm == 0) (rm == 1) (rm == 3) _ _

-- The value that is cut off with its rounding bit.
rounded_lem :
    (w rm s a : ℕ)
    → s < w
    → IsWord w a
    → a / 2 ^ s + get_rounding_bit w rm (round_bits w s a) (s + 1) ≡ rounded rm s a
rounded_lem w rm zero a inside word =
    rw (get_rounding_bit_zero w rm (round_bits w 0 a)) (ground arith)
rounded_lem w rm (suc t) a inside word =
    let p = 2 ^ t in
    let pos : 0 < p = one-le-pow t 2 (omega arith) in
    let q = a / (2 * p) in
    let r = a % (2 * p) in
    let r_inside : r < 2 * p = mod-lt a (omega (arith, pos)) in
    let split = mod-add-div' a (2 * p) in
    let power : 2 ^ suc t ≡ 2 * p = omega (arith, pow-suc 2 t) in
    let power2 : 2 ^ suc (suc t) ≡ 2 * p + 2 * p = omega (arith, pow-suc 2 (suc t), power) in
    let halves : q * p ≡ (q % 2 + q / 2 * 2) * p = ap (λ (t : ℕ). t * p) (sym (mod-add-div' q 2)) in
    let e : a + 0 * (2 * p + 2 * p) ≡ q % 2 * (2 * p) + r + q / 2 * (2 * p + 2 * p) =
      omega (arith, split, halves) in
    let one_bit : q % 2 * (2 * p) ≤ 1 * (2 * p) = mul-le-mul_right (2 * p) (omega arith) in
    let bits : round_bits w (suc t) a ≡ q % 2 * (2 * p) + r =
      round_bits_lem w (suc t) a inside word
      ∙ ap (λ k. a % k) power2
      ∙ mod_unique (2 * p + 2 * p) a _ 0 (q / 2) e (omega (arith, one_bit, r_inside)) in
    let bit_word : IsWord w (q % 2 * (2 * p) + r) = omega (arith, e, word) in
    rw (bits, rounding_bit-suc w rm t q r r_inside bit_word, power)
      (rounded_parts p q r a rm pos r_inside split)

rounded-lt : (w rm s a : ℕ) → s < w → IsWord w a → rounded rm s a < 2 ^ w
rounded-lt w rm zero a inside word = ground (arith, word)
rounded-lt w rm (suc t) a inside word =
    let p = 2 ^ t in
    let pos : 0 < p = one-le-pow t 2 (omega arith) in
    let q = a / (2 * p) in
    let r_inside : a % (2 * p) < 2 * p = mod-lt a (omega (arith, pos)) in
    let split = mod-add-div' a (2 * p) in
    let power : 2 ^ suc t ≡ 2 * p = omega (arith, pow-suc 2 t) in
    let parts = rounded_parts p q (a % (2 * p)) a rm pos r_inside split in
    let bound = of_bool-le (bump p q (a % (2 * p)) pos r_inside rm) in
    let at_most : 2 * q ≤ 2 * p * q = mul-le-mul_right q (omega (arith, pos)) in
    let exponent : 2 ^ w ≡ 2 ^ (w - 1) * 2 =
      ap (λ k. 2 ^ k) (omega (arith, inside)) ∙ pow-suc 2 (w - 1) in
    let positive : 1 ≤ 2 ^ (w - 1) = one-le-pow (w - 1) 2 (omega arith) in
    rw power (rw (← parts) (omega (arith, bound, at_most, split, word, exponent, positive)))

-- A rounding shift of an unsigned word of `w` bits, a power of two, gives the word divided by the power of two of
-- the shift amount, rounded in the mode.
pub vssr_helper-rounded :
    (n rm a b : ℕ) → IsWord (2 ^ n) a → vssr_helper (2 ^ n) false rm a b ≡ rounded rm (b % 2 ^ n) a
unfolding vssr_helper
vssr_helper-rounded n rm a b word =
    let w = 2 ^ n in
    let s = b % w in
    let inside : s < w = mod-lt b (one-le-pow n 2 (omega arith)) in
    rw (bit_and-ones n b) (
      ap (λ t. t % 2 ^ w) (rounded_lem w rm s a inside word)
      ∙ mod-eq_of_lt (rounded-lt w rm s a inside word))

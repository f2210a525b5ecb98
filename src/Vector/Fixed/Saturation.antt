-- ===== src/Vector/Fixed/Saturation.antt =====
-- The saturating sums and differences are those of the integers, cut off at the limits of the type.
use native.Mathlib.Nat.{mod-lt, mod-eq_of_lt, one-le-pow, pow-suc}
use mpact_riscv.Common.{
  ℕ, ◌+◌, ◌-◌, ◌*◌, ◌%◌, ◌^◌, ◌≤◌, ◌<◌, ◌≡◌, refl, ap, ap₂, sym, ◌∙◌, arith, min, xor, Bool, true,
  false, not, ◌&&◌, ◌||◌, ltb, leb, if◌then◌else◌, bit_xor, ◌⊎◌, Bool-cases, inl, inr,
}
use mpact_riscv.Bits.{bit_ext, bit-bit_xor, bit-mod}
use mpact_riscv.Words.{IsWord}
use mpact_riscv.Words.Laws.{bit-above}
use mpact_riscv.Muldiv.{negative}
use mpact_riscv.Muldiv.Signed.{mod_unique}
use mpact_riscv.Muldiv.Widen.{negative_lem}
use mpact_riscv.Bitmanip.{signed_ltb}
use mpact_riscv.Vector.Fixed.{saddu, vsadd_helper, ssubu, vssub_helper}

bit_xor-IsWord : (w a b : ℕ) → IsWord w a → IsWord w b → IsWord w (bit_xor a b)
bit_xor-IsWord w a b a_word b_word =
    let same : bit_xor a b % 2 ^ w ≡ bit_xor a b = bit_ext _ _ (λ i.
      rw (bit-mod, bit-bit_xor) (ground (arith, bit-above w a i a_word, bit-above w b i b_word))) in
    rw (← same) (mod-lt (bit_xor a b) (one-le-pow w 2 (omega arith)))

-- The sign of an exclusive or.
negative-bit_xor :
    (w a b : ℕ)
    → 0 < w
    → IsWord w a
    → IsWord w b
    → negative w (bit_xor a b) ≡ xor (negative w a) (negative w b)
negative-bit_xor w a b wide a_word b_word =
    negative_lem w (bit_xor a b) wide (bit_xor-IsWord w a b a_word b_word)
    ∙ bit-bit_xor a b (w - 1)
    ∙ sym (ap₂ xor (negative_lem w a wide a_word) (negative_lem w b wide b_word))

-- A signed word with its least value moved to 0.
abbrev pub biased : ℕ → ℕ → ℕ
biased w a = if negative w a then a - 2 ^ (w - 1) else a + 2 ^ (w - 1)

-- The result `x` of a signed operation with the exact value `exact - offset`, all moved to 0: the value is cut
-- off at the limits, and `saturates` says so.
abbrev pub Clamped : ℕ → ℕ → ℕ → ℕ × Bool → Type 0
Clamped w exact offset (x, saturates) =
    (biased w x ≡ min (exact - offset) (2 ^ w - 1))
    × (saturates ≡ (ltb exact offset || leb (offset + 2 ^ w) exact))

-- The numbers behind a sum, where `m` is its word and `h` half of the range.
sum_core :
    (h a b m : ℕ)
    → 0 < h
    → a < 2 * h
    → b < 2 * h
    → m < 2 * h
    → (m ≡ a + b) ⊎ (m + 2 * h ≡ a + b)
    → let shift = λ (x : ℕ). if leb h x then x - h else x + h in
      let zero_less = if xor (leb h 0) (leb h a) then leb h 0 else ltb 0 a in
      let r : ℕ × Bool =
        if not (xor (leb h a) (leb h b)) && xor (leb h m) (leb h a)
        then (if zero_less then h - 1 else h, true)
        else (m, false) in
      (shift r.0 ≡ min (shift a + shift b - h) (2 * h - 1))
      × (r.1 ≡ (ltb (shift a + shift b) h || leb (h + 2 * h) (shift a + shift b)))
sum_core h a b m pos a_word b_word m_word (inl e) = ground arith
sum_core h a b m pos a_word b_word m_word (inr e) = ground arith

mod_cases : (h x : ℕ) → 0 < h → x < 2 * h + 2 * h → (x % (2 * h) ≡ x) ⊎ (x % (2 * h) + 2 * h ≡ x)
mod_cases h x pos small = elim (Bool-cases (ltb x (2 * h))) [
  | inl e ↦ inl (mod-eq_of_lt (ground (arith, e)))
  | inr e ↦
      let more : 2 * h ≤ x = ground (arith, e) in
      let below : x - 2 * h < 2 * h = omega (arith, small, more) in
      inr (omega (arith, mod_unique (2 * h) x (x - 2 * h) 0 1 (omega (arith, more)) below, more))
]

vsadd_helper-Clamped :
    (w a b : ℕ)
    → 0 < w
    → IsWord w a
    → IsWord w b
    → Clamped w (biased w a + biased w b) (2 ^ (w - 1)) (vsadd_helper w a b)
unfolding vsadd_helper signed_ltb
vsadd_helper-Clamped w a b wide a_word b_word =
    let h = 2 ^ (w - 1) in
    let double : 2 ^ w ≡ 2 * h =
      ap (λ k. 2 ^ k) (omega (arith, wide)) ∙ pow-suc 2 (w - 1) ∙ omega arith in
    let pos : 1 ≤ h = one-le-pow (w - 1) 2 (omega arith) in
    let sum_word : IsWord w ((a + b) % 2 ^ w) = mod-lt (a + b) (omega (arith, double, pos)) in
    let first = negative-bit_xor w a b wide a_word b_word in
    let second = negative-bit_xor w ((a + b) % 2 ^ w) a wide sum_word a_word in
    rw (first, second, double)
      (sum_core h a b ((a + b) % (2 * h)) pos (omega (arith, double, a_word))
        (omega (arith, double, b_word)) (mod-lt (a + b) (omega (arith, pos)))
        (mod_cases h (a + b) pos (omega (arith, double, a_word, b_word))))

difference_core :
    (h a b m : ℕ)
    → 0 < h
    → a < 2 * h
    → b < 2 * h
    → m < 2 * h
    → (m ≡ a + (2 * h - b)) ⊎ (m + 2 * h ≡ a + (2 * h - b))
    → let shift = λ (x : ℕ). if leb h x then x - h else x + h in
      let r : ℕ × Bool =
        if xor (leb h a) (leb h b) && not (xor (leb h m) (leb h b))
        then (if leb h b then h - 1 else h, true)
        else (m, false) in
      (shift r.0 ≡ min (shift a + 2 * h - (shift b + h)) (2 * h - 1))
      × (r.1 ≡ (ltb (shift a + 2 * h) (shift b + h) || leb (shift b + h + 2 * h) (shift a + 2 * h)))
difference_core h a b m pos a_word b_word m_word (inl e) = ground arith
difference_core h a b m pos a_word b_word m_word (inr e) = ground arith

vssub_helper-Clamped :
    (w a b : ℕ)
    → 0 < w
    → IsWord w a
    → IsWord w b
    → Clamped w (biased w a + 2 ^ w) (biased w b + 2 ^ (w - 1)) (vssub_helper w a b)
unfolding vssub_helper
vssub_helper-Clamped w a b wide a_word b_word =
    let h = 2 ^ (w - 1) in
    let double : 2 ^ w ≡ 2 * h =
      ap (λ k. 2 ^ k) (omega (arith, wide)) ∙ pow-suc 2 (w - 1) ∙ omega arith in
    let pos : 1 ≤ h = one-le-pow (w - 1) 2 (omega arith) in
    let x = a + (2 ^ w - b) in
    let x_word : IsWord w (x % 2 ^ w) = mod-lt x (omega (arith, double, pos)) in
    let first = negative-bit_xor w a b wide a_word b_word in
    let second = negative-bit_xor w (x % 2 ^ w) b wide x_word b_word in
    rw (first, second, double)
      (difference_core h a b ((a + (2 * h - b)) % (2 * h)) pos (omega (arith, double, a_word))
        (omega (arith, double, b_word)) (mod-lt (a + (2 * h - b)) (omega (arith, pos)))
        (mod_cases h (a + (2 * h - b)) pos (omega (arith, double, a_word, b_word))))

saddu_lem :
    (w a b : ℕ)
    → IsWord w a
    → IsWord w b
    → saddu w a b ≡ (min (a + b) (2 ^ w - 1), leb (2 ^ w) (a + b))
unfolding saddu
saddu_lem w a b a_word b_word = elim (Bool-cases (ltb (a + b) (2 ^ w))) [
  | inl e ↦
      let small : a + b < 2 ^ w = ground (arith, e) in
      rw (mod-eq_of_lt small) (ground (arith, small))
  | inr e ↦
      let more : 2 ^ w ≤ a + b = ground (arith, e) in
      let below : a + b - 2 ^ w < 2 ^ w = omega (arith, a_word, b_word, more) in
      let wraps : (a + b) % 2 ^ w ≡ a + b - 2 ^ w =
        mod_unique (2 ^ w) (a + b) _ 0 1 (omega (arith, more)) below in
      rw wraps (ground (arith, more, a_word))
]

ssubu_lem : (w a b : ℕ) → IsWord w a → IsWord w b → ssubu w a b ≡ (a - b, ltb a b)
unfolding ssubu
ssubu_lem w a b a_word b_word = elim (Bool-cases (ltb a b)) [
  | inl e ↦ rw e (ground (arith, e))
  | inr e ↦
      let more : b ≤ a = ground (arith, e) in
      let wraps : (a + (2 ^ w - b)) % 2 ^ w ≡ a - b =
        mod_unique (2 ^ w) (a + (2 ^ w - b)) _ 0 1 (omega (arith, more, b_word))
          (omega (arith, a_word, more)) in
      rw (e, wraps) refl
]

-- For words of `w` bits: the saturating sums and differences are those of the numbers, unsigned or signed, cut
-- off at the limits of the type, and the flag is raised where the exact result is beyond a limit.
pub saturating :
    (w a b : ℕ)
    → 0 < w
    → IsWord w a
    → IsWord w b
    → (saddu w a b ≡ (min (a + b) (2 ^ w - 1), leb (2 ^ w) (a + b)))
      × (ssubu w a b ≡ (a - b, ltb a b))
      × Clamped w (biased w a + biased w b) (2 ^ (w - 1)) (vsadd_helper w a b)
      × Clamped w (biased w a + 2 ^ w) (biased w b + 2 ^ (w - 1)) (vssub_helper w a b)
saturating w a b wide a_word b_word = (
  saddu_lem w a b a_word b_word,
  ssubu_lem w a b a_word b_word,
  vsadd_helper-Clamped w a b wide a_word b_word,
  vssub_helper-Clamped w a b wide a_word b_word,
)

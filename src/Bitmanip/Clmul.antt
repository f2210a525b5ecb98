-- ===== src/Bitmanip/Clmul.antt =====
-- The carry-less multiplications return parts of one product.
use mpact_riscv.Common.{
  ℕ, zero, suc, ◌+◌, ◌-◌, ◌/◌, ◌%◌, ◌^◌, ◌<◌, ◌≤◌, ◌≡◌, refl, sym, ap, ◌∙◌, arith, Bool, true,
  false, if◌then◌else◌, bit_and, bit_xor,
}
use native.Mathlib.Nat.{div-eq_of_lt, one-le-pow, div-one, mod-eq_of_lt}
use mpact_riscv.Bits.{bit, bit_laws, bit_ext, bit-shr, bit-shl}
use mpact_riscv.Words.{IsWord, to_bool, ◌<<<◌, ◌>>>◌}
use mpact_riscv.Words.Laws.{to_bool-one_hot}
use mpact_riscv.Bitmanip.{clmul_loop, clmul, clmulh, clmulr32, clmulr64}

-- The whole carry-less product of words of `w` bits.
abbrev pub clproduct : ℕ → ℕ → ℕ → ℕ
clproduct w a b = clmul_loop (λ i. a <<< i) b w 0 0

-- A function that goes through the additions goes through the loop.
module _ (g : ℕ → ℕ) (b : ℕ) (linear : (x y : ℕ) → g (bit_xor x y) ≡ bit_xor (g x) (g y)) where
  clmul_loop_map :
      (f : ℕ → ℕ) (n i r : ℕ) → g (clmul_loop f b n i r) ≡ clmul_loop (λ j. g (f j)) b n i (g r)
  unfolding clmul_loop
  clmul_loop_map f zero i r = refl
  clmul_loop_map f (suc n) i r =
      clmul_loop_map f n (i + 1) _
      ∙ ap (clmul_loop (λ j. g (f j)) b n (i + 1)) (added (to_bool (bit_and (b >>> i) 1)) (f i) r)
    where
      added :
          (c : Bool) (x r : ℕ)
          → g (if c then bit_xor r x else r) ≡ (if c then bit_xor (g r) (g x) else g r)
      added true x r = linear r x
      added false x r = refl

-- Only the summands in the range of the loop count.
clmul_loop_ext :
    (f g : ℕ → ℕ) (b n i r : ℕ)
    → ((j : ℕ) → i ≤ j → j < i + n → f j ≡ g j)
    → clmul_loop f b n i r ≡ clmul_loop g b n i r
unfolding clmul_loop
clmul_loop_ext f g b zero i r same = refl
clmul_loop_ext f g b (suc n) i r same =
    ap (λ x. clmul_loop f b n (i + 1) (if to_bool (bit_and (b >>> i) 1) then bit_xor r x else r))
      (same i (omega arith) (omega arith))
    ∙ clmul_loop_ext f g b n (i + 1) _ (λ j low high. same j (omega arith) (omega arith))

mod_xor : (w x y : ℕ) → bit_xor x y % 2 ^ w ≡ bit_xor (x % 2 ^ w) (y % 2 ^ w)
mod_xor w x y = bit_ext _ _ (λ i. simp bit_laws (ground arith))

div_xor : (k x y : ℕ) → bit_xor x y / 2 ^ k ≡ bit_xor (x / 2 ^ k) (y / 2 ^ k)
div_xor k x y = bit_ext _ _ (λ i. simp bit_laws (ground arith))

-- A shift up and then down.
shl_shr : (a i k : ℕ) → i ≤ k → (a <<< i) / 2 ^ k ≡ a / 2 ^ (k - i)
shl_shr a i k h = bit_ext _ _ λ j.
    rw (bit-shr k (a <<< i) j, bit-shl i a (j + k), bit-shr (k - i) a j) (ground (arith, moved j))
  where
    moved : (j : ℕ) → bit a (j + k - i) ≡ bit a (j + (k - i))
    moved j = ap (bit a) (omega (arith, h))

-- The part of the product from bit `k` on, as a loop over shifted summands.
shifted_product :
    (w k a b : ℕ) → w ≤ suc k → clproduct w a b / 2 ^ k ≡ clmul_loop (λ i. a >>> (k - i)) b w 0 0
shifted_product w k a b fits =
    clmul_loop_map (λ x. x / 2 ^ k) b (div_xor k) (λ i. a <<< i) w 0 0
    ∙ ap (clmul_loop (λ i. (a <<< i) / 2 ^ k) b w 0) (div-eq_of_lt (one-le-pow k 2 (omega arith)))
    ∙ clmul_loop_ext (λ i. (a <<< i) / 2 ^ k) (λ i. a >>> (k - i)) b w 0 0
        (λ j low high. shl_shr a j k (omega arith))

test_bit : (b i : ℕ) → to_bool (bit_and (b >>> i) 1) ≡ bit b i
test_bit b i = to_bool-one_hot (b >>> i) 0 ∙ bit-shr i b 0 ∙ ap (bit b) (omega arith)

nothing_added : (c : Bool) (x : ℕ) → x ≡ 0 → (if c then bit_xor 0 x else 0) ≡ 0
nothing_added true x e = ap (bit_xor 0) e
nothing_added false x e = refl

-- A first step that adds nothing may be left out.
skip_first : (f : ℕ → ℕ) (b n : ℕ) → f 0 ≡ 0 → clmul_loop f b (suc n) 0 0 ≡ clmul_loop f b n 1 0
unfolding clmul_loop
skip_first f b n nothing = ap (clmul_loop f b n 1) (nothing_added _ (f 0) nothing)

-- The last step of a loop.
last_step :
    (f : ℕ → ℕ) (b n i r : ℕ)
    → clmul_loop f b (suc n) i r
      ≡ (if bit b (i + n) then bit_xor (clmul_loop f b n i r) (f (i + n)) else clmul_loop f b n i r)
unfolding clmul_loop
last_step f b zero i r = let same : i + 0 ≡ i = omega arith in rw (same, test_bit b i) refl
last_step f b (suc n) i r =
    let whole = clmul_loop f b (suc n) i r in
    let moved : i + 1 + n ≡ i + suc n = omega arith in
    last_step f b n (i + 1) _ ∙ ap (λ k. if bit b k then bit_xor whole (f k) else whole) moved

zero-mod : (w : ℕ) → 0 % 2 ^ w ≡ 0
zero-mod w = mod-eq_of_lt (one-le-pow w 2 (omega arith))

first_is_nothing : (n a : ℕ) → IsWord (suc n) a → a >>> (suc n - 0) ≡ 0
first_is_nothing n a word =
    let whole : suc n - 0 ≡ suc n = omega arith in ap (λ j. a / 2 ^ j) whole ∙ div-eq_of_lt word

clmulh_lem : (w a b : ℕ) → 0 < w → IsWord w a → clmulh w a b ≡ clproduct w a b / 2 ^ w
unfolding clmulh
clmulh_lem zero a b wide word = absurd (omega arith)
clmulh_lem (suc n) a b wide word =
    let one_less : suc n - 1 ≡ n = omega arith in
    rw one_less (
      sym (skip_first (λ i. a >>> (suc n - i)) b n (first_is_nothing n a word))
      ∙ sym (shifted_product (suc n) (suc n) a b (omega arith)))

clmulr32_lem :
    (a b : ℕ)
    → (if bit b 31 then bit_xor (clmulr32 a b) a else clmulr32 a b) ≡ clproduct 32 a b / 2 ^ 31
unfolding clmulr32
clmulr32_lem a b =
    let f : ℕ → ℕ = λ i. a >>> (32 - i - 1) in
    let partial = clmul_loop f b 31 0 0 in
    sym (
      shifted_product 32 31 a b (omega arith)
      ∙ clmul_loop_ext (λ i. a >>> (31 - i)) f b 32 0 0
          (λ j low high. ap (λ k. a / 2 ^ k) (omega arith))
      ∙ last_step f b 31 0 0
      ∙ ap (λ x. if bit b 31 then bit_xor partial x else partial) (div-one a))

-- The low and the high half of the carry-less product of two words, and its bits from w - 1 on, are what
-- the three instructions return. The reverse product of 32 bits leaves out the summand of bit 31.
pub clmul_parts :
    (w a b : ℕ)
    → 0 < w
    → IsWord w a
    → (clmul w a b ≡ clproduct w a b % 2 ^ w)
      × (clmulh w a b ≡ clproduct w a b / 2 ^ w)
      × (clmulr64 a b ≡ clproduct 64 a b / 2 ^ 63)
      × ((if bit b 31 then bit_xor (clmulr32 a b) a else clmulr32 a b) ≡ clproduct 32 a b / 2 ^ 31)
unfolding clmul clmulr64
clmul_parts w a b wide word = (
  sym (
      clmul_loop_map (λ x. x % 2 ^ w) b (mod_xor w) (λ i. a <<< i) w 0 0
      ∙ ap (clmul_loop (λ i. (a <<< i) % 2 ^ w) b w 0) (zero-mod w)),
  clmulh_lem w a b wide word,
  sym (
      shifted_product 64 63 a b (omega arith)
      ∙ clmul_loop_ext (λ i. a >>> (63 - i)) (λ i. a >>> (64 - i - 1)) b 64 0 0
          (λ j low high. ap (λ k. a / 2 ^ k) (omega arith))),
  clmulr32_lem a b,
)

-- ===== src/Words/Laws.antt =====
-- The bits of the words that the operations of Words make, and their bounds.
use native.Mathlib.Nat.{mod-eq_of_lt, mod-lt, one-le-pow}
use mpact_riscv.Common.{
  true, ◌∙◌, Bool, ◌-◌, ◌==◌, bit_and, not, ◌&&◌, zero, ◌/◌, ap, suc, ◌+◌, ◌*◌, bit_or, ℕ, ◌%◌, ◌^◌,
  ◌≤◌, ◌≡◌, sym, arith, false, ltb,
}
use mpact_riscv.Bits.{bit-zero, bit-bit_and, bit-shl, bit, bit-bit_xor, bit-mod, bit-ones, bit_ext}
use mpact_riscv.Bits.{bit_laws}
use mpact_riscv.Bits.Step.{bit_or_step}
use native.Mathlib.Nat.{pow-suc}
use mpact_riscv.Words.{of_bool, to_bool, ◌<<<◌, complement, IsWord}

pub bit-complement : (w x i : ℕ) → bit (complement w x) i ≡ (ltb i w && not (bit x i))
unfolding complement
bit-complement w x i = rw (bit-bit_xor, bit-ones, bit-mod) (ground arith)

-- A word has no bit at its width or above.
pub bit-above : (w x i : ℕ) → IsWord w x → w ≤ i → bit x i ≡ false
bit-above w x i h above = rw (sym (mod-eq_of_lt h), bit-mod w x i) (ground arith)

-- And a number without such bits is a word.
pub IsWord-of_bits : (w x : ℕ) → ((i : ℕ) → w ≤ i → bit x i ≡ false) → IsWord w x
IsWord-of_bits w x none_above =
    let cut : x % 2 ^ w ≡ x = bit_ext _ _ (λ i. rw bit-mod (ground (arith, none_above i))) in
    omega (arith, cut, mod-lt x {m = 2 ^ w} (one-le-pow w 2 (omega arith)))

double_shl : (k q : ℕ) → q * 2 ^ suc k ≡ q * 2 ^ k * 2
double_shl k q = omega (arith, ap (λ (t : ℕ). q * t) (pow-suc 2 k))

halved : (k q : ℕ) → q * 2 ^ suc k / 2 ≡ q * 2 ^ k
halved k q = omega (arith, double_shl k q)

bit_or-zero : (q : ℕ) → bit_or q 0 ≡ q
bit_or-zero q = bit_ext _ _ (λ i. simp bit_laws (ground arith))

-- Above a shifted number there is room for a word: `|` is the sum.
pub bit_or-shl : (k q r : ℕ) → IsWord k r → bit_or (q * 2 ^ k) r ≡ q * 2 ^ k + r
bit_or-shl zero q r h =
    let none_left : r ≡ 0 = omega arith in
    let same : q * 2 ^ 0 ≡ q = omega arith in rw (none_left, same) (omega (arith, bit_or-zero q))
bit_or-shl (suc k) q r h = omega (
  arith,
  bit_or_step (q * 2 ^ suc k) r,
  double_shl k q,
  pow-suc 2 k,
  ap (λ (t : ℕ). bit_or t (r / 2)) (halved k q),
  bit_or-shl k q (r / 2) (omega (arith, pow-suc 2 k)),
)

-- One bit at `k`.
pub bit-one_hot : (k i : ℕ) → bit (1 <<< k) i ≡ (i == k)
bit-one_hot k i = rw (bit-shl k 1 i, bit-ones 1 (i - k)) (ground arith)

pub bit-of_bool : (b : Bool) (i : ℕ) → bit (of_bool b) i ≡ (b && i == 0)
bit-of_bool true i = bit-ones 1 i ∙ ground arith
bit-of_bool false i = bit-zero i

one_hot_and : (x k : ℕ) → bit_and x (1 <<< k) ≡ of_bool (bit x k) * 2 ^ k
one_hot_and x k = bit_ext _ _ (λ i.
    rw (bit-bit_and, bit-one_hot, bit-shl k (of_bool (bit x k)) i, bit-of_bool) (ground arith))

-- The test of a bit by a mask.
pub to_bool-one_hot : (x k : ℕ) → to_bool (bit_and x (1 <<< k)) ≡ bit x k
to_bool-one_hot x k = ground (arith, one_hot_and x k, one-le-pow k 2)

-- ===== src/Integer/Alu.antt =====
-- The shifts, the comparisons and the conditional moves, described by bits and by the order of the integers.
use mpact_riscv.Common.{
  ℕ, zero, suc, ◌+◌, ◌-◌, ◌/◌, ◌%◌, ◌^◌, ◌≤◌, ◌<◌, ◌≡◌, ap, ◌∙◌, arith, ◌&&◌, not, ltb, leb, ◌==◌,
  Bool-cases, inl, inr, if◌then◌else◌,
}
use native.Mathlib.Nat.{one-le-pow, pow-suc, mod-eq_of_lt, mod-add-div', div-le_self}
use mpact_riscv.Muldiv.Signed.{mod_unique}
use mpact_riscv.Bits.{bit, bit-zero, bit-shl, bit-shr, bit-mod}
use mpact_riscv.Words.{IsWord, of_bool, ◌<<<◌}
use mpact_riscv.Words.Laws.{bit-above}
use mpact_riscv.Muldiv.{negative}
use mpact_riscv.Muldiv.Widen.{negative_lem}
use mpact_riscv.Bitmanip.{signed_ltb}
use mpact_riscv.Bitmanip.Bitwise.{amount_lem}
use mpact_riscv.Integer.{add, sub, slt, sltu, sll, srl, sra, shift_signed, czero_eqz, czero_nez}

-- A complement taken from the numbers of `w` bits.
bit-flipped : (w x i : ℕ) → IsWord w x → bit (2 ^ w - 1 - x) i ≡ (ltb i w && not (bit x i))
unfolding bit
bit-flipped zero x i word =
    let none_left : 2 ^ 0 - 1 - x ≡ 0 = omega arith in rw (none_left, bit-zero i) (ground arith)
bit-flipped (suc n) x zero word = ground (arith, pow-suc 2 n)
bit-flipped (suc n) x (suc i) word =
    let halved : (2 ^ suc n - 1 - x) / 2 ≡ 2 ^ n - 1 - x / 2 = omega (arith, pow-suc 2 n) in
    rw halved (bit-flipped n (x / 2) i (omega (arith, word, pow-suc 2 n)) ∙ ground arith)

bit-shift_signed :
    (w a s i : ℕ)
    → 0 < w
    → IsWord w a
    → bit (shift_signed w a s) i ≡ (ltb i w && bit a (if ltb (i + s) w then i + s else w - 1))
bit-shift_signed w a s i wide word =
    let flipped = 2 ^ w - 1 - a in
    let small = div-le_self flipped (2 ^ s) in
    ground (
      arith,
      negative_lem w a wide word,
      bit-flipped w (flipped / 2 ^ s) i (omega (arith, small, word)),
      bit-shr s flipped i,
      bit-flipped w a (i + s) word,
      bit-shr s a i,
      bit-above w a (i + s) word,
    )

-- The shifts of a word of 2 ^ k bits, bit by bit: zeros come in from below and from above, and copies of
-- the top bit for a signed word.
pub bit-shifts :
    (k a b i : ℕ)
    → IsWord (2 ^ k) a
    → let w = 2 ^ k in
      let s = b % 2 ^ k in
      (bit (sll w a b) i ≡ (ltb i w && leb s i && bit a (i - s)))
      × (bit (srl w a b) i ≡ bit a (i + s))
      × (bit (sra w a b) i ≡ (ltb i w && bit a (if ltb (i + s) w then i + s else w - 1)))
unfolding sll srl sra
bit-shifts k a b i word = rw amount_lem (
  bit-mod (2 ^ k) (a <<< (b % 2 ^ k)) i
      ∙ ap (λ c. ltb i (2 ^ k) && c) (bit-shl (b % 2 ^ k) a i)
      ∙ ground arith,
  bit-shr (b % 2 ^ k) a i,
  bit-shift_signed (2 ^ k) a (b % 2 ^ k) i (one-le-pow k 2 (omega arith)) word,
)

doubled_half : (w : ℕ) → 0 < w → 2 ^ (w - 1) + 2 ^ (w - 1) ≡ 2 ^ w
doubled_half zero wide = absurd (omega arith)
doubled_half (suc n) wide =
    let one_less : suc n - 1 ≡ n = omega arith in
    ap (λ k. 2 ^ k + 2 ^ k) one_less ∙ omega (arith, pow-suc 2 n)

-- Half of the range exchanges the two halves.
add_half :
    (w x : ℕ)
    → 0 < w
    → IsWord w x
    → add w x (2 ^ (w - 1)) ≡ (if negative w x then x - 2 ^ (w - 1) else x + 2 ^ (w - 1))
unfolding add
add_half w x wide word = ground (arith, doubled_half w wide, low, high)
  where
    low : x < 2 ^ (w - 1) → (x + 2 ^ (w - 1)) % 2 ^ w ≡ x + 2 ^ (w - 1)
    low h = mod-eq_of_lt (omega (arith, doubled_half w wide, h))

    high : 2 ^ (w - 1) ≤ x → (x + 2 ^ (w - 1)) % 2 ^ w ≡ x - 2 ^ (w - 1)
    high h =
        mod_unique (2 ^ w) (x + 2 ^ (w - 1)) (x - 2 ^ (w - 1)) 0 1
          (omega (arith, doubled_half w wide, h)) (omega (arith, word))

sub-add : (w a b : ℕ) → IsWord w a → IsWord w b → sub w (add w a b) b ≡ a
unfolding sub add
sub-add w a b a_word b_word =
    mod_unique (2 ^ w) _ a ((a + b) / 2 ^ w) 1 (omega (arith, mod-add-div' (a + b) (2 ^ w), b_word))
      a_word

-- The signed comparison of words is the unsigned one after half of the range is added to both, and a
-- subtraction undoes an addition.
pub slt-sltu :
    (w a b : ℕ)
    → 0 < w
    → IsWord w a
    → IsWord w b
    → (slt w a b ≡ sltu (add w a (2 ^ (w - 1))) (add w b (2 ^ (w - 1)))) × (sub w (add w a b) b ≡ a)
unfolding slt sltu signed_ltb
slt-sltu w a b wide a_word b_word = (
  ap of_bool
      (ground (arith, add_half w a wide a_word, add_half w b wide b_word, doubled_half w wide)),
  sub-add w a b a_word b_word,
)

-- The sum of a value that is kept on a condition and one that is kept without it selects one of them.
add-czero :
    (w a b c : ℕ)
    → IsWord w a
    → IsWord w b
    → add w (czero_nez a c) (czero_eqz b c) ≡ (if c == 0 then a else b)
unfolding add czero_nez czero_eqz
add-czero w a b c a_word b_word = elim (Bool-cases (c == 0)) [
  | inl e ↦ ground (arith, e, mod-eq_of_lt a_word)
  | inr e ↦ ground (arith, e, mod-eq_of_lt b_word)
]

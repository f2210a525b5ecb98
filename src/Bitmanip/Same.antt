-- ===== src/Bitmanip/Same.antt =====
-- The instructions that the two files of RV64 both implement.
use mpact_riscv.Common.{
  ℕ, zero, suc, ◌+◌, ◌-◌, ◌*◌, ◌%◌, ◌^◌, ◌<◌, ◌≡◌, refl, sym, ap, ◌∙◌, arith, ◌==◌, if◌then◌else◌,
  bit_or, bit_and,
}
use native.Mathlib.Nat.{mod-lt, mod-eq_of_lt, one-le-pow}
use mpact_riscv.Bits.{
  bit, bit_ext, bit-bit_and, bit-bit_or, bit-bit_xor, bit-mod, bit-shl, bit-ones,
}
use mpact_riscv.Words.{IsWord, to_bool, u32, u64, ◌<<<◌, ◌>>>◌}
use mpact_riscv.Words.Laws.{bit-above, bit-complement, bit_or-shl, to_bool-one_hot}
use mpact_riscv.Words.Halves.{bit_and-ones}
use mpact_riscv.Muldiv.{negative, widen}
use mpact_riscv.Bitmanip.{
  sh_add, sh_add_uw, add_uw, slli_uw, xnor, sext_b, sext_h, zext_h, rol, ror, rolw, rorw, orcb,
  orcb_loop, rev8,
}
use mpact_riscv.Bitmanip.Rev8.{rev8_same}
use mpact_riscv.Bitmanip.Basic
use mpact_riscv.Bitmanip.Bitwise.{amount-lt}
use mpact_riscv.Bitmanip.Rotate.{rol-IsWord, ror-IsWord}

-- A word of `k` bits is negative when its last bit is set.
negative-byte : (a : ℕ) → negative 8 (a % 2 ^ 8) ≡ bit a 7
unfolding bit
negative-byte a = ground arith

negative-half : (a : ℕ) → negative 16 (a % 2 ^ 16) ≡ bit a 15
unfolding bit
negative-half a = ground arith

negative-word : (a : ℕ) → negative 32 (a % 2 ^ 32) ≡ bit a 31
unfolding bit
negative-word a = ground arith

bit_and_comm : (a b : ℕ) → bit_and a b ≡ bit_and b a
bit_and_comm a b = bit_ext _ _ (λ i. bit-bit_and a b i ∙ ground arith ∙ sym (bit-bit_and b a i))

flipped_test : (a k : ℕ) → to_bool (bit_and (1 <<< k) a) ≡ bit a k
flipped_test a k = ap to_bool (bit_and_comm (1 <<< k) a) ∙ to_bool-one_hot a k

-- Filling a word with ones from bit `k` on is an addition to its low `k` bits.
fill_high :
    (k d a : ℕ)
    → IsWord (k + d) a
    → bit_or a ((2 ^ d - 1) * 2 ^ k) ≡ a % 2 ^ k + (2 ^ d - 1) * 2 ^ k
fill_high k d a word =
    bit_ext _ (bit_or ((2 ^ d - 1) * 2 ^ k) (a % 2 ^ k)) (λ i.
      rw (bit-bit_or, bit-bit_or, bit-shl k (2 ^ d - 1) i, bit-ones, bit-mod)
        (ground (arith, bit-above (k + d) a i word)))
    ∙ bit_or-shl k (2 ^ d - 1) (a % 2 ^ k) (mod-lt a {m = 2 ^ k} (one-le-pow k 2 (omega arith)))
    ∙ omega arith

sexth-sext_h : (a : ℕ) → IsWord 64 a → Basic.sexth a ≡ sext_h 64 a
unfolding Basic.sexth sext_h
sexth-sext_h a word =
    rw (flipped_test a 15, negative-half a, bit_and-ones 16 a)
      (ap (λ x. if bit a 15 then x else a % 2 ^ 16) (fill_high 16 48 a word))

sextb-sext_b : (a : ℕ) → IsWord 64 a → Basic.sextb a ≡ sext_b 64 a
unfolding Basic.sextb sext_b
sextb-sext_b a word =
    rw (flipped_test a 7, negative-byte a, bit_and-ones 8 a)
      (ap (λ x. if bit a 7 then x else a % 2 ^ 8) (fill_high 8 56 a word))

sign_extended_value-widen : (v : ℕ) → IsWord 32 v → Basic.sign_extended_value v ≡ widen 32 64 v
unfolding Basic.sign_extended_value
sign_extended_value-widen v word =
    let cut : v % 2 ^ 32 ≡ v = mod-eq_of_lt word in
    let signed : negative 32 v ≡ bit v 31 = ap (negative 32) (sym cut) ∙ negative-word v in
    rw (to_bool-one_hot v 31, signed)
      (ap (λ x. if bit v 31 then x else v)
        (fill_high 32 32 v (omega arith) ∙ ap (λ x. x + (2 ^ 32 - 1) * 2 ^ 32) cut))

-- The two loops of orc.b have the same masks.
next_mask : (i : ℕ) → (u64 (0xff <<< (8 * i)) <<< 8) % 2 ^ 64 ≡ u64 (0xff <<< (8 * (i + 1)))
next_mask i = bit_ext _ _ λ j.
    rw
      (
        bit-mod 64 (u64 (0xff <<< (8 * i)) <<< 8) j,
        bit-shl 8 (u64 (0xff <<< (8 * i))) j,
        bit-mod 64 (0xff <<< (8 * i)) (j - 8),
        bit-mod 64 (0xff <<< (8 * (i + 1))) j,
        bit-shl (8 * i) 0xff (j - 8),
        bit-shl (8 * (i + 1)) 0xff j,
      )
      (rw (bit-ones 8 (j - 8 - 8 * i), bit-ones 8 (j - 8 * (i + 1))) (ground arith))

orcb_from-orcb_loop :
    (n i a r : ℕ) → orcb_loop n 64 a (u64 (0xff <<< (8 * i))) r ≡ Basic.orcb_from n i a r
unfolding orcb_loop Basic.orcb_from
orcb_from-orcb_loop zero i a r = refl
orcb_from-orcb_loop (suc n) i a r = rw (next_mask i) (orcb_from-orcb_loop n (i + 1) a _)

xnor-complement : (a b : ℕ) → IsWord 64 a → Basic.xnor a b ≡ xnor 64 a b
unfolding Basic.xnor xnor
xnor-complement a b word = bit_ext _ _ λ i.
    rw (bit-bit_xor, bit-complement, bit-complement, bit-bit_xor)
      (ground (arith, bit-above 64 a i word))

-- The library's rotations of words of `w` bits.
pub record AreRotations (rotl rotr : ℕ → ℕ → ℕ → ℕ) : Type 0 where
  pub rotl_is :
      (w x s : ℕ)
      → IsWord w x
      → s < w
      → rotl w x s ≡ (if s == 0 then x else bit_or ((x <<< s) % 2 ^ w) (x >>> (w - s)))
  pub rotr_is :
      (w x s : ℕ)
      → IsWord w x
      → s < w
      → rotr w x s ≡ (if s == 0 then x else bit_or (x >>> s) ((x <<< (w - s)) % 2 ^ w))

-- Given rotations of words, the two implementations for 64 bits agree on every word `a` and every `b`:
-- the additions of a shifted operand, the exclusive or with a complement, the sign and zero extensions, the
-- four rotations, the combination of the bits of each byte and the reversal of the bytes. Those of 32 bits read the low half of `a`.
pub basic_same :
    (rotl rotr : ℕ → ℕ → ℕ → ℕ) (a b shift : ℕ)
    → AreRotations rotl rotr
    → IsWord 64 a
    → (Basic.sh_n_add shift a b ≡ sh_add 64 shift a b)
      × (Basic.sh_n_add_uw shift a b ≡ sh_add_uw shift a b)
      × (Basic.add_uw a b ≡ add_uw a b)
      × (Basic.slliuw a shift ≡ slli_uw a shift)
      × (Basic.xnor a b ≡ xnor 64 a b)
      × (Basic.sexth a ≡ sext_h 64 a)
      × (Basic.sextb a ≡ sext_b 64 a)
      × (Basic.zexth a ≡ zext_h a)
      × (Basic.rol rotl a b ≡ rol 64 a b)
      × (Basic.ror rotr a b ≡ ror 64 a b)
      × (Basic.rolw rotl a b ≡ rolw (u32 a) b)
      × (Basic.rorw rotr a b ≡ rorw (u32 a) b)
      × (Basic.orcb a ≡ orcb 8 a)
      × (Basic.rev8 a ≡ rev8 8 a)
unfolding Basic.sh_n_add sh_add Basic.sh_n_add_uw sh_add_uw Basic.add_uw add_uw Basic.slliuw slli_uw
    Basic.zexth zext_h Basic.rol rol Basic.ror ror Basic.rolw rolw Basic.rorw rorw Basic.orcb orcb
basic_same rotl rotr a b shift are word = (
  ap u64 (omega arith),
  ap u64 (omega arith),
  ap u64 (omega arith),
  refl,
  xnor-complement a b word,
  sexth-sext_h a word,
  sextb-sext_b a word,
  bit_and-ones 16 a,
  are.rotl_is 64 a (bit_and b 0x3f) word (amount-lt 6 b),
  are.rotr_is 64 a (bit_and b 0x3f) word (amount-lt 6 b),
  ap Basic.sign_extended_value (are.rotl_is 32 (u32 a) (bit_and b 0x1f) fits (amount-lt 5 b))
      ∙ sign_extended_value-widen (rol 32 (u32 a) b) (rol-IsWord 5 (u32 a) b fits),
  ap Basic.sign_extended_value (are.rotr_is 32 (u32 a) (bit_and b 0x1f) fits (amount-lt 5 b))
      ∙ sign_extended_value-widen (ror 32 (u32 a) b) (ror-IsWord 5 (u32 a) b fits),
  sym (orcb_from-orcb_loop 8 0 a 0),
  rev8_same a,
)
  where
    fits : IsWord 32 (u32 a)
    fits = mod-lt a {m = 2 ^ 32} (omega arith)

-- ===== src/Vector/Basic/Reverse.antt =====
-- The bits of a reversed element.
use mpact_riscv.Common.{
  ℕ, zero, suc, ◌-◌, ◌%◌, ◌^◌, ◌≤◌, ◌<◌, ◌≡◌, refl, ap, ◌∙◌, arith, true, false, ◌&&◌, ◌||◌, ltb,
  leb, if◌then◌else◌, bit_and, bit_or, Bool-cases, inl, inr,
}
use mpact_riscv.Words.{◌<<<◌, ◌>>>◌}
use mpact_riscv.Bits.{bit, bit-bit_or, bit-mod, bit-shl, bit-shr, bit-bit_and, bit-ones}
use mpact_riscv.Vector.Basic.{bit_reverse_loop, bit_reverse}

-- A step moves the bits of the result up and puts bit 0 of the input below them.
bit-step :
    (w input result i : ℕ)
    → bit (bit_or ((result <<< 1) % 2 ^ w) (bit_and input 1)) i
      ≡ ((ltb i w && (leb 1 i && bit result (i - 1))) || (bit input i && ltb i 1))
bit-step w input result i =
    let one : bit 1 i ≡ ltb i 1 = bit-ones 1 i in
    rw (bit-bit_or, bit-mod, bit-shl 1 result i, bit-bit_and, one) refl

bit-bit_reverse_loop :
    (n w input result i : ℕ)
    → n ≤ w
    → ltb i w ≡ true
    → bit (bit_reverse_loop n w input result) i
      ≡ (if ltb i n then bit input (n - 1 - i) else bit result (i - n))
unfolding bit_reverse_loop
bit-bit_reverse_loop zero w input result i fits inside =
    let never : ltb i 0 ≡ false = ground arith in
    let e : i - 0 ≡ i = omega arith in rw (never, e) refl
bit-bit_reverse_loop (suc n) w input result i fits inside =
    let next = bit_or ((result <<< 1) % 2 ^ w) (bit_and input 1) in
    let step = bit-bit_reverse_loop n w (input >>> 1) next i (omega (arith, fits)) inside in
    elim (Bool-cases (ltb i n)) [
      | inl low ↦
          let here : ltb i (suc n) ≡ true = ground (arith, low) in
          step ∙ rw (low, here) (bit-shr 1 input (n - 1 - i) ∙ ap (bit input) (ground (arith, low)))
      | inr high ↦
          step
          ∙ rw high (
              bit-step w input result (i - n) ∙ elim (Bool-cases (ltb n i)) [
                | inl above ↦
                    let here : ltb i (suc n) ≡ false = ground (arith, above) in
                    let e : i - n - 1 ≡ i - suc n = omega arith in
                    rw (here, e) (ground (arith, above, inside))
                | inr last ↦
                    let here : ltb i (suc n) ≡ true = ground (arith, last) in
                    let first : i - n ≡ 0 = ground (arith, last) in
                    let e : suc n - 1 - i ≡ 0 = ground (arith, last, high) in
                    rw (here, first, e) (ground arith)
              ])
    ]

bit-bit_reverse_once : (w a i : ℕ) → i < w → bit (bit_reverse w a) i ≡ bit a (w - 1 - i)
unfolding bit_reverse
bit-bit_reverse_once w a i inside =
    let low : ltb i w ≡ true = ground (arith, inside) in
    bit-bit_reverse_loop w w a 0 i (omega arith) low ∙ rw low refl

-- The reversal of a word of `w` bits moves bit `i` to the place that is as far from the other end, and so is
-- its own inverse.
pub bit-bit_reverse :
    (w a i : ℕ)
    → i < w
    → (bit (bit_reverse w a) i ≡ bit a (w - 1 - i))
      × (bit (bit_reverse w (bit_reverse w a)) i ≡ bit a i)
bit-bit_reverse w a i inside =
    let mirror : w - 1 - (w - 1 - i) ≡ i = omega (arith, inside) in
    (
      bit-bit_reverse_once w a i inside,
      bit-bit_reverse_once w (bit_reverse w a) i inside
          ∙ bit-bit_reverse_once w a (w - 1 - i) (omega (arith, inside))
          ∙ ap (bit a) mirror,
    )

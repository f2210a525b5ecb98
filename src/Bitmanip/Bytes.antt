-- ===== src/Bitmanip/Bytes.antt =====
-- The reversal of the bytes of a word, as the reversal of a list.
use mpact_riscv.Common.{
  ℕ, zero, suc, ◌+◌, ◌*◌, ◌/◌, ◌%◌, ◌^◌, ◌<◌, ◌≤◌, ◌≡◌, refl, ap, ap₂, subst, ◌∙◌, arith, List, [],
  ◌∷◌, bit_or, bit_and,
}
use mathlib.Core.List.{reverse, reverse_aux, reverse_aux-reverse_aux-nil}
use native.Mathlib.Nat.{mod-lt, mod-eq_of_lt, pow-le-pow_right}
use mpact_riscv.Words.{IsWord, ◌<<<◌}
use mpact_riscv.Words.Laws.{bit_or-shl}
use mpact_riscv.Words.Halves.{bit_and-ones}
use mpact_riscv.Muldiv.High.{pow_add}
use mpact_riscv.Bitmanip.{rev8, rev8_loop}

-- The bytes of a number, the lowest first, and the number of a list of bytes.
abbrev pub to_bytes : ℕ → ℕ → List ℕ
to_bytes zero a = []
to_bytes (suc n) a = a % 2 ^ 8 ∷ to_bytes n (a / 2 ^ 8)

abbrev pub from_bytes : List ℕ → ℕ
from_bytes [] = 0
from_bytes (b ∷ bs) = b + from_bytes bs * 2 ^ 8

-- A list of `n` bytes.
abbrev AreBytes : ℕ → List ℕ → Type 0
AreBytes zero [] = Unit
AreBytes zero (b ∷ bs) = ⊥
AreBytes (suc n) [] = ⊥
AreBytes (suc n) (b ∷ bs) = (b < 2 ^ 8) × AreBytes n bs

to_bytes-AreBytes : (n a : ℕ) → AreBytes n (to_bytes n a)
to_bytes-AreBytes zero a = tt
to_bytes-AreBytes (suc n) a = (mod-lt a {m = 2 ^ 8} (omega arith), to_bytes-AreBytes n (a / 2 ^ 8))

pub more_bytes : (n : ℕ) → 2 ^ (8 * suc n) ≡ 2 ^ (8 * n) * 2 ^ 8
more_bytes n = ap (λ t. 2 ^ t) (omega arith) ∙ pow_add (8 * n) 8

from_bytes-lt : (n : ℕ) (bs : List ℕ) → AreBytes n bs → from_bytes bs < 2 ^ (8 * n)
from_bytes-lt zero [] are = omega arith
from_bytes-lt zero (b ∷ bs) are = absurd are
from_bytes-lt (suc n) [] are = absurd are
from_bytes-lt (suc n) (b ∷ bs) are = omega (arith, are.0, from_bytes-lt n bs are.1, more_bytes n)

to_bytes-from_bytes : (n : ℕ) (bs : List ℕ) → AreBytes n bs → to_bytes n (from_bytes bs) ≡ bs
to_bytes-from_bytes zero [] are = refl
to_bytes-from_bytes zero (b ∷ bs) are = absurd are
to_bytes-from_bytes (suc n) [] are = absurd are
to_bytes-from_bytes (suc n) (b ∷ bs) are =
    ap₂ ◌∷◌ (omega (arith, are.0))
      (ap (to_bytes n) (omega (arith, are.0)) ∙ to_bytes-from_bytes n bs are.1)

from_bytes-to_bytes : (n a : ℕ) → IsWord (8 * n) a → from_bytes (to_bytes n a) ≡ a
from_bytes-to_bytes zero a word = omega (arith, word)
from_bytes-to_bytes (suc n) a word =
    omega (arith, from_bytes-to_bytes n (a / 2 ^ 8) (omega (arith, more_bytes n)))

reversed-AreBytes :
    (n k : ℕ) (bs cs : List ℕ)
    → AreBytes n bs
    → AreBytes k cs
    → AreBytes (n + k) (reverse_aux bs cs)
reversed-AreBytes zero k [] cs are more = subst (λ t. AreBytes t cs) (omega arith) more
reversed-AreBytes zero k (b ∷ bs) cs are more = absurd are
reversed-AreBytes (suc n) k [] cs are more = absurd are
reversed-AreBytes (suc n) k (b ∷ bs) cs are more =
    subst (λ t. AreBytes t (reverse_aux bs (b ∷ cs))) (omega arith)
      (reversed-AreBytes n (suc k) bs (b ∷ cs) are.1 (are.0, more))

-- A step of the loop puts a byte before those of the result.
pub step_result :
    (w k a r : ℕ)
    → r < 2 ^ (8 * k)
    → 8 * suc k ≤ w
    → bit_or ((r <<< 8) % 2 ^ w) (bit_and a 0xff) ≡ a % 2 ^ 8 + r * 2 ^ 8
step_result w k a r small fits =
    let wide : 2 ^ (8 * suc k) ≤ 2 ^ w = pow-le-pow_right {n = 2} (omega arith) fits in
    ap₂ bit_or (mod-eq_of_lt {m = 2 ^ w} (omega (arith, small, wide, more_bytes k)))
      (bit_and-ones 8 a)
    ∙ bit_or-shl 8 r (a % 2 ^ 8) (mod-lt a {m = 2 ^ 8} (omega arith))
    ∙ omega arith

rev8_loop_lem :
    (n k w a : ℕ) (bs : List ℕ)
    → AreBytes k bs
    → 8 * (k + n) ≤ w
    → rev8_loop n w a (from_bytes bs) ≡ from_bytes (reverse_aux (to_bytes n a) bs)
unfolding rev8_loop
rev8_loop_lem zero k w a bs are fits = refl
rev8_loop_lem (suc n) k w a bs are fits =
    ap (rev8_loop n w (a / 2 ^ 8))
      (step_result w k a (from_bytes bs) (from_bytes-lt k bs are) (omega (arith, fits)))
    ∙ rev8_loop_lem n (suc k) w (a / 2 ^ 8) (a % 2 ^ 8 ∷ bs)
        (mod-lt a {m = 2 ^ 8} (omega arith), are) (omega (arith, fits))

rev8_lem : (n a : ℕ) → rev8 n a ≡ from_bytes (reverse (to_bytes n a))
unfolding rev8
rev8_lem n a = rev8_loop_lem n 0 (n <<< 3) a [] tt (omega arith)

reverse-AreBytes : (n a : ℕ) → AreBytes n (reverse (to_bytes n a))
reverse-AreBytes n a =
    subst (λ t. AreBytes t (reverse (to_bytes n a))) (omega arith)
      (reversed-AreBytes n 0 (to_bytes n a) [] (to_bytes-AreBytes n a) tt)

-- The bytes of the result are those of the operand in reverse, for every number of bytes; and a second
-- reversal gives back a word of that many bytes.
pub to_bytes-rev8 :
    (n a : ℕ)
    → IsWord (8 * n) a
    → (to_bytes n (rev8 n a) ≡ reverse (to_bytes n a)) × (rev8 n (rev8 n a) ≡ a)
to_bytes-rev8 n a word = (
  bytes,
  rev8_lem n (rev8 n a)
      ∙ ap (λ bs. from_bytes (reverse bs)) bytes
      ∙ ap from_bytes (reverse_aux-reverse_aux-nil (to_bytes n a) [])
      ∙ from_bytes-to_bytes n a word,
)
  where
    bytes : to_bytes n (rev8 n a) ≡ reverse (to_bytes n a)
    bytes =
        ap (to_bytes n) (rev8_lem n a)
        ∙ to_bytes-from_bytes n (reverse (to_bytes n a)) (reverse-AreBytes n a)

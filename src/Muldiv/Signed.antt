-- ===== src/Muldiv/Signed.antt =====
-- Products of words with their signs.
use mpact_riscv.Common.{ℕ, ◌+◌, ◌*◌, ◌/◌, ◌%◌, ◌<◌, ◌≡◌, arith, ap, sym, ◌∙◌}
use native.Mathlib.Nat.{mod-add-div', add-mul-mod_self_right, mod-eq_of_lt}

-- Numbers that multiples of `n` separate have the same remainder.
pub mod_same : (n x y j k : ℕ) → x + j * n ≡ y + k * n → x % n ≡ y % n
mod_same n x y j k e =
    sym (add-mul-mod_self_right x j n) ∙ ap (λ t. t % n) e ∙ add-mul-mod_self_right y k n

pub mod_unique : (n x a j k : ℕ) → x + j * n ≡ a + k * n → a < n → x % n ≡ a
mod_unique n x a j k e small = mod_same n x a j k e ∙ mod-eq_of_lt small

-- The remainders of the parts may be taken first.
pub mod_parts : (n x b y : ℕ) → (x % n * b + y % n) % n ≡ (x * b + y) % n
mod_parts n x b y =
    mod_same n _ _ (x / n * b + y / n) 0
      (omega (arith, ap (λ (t : ℕ). t * b) (mod-add-div' x n), mod-add-div' y n))

-- Products of words with a sign each, where `q'` is `n - q` and so on, and `a` is `q * m + r`.
module _ (n q q' m m' r r' a a' : ℕ) (q_is : q' + q ≡ n) (m_is : m' + m ≡ n) (r_is : r' + r ≡ n)
    (a_is : a' + a ≡ n) (whole : a ≡ q * m + r) where
  pub minus_plus : a' < n → (q' * m + r') % n ≡ a'
  minus_plus small = mod_unique n _ _ 0 m (omega (arith, ap (λ (t : ℕ). t * m) q_is)) small

  pub plus_minus : a < n → (q' * m' + r) % n ≡ a
  plus_minus small =
      mod_unique n _ _ (m + q) n
        (omega (
          arith,
          ap (λ (t : ℕ). t * m') q_is,
          ap (λ (t : ℕ). q * t) m_is,
          ap (λ (t : ℕ). n * t) m_is,
        ))
        small

  pub minus_minus : a' < n → (q * m' + r') % n ≡ a'
  minus_minus small = mod_unique n _ _ 0 q (omega (arith, ap (λ (t : ℕ). q * t) m_is)) small

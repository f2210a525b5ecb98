-- ===== src/Words.antt =====
-- Unsigned machine words as native numbers: the casts, the shifts and the complement of C++.
pub mod Laws
pub mod Halves
use mpact_riscv.Common.{ℕ, ◌-◌, ◌*◌, ◌/◌, ◌%◌, ◌^◌, ◌<◌, Bool, true, false, ◌/=◌, bit_and, bit_xor}

abbrev pub u8 : ℕ → ℕ
u8 n = n % 2 ^ 8

abbrev pub u16 : ℕ → ℕ
u16 n = n % 2 ^ 16

abbrev pub u32 : ℕ → ℕ
u32 n = n % 2 ^ 32

abbrev pub u64 : ℕ → ℕ
u64 n = n % 2 ^ 64

infixl 72 ◌<<<◌ ◌>>>◌
-- The shift before the cast that cuts it off.
abbrev pub ◌<<<◌ : ℕ → ℕ → ℕ
x <<< k = x * 2 ^ k

abbrev pub ◌>>>◌ : ℕ → ℕ → ℕ
x >>> k = x / 2 ^ k

-- `~x` of a word of `w` bits.
unfoldable pub complement : ℕ → ℕ → ℕ
complement w x = bit_xor (x % 2 ^ w) (2 ^ w - 1)

-- A word of `w` bits.
abbrev pub IsWord : ℕ → ℕ → Type 0
IsWord w x = x < 2 ^ w

-- The conversion of a number to `bool`, and back.
abbrev pub to_bool : ℕ → Bool
to_bool n = n /= 0

abbrev pub of_bool : Bool → ℕ
of_bool true = 1
of_bool false = 0

-- `(x >> shift) & mask`, the getter of a field.
unfoldable pub field : ℕ → ℕ → ℕ → ℕ
field shift mask x = bit_and (x >>> shift) mask

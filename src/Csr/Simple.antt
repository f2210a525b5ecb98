-- ===== src/Csr/Simple.antt =====
-- RiscVSimpleCsr<T> of riscv/riscv_csr.h, for T of `width` bits (32 or 64), and the three data buffer
-- destinations of riscv/riscv_csr.cc. An overload on uint32_t ends in 32, one on uint64_t in 64.
-- Subclasses that override a method have modules of their own.
pub mod Laws
use mpact_riscv.Common.{ℕ, ◌-◌, ◌%◌, ◌^◌, ◌≡◌, ◌⊎◌, bit_and, bit_or, Option, none, some}
use mpact_riscv.Common.{◌==◌, if◌then◌else◌}
use mpact_riscv.Words.{u32, complement, IsWord}

pub record SimpleCsr : Type 0 where
  pub width : ℕ
  pub value : ℕ
  pub read_mask : ℕ
  pub write_mask : ℕ

-- `std::numeric_limits<T>::max()` for unsigned T.
abbrev pub word_max : ℕ → ℕ
word_max w = 2 ^ w - 1

-- The constructors: with masks, and with masks of ones.
unfoldable pub make : ℕ → ℕ → ℕ → ℕ → SimpleCsr
make w initial rmask wmask = record {
  width = w;
  value = initial;
  read_mask = rmask;
  write_mask = wmask;
}

unfoldable pub make_plain : ℕ → ℕ → SimpleCsr
unfolding make
make_plain w initial = make w initial (word_max w) (word_max w)

unfoldable pub get_uint32 : SimpleCsr → ℕ
get_uint32 c = u32 c.value

unfoldable pub get_uint64 : SimpleCsr → ℕ
get_uint64 c = c.value

unfoldable pub as_uint32 : SimpleCsr → ℕ
as_uint32 c = u32 (bit_and (get_uint32 c) c.read_mask)

unfoldable pub as_uint64 : SimpleCsr → ℕ
as_uint64 c = bit_and (get_uint64 c) c.read_mask

-- Both overloads cast to T.
unfoldable pub set : SimpleCsr → ℕ → SimpleCsr
set c v = record c { value = v % 2 ^ c.width }

unfoldable pub write32 : SimpleCsr → ℕ → SimpleCsr
write32 c v =
    let t_value = v % 2 ^ c.width in
    set c (
      bit_or (bit_and t_value c.write_mask)
        (bit_and (get_uint32 c) (complement c.width c.write_mask)))

unfoldable pub write64 : SimpleCsr → ℕ → SimpleCsr
write64 c v =
    let t_value = v % 2 ^ c.width in
    set c (
      bit_or (bit_and t_value c.write_mask)
        (bit_and (get_uint64 c) (complement c.width c.write_mask)))

unfoldable pub set_bits32 : SimpleCsr → ℕ → SimpleCsr
set_bits32 c v = write32 c (bit_or (get_uint32 c) v)

unfoldable pub set_bits64 : SimpleCsr → ℕ → SimpleCsr
set_bits64 c v = write64 c (bit_or (get_uint64 c) v)

unfoldable pub clear_bits32 : SimpleCsr → ℕ → SimpleCsr
clear_bits32 c v = write32 c (bit_and (get_uint32 c) (complement 32 v))

unfoldable pub clear_bits64 : SimpleCsr → ℕ → SimpleCsr
clear_bits64 c v = write64 c (bit_and (get_uint64 c) (complement 64 v))

unfoldable pub reset : SimpleCsr → SimpleCsr
reset c = set c 0

-- What an instruction does to a register through a data buffer of `size` bytes. A buffer of another
-- size than 4 or 8 is logged and changes nothing.
pub data Access : Type 0 where
  write set_bits clear_bits : Access

unfoldable pub access32 : Access → SimpleCsr → ℕ → SimpleCsr
access32 write c v = write32 c v
access32 set_bits c v = set_bits32 c v
access32 clear_bits c v = clear_bits32 c v

unfoldable pub access64 : Access → SimpleCsr → ℕ → SimpleCsr
access64 write c v = write64 c v
access64 set_bits c v = set_bits64 c v
access64 clear_bits c v = clear_bits64 c v

unfoldable pub set_data_buffer : Access → SimpleCsr → ℕ → ℕ → SimpleCsr
set_data_buffer a c size v =
    if size == 4 then access32 a c (u32 v) else if size == 8 then access64 a c v else c

-- The value and the masks fit the register.
pub record IsValid (c : SimpleCsr) : Type 0 where
  pub is_xlen : (c.width ≡ 32) ⊎ (c.width ≡ 64)
  pub value_fits : IsWord c.width c.value
  pub read_fits : IsWord c.width c.read_mask
  pub write_fits : IsWord c.width c.write_mask

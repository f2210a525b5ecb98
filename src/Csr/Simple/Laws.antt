-- ===== src/Csr/Simple/Laws.antt =====
-- What the masks of a register promise, bit by bit.
use native.Mathlib.Nat.{mod-lt, one-le-pow}
use mpact_riscv.Common.{
  ◌∙◌, ℕ, ◌^◌, ◌≡◌, refl, arith, Bool, false, ◌&&◌, ◌||◌, not, if◌then◌else◌, ltb, bit_and, bit_or,
  List, [], ◌∷◌,
}
use mpact_riscv.Bits.{bit, bit-bit_and, bit_laws}
use mpact_riscv.Words.{complement, IsWord}
use mpact_riscv.Words.Laws.{bit-complement, bit-above}
use mpact_riscv.Csr.Simple.{
  u32, clear_bits32, get_uint32, set_bits32, access32, as_uint64, write32, SimpleCsr, IsValid,
  Access, write, set_bits, clear_bits, write64, set_bits64, clear_bits64, access64, set, get_uint64,
}

-- The new bit of an access, from the old bit and the operand's.
abbrev pub accessed : Access → Bool → Bool → Bool
accessed write old new = new
accessed set_bits old new = old || new
accessed clear_bits old new = old && not new

module _ (c : SimpleCsr) (v i : ℕ) (h : IsValid c) where
  pub bit-write64 :
      bit (write64 c v).value i ≡ (if bit c.write_mask i then bit v i else bit c.value i)
  unfolding write64 set get_uint64
  bit-write64 =
      simp (bit_laws, bit-complement)
        (ground (
          arith,
          bit-above c.width c.write_mask i h.write_fits,
          bit-above c.width c.value i h.value_fits,
        ))

  pub bit-write32 :
      bit (write32 c v).value i
      ≡ (if bit c.write_mask i then bit v i else bit c.value i && ltb i 32)
  unfolding write32 set get_uint32
  bit-write32 =
      simp (bit_laws, bit-complement)
        (ground (
          arith,
          bit-above c.width c.write_mask i h.write_fits,
          bit-above c.width c.value i h.value_fits,
        ))

module _ (c : SimpleCsr) (v i : ℕ) (h : IsValid c) where
  -- An eight-byte write, set or clear of a well-formed register changes the bits of the write mask
  -- as the access says, and no others.
  pub bit-access64 :
      (a : Access)
      → bit (access64 a c v).value i
        ≡ (if bit c.write_mask i then accessed a (bit c.value i) (bit v i) else bit c.value i)
  unfolding access64 set_bits64 clear_bits64 get_uint64
  bit-access64 write = bit-write64 c v i h
  bit-access64 set_bits = rw (bit-write64 c (bit_or c.value v) i h) (simp bit_laws)
  bit-access64 clear_bits =
      rw (bit-write64 c (bit_and c.value (complement 64 v)) i h)
        (simp (bit_laws, bit-complement) (ground (arith, bit-above c.width c.value i h.value_fits)))

  -- A four-byte write, set or clear of a well-formed register changes the bits of the write mask as
  -- the access says of the low half of the register; the others are those of the low half, so what
  -- lies above is lost.
  pub bit-access32 :
      (a : Access)
      → IsWord 32 v
      → bit (access32 a c v).value i ≡ (
          if bit c.write_mask i
          then accessed a (bit c.value i && ltb i 32) (bit v i)
          else bit c.value i && ltb i 32)
  unfolding access32 set_bits32 clear_bits32 get_uint32
  bit-access32 write fits = bit-write32 c v i h
  bit-access32 set_bits fits =
      rw (bit-write32 c (bit_or (u32 c.value) v) i h) (simp bit_laws (ground arith))
  bit-access32 clear_bits fits =
      rw (bit-write32 c (bit_and (u32 c.value) (complement 32 v)) i h)
        (simp (bit_laws, bit-complement) (ground arith))

-- An access keeps the register well formed, its width and its masks.
pub set-IsValid : (c : SimpleCsr) (v : ℕ) → IsValid c → IsValid (set c v)
unfolding set
set-IsValid c v h = record {
  is_xlen = h.is_xlen;
  value_fits = mod-lt v {m = 2 ^ c.width} (one-le-pow c.width 2 (omega arith));
  read_fits = h.read_fits;
  write_fits = h.write_fits;
}

pub access64-IsValid : (a : Access) (c : SimpleCsr) (v : ℕ) → IsValid c → IsValid (access64 a c v)
unfolding access64 write64 set_bits64 clear_bits64
access64-IsValid write c v h = set-IsValid c _ h
access64-IsValid set_bits c v h = set-IsValid c _ h
access64-IsValid clear_bits c v h = set-IsValid c _ h

pub access64-write_mask :
    (a : Access) (c : SimpleCsr) (v : ℕ) → (access64 a c v).write_mask ≡ c.write_mask
unfolding access64 write64 set_bits64 clear_bits64 set
access64-write_mask write c v = refl
access64-write_mask set_bits c v = refl
access64-write_mask clear_bits c v = refl

-- Any sequence of full-width accesses.
unfoldable pub run : SimpleCsr → List (Access × ℕ) → SimpleCsr
run c [] = c
run c ((a, v) ∷ rest) = run (access64 a c v) rest

-- No sequence of eight-byte writes, sets and clears of a well-formed register changes a bit outside
-- its write mask.
pub run-read_only :
    (c : SimpleCsr) (i : ℕ) (accesses : List (Access × ℕ))
    → IsValid c
    → bit c.write_mask i ≡ false
    → bit (run c accesses).value i ≡ bit c.value i
unfolding run
run-read_only c i [] h masked = refl
run-read_only c i ((a, v) ∷ rest) h masked =
    run-read_only (access64 a c v) i rest (access64-IsValid a c v h)
      (rw (access64-write_mask a c v) masked)
    ∙ rw (bit-access64 c v i h a, masked)

write64-read_mask : (c : SimpleCsr) (v : ℕ) → (write64 c v).read_mask ≡ c.read_mask
unfolding write64 set
write64-read_mask c v = refl

-- A well-formed register, read after an eight-byte write, has the new bits where it is writable and
-- the old ones elsewhere, as far as they are readable.
pub bit-as_uint64-write64 :
    (c : SimpleCsr) (v i : ℕ)
    → IsValid c
    → bit (as_uint64 (write64 c v)) i
      ≡ (bit c.read_mask i && (if bit c.write_mask i then bit v i else bit c.value i))
unfolding as_uint64 get_uint64
bit-as_uint64-write64 c v i h =
    rw (bit-bit_and, bit-write64 c v i h) (ground (arith, write64-read_mask c v))

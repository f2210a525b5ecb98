-- ===== src/Hart/Substatus/Bits.antt =====
-- The views of mstatus change the bits of their mask and no other.
use mpact_riscv.Common.{ℕ, ◌<◌, ◌≡◌, ap, ◌∙◌, arith, true, if◌then◌else◌, bit_and, bit_or}
use mpact_riscv.Bits.{bit, bit-bit_and, bit-bit_or, bit-mod, bit-shl, bit-ones}
use mpact_riscv.Words.{IsWord, complement, ◌>>>◌}
use mpact_riscv.Words.Laws.{bit-above, bit-complement}
use mpact_riscv.Csr.Simple.{Access, write, set_bits, clear_bits}
use mpact_riscv.Csr.Simple.Laws.{accessed}
use mpact_riscv.Hart.Defs.{Hart}
use mpact_riscv.Hart.Misa.{stretch32, compress64}
use mpact_riscv.Hart.Status.{mstatus_set64}
use mpact_riscv.Hart.Status.Fields.{mstatus_set64_frame}
use mpact_riscv.Hart.Substatus.{
  view_get_uint32, view_get_uint64, view_set64, view_set32, view_write32, view_set_bits32,
  view_clear_bits32, view_write64, view_set_bits64, view_clear_bits64, view_access32, view_access64,
}

-- The two layouts agree below bit 26.
bit-stretch32 : (v i : ℕ) → i < 26 → bit (stretch32 v) i ≡ bit v i
unfolding stretch32
bit-stretch32 v i low =
    rw
      (bit-bit_or, bit-shl 32 (bit_and v 0xc000_0000) i, bit-bit_and v 0x03ff_ffff i, bit-ones 26 i)
      (ground (arith, low))

bit-compress64 : (v i : ℕ) → i < 26 → bit (compress64 v) i ≡ bit v i
unfolding compress64
bit-compress64 v i low =
    rw
      (
        bit-mod 32 _ i,
        bit-bit_or,
        bit-bit_and (v >>> 32) 0xc000_0000 i,
        bit-shl 30 3 i,
        bit-bit_and v 0x3fff_ffff i,
        bit-ones 30 i,
      )
      (ground (arith, low))

value-mstatus_set64 : (v : ℕ) (h : Hart) → (mstatus_set64 v h).mstatus.value ≡ v
value-mstatus_set64 v h = ap (λ r. r.mstatus.value) (mstatus_set64_frame v h)

module _ (mask : ℕ) (small : IsWord 26 mask) (h : Hart) (word : IsWord 64 h.mstatus.value)
    (i : ℕ) where
  bit-view_set64 :
      (v : ℕ)
      → bit (view_set64 mask v h).mstatus.value i
        ≡ (if bit mask i then bit v i else bit h.mstatus.value i)
  unfolding view_set64
  bit-view_set64 v =
      ap (λ t. bit t i) (value-mstatus_set64 _ h)
      ∙ rw (bit-bit_or, bit-bit_and, bit-bit_and, bit-complement)
          (ground (arith, bit-above 64 h.mstatus.value i word, bit-above 26 mask i small))

  bit-view_set32 :
      (v : ℕ)
      → bit (view_set32 mask v h).mstatus.value i
        ≡ (if bit mask i then bit v i else bit h.mstatus.value i)
  unfolding view_set32
  bit-view_set32 v =
      bit-view_set64 (stretch32 v) ∙ ground (arith, bit-above 26 mask i small, bit-stretch32 v i)

  bit-view_write64 :
      (v : ℕ)
      → bit (view_write64 mask v h).mstatus.value i
        ≡ (if bit mask i then bit v i else bit h.mstatus.value i)
  unfolding view_write64 view_get_uint64
  bit-view_write64 v =
      bit-view_set64 _
      ∙ rw (bit-bit_or, bit-bit_and v mask i, bit-bit_and, bit-complement) (ground arith)

  low : bit mask i ≡ true → i < 26
  low set = ground (arith, set, bit-above 26 mask i small)

  -- A write, a setting and a clearing of bits through a view, with 4 bytes or with 8, do to each bit of
  -- mstatus in the mask of the view, which lies in the low 26 bits, what the access does to a bit, and
  -- change no other bit.
  pub bit-view_access :
      (op : Access) (v : ℕ)
      → let expected =
          if bit mask i
          then accessed op (bit h.mstatus.value i) (bit v i)
          else bit h.mstatus.value i in
        (bit (view_access32 mask op v h).mstatus.value i ≡ expected)
        × (bit (view_access64 mask op v h).mstatus.value i ≡ expected)
  unfolding view_access32 view_access64 view_write32 view_set_bits32 view_clear_bits32 view_write64
      view_set_bits64 view_clear_bits64 view_get_uint32 view_get_uint64
  bit-view_access write v = (
    bit-view_set32 (bit_and v (compress64 mask))
        ∙ ground (arith, low, bit-bit_and v (compress64 mask) i, bit-compress64 mask i),
    bit-view_write64 v,
  )
  bit-view_access set_bits v =
      let old = h.mstatus.value in
      let masked = bit_and v (compress64 mask) in
      (
        bit-view_set32 (bit_or (compress64 old) masked)
            ∙ ground (
              arith,
              low,
              bit-bit_or (compress64 old) masked i,
              bit-bit_and v (compress64 mask) i,
              bit-compress64 mask i,
              bit-compress64 old i,
            ),
        bit-view_write64 (bit_or old v) ∙ ground (arith, bit-bit_or old v i),
      )
  bit-view_access clear_bits v =
      let old = h.mstatus.value in
      let masked = bit_and v (compress64 mask) in
      (
        bit-view_set32 (bit_and (compress64 old) (complement 32 masked))
            ∙ ground (
              arith,
              low,
              bit-bit_and (compress64 old) (complement 32 masked) i,
              bit-complement 32 masked i,
              bit-bit_and v (compress64 mask) i,
              bit-compress64 mask i,
              bit-compress64 old i,
            ),
        bit-view_write64 (bit_and old (complement 64 v))
            ∙ ground (arith, bit-bit_and old (complement 64 v) i, bit-complement 64 v i, low),
      )

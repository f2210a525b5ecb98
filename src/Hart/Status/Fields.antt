-- ===== src/Hart/Status/Fields.antt =====
-- The fields of mstatus as bits, and what the setters and Submit do to each bit.
use mpact_riscv.Common.{
  ◌+◌, ◌-◌, ◌≤◌, leb, Bool, false, refl, ◌^◌, ◌%◌, ℕ, ◌≡◌, arith, ◌&&◌, ◌||◌, not, ltb, ◌==◌,
  if◌then◌else◌, bit_and, bit_or, ap, ◌∙◌,
}
use mpact_riscv.Bits.{
  bit-mod, bit, bit_laws, bit_ext, bit-bit_and, bit-ones, bit-shr, bit-zero, bit-shl, bit-bit_or,
}
use mpact_riscv.Words.{◌>>>◌, u32, to_bool, field, complement}
use mpact_riscv.Words.Laws.{bit-of_bool, bit-complement, bit-above}
use mpact_riscv.Hart.Defs.{Hart, MStatus}
use mpact_riscv.Hart.Interrupt.{check_for_interrupt}
use mpact_riscv.Hart.Misa.{stretch32, compress64}
use mpact_riscv.Hart.Status.{
  setter, submit, mstatus_set64, mstatus_set32, mstatus_write32, mstatus_write_mask,
  set_mask_from_32,
}

pub bit-one : (i : ℕ) → bit 1 i ≡ (i == 0)
bit-one i = bit-ones 1 i ∙ ground arith

pub bit-three : (i : ℕ) → bit 3 i ≡ ltb i 2
bit-three i = bit-ones 2 i

pub to_bool-one_bit : (x : ℕ) → to_bool (bit_and x 1) ≡ bit x 0
unfolding bit
to_bool-one_bit x =
    let low : bit_and x 1 ≡ x % 2 ^ 1 =
      bit_ext _ _ (λ i. simp (bit-bit_and, bit-one, bit-mod) (ground arith)) in
    ground (arith, low)

-- A one-bit field is that bit.
pub to_bool-field : (s x : ℕ) → to_bool (field s 1 x) ≡ bit x s
unfolding field
to_bool-field s x = to_bool-one_bit (x >>> s) ∙ bit-shr s x 0 ∙ ap (bit x) (omega arith)

-- A check for interrupts changes the two fields that announce an interrupt.
pub check_for_interrupt_frame :
    (h : Hart)
    → check_for_interrupt h ≡ record h {
      is_interrupt_available = (check_for_interrupt h).is_interrupt_available;
      available_interrupt_code = (check_for_interrupt h).available_interrupt_code;
    }
unfolding check_for_interrupt
check_for_interrupt_frame h = ground arith

-- The fields sxl and uxl, which a write of 32 bits keeps.
abbrev pub xlen_fields : ℕ
xlen_fields = 0xf_0000_0000

-- A bit that Submit can keep: the others get 0.
abbrev pub is_kept : ℕ → Bool
is_kept i = bit mstatus_write_mask i || bit xlen_fields i

writable_below : (i : ℕ) → 26 ≤ i → bit mstatus_write_mask i ≡ false
writable_below i high = bit-above 26 mstatus_write_mask i (omega arith) high

bit-xlen_fields : (i : ℕ) → bit xlen_fields i ≡ (leb 32 i && ltb (i - 32) 4)
bit-xlen_fields i = bit-shl 32 15 i ∙ rw (bit-ones 4 (i - 32)) refl

-- mstatus after Submit: the bits within the write mask, with those of the buffer, and sxl and uxl.
abbrev pub submitted : MStatus → MStatus
submitted m =
    let new_value = bit_or (bit_and m.value (complement 64 m.buffer_mask)) m.buffer in
    record {
      value = bit_or (bit_and new_value mstatus_write_mask) (bit_and m.value xlen_fields);
      buffer = 0;
      buffer_mask = 0;
    }

pub mstatus_set64_frame :
    (v : ℕ) (h : Hart)
    → mstatus_set64 v h ≡ record h {
      mstatus = record (h.mstatus) { value = v };
      is_interrupt_available = (mstatus_set64 v h).is_interrupt_available;
      available_interrupt_code = (mstatus_set64 v h).available_interrupt_code;
    }
unfolding mstatus_set64
mstatus_set64_frame v h =
    ground
      (arith, check_for_interrupt_frame (record h { mstatus = record (h.mstatus) { value = v } }))

-- The writable bits have the same places in both layouts.
stretch32-writable :
    (v : ℕ) → stretch32 (bit_and v mstatus_write_mask) ≡ bit_and v mstatus_write_mask
unfolding stretch32
stretch32-writable v = bit_ext _ _ (λ i.
    rw
      (
        bit-bit_or,
        bit-shl 32 (bit_and (bit_and v mstatus_write_mask) 0xc000_0000) i,
        bit-bit_and (bit_and v mstatus_write_mask) 0xc000_0000 (i - 32),
        bit-shl 30 3 (i - 32),
        bit-bit_and (bit_and v mstatus_write_mask) 0x03ff_ffff i,
        bit-ones 26 i,
        bit-bit_and v mstatus_write_mask i,
        bit-bit_and v mstatus_write_mask (i - 32),
      )
      (ground (arith, writable_below i, writable_below (i - 32))))

masks :
    (compress64 mstatus_write_mask ≡ mstatus_write_mask)
    × (complement 64 set_mask_from_32 ≡ xlen_fields)
    × (set_mask_from_32 ≡ complement 64 xlen_fields)
unfolding compress64 complement
masks = (refl, refl, refl)

-- What a write of 32 bits stores.
written_lem :
    (new_value old : ℕ)
    → bit_or
        (bit_and
          (stretch32 (bit_and (u32 new_value) (compress64 mstatus_write_mask)))
          set_mask_from_32)
        (bit_and old (complement 64 set_mask_from_32))
      ≡ bit_or (bit_and new_value mstatus_write_mask) (bit_and old xlen_fields)
written_lem new_value old =
    ap
      (λ m.
        bit_or (bit_and (stretch32 (bit_and (u32 new_value) m)) set_mask_from_32)
          (bit_and old (complement 64 set_mask_from_32)))
      masks.0
    ∙ ap (λ t. bit_or (bit_and t set_mask_from_32) (bit_and old (complement 64 set_mask_from_32)))
        (stretch32-writable (u32 new_value))
    ∙ ap
        (λ m.
          bit_or (bit_and (bit_and (u32 new_value) mstatus_write_mask) set_mask_from_32)
            (bit_and old m))
        masks.1
    ∙ ap
        (λ m.
          bit_or (bit_and (bit_and (u32 new_value) mstatus_write_mask) m) (bit_and old xlen_fields))
        masks.2
    ∙ bit_ext _ _
        (λ i. simp (bit_laws, bit-complement) (ground (arith, writable_below i, bit-xlen_fields i)))

-- Submit changes mstatus and the two fields that announce an interrupt.
pub submit_frame :
    (h : Hart)
    → submit h ≡ record h {
      mstatus = submitted h.mstatus;
      is_interrupt_available = (submit h).is_interrupt_available;
      available_interrupt_code = (submit h).available_interrupt_code;
    }
unfolding submit mstatus_write32 mstatus_set32
submit_frame h =
    let m = h.mstatus in
    let new_value = bit_or (bit_and m.value (complement 64 m.buffer_mask)) m.buffer in
    rw (written_lem new_value m.value)
      (ground (arith, mstatus_set64_frame (submitted h.mstatus).value h))

-- A setter of one bit at `s`: its buffer and its mask.
module _ (s v : ℕ) (m : MStatus) (i : ℕ) where
  pub bit-buffer-setter_one :
      bit (setter s 1 v m).buffer i ≡ (if i == s then bit v 0 else bit m.buffer i && ltb i 64)
  unfolding setter
  bit-buffer-setter_one = simp (bit_laws, bit-complement, bit-one) (ground arith)

  pub bit-buffer_mask-setter_one :
      bit (setter s 1 v m).buffer_mask i ≡ (bit m.buffer_mask i || i == s)
  unfolding setter
  bit-buffer_mask-setter_one = simp (bit_laws, bit-one) (ground arith)

-- A setter of the two bits at `s` and above.
module _ (s v : ℕ) (m : MStatus) (i : ℕ) where
  pub bit-buffer-setter_two :
      bit (setter s 3 v m).buffer i
      ≡ (if i == s then bit v 0 else if i == s + 1 then bit v 1 else bit m.buffer i && ltb i 64)
  unfolding setter
  bit-buffer-setter_two = simp (bit_laws, bit-complement, bit-three) (ground arith)

  pub bit-buffer_mask-setter_two :
      bit (setter s 3 v m).buffer_mask i ≡ (bit m.buffer_mask i || (i == s || i == s + 1))
  unfolding setter
  bit-buffer_mask-setter_two = simp (bit_laws, bit-three) (ground arith)

pub value-setter : (s mask v : ℕ) (m : MStatus) → (setter s mask v m).value ≡ m.value
unfolding setter
value-setter s mask v m = refl

pub bit-submitted :
    (m : MStatus) (i : ℕ)
    → bit (submitted m).value i ≡ (
        if bit mstatus_write_mask i
        then bit m.buffer i || (bit m.value i && not (bit m.buffer_mask i))
        else bit m.value i && bit xlen_fields i)
bit-submitted m i =
    simp (bit_laws, bit-complement) (ground (arith, writable_below i, bit-xlen_fields i))

pub ruleset status_bits = (
  value-setter, bit-buffer-setter_one, bit-buffer-setter_two, bit-buffer_mask-setter_one,
  bit-buffer_mask-setter_two, bit-of_bool, bit-zero,
)

-- ===== src/Zicsr/Swap.antt =====
-- The instructions at a plain register of a hart.
use mpact_riscv.Common.{
  ℕ, ◌≡◌, ◌∙◌, refl, ap, ap₂, arith, Bool, true, ◌&&◌, if◌then◌else◌, Option, some,
}
use mpact_riscv.Bits.{bit, bit-bit_and}
use mpact_riscv.Csr.Simple.{
  SimpleCsr, IsValid, access64, write, get_uint64, as_uint64, write64, set_bits64, clear_bits64,
}
use mpact_riscv.Csr.Simple.Laws.{bit-write64, access64-IsValid, access64-write_mask}
use mpact_riscv.Hart.Defs.{Hart, Env, Regs}
use mpact_riscv.Zicsr.{
  CsrOps, Source, register, source_value, write_register, is_permitted, check_csr_permission,
  with_csr, access, csrrw,
}

-- A plain register of a hart, which the check of permissions and the integer registers do not depend on.
pub record Slot : Type 0 where
  pub get : Hart → SimpleCsr
  pub put : SimpleCsr → Hart → Hart
  pub get-put : (c : SimpleCsr) (h : Hart) → get (put c h) ≡ c
  pub regs-put : (c : SimpleCsr) (h : Hart) → (put c h).regs ≡ h.regs
  pub mode-put : (c : SimpleCsr) (h : Hart) → (put c h).privilege_mode ≡ h.privilege_mode
  pub mstatus-put : (c : SimpleCsr) (h : Hart) → (put c h).mstatus ≡ h.mstatus
  pub get-write_register : (rd v : ℕ) (h : Hart) → get (write_register rd v h) ≡ get h

pub mepc-write_register : (rd v : ℕ) (h : Hart) → (write_register rd v h).mepc ≡ h.mepc
unfolding write_register
mepc-write_register rd v h = refl

abbrev pub mepc_slot : Slot
mepc_slot = record {
  get = λ h. h.mepc;
  put = λ c h. record h { mepc = c };
  get-put = λ c h. refl;
  regs-put = λ c h. refl;
  mode-put = λ c h. refl;
  mstatus-put = λ c h. refl;
  get-write_register = mepc-write_register;
}

-- Its methods, at 64 bits.
abbrev pub slot_ops : Slot → CsrOps
slot_ops slot = record {
  read = λ h. as_uint64 (slot.get h);
  write = λ v h. slot.put (write64 (slot.get h) v) h;
  set_bits = λ v h. slot.put (set_bits64 (slot.get h) v) h;
  clear_bits = λ v h. slot.put (clear_bits64 (slot.get h) v) h;
}

write64-IsValid : (c : SimpleCsr) (v : ℕ) → IsValid c → IsValid (write64 c v)
unfolding access64
write64-IsValid c v valid = access64-IsValid write c v valid

write64-write_mask : (c : SimpleCsr) (v : ℕ) → (write64 c v).write_mask ≡ c.write_mask
unfolding access64
write64-write_mask c v = access64-write_mask write c v

bit-as_uint64 : (c : SimpleCsr) (i : ℕ) → bit (as_uint64 c) i ≡ (bit c.value i && bit c.read_mask i)
unfolding as_uint64 get_uint64
bit-as_uint64 c i = bit-bit_and c.value c.read_mask i

-- A register that is written, and then written with what it held.
written_twice :
    (c : SimpleCsr) (v i : ℕ)
    → IsValid c
    → bit (write64 (write64 c v) (as_uint64 c)).value i
      ≡ (if bit c.write_mask i then bit c.read_mask i && bit c.value i else bit c.value i)
written_twice c v i valid =
    bit-write64 (write64 c v) (as_uint64 c) i (write64-IsValid c v valid)
    ∙ ground (arith, write64-write_mask c v, bit-write64 c v i valid, bit-as_uint64 c i)

check_lem :
    (env : Env) (index address : ℕ) (h : Hart)
    → is_permitted index h ≡ true
    → check_csr_permission env index address h ≡ (true, h)
unfolding check_csr_permission
check_lem env index address h permitted = rw permitted refl

module _ (slot : Slot) (csr_set : ℕ → Option CsrOps) (env : Env) (index address : ℕ)
    (found : csr_set index ≡ some (slot_ops slot)) where
  -- An access that is permitted.
  csrrw_lem :
      (rd : ℕ) (source : Source) (h : Hart)
      → is_permitted index h ≡ true
      → csrrw csr_set env rd index source address h
        ≡ slot.put
            (write64 (slot.get h) (source_value source h))
            (write_register rd (as_uint64 (slot.get h)) h)
  unfolding csrrw with_csr access
  csrrw_lem rd source h permitted =
      ap₂ (λ (p : Bool × Hart) (o : Option CsrOps). access p o (body rd source))
        (check_lem env index address h permitted) found
      ∙ ap
          (λ (c : SimpleCsr).
            slot.put (write64 c (source_value source h))
              (write_register rd (as_uint64 (slot.get h)) h))
          (slot.get-write_register rd (as_uint64 (slot.get h)) h)
    where
      body : ℕ → Source → CsrOps → Hart → Hart
      body rd source csr g = csr.write (source_value source g) (write_register rd (csr.read g) g)

  -- The hart after it: the register, the integer register, and that the next access is permitted too.
  after_csrrw :
      (rd : ℕ) (source : Source) (h : Hart)
      → is_permitted index h ≡ true
      → let r = csrrw csr_set env rd index source address h in
        (slot.get r ≡ write64 (slot.get h) (source_value source h))
        × (r.regs.x rd ≡ as_uint64 (slot.get h))
        × (is_permitted index r ≡ true)
  after_csrrw rd source h permitted =
      let g = write_register rd (as_uint64 (slot.get h)) h in
      let c = write64 (slot.get h) (source_value source h) in
      let e = csrrw_lem rd source h permitted in
      (
        ap slot.get e ∙ slot.get-put c g,
        ap (λ (r : Hart). r.regs.x rd) e
            ∙ ap (λ (r : Regs). r.x rd) (slot.regs-put c g)
            ∙ written rd _ h,
        ap (is_permitted index) e ∙ still_permitted c rd _ h ∙ permitted,
      )
    where
      written : (rd v : ℕ) (h : Hart) → (write_register rd v h).regs.x rd ≡ v
      written rd v h = unfold write_register in ground arith

      still_permitted :
          (c : SimpleCsr) (rd v : ℕ) (h : Hart)
          → is_permitted index (slot.put c (write_register rd v h)) ≡ is_permitted index h
      still_permitted c rd v h =
          unfold is_permitted write_register in rw (slot.mode-put, slot.mstatus-put) refl

  -- A permitted 64-bit csrrw of a plain well-formed register, and another one that writes back what
  -- the first one read: of the writable bits of the register, those that are readable are as before
  -- and the others are clear; the other bits have not changed.
  pub bit-csrrw_twice :
      (rd other i : ℕ) (source : Source) (h : Hart)
      → is_permitted index h ≡ true
      → IsValid (slot.get h)
      → let c = slot.get h in
        let once = csrrw csr_set env rd index source address h in
        let twice = csrrw csr_set env other index (register rd) address once in
        bit (slot.get twice).value i
        ≡ (if bit c.write_mask i then bit c.read_mask i && bit c.value i else bit c.value i)
  bit-csrrw_twice rd other i source h permitted valid =
      let c = slot.get h in
      let once = csrrw csr_set env rd index source address h in
      let (c_once, x_once, again) = after_csrrw rd source h permitted in
      let source_is : source_value (register rd) once ≡ as_uint64 c =
        unfold source_value in x_once in
      let (c_twice, _, _) = after_csrrw other (register rd) once again in
      ap (λ (d : SimpleCsr). bit d.value i) c_twice
      ∙ ap₂ (λ (d : SimpleCsr) (v : ℕ). bit (write64 d v).value i) c_once source_is
      ∙ written_twice c (source_value source h) i valid

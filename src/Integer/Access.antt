-- ===== src/Integer/Access.antt =====
-- What loads and stores do: the values that they move, and the addresses that they may not pass.
use mpact_riscv.Common.{
  ℕ, ◌+◌, ◌-◌, ◌*◌, ◌%◌, ◌^◌, ◌≤◌, ◌<◌, ◌≡◌, ◌≢◌, refl, ap, ◌∙◌, arith, Bool, true, false, ◌&&◌,
  ◌==◌, ltb, if◌then◌else◌,
}
use native.Mathlib.Nat.{mod-lt, one-le-pow}
use mpact_riscv.Bits.{bit, bit-mod}
use mpact_riscv.Words.{IsWord}
use mpact_riscv.Words.Laws.{bit-above}
use mpact_riscv.Hart.Defs.{Hart, Env, Xlen, rv32, rv64, rv_unknown}
use mpact_riscv.Hart.Trap.{trap}
use mpact_riscv.Muldiv.{widen}
use mpact_riscv.Muldiv.Widen.{bit-widen}
use mpact_riscv.Zicsr.{write_register}
use mpact_riscv.Integer.Control.{Place}
use mpact_riscv.Integer.Memory.{
  System, MemoryOps, k_riscv32_max_memory_size, k_riscv64_max_memory_size, limited,
  set_max_physical_address, load_child, load_memory, store_memory, rv_load, rv_store,
}

-- The bits of a value of `size` bytes in a register that is `d` bits wider.
bit-converted :
    (size d : ℕ) (signed : Bool) (v i : ℕ)
    → 0 < size
    → IsWord (8 * size) v
    → bit (if signed then widen (8 * size) (8 * size + d) v else v % 2 ^ (8 * size + d)) i ≡ (
        if ltb i (8 * size)
        then bit v i
        else ltb i (8 * size + d) && signed && bit v (8 * size - 1))
bit-converted size d true v i some_bytes word =
    bit-widen (8 * size) d v i (omega (arith, some_bytes)) word ∙ ground arith
bit-converted size d false v i some_bytes word =
    bit-mod (8 * size + d) v i ∙ ground (arith, bit-above (8 * size) v i word)

-- The highest address of each architecture.
abbrev pub highest : Xlen → ℕ
highest rv32 = k_riscv32_max_memory_size
highest rv64 = k_riscv64_max_memory_size
highest rv_unknown = 0

limited-le_highest :
    (x : Xlen) (address old : ℕ) → x ≢ rv_unknown → limited x address old ≤ highest x
unfolding limited
limited-le_highest rv32 address old known = omega arith
limited-le_highest rv64 address old known = omega arith
limited-le_highest rv_unknown address old known = absurd (known refl)

module _ {M : Type 0} (ops : MemoryOps M) (env : Env) where
  -- A memory that gives back what was stored last at an address, for the same number of bytes.
  pub record StoresWords : Type 0 where
    pub load-store :
        (address size value : ℕ) (m : M)
        → IsWord (8 * size) value
        → ops.load address size (ops.store address size value m) ≡ value

  rv_store-within :
      (w size : ℕ) (place : Place) (rs₁ rs₂ offset : ℕ) (s : System M)
      → (s.hart.regs.x rs₁ + offset) % 2 ^ w ≤ s.max_physical_address
      → rv_store w size ops env place rs₁ rs₂ offset s ≡ record s {
        memory =
            ops.store
              ((s.hart.regs.x rs₁ + offset) % 2 ^ w)
              size
              (s.hart.regs.x rs₂ % 2 ^ (8 * size))
              s.memory;
      }
  unfolding rv_store store_memory
  rv_store-within w size place rs₁ rs₂ offset s within =
      let allowed : ltb s.max_physical_address ((s.hart.regs.x rs₁ + offset) % 2 ^ w) ≡ false =
        ground (arith, within) in
      rw allowed refl

  rv_load-within :
      (w size : ℕ) (signed : Bool) (place : Place) (rd rs offset : ℕ) (s : System M)
      → (s.hart.regs.x rs + offset) % 2 ^ w ≤ s.max_physical_address
      → let value = ops.load ((s.hart.regs.x rs + offset) % 2 ^ w) size s.memory in
        (rv_load w size signed ops env place rd rs offset s).hart.regs.x rd
        ≡ (if signed then widen (8 * size) w value else value % 2 ^ w)
  unfolding rv_load load_memory load_child write_register
  rv_load-within w size signed place rd rs offset s within =
      let allowed : ltb s.max_physical_address ((s.hart.regs.x rs + offset) % 2 ^ w) ≡ false =
        ground (arith, within) in
      let same : (rd == rd) ≡ true = ground arith in rw (allowed, same) refl

  -- A store followed by a load of as many bytes from the same address, which is within the bound, puts the
  -- low bits of the stored register into the loaded one. Its other bits are zero, or copies of the top bit
  -- of what was stored if the load is signed.
  pub bit-load-store :
      (size d : ℕ) (signed : Bool) (store_place load_place : Place) (rd rs₁ rs₂ offset i : ℕ)
      (s : System M)
      → StoresWords
      → 0 < size
      → (s.hart.regs.x rs₁ + offset) % 2 ^ (8 * size + d) ≤ s.max_physical_address
      → let w = 8 * size + d in
        let stored = rv_store w size ops env store_place rs₁ rs₂ offset s in
        let loaded = rv_load w size signed ops env load_place rd rs₁ offset stored in
        let v = s.hart.regs.x rs₂ in
        bit (loaded.hart.regs.x rd) i
        ≡ (if ltb i (8 * size) then bit v i else ltb i w && signed && bit v (8 * size - 1))
  bit-load-store size d signed store_place load_place rd rs₁ rs₂ offset i s laws some_bytes within =
      let w = 8 * size + d in
      let address = (s.hart.regs.x rs₁ + offset) % 2 ^ w in
      let value = s.hart.regs.x rs₂ % 2 ^ (8 * size) in
      let word : IsWord (8 * size) value =
        mod-lt (s.hart.regs.x rs₂) {m = 2 ^ (8 * size)} (one-le-pow (8 * size) 2 (omega arith)) in
      ap (λ t. bit ((rv_load w size signed ops env load_place rd rs₁ offset t).hart.regs.x rd) i)
        (rv_store-within w size store_place rs₁ rs₂ offset s within)
      ∙ ap (λ t. bit t i)
          (rv_load-within w size signed load_place rd rs₁ offset
              (record s { memory = ops.store address size value s.memory }) within
            ∙ ap (λ t. if signed then widen (8 * size) w t else t % 2 ^ w)
                (laws.load-store address size value s.memory word))
      ∙ bit-converted size d signed value i some_bytes word
      ∙ ground (
        arith,
        bit-mod (8 * size) (s.hart.regs.x rs₂) i,
        bit-mod (8 * size) (s.hart.regs.x rs₂) (8 * size - 1),
      )

  -- After any request for a bound, on a hart of 32 or of 64 bits: a load and a store above the highest
  -- address of the architecture take an access fault with the address as its value, and the memory is as it
  -- was. The bound is compared with the first address only: a store of any size at the bound goes through.
  pub access_faults :
      (requested address size value : ℕ) (place : Place) (child : ℕ → Hart → Hart) (s : System M)
      → s.hart.xlen ≢ rv_unknown
      → highest s.hart.xlen < address
      → let bounded = set_max_physical_address requested s in
        let bound = bounded.max_physical_address in
        (load_memory ops env place address size child bounded
          ≡ record bounded { hart = trap env false address 5 place.address s.hart })
        × (store_memory ops env place address size value bounded
            ≡ record bounded { hart = trap env false address 7 place.address s.hart })
        × (store_memory ops env place bound size value bounded
            ≡ record bounded { memory = ops.store bound size value s.memory })
  unfolding set_max_physical_address load_memory store_memory
  access_faults requested address size value place child s known above =
      let old = s.max_physical_address in
      let bound = limited s.hart.xlen requested old in
      let beyond : ltb bound address ≡ true =
        ground (arith, limited-le_highest s.hart.xlen requested old known, above) in
      let at_bound : ltb bound bound ≡ false = ground arith in
      (rw beyond refl, rw beyond refl, rw at_bound refl)

-- ===== src/Plic/Consistent/Registers.antt =====
-- The reads and writes of the memory mapped registers keep the controller consistent.
use mpact_riscv.Common.{
  ℕ, ◌+◌, ◌-◌, ◌/◌, arith, true, not, ◌&&◌, ◌||◌, ◌==◌, ◌/=◌, ltb, leb, List, [], ◌∷◌, bit_and,
}
use mpact_riscv.Words.{u8, u16, u32, ◌>>>◌}
use mpact_riscv.Plic.Defs.{num_words, at, Plic, set_irq, insert, erase_first}
use mpact_riscv.Plic.Map.{
  read, read_pending, read_enabled, write_priority, trigger_unset, trigger_bits, write_pending,
  add_source, add_sources, remove_sources, write_enabled, any_above, write_threshold, write, load,
  store,
}
use mpact_riscv.Plic.Consistent.{
  Holds->>=, Holds->>=_any, Holds-if, if_either, IsConsistent, set_irq-IsConsistent,
  multiplicity-insert, multiplicity-erase_first,
}
use mpact_riscv.Plic.Consistent.Core.{
  Keeps, KeepsAfter, set_plic_pending_interrupt-IsConsistent, claim_interrupt-IsConsistent,
  complete_interrupt-IsConsistent,
}

read-IsConsistent : (offset : ℕ) (p : Plic) → IsConsistent p → KeepsAfter (read offset p)
unfolding read
read-IsConsistent offset p h =
    let After : ℕ × Plic → Type 0 = λ r. IsConsistent r.1 in
    Holds-if After (ltb offset 0x1000) _ _
      (Holds->>=_any After (at p.num_sources p.interrupt_priority (offset >>> 2)) _ λ v. h)
      (Holds-if After (ltb offset 0x2000) _ _
        (Holds->>=_any After (read_pending (offset - 0x1000) p) _ λ v. h)
        (Holds-if After (ltb offset 0x20_0000) _ _
          (Holds->>=_any After (read_enabled (offset - 0x2000) p) _ λ v. h)
          (Holds-if After (leb p.num_contexts ((offset - 0x20_0000) >>> 12)) _ _ h (
            Holds-if After (bit_and (offset - 0x20_0000) 0xfff == 0) _ _ h (
              Holds-if After (bit_and (offset - 0x20_0000) 0xfff == 4) _ _
                (claim_interrupt-IsConsistent _ p h) h)))))

write_priority-IsConsistent :
    (source value : ℕ) (p : Plic) → IsConsistent p → Keeps (write_priority source value p)
unfolding write_priority
write_priority-IsConsistent source value p h =
    Holds-if IsConsistent (leb p.num_sources source) _ _ h (
      Holds-if IsConsistent
        (p.interrupt_priority source == 0
          && value /= 0
          && (p.gateway_info source).ready
          && (p.gateway_info source).pending)
        _ _
        (set_plic_pending_interrupt-IsConsistent source _
          (record { lines = h.lines; maps = h.maps }))
        (record { lines = h.lines; maps = h.maps }))

trigger_unset-IsConsistent :
    (source : ℕ) (l : List ℕ) (p : Plic) → IsConsistent p → Keeps (trigger_unset source l p)
unfolding trigger_unset
trigger_unset-IsConsistent source [] p h = h
trigger_unset-IsConsistent source (c ∷ rest) p h =
    Holds->>=_any IsConsistent (at p.num_contexts p.context_irq c) _ λ irq.
      Holds->>= IsConsistent IsConsistent _ _
        (Holds-if IsConsistent irq _ _ h (
          Holds->>=_any IsConsistent (at p.num_sources p.interrupt_priority source) _ λ priority.
            Holds->>=_any IsConsistent (at p.num_contexts p.priority_threshold c) _ λ threshold.
              Holds->>=_any IsConsistent (at p.num_contexts p.context_if c) _ λ connected.
                if_either IsConsistent (leb priority threshold || not connected) p
                  (set_irq c true p) h (set_irq-IsConsistent c true p h)))
        λ q g. trigger_unset-IsConsistent source rest q g

trigger_bits-IsConsistent :
    (base : ℕ) (l : List ℕ) (p : Plic) → IsConsistent p → Keeps (trigger_bits base l p)
unfolding trigger_bits
trigger_bits-IsConsistent base [] p h = h
trigger_bits-IsConsistent base (position ∷ rest) p h =
    Holds->>= IsConsistent IsConsistent (trigger_unset (base + position) _ p) _
      (trigger_unset-IsConsistent (base + position) _ p h)
      λ q g. trigger_bits-IsConsistent base rest q g

write_pending-IsConsistent :
    (offset value : ℕ) (p : Plic) → IsConsistent p → Keeps (write_pending offset value p)
unfolding write_pending
write_pending-IsConsistent offset value p h =
    Holds-if IsConsistent (ltb (p.num_sources / 32) offset) _ _ h
      (trigger_bits-IsConsistent _ _ _ (record { lines = h.lines; maps = h.maps }))

-- A pair that is added to, or taken from, both maps.
pub added :
    (s c : ℕ) (p : Plic)
    → IsConsistent p
    → IsConsistent (record p {
      source_to_context = insert s c p.source_to_context;
      context_to_source = insert c s p.context_to_source;
    })
added s c p h = record {
  lines = h.lines;
  maps = λ t d. ground (
    arith,
    multiplicity-insert t d s c p.source_to_context,
    multiplicity-insert d t c s p.context_to_source,
    h.maps t d,
  );
}

removed :
    (s c : ℕ) (p : Plic)
    → IsConsistent p
    → IsConsistent (record p {
      source_to_context = erase_first s c p.source_to_context;
      context_to_source = erase_first c s p.context_to_source;
    })
removed s c p h = record {
  lines = h.lines;
  maps = λ t d. ground (
    arith,
    multiplicity-erase_first t d s c p.source_to_context,
    multiplicity-erase_first d t c s p.context_to_source,
    h.maps t d,
  );
}

add_source-IsConsistent :
    (context source : ℕ) (p : Plic) → IsConsistent p → Keeps (add_source context source p)
unfolding add_source
add_source-IsConsistent context source p h =
    let h' = added source context p h in
    Holds->>=_any IsConsistent (at p.num_contexts p.context_if context) _ λ connected.
      Holds->>=_any IsConsistent (at p.num_contexts p.context_irq context) _ λ irq.
        Holds-if IsConsistent (not connected || irq) _ _ h' (
          Holds->>=_any IsConsistent (at p.num_sources p.interrupt_priority source) _ λ priority.
            if_either IsConsistent (ltb (p.priority_threshold context) priority) _ _
              (set_irq-IsConsistent context true _ h') h')

add_sources-IsConsistent :
    (context base : ℕ) (l : List ℕ) (p : Plic)
    → IsConsistent p
    → Keeps (add_sources context base l p)
unfolding add_sources
add_sources-IsConsistent context base [] p h = h
add_sources-IsConsistent context base (position ∷ rest) p h =
    Holds->>= IsConsistent IsConsistent (add_source context (base + position) p) _
      (add_source-IsConsistent context (base + position) p h)
      λ q g. add_sources-IsConsistent context base rest q g

remove_sources-IsConsistent :
    (context base : ℕ) (l : List ℕ) (p : Plic)
    → IsConsistent p
    → IsConsistent (remove_sources context base l p)
unfolding remove_sources
remove_sources-IsConsistent context base [] p h = h
remove_sources-IsConsistent context base (position ∷ rest) p h =
    remove_sources-IsConsistent context base rest _ (removed (base + position) context p h)

write_enabled-IsConsistent :
    (offset value : ℕ) (p : Plic) → IsConsistent p → Keeps (write_enabled offset value p)
unfolding write_enabled
write_enabled-IsConsistent offset value p h =
    let index = offset >>> 2 in
    let word = bit_and (index >>> 2) 0x1f in
    let context = index >>> 7 in
    Holds->>=_any IsConsistent (at p.num_contexts p.interrupt_enabled context) _ λ words.
      Holds->>=_any IsConsistent (at (num_words p) words word) _ λ prev.
        Holds->>= IsConsistent IsConsistent (add_sources context _ _ _) _
          (add_sources-IsConsistent context _ _ _ (record { lines = h.lines; maps = h.maps }))
          λ q g. remove_sources-IsConsistent context _ _ q g

write_threshold-IsConsistent :
    (context value : ℕ) (p : Plic) → IsConsistent p → Keeps (write_threshold context value p)
unfolding write_threshold
write_threshold-IsConsistent context value p h =
    Holds-if IsConsistent
      (leb (p.priority_threshold context) value
        || p.context_irq context
        || not (p.context_if context))
      _ _ (record { lines = h.lines; maps = h.maps })
      (Holds->>=_any IsConsistent (any_above _ value _) _ λ found.
        if_either IsConsistent found _ _
          (set_irq-IsConsistent context true _ (record { lines = h.lines; maps = h.maps }))
          (record { lines = h.lines; maps = h.maps }))

write-IsConsistent : (offset value : ℕ) (p : Plic) → IsConsistent p → Keeps (write offset value p)
unfolding write
write-IsConsistent offset value p h =
    Holds-if IsConsistent (ltb offset 0x1000) _ _ (write_priority-IsConsistent _ value p h) (
      Holds-if IsConsistent (ltb offset 0x2000) _ _ (write_pending-IsConsistent _ value p h) (
        Holds-if IsConsistent (ltb offset 0x20_0000) _ _ (write_enabled-IsConsistent _ value p h) (
          Holds-if IsConsistent (leb p.num_contexts ((offset - 0x20_0000) >>> 12)) _ _ h (
            Holds-if IsConsistent (bit_and (offset - 0x20_0000) 0xfff == 0) _ _
              (write_threshold-IsConsistent _ value p h)
              (Holds-if IsConsistent (bit_and (offset - 0x20_0000) 0xfff == 4) _ _
                (complete_interrupt-IsConsistent _ value p h) h)))))

pub load-IsConsistent :
    (address size : ℕ) (p : Plic) → IsConsistent p → KeepsAfter (load address size p)
unfolding load
load-IsConsistent address size p h =
    let After : List (ℕ × ℕ) × Plic → Type 0 = λ r. IsConsistent r.1 in
    let Read : ℕ × Plic → Type 0 = λ r. IsConsistent r.1 in
    let offset = u32 (bit_and address 0xff_ffff) in
    let once = read-IsConsistent offset p h in
    Holds-if After (size == 1) _ _ (Holds->>= Read After (read offset p) _ once λ r g. g) (
      Holds-if After (size == 2) _ _ (Holds->>= Read After (read offset p) _ once λ r g. g) (
        Holds-if After (size == 4) _ _ (Holds->>= Read After (read offset p) _ once λ r g. g) (
          Holds-if After (size == 8) _ _
            (Holds->>= Read After (read offset p) _ once λ r g.
              Holds->>= Read After (read (u32 (offset + 4)) r.1) _
                (read-IsConsistent (u32 (offset + 4)) r.1 g) λ s k. k)
            h)))

pub store-IsConsistent :
    (address size word : ℕ) (p : Plic) → IsConsistent p → Keeps (store address size word p)
unfolding store
store-IsConsistent address size word p h =
    Holds-if IsConsistent (size == 1) _ _ (write-IsConsistent _ (u8 word) p h) (
      Holds-if IsConsistent (size == 2) _ _ (write-IsConsistent _ (u16 word) p h) (
        Holds-if IsConsistent (size == 4) _ _ (write-IsConsistent _ (u32 word) p h)
          (Holds-if IsConsistent (size == 8) _ _ (write-IsConsistent _ (u32 word) p h) h)))

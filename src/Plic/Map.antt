-- ===== src/Plic/Map.antt =====
-- The memory mapped registers of the controller: Read, Write, Load and Store of riscv/riscv_plic.cc.
use mpact_riscv.Common.{
  ℕ, zero, suc, ◌+◌, ◌-◌, ◌*◌, ◌/◌, Bool, true, false, not, ◌&&◌, ◌||◌, ◌==◌, ◌/=◌, ltb, leb,
  if◌then◌else◌, bit_and, bit_xor, Option, some, List, [], ◌∷◌,
}
use mpact_riscv.Bits.{bit}
use mpact_riscv.Words.{u8, u16, u32, complement, ◌>>>◌}
use mpact_riscv.Plic.{set_plic_pending_interrupt, claim_interrupt, complete_interrupt}
use mpact_riscv.Plic.Defs.{
  ◌>>=◌, at, update, equal_range, insert, erase_first, Plic, num_words, set_irq,
}

-- The positions of the bits that are set in the `rounds` low bits of a word, from the lowest: the order
-- in which a loop with countr_zero takes and clears them.
unfoldable pub set_bits_from : ℕ → ℕ → ℕ → List ℕ
set_bits_from zero i x = []
set_bits_from (suc rounds) i x =
    let rest = set_bits_from rounds (i + 1) x in if bit x i then i ∷ rest else rest

unfoldable pub set_bits : ℕ → List ℕ
set_bits x = set_bits_from 32 0 x

unfoldable pub read_pending : ℕ → Plic → Option ℕ
read_pending offset p =
    if ltb (p.num_sources / 32) offset then some 0 else at (num_words p) p.interrupt_pending offset

unfoldable pub read_enabled : ℕ → Plic → Option ℕ
read_enabled offset p =
    let context = offset >>> 7 in
    let word = bit_and offset 0x7f in
    if leb p.num_contexts context
    then some 0
    else if leb (p.num_sources + 32) (word * 32)
    then some 0
    else at (num_words p) (p.interrupt_enabled context) word

-- The value, and the controller after the read, which may claim an interrupt.
unfoldable pub read : ℕ → Plic → Option (ℕ × Plic)
read offset p =
    if ltb offset 0x1000
    then (do value ← at p.num_sources p.interrupt_priority (offset >>> 2); some (value, p))
    else if ltb offset 0x2000
    then (do value ← read_pending (offset - 0x1000) p; some (value, p))
    else if ltb offset 0x20_0000
    then (do value ← read_enabled (offset - 0x2000) p; some (value, p))
    else let context = (offset - 0x20_0000) >>> 12 in
      let reg_id = bit_and (offset - 0x20_0000) 0xfff in
      if leb p.num_contexts context
      then some (0, p)
      else if reg_id == 0
      then some (p.priority_threshold context, p)
      else if reg_id == 4
      then claim_interrupt context p
      else some (0, p)

unfoldable pub write_priority : ℕ → ℕ → Plic → Option Plic
write_priority source value p =
    let prev = p.interrupt_priority source in
    let p' : Plic = record p { interrupt_priority = update p.interrupt_priority source value } in
    let info = p.gateway_info source in
    if leb p.num_sources source
    then some p
    else if prev == 0 && value /= 0 && info.ready && info.pending
    then set_plic_pending_interrupt source p'
    else some p'

-- The loop over the contexts of a source whose pending bit is being set.
unfoldable pub trigger_unset : ℕ → List ℕ → Plic → Option Plic
trigger_unset source [] p = some p
trigger_unset source (context ∷ rest) p = do
  irq ← at p.num_contexts p.context_irq context
  p' ← if irq then some p else do
    priority ← at p.num_sources p.interrupt_priority source
    threshold ← at p.num_contexts p.priority_threshold context
    connected ← at p.num_contexts p.context_if context
    some (if leb priority threshold || not connected then p else set_irq context true p)
  trigger_unset source rest p'

unfoldable pub trigger_bits : ℕ → List ℕ → Plic → Option Plic
trigger_bits base [] p = some p
trigger_bits base (position ∷ rest) p = do
  p' ← trigger_unset (base + position) (equal_range (base + position) p.source_to_context) p
  trigger_bits base rest p'

unfoldable pub write_pending : ℕ → ℕ → Plic → Option Plic
write_pending offset value p =
    if ltb (p.num_sources / 32) offset
    then some p
    else let prev = p.interrupt_pending offset in
      trigger_bits (offset * 32) (set_bits (bit_and (bit_xor value prev) value))
        (record p { interrupt_pending = update p.interrupt_pending offset value })

-- One source that a write of the enable bits adds to a context.
unfoldable pub add_source : ℕ → ℕ → Plic → Option Plic
add_source context source p = do
  let p' : Plic = record p {
    source_to_context = insert source context p.source_to_context;
    context_to_source = insert context source p.context_to_source;
  }
  connected ← at p.num_contexts p.context_if context
  irq ← at p.num_contexts p.context_irq context
  if not connected || irq then some p' else do
    priority ← at p.num_sources p.interrupt_priority source
    some (if ltb (p.priority_threshold context) priority then set_irq context true p' else p')

unfoldable pub add_sources : ℕ → ℕ → List ℕ → Plic → Option Plic
add_sources context base [] p = some p
add_sources context base (position ∷ rest) p = do
  p' ← add_source context (base + position) p
  add_sources context base rest p'

-- The sources that it takes away.
unfoldable pub remove_sources : ℕ → ℕ → List ℕ → Plic → Plic
remove_sources context base [] p = p
remove_sources context base (position ∷ rest) p = remove_sources context base rest (record p {
  source_to_context = erase_first (base + position) context p.source_to_context;
  context_to_source = erase_first context (base + position) p.context_to_source;
})

unfoldable pub write_enabled : ℕ → ℕ → Plic → Option Plic
write_enabled offset value p = do
  let index = offset >>> 2
  let word = bit_and (index >>> 2) 0x1f
  let context = index >>> 7
  words ← at p.num_contexts p.interrupt_enabled context
  prev ← at (num_words p) words word
  let changed = bit_xor value prev
  p' ← add_sources context (word * 32) (set_bits (bit_and changed value)) (record p {
    interrupt_enabled = update p.interrupt_enabled context (update words word value);
  })
  some (remove_sources context (word * 32) (set_bits (bit_and changed (complement 32 value))) p')

-- The loop that looks for a source above the new threshold.
unfoldable pub any_above : Plic → ℕ → List ℕ → Option Bool
any_above p value [] = some false
any_above p value (source ∷ rest) =
    let later = any_above p value rest in
    at p.num_sources p.interrupt_priority source >>= λ priority.
    if ltb value priority then some true else later

unfoldable pub write_threshold : ℕ → ℕ → Plic → Option Plic
write_threshold context value p =
    let prev = p.priority_threshold context in
    let p' : Plic = record p { priority_threshold = update p.priority_threshold context value } in
    if leb prev value || p.context_irq context || not (p.context_if context) then some p' else do
      found ← any_above p' value (equal_range context p'.context_to_source)
      some (if found then set_irq context true p' else p')

unfoldable pub write : ℕ → ℕ → Plic → Option Plic
write offset value p =
    if ltb offset 0x1000
    then write_priority (offset >>> 3) value p
    else if ltb offset 0x2000
    then write_pending (offset - 0x1000) value p
    else if ltb offset 0x20_0000
    then write_enabled (offset - 0x2000) value p
    else let context = (offset - 0x20_0000) >>> 12 in
      let reg_id = bit_and (offset - 0x20_0000) 0xfff in
      if leb p.num_contexts context
      then some p
      else if reg_id == 0
      then write_threshold context value p
      else if reg_id == 4
      then complete_interrupt context value p
      else some p

-- The elements that Load sets in the buffer, with their size in bytes, and the controller after it: of a
-- buffer of another size no element is set from a register, only its first bytes are cleared.
unfoldable pub load : ℕ → ℕ → Plic → Option (List (ℕ × ℕ) × Plic)
load address size p =
    let offset = u32 (bit_and address 0xff_ffff) in
    if size == 1
    then (do (value, p') ← read offset p; some ((1, u8 value) ∷ [], p'))
    else if size == 2
    then (do (value, p') ← read offset p; some ((2, u16 value) ∷ [], p'))
    else if size == 4
    then (do (value, p') ← read offset p; some ((4, u32 value) ∷ [], p'))
    else if size == 8
    then (do
      (low, p₁) ← read offset p
      (high, p₂) ← read (u32 (offset + 4)) p₁
      some ((4, u32 low) ∷ (4, u32 high) ∷ [], p₂))
    else some ([], p)

-- A store of eight bytes returns after the write of its first half.
unfoldable pub store : ℕ → ℕ → ℕ → Plic → Option Plic
store address size word p =
    let offset = u32 (bit_and address 0xff_ffff) in
    if size == 1
    then write offset (u8 word) p
    else if size == 2
    then write offset (u16 word) p
    else if size == 4
    then write offset (u32 word) p
    else if size == 8
    then write offset (u32 word) p
    else some p

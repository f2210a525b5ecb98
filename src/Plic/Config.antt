-- ===== src/Plic/Config.antt =====
-- RiscVPlic::Configure of riscv/riscv_plic.cc. RE2, which is not part of the repository, takes the two
-- strings apart: the model is given what its calls return in turn, and whether text is left over.
use mpact_riscv.Common.{ℕ, Bool, leb, if◌then◌else◌, bit_and, bit_or, List, [], ◌∷◌}
use mpact_riscv.Words.{u32, complement, ◌<<<◌, ◌>>>◌}
use mpact_riscv.Plic.Defs.{update, insert, Plic}

-- absl::Status.
pub data Status : Type 0 where
  ok : Status
  invalid_source : ℕ → Status
  invalid_source_configuration : Status
  invalid_context : ℕ → Status
  invalid_context_configuration : Status

-- The next part is done if the one before it succeeded.
unfoldable pub and_then : Plic × Status → Plic × Status → Plic × Status
and_then (p, ok) next = next
and_then (p, other) next = (p, other)

-- "<context>=<threshold>," and the "<source>,<enable>" items that follow it.
pub record ContextItem : Type 0 where
  pub context : ℕ
  pub threshold : ℕ
  pub sources : List (ℕ × ℕ)

unfoldable pub configure_sources : List (ℕ × ℕ) → Plic → Plic × Status
configure_sources [] p = (p, ok)
configure_sources ((source, priority) ∷ rest) p =
    let more =
      configure_sources rest
        (record p { interrupt_priority = update p.interrupt_priority source priority }) in
    if leb p.num_sources source then (p, invalid_source source) else more

-- One source of a context. Both maps get an entry, also if `enable` is 0.
unfoldable pub enable_source : ℕ → ℕ → ℕ → Plic → Plic
enable_source context source enable p =
    let position = bit_and source 0x1f in
    let word = source >>> 5 in
    let words = p.interrupt_enabled context in
    let value =
      u32 (bit_or (bit_and (words word) (complement 32 (1 <<< position))) (enable <<< position)) in
    record p {
      interrupt_enabled = update p.interrupt_enabled context (update words word value);
      source_to_context = insert source context p.source_to_context;
      context_to_source = insert context source p.context_to_source;
    }

unfoldable pub enable_sources : ℕ → List (ℕ × ℕ) → Plic → Plic × Status
enable_sources context [] p = (p, ok)
enable_sources context ((source, enable) ∷ rest) p =
    let more = enable_sources context rest (enable_source context source enable p) in
    if leb p.num_sources source then (p, invalid_source source) else more

unfoldable pub configure_contexts : List ContextItem → Plic → Plic × Status
configure_contexts [] p = (p, ok)
configure_contexts (item ∷ rest) p =
    let p' : Plic = record p {
      priority_threshold = update p.priority_threshold item.context item.threshold;
    } in
    let enabled = enable_sources item.context item.sources p' in
    let more = configure_contexts rest enabled.0 in
    if leb p.num_contexts item.context
    then (p, invalid_context item.context)
    else and_then enabled more

unfoldable pub configure : List (ℕ × ℕ) → Bool → List ContextItem → Bool → Plic → Plic × Status
configure sources source_left contexts context_left p =
    let first = configure_sources sources p in
    let second = configure_contexts contexts first.0 in
    let done =
      and_then second (second.0, (if context_left then invalid_context_configuration else ok)) in
    and_then first (if source_left then (first.0, invalid_source_configuration) else done)

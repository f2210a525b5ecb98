-- ===== src/Plic/Defs.antt =====
-- The state of RiscVPlic (riscv/riscv_plic.h), its arrays and its multimaps.
--
-- An array is a function with the size that it was allocated with: `at` is a read, and an index out of
-- range, which C++ leaves undefined, is `none`. A multimap is the list of its entries in the order of
-- their insertion, in which equal_range visits those of a key.
use mpact_riscv.Common.{
  ℕ, ◌+◌, ◌/◌, Bool, true, false, ◌&&◌, ◌||◌, ◌==◌, ltb, if◌then◌else◌, bit_and, bit_or, Option,
  none, some, List, [], ◌∷◌, ◌++◌,
}
use mpact_riscv.Words.{complement, to_bool, ◌<<<◌, ◌>>>◌}

infixl 5 ◌>>=◌
abbrev pub ◌>>=◌ : {A B : Type 0} → Option A → (A → Option B) → Option B
none >>= f = none
some a >>= f = f a

abbrev pub at : {A : Type 0} → ℕ → (ℕ → A) → ℕ → Option A
at size a i = if ltb i size then some (a i) else none

abbrev pub update : {A : Type 0} → (ℕ → A) → ℕ → A → ℕ → A
update a i v j = if j == i then v else a j

abbrev pub Multimap : Type 0
Multimap = List (ℕ × ℕ)

unfoldable pub equal_range : ℕ → Multimap → List ℕ
equal_range k [] = []
equal_range k ((j, v) ∷ m) = let rest = equal_range k m in if j == k then v ∷ rest else rest

unfoldable pub insert : ℕ → ℕ → Multimap → Multimap
insert k v m = m ++ ((k, v) ∷ [])

-- The loop that erases the first entry of a key with the value.
unfoldable pub erase_first : ℕ → ℕ → Multimap → Multimap
erase_first k v [] = []
erase_first k v ((j, w) ∷ m) =
    let rest = erase_first k v m in if j == k && w == v then m else (j, w) ∷ rest

unfoldable pub contains : ℕ → List ℕ → Bool
contains x [] = false
contains x (y ∷ ys) = y == x || contains x ys

-- GatewayInfo.
pub record GatewayInfo : Type 0 where
  pub ready : Bool
  pub pending : Bool

-- context_if is whether a context has an interface, and `sent` the calls of SetIrq on the interfaces,
-- the last one first.
pub record Plic : Type 0 where
  pub num_sources : ℕ
  pub num_contexts : ℕ
  pub context_if : ℕ → Bool
  pub context_irq : ℕ → Bool
  pub gateway_info : ℕ → GatewayInfo
  pub interrupt_priority : ℕ → ℕ
  pub interrupt_pending : ℕ → ℕ
  pub interrupt_enabled : ℕ → ℕ → ℕ
  pub priority_threshold : ℕ → ℕ
  pub interrupt_claim_complete : ℕ → ℕ
  pub source_to_context : Multimap
  pub context_to_source : Multimap
  pub sent : List (ℕ × Bool)

-- The number of words that hold a bit for each source.
abbrev pub num_words : Plic → ℕ
num_words p = p.num_sources / 32 + 1

-- The constructor.
unfoldable pub create : ℕ → ℕ → Plic
create num_sources num_contexts = record {
  num_sources = num_sources;
  num_contexts = num_contexts;
  context_if = λ c. false;
  context_irq = λ c. false;
  gateway_info = λ s. record { ready = true; pending = false };
  interrupt_priority = λ s. 0;
  interrupt_pending = λ w. 0;
  interrupt_enabled = λ c w. 0;
  priority_threshold = λ c. 0;
  interrupt_claim_complete = λ c. 0;
  source_to_context = [];
  context_to_source = [];
  sent = [];
}

unfoldable pub set_context : ℕ → Bool → Plic → Option Plic
set_context context context_if p =
    if ltb context p.num_contexts
    then some (record p { context_if = update p.context_if context context_if })
    else none

-- The two statements that write the line of a context.
unfoldable pub set_irq : ℕ → Bool → Plic → Plic
set_irq context value p = record p {
  context_irq = update p.context_irq context value;
  sent = (context, value) ∷ p.sent;
}

unfoldable pub is_pending : ℕ → Plic → Option Bool
is_pending source p = do
  word ← at (num_words p) p.interrupt_pending (source >>> 5)
  some (to_bool (bit_and word (1 <<< bit_and source 0x1f)))

unfoldable pub set_pending : ℕ → Bool → Plic → Option Plic
set_pending source value p = do
  let index = source >>> 5
  let mask = 1 <<< bit_and source 0x1f
  word ← at (num_words p) p.interrupt_pending index
  some (record p {
    interrupt_pending =
        update p.interrupt_pending index
          (if value then bit_or word mask else bit_and word (complement 32 mask));
  })

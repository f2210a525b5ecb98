-- ===== src/Plic/Consistent/Trace.antt =====
-- The controller over any sequence of the calls that other parts make of it.
use mpact_riscv.Common.{ℕ, ◌≡◌, subst, Bool, ltb, leb, Option, none, some, List, [], ◌∷◌}
use mathlib.Core.Option
use mpact_riscv.Plic.Defs.{◌>>=◌, update, Plic, create, set_context}
use mpact_riscv.Plic.{set_interrupt}
use mpact_riscv.Plic.Map.{load, store}
use mpact_riscv.Plic.Config.{
  Status, ok, ContextItem, and_then, configure_sources, enable_source, enable_sources,
  configure_contexts, configure,
}
use mpact_riscv.Plic.Consistent.{
  Holds, Holds->>=, Holds-if, if_either, IsConsistent, create-IsConsistent,
}
use mpact_riscv.Plic.Consistent.Core.{Keeps, set_interrupt-IsConsistent}
use mpact_riscv.Plic.Consistent.Registers.{load-IsConsistent, store-IsConsistent, added}

abbrev StartsConsistent : Plic × Status → Type 0
StartsConsistent r = IsConsistent r.0

configure_sources-IsConsistent :
    (l : List (ℕ × ℕ)) (p : Plic) → IsConsistent p → IsConsistent (configure_sources l p).0
unfolding configure_sources
configure_sources-IsConsistent [] p h = h
configure_sources-IsConsistent ((s, q) ∷ rest) p h =
    if_either StartsConsistent (leb p.num_sources s) _ _ h
      (configure_sources-IsConsistent rest _ (record { lines = h.lines; maps = h.maps }))

enable_source-IsConsistent :
    (context source enable : ℕ) (p : Plic)
    → IsConsistent p
    → IsConsistent (enable_source context source enable p)
unfolding enable_source
enable_source-IsConsistent context source enable p h =
    let g = added source context p h in record { lines = g.lines; maps = g.maps }

enable_sources-IsConsistent :
    (context : ℕ) (l : List (ℕ × ℕ)) (p : Plic)
    → IsConsistent p
    → IsConsistent (enable_sources context l p).0
unfolding enable_sources
enable_sources-IsConsistent context [] p h = h
enable_sources-IsConsistent context ((s, e) ∷ rest) p h =
    if_either StartsConsistent (leb p.num_sources s) _ _ h
      (enable_sources-IsConsistent context rest _ (enable_source-IsConsistent context s e p h))

and_then-IsConsistent :
    (a b : Plic × Status) → IsConsistent a.0 → IsConsistent b.0 → IsConsistent (and_then a b).0
unfolding and_then
and_then-IsConsistent (p, ok) b h k = k
and_then-IsConsistent (p, other) b h k = h

configure_contexts-IsConsistent :
    (l : List ContextItem) (p : Plic) → IsConsistent p → IsConsistent (configure_contexts l p).0
unfolding configure_contexts
configure_contexts-IsConsistent [] p h = h
configure_contexts-IsConsistent (item ∷ rest) p h =
    let g =
      enable_sources-IsConsistent item.context item.sources
        (record p { priority_threshold = update p.priority_threshold item.context item.threshold })
        (record { lines = h.lines; maps = h.maps }) in
    if_either StartsConsistent (leb p.num_contexts item.context) _ _ h
      (and_then-IsConsistent _ _ g (configure_contexts-IsConsistent rest _ g))

configure-IsConsistent :
    (sources : List (ℕ × ℕ)) (source_left : Bool) (contexts : List ContextItem)
    (context_left : Bool) (p : Plic)
    → IsConsistent p
    → IsConsistent (configure sources source_left contexts context_left p).0
unfolding configure
configure-IsConsistent sources source_left contexts context_left p h =
    let g = configure_sources-IsConsistent sources p h in
    let k = configure_contexts-IsConsistent contexts (configure_sources sources p).0 g in
    and_then-IsConsistent (configure_sources sources p) _ g
      (if_either StartsConsistent source_left _ _ g (and_then-IsConsistent _ _ k k))

-- The calls that a simulator and the interrupt sources make.
pub data Event : Type 0 where
  configured : List (ℕ × ℕ) → Bool → List ContextItem → Bool → Event
  connected : ℕ → Bool → Event
  requested : ℕ → Bool → Bool → Event
  loaded : ℕ → ℕ → Event
  stored : ℕ → ℕ → ℕ → Event

unfoldable pub apply : Event → Plic → Option Plic
apply (configured sources s contexts c) p = some (configure sources s contexts c p).0
apply (connected context context_if) p = set_context context context_if p
apply (requested source value is_level) p = set_interrupt source value is_level p
apply (loaded address size) p = Option.map (λ r. r.1) (load address size p)
apply (stored address size word) p = store address size word p

unfoldable pub run : List Event → Plic → Option Plic
run [] p = some p
run (e ∷ es) p = apply e p >>= λ q. run es q

loaded-IsConsistent :
    (o : Option (List (ℕ × ℕ) × Plic))
    → Holds (λ r. IsConsistent r.1) o
    → Keeps (Option.map (λ r. r.1) o)
loaded-IsConsistent none h = tt
loaded-IsConsistent (some r) h = h

apply-IsConsistent : (e : Event) (p : Plic) → IsConsistent p → Keeps (apply e p)
unfolding apply set_context
apply-IsConsistent (configured sources s contexts c) p h =
    configure-IsConsistent sources s contexts c p h
apply-IsConsistent (connected context context_if) p h =
    Holds-if IsConsistent (ltb context p.num_contexts) _ _
      (record { lines = h.lines; maps = h.maps }) tt
apply-IsConsistent (requested source value is_level) p h =
    set_interrupt-IsConsistent source value is_level p h
apply-IsConsistent (loaded address size) p h =
    loaded-IsConsistent (load address size p) (load-IsConsistent address size p h)
apply-IsConsistent (stored address size word) p h = store-IsConsistent address size word p h

run_consistent : (es : List Event) (p : Plic) → IsConsistent p → Keeps (run es p)
unfolding run
run_consistent [] p h = h
run_consistent (e ∷ es) p h =
    Holds->>= IsConsistent IsConsistent (apply e p) _ (apply-IsConsistent e p h)
      λ q g. run_consistent es q g

-- Whatever configurations, connections, requests, loads and stores a new controller sees, as long as none
-- of them is undefined: the recorded value of each line is the last one that was sent to its context, and
-- each pair stands as often in the map from sources to contexts as in the map from contexts to sources.
pub run-IsConsistent :
    (num_sources num_contexts : ℕ) (es : List Event) (p : Plic)
    → run es (create num_sources num_contexts) ≡ some p
    → IsConsistent p
run-IsConsistent num_sources num_contexts es p e =
    subst Keeps e (run_consistent es _ (create-IsConsistent num_sources num_contexts))

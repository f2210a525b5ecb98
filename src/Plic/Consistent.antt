-- ===== src/Plic/Consistent.antt =====
-- What holds of the controller between any two calls: the lines are as last written, and the two
-- multimaps hold the same pairs.
pub mod Core
pub mod Registers
pub mod Trace
use mpact_riscv.Common.{
  ℕ, ◌+◌, ◌-◌, ◌≡◌, refl, arith, Bool, true, false, not, ◌&&◌, ◌||◌, ◌==◌, ltb, leb, if◌then◌else◌,
  Option, none, some, List, [], ◌∷◌,
}
use mpact_riscv.Words.{complement}
use mpact_riscv.Plic.Defs.{
  ◌>>=◌, at, update, Multimap, insert, erase_first, Plic, set_irq, is_pending, set_pending, create,
  set_context, equal_range,
}
use mpact_riscv.Plic.{
  trigger, set_plic_pending_interrupt, set_gateway, set_interrupt, scan, take_claimed, settle,
  claim_interrupt, complete_interrupt,
}

-- What a call returns, where it is defined.
abbrev pub Holds : {A : Type 0} → (A → Type 0) → Option A → Type 0
Holds P none = Unit
Holds P (some a) = P a

pub Holds->>= :
    {A B : Type 0} (P : A → Type 0) (Q : B → Type 0) (m : Option A) (f : A → Option B)
    → Holds P m
    → ((a : A) → P a → Holds Q (f a))
    → Holds Q (m >>= f)
Holds->>= P Q none f h k = tt
Holds->>= P Q (some a) f h k = k a h

pub Holds->>=_any :
    {A B : Type 0} (Q : B → Type 0) (m : Option A) (f : A → Option B)
    → ((a : A) → Holds Q (f a))
    → Holds Q (m >>= f)
Holds->>=_any Q none f k = tt
Holds->>=_any Q (some a) f k = k a

pub Holds-if :
    {A : Type 0} (P : A → Type 0) (b : Bool) (x y : Option A)
    → Holds P x
    → Holds P y
    → Holds P (if b then x else y)
Holds-if P true x y h k = h
Holds-if P false x y h k = k

pub if_either :
    {A : Type 0} (P : A → Type 0) (b : Bool) (x y : A) → P x → P y → P (if b then x else y)
if_either P true x y h k = h
if_either P false x y h k = k

-- The value that was last written to the line of a context.
unfoldable pub last_sent : ℕ → List (ℕ × Bool) → Bool
last_sent context [] = false
last_sent context ((c, v) ∷ rest) = if c == context then v else last_sent context rest

-- How often a pair stands in a multimap.
unfoldable pub multiplicity : ℕ → ℕ → Multimap → ℕ
multiplicity k v [] = 0
multiplicity k v ((j, w) ∷ m) = (if j == k && w == v then 1 else 0) + multiplicity k v m

pub multiplicity-insert :
    (k v j w : ℕ) (m : Multimap)
    → multiplicity k v (insert j w m) ≡ multiplicity k v m + (if j == k && w == v then 1 else 0)
unfolding multiplicity insert
multiplicity-insert k v j w [] = ground arith
multiplicity-insert k v j w ((i, u) ∷ m) = ground (arith, multiplicity-insert k v j w m)

pub multiplicity-erase_first :
    (k v j w : ℕ) (m : Multimap)
    → multiplicity k v (erase_first j w m)
      ≡ multiplicity k v m - (if j == k && w == v then 1 else 0)
unfolding multiplicity erase_first
multiplicity-erase_first k v j w [] = ground arith
multiplicity-erase_first k v j w ((i, u) ∷ m) = ground (arith, multiplicity-erase_first k v j w m)

pub record IsConsistent (p : Plic) : Type 0 where
  pub lines : (c : ℕ) → last_sent c p.sent ≡ p.context_irq c
  pub maps : (s c : ℕ) → multiplicity s c p.source_to_context ≡ multiplicity c s p.context_to_source

pub create-IsConsistent : (n m : ℕ) → IsConsistent (create n m)
unfolding create last_sent multiplicity
create-IsConsistent n m = record { lines = λ c. refl; maps = λ s c. refl }

pub set_irq-IsConsistent :
    (context : ℕ) (value : Bool) (p : Plic)
    → IsConsistent p
    → IsConsistent (set_irq context value p)
unfolding set_irq last_sent
set_irq-IsConsistent context value p h = record {
  lines = λ c. ground (arith, h.lines c);
  maps = h.maps;
}

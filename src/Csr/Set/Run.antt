-- ===== src/Csr/Set/Run.antt =====
-- The two maps of the set hold the same registers, whatever is added and removed.
use mpact_riscv.Common.{
  ℕ, ◌≡◌, ◌≢◌, arith, refl, ap, sym, ◌∙◌, ◌==◌, if◌then◌else◌, Option, none, some, List, [], ◌∷◌,
  inl, inr, Option-cases, subst, Bool-cases, ◌⊎◌,
}
use mathlib.Core.Option
use mpact_riscv.Csr.Set.{
  Handle, HashMap, find, erase, CsrSet, empty, insert_csr, add_csr, get_csr, get_csr_name,
  erase_csr, remove_csr,
}

-- A register that one of the two lookups finds has the key that was looked up, and the other lookup finds
-- it by its own.
pub record Agrees (s : CsrSet) : Type 0 where
  pub by_index :
      (i : ℕ) (h : Handle) → get_csr i s ≡ some h → (h.index ≡ i) × (get_csr_name h.name s ≡ some h)
  pub by_name :
      (n : ℕ) (h : Handle) → get_csr_name n s ≡ some h → (h.name ≡ n) × (get_csr h.index s ≡ some h)

find-erase : (k i : ℕ) (m : HashMap) → find i (erase k m) ≡ (if i == k then none else find i m)
unfolding find erase
find-erase k i [] = ground arith
find-erase k i ((j, h) ∷ m) = ground (arith, find-erase k i m)

some_same : {g h : Handle} → some g ≡ some h → g ≡ h
some_same e = cc

-- What is found in a longer map is the new entry or an old one.
find_cons :
    (k j : ℕ) (x h : Handle) (m : HashMap)
    → find k ((j, x) ∷ m) ≡ some h
    → ((j ≡ k) × (x ≡ h)) ⊎ ((j ≢ k) × (find k m ≡ some h))
unfolding find
find_cons k j x h m found = elim (Bool-cases (j == k)) [
  | inl same ↦ inl (ground arith, ground arith)
  | inr other ↦ inr (ground arith, ground arith)
]

find_new : (j : ℕ) (x : Handle) (m : HashMap) → find j ((j, x) ∷ m) ≡ some x
unfolding find
find_new j x m = ground arith

find_old : (k j : ℕ) (x : Handle) (m : HashMap) → j ≢ k → find k ((j, x) ∷ m) ≡ find k m
unfolding find
find_old k j x m other = ground arith

-- A key that is not in the map is not that of an entry.
absent : (j k : ℕ) (h : Handle) (m : HashMap) → find j m ≡ none → find k m ≡ some h → j ≢ k
absent j k h m nothing found e = cc (ap (λ t. find t m) e, nothing, found)

insert_csr-Agrees :
    (csr : Handle) (s : CsrSet)
    → Agrees s
    → get_csr csr.index s ≡ none
    → get_csr_name csr.name s ≡ none
    → Agrees (insert_csr csr s)
unfolding insert_csr get_csr get_csr_name
insert_csr-Agrees csr s a no_index no_name = record {
  by_index = λ i h found. elim (find_cons i csr.index csr h s.csr_index_map found) [
    | inl (same, is) ↦
        subst
          (λ (g : Handle).
            (g.index ≡ i) × (find g.name ((csr.name, csr) ∷ s.csr_name_map) ≡ some g))
          is (same, find_new csr.name csr s.csr_name_map)
    | inr (other, old) ↦
        let (its, named) = a.by_index i h old in
        (
          its,
          find_old h.name csr.name csr s.csr_name_map
                (absent csr.name h.name h s.csr_name_map no_name named)
              ∙ named,
        )
  ];
  by_name = λ n h found. elim (find_cons n csr.name csr h s.csr_name_map found) [
    | inl (same, is) ↦
        subst
          (λ (g : Handle).
            (g.name ≡ n) × (find g.index ((csr.index, csr) ∷ s.csr_index_map) ≡ some g))
          is (same, find_new csr.index csr s.csr_index_map)
    | inr (other, old) ↦
        let (its, numbered) = a.by_name n h old in
        (
          its,
          find_old h.index csr.index csr s.csr_index_map
                (absent csr.index h.index h s.csr_index_map no_index numbered)
              ∙ numbered,
        )
  ];
}

-- What is found in a map without a key is found in the map, under another key.
find_erased :
    (k i : ℕ) (h : Handle) (m : HashMap)
    → find i (erase k m) ≡ some h
    → (i ≢ k) × (find i m ≡ some h)
find_erased k i h m found = elim (Bool-cases (i == k)) [
  | inl same ↦ ground (arith, find-erase k i m)
  | inr other ↦ (ground arith, ground (arith, find-erase k i m))
]

find_kept :
    (k i : ℕ) (h : Handle) (m : HashMap) → i ≢ k → find i m ≡ some h → find i (erase k m) ≡ some h
find_kept k i h m other found = ground (arith, find-erase k i m)

erase_csr-Agrees :
    (index : ℕ) (csr : Handle) (s : CsrSet)
    → Agrees s
    → get_csr index s ≡ some csr
    → Agrees (erase_csr index csr.name s)
unfolding erase_csr get_csr get_csr_name
erase_csr-Agrees index csr s a held = record {
  by_index = λ i h found.
      let (other, old) = find_erased index i h s.csr_index_map found in
      let (its, named) = a.by_index i h old in
      (
        its,
        find_kept csr.name h.name h s.csr_name_map
            (λ e. other (
              sym its
              ∙ ap (λ (g : Handle). g.index)
                  (some_same
                    (sym named ∙ ap (λ t. find t s.csr_name_map) e ∙ (a.by_index index csr held).1))
              ∙ (a.by_index index csr held).0))
            named,
      );
  by_name = λ n h found.
      let (other, old) = find_erased csr.name n h s.csr_name_map found in
      let (its, numbered) = a.by_name n h old in
      (
        its,
        find_kept index h.index h s.csr_index_map
            (λ e. other (
              sym its
              ∙ ap (λ (g : Handle). g.name)
                  (some_same (sym numbered ∙ ap (λ t. find t s.csr_index_map) e ∙ held))))
            numbered,
      );
}

pub data Event : Type 0 where
  added : Option Handle → Event
  removed : ℕ → Event

unfoldable pub apply : Event → CsrSet → Option CsrSet
apply (added csr) s = some (add_csr csr s).0
apply (removed index) s = Option.map (λ r. r.0) (remove_csr index s)

unfoldable pub run : List Event → CsrSet → Option CsrSet
run [] s = some s
run (e ∷ es) s = elim (apply e s) [ none ↦ none | some t ↦ run es t ]

-- The result is defined, and agrees.
abbrev Good : Option CsrSet → Type 0
Good o = (s : CsrSet) × (o ≡ some s) × Agrees s

add_csr-Agrees : (csr : Option Handle) (s : CsrSet) → Agrees s → Agrees (add_csr csr s).0
unfolding add_csr
add_csr-Agrees none s a = a
add_csr-Agrees (some csr) s a = elim (Option-cases (find csr.index s.csr_index_map)) [
  | inr (_, e) ↦ rw (e, add_csr) a
  | inl e ↦ elim (Option-cases (find csr.name s.csr_name_map)) [
    | inr (_, e') ↦ rw (e, add_csr, e') a
    | inl e' ↦
        rw (e, add_csr, e')
          (insert_csr-Agrees csr s a (unfold get_csr in e) (unfold get_csr_name in e'))
  ]
]

remove_csr-Good : (index : ℕ) (s : CsrSet) → Agrees s → Good (apply (removed index) s)
unfolding apply remove_csr
remove_csr-Good index s a = elim (Option-cases (find index s.csr_index_map)) [
  | inl e ↦ rw (e, remove_csr) (s, refl, a)
  | inr (csr, e) ↦
      let held : get_csr index s ≡ some csr = unfold get_csr in e in
      let named : find csr.name s.csr_name_map ≡ some csr =
        unfold get_csr_name in (a.by_index index csr held).1 in
      rw (e, remove_csr, named)
        (erase_csr index csr.name s, refl, erase_csr-Agrees index csr s a held)
]

apply-Good : (e : Event) (s : CsrSet) → Agrees s → Good (apply e s)
unfolding apply
apply-Good (added csr) s a = ((add_csr csr s).0, refl, add_csr-Agrees csr s a)
apply-Good (removed index) s a = remove_csr-Good index s a

run-Good : (es : List Event) (s : CsrSet) → Agrees s → Good (run es s)
unfolding run
run-Good [] s a = (s, refl, a)
run-Good (e ∷ es) s a = let (t, ran, b) = apply-Good e s a in rw (ran, run) (run-Good es t b)

empty-Agrees : Agrees empty
unfolding get_csr get_csr_name find
empty-Agrees = record { by_index = λ i h found. cc; by_name = λ n h found. cc }

-- Whatever registers, also null pointers, are added to a new set and whatever numbers are removed from it:
-- no erasure is of a missing entry, and a register that is found by a number or by a name has that number
-- or name, and is found by its other key too.
pub run-Agrees : (es : List Event) → (s : CsrSet) × (run es empty ≡ some s) × Agrees s
run-Agrees es = run-Good es empty empty-Agrees

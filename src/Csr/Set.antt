-- ===== src/Csr/Set.antt =====
-- RiscVCsrSet of riscv/riscv_csr.cc: the registers of a hart by number and by name.
--
-- A hash map is the list of its entries, of which each key has one at most. A name is a number, since the
-- code only compares names. An iterator to no entry that is erased, which C++ leaves undefined, is `none`.
pub mod Run
use mpact_riscv.Common.{ℕ, ◌==◌, if◌then◌else◌, Option, none, some, List, [], ◌∷◌}

-- A pointer to a register, with what the register returns as its number and its name.
pub record Handle : Type 0 where
  pub address : ℕ
  pub index : ℕ
  pub name : ℕ

-- absl::Status and its codes.
pub data Status : Type 0 where
  ok invalid_argument already_exists not_found : Status

abbrev pub HashMap : Type 0
HashMap = List (ℕ × Handle)

unfoldable pub find : ℕ → HashMap → Option Handle
find k [] = none
find k ((j, h) ∷ m) = let rest = find k m in if j == k then some h else rest

unfoldable pub erase : ℕ → HashMap → HashMap
erase k [] = []
erase k ((j, h) ∷ m) = let rest = erase k m in if j == k then rest else (j, h) ∷ rest

pub record CsrSet : Type 0 where
  pub csr_name_map : HashMap
  pub csr_index_map : HashMap

abbrev pub empty : CsrSet
empty = record { csr_name_map = []; csr_index_map = [] }

unfoldable pub insert_csr : Handle → CsrSet → CsrSet
insert_csr csr s = record {
  csr_index_map = (csr.index, csr) ∷ s.csr_index_map;
  csr_name_map = (csr.name, csr) ∷ s.csr_name_map;
}

-- AddCsr, of a pointer that may be null.
unfoldable pub add_csr : Option Handle → CsrSet → CsrSet × Status
add_csr none s = (s, invalid_argument)
add_csr (some csr) s = elim (find csr.index s.csr_index_map) [
  | some _ ↦ (s, already_exists)
  | none ↦ elim (find csr.name s.csr_name_map) [
    | some _ ↦ (s, already_exists)
    | none ↦ (insert_csr csr s, ok)
  ]
]

-- GetCsr, by name and by number.
unfoldable pub get_csr_name : ℕ → CsrSet → Option Handle
get_csr_name name s = find name s.csr_name_map

unfoldable pub get_csr : ℕ → CsrSet → Option Handle
get_csr index s = find index s.csr_index_map

unfoldable pub erase_csr : ℕ → ℕ → CsrSet → CsrSet
erase_csr index name s = record {
  csr_index_map = erase index s.csr_index_map;
  csr_name_map = erase name s.csr_name_map;
}

unfoldable pub remove_csr : ℕ → CsrSet → Option (CsrSet × Status)
remove_csr index s = elim (find index s.csr_index_map) [
  | none ↦ some (s, not_found)
  | some csr ↦ elim (find csr.name s.csr_name_map) [
    | none ↦ none
    | some _ ↦ some (erase_csr index csr.name s, ok)
  ]
]

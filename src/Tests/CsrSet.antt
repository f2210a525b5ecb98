-- ===== src/Tests/CsrSet.antt =====
-- The set of registers: riscv/riscv_csr.cc.
use mpact_riscv.Common.{◌≡◌, refl, some, none, List, [], ◌∷◌}
use mpact_riscv.Csr.Set.{Handle, CsrSet, empty, add_csr, find, insert_csr, get_csr, already_exists}
use mpact_riscv.Csr.Set.Run.{Event, added, removed, run, Agrees, run-Agrees}

abbrev mstatus : Handle
mstatus = record { address = 0; index = 0x300; name = 1 }

abbrev misa : Handle
misa = record { address = 1; index = 0x301; name = 2 }

abbrev calls : List Event
calls = added (some mstatus) ∷ added none ∷ added (some misa) ∷ removed 0x300 ∷ []

-- A register is not added again, and one that is removed is not found.
add_csr_runs :
    ((add_csr (some mstatus) (add_csr (some mstatus) empty).0).1 ≡ already_exists)
    × (get_csr 0x300 (add_csr (some mstatus) empty).0 ≡ some mstatus)
unfolding add_csr find insert_csr get_csr
add_csr_runs = (refl, refl)

run-Agrees_example : (s : CsrSet) × (run calls empty ≡ some s) × Agrees s
run-Agrees_example = run-Agrees calls

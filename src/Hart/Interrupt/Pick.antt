-- ===== src/Hart/Interrupt/Pick.antt =====
-- PickInterrupt takes the pending interrupt of the highest priority.
use mpact_riscv.Common.{
  sym, ◌∙◌, inr, inl, Bool-cases, ℕ, zero, suc, ◌≡◌, ◌≢◌, ◌≤◌, refl, arith, Bool, true, ◌||◌, ◌==◌,
  if◌then◌else◌,
}
use mpact_riscv.Bits.{bit, bit_ext, bit-zero}
use mpact_riscv.Words.Laws.{to_bool-one_hot}
use mpact_riscv.Hart.Code
use mpact_riscv.Hart.Interrupt.{has, pick_interrupt, xip_read_mask}

pub has-bit : (is c : ℕ) → has is c ≡ bit is c
unfolding has
has-bit is c = to_bool-one_hot is c

-- The interrupts that mip and mie can hold.
abbrev pub is_code : ℕ → Bool
is_code i =
    i == 0
    || (i == 1 || (i == 3 || (i == 4 || (i == 5 || (i == 7 || (i == 8 || (i == 9 || i == 11)))))))

pub bit-xip_read_mask : (i : ℕ) → bit xip_read_mask i ≡ true → is_code i ≡ true
unfolding bit
bit-xip_read_mask zero h = refl
bit-xip_read_mask (suc zero) h = refl
bit-xip_read_mask (suc (suc zero)) h = cc
bit-xip_read_mask (suc (suc (suc zero))) h = refl
bit-xip_read_mask (suc (suc (suc (suc zero)))) h = refl
bit-xip_read_mask (suc (suc (suc (suc (suc zero))))) h = refl
bit-xip_read_mask (suc (suc (suc (suc (suc (suc zero)))))) h = cc
bit-xip_read_mask (suc (suc (suc (suc (suc (suc (suc zero))))))) h = refl
bit-xip_read_mask (suc (suc (suc (suc (suc (suc (suc (suc zero)))))))) h = refl
bit-xip_read_mask (suc (suc (suc (suc (suc (suc (suc (suc (suc zero))))))))) h = refl
bit-xip_read_mask (suc (suc (suc (suc (suc (suc (suc (suc (suc (suc zero)))))))))) h = cc
bit-xip_read_mask (suc (suc (suc (suc (suc (suc (suc (suc (suc (suc (suc zero))))))))))) h = refl
bit-xip_read_mask (suc (suc (suc (suc (suc (suc (suc (suc (suc (suc (suc (suc i)))))))))))) h =
    cc (bit-zero i)

-- The order that the source states: mei, msi, mti, sei, ssi, sti, uei, usi, uti.
unfoldable pub rank : ℕ → ℕ
rank c =
    if c == Code.machine_external
    then 0
    else if c == Code.machine_software
    then 1
    else if c == Code.machine_timer
    then 2
    else if c == Code.supervisor_external
    then 3
    else if c == Code.supervisor_software
    then 4
    else if c == Code.supervisor_timer
    then 5
    else if c == Code.user_external
    then 6
    else if c == Code.user_software
    then 7
    else 8

-- Nothing but interrupt codes is set.
abbrev pub OnlyCodes : ℕ → Type 0
OnlyCodes is = (i : ℕ) → bit is i ≡ true → is_code i ≡ true

-- Of a set of interrupt codes in which some code is set, PickInterrupt returns one that is set, and
-- the first does not go before it in the order of priorities.
pub pick_interrupt_best :
    (is c : ℕ)
    → OnlyCodes is
    → bit is c ≡ true
    → (bit is (pick_interrupt is) ≡ true) × (rank (pick_interrupt is) ≤ rank c)
unfolding pick_interrupt rank
pick_interrupt_best is c only set = simp has-bit (ground (arith, only c set))

-- A set of interrupts that is not empty has a member.
pub nonempty-has : (is : ℕ) → is ≢ 0 → OnlyCodes is → bit is (pick_interrupt is) ≡ true
nonempty-has is h only = elim (Bool-cases (bit is (pick_interrupt is))) [
  | inl e ↦ e
  | inr e ↦
      let none_set : (i : ℕ) → bit is i ≡ bit 0 i = λ i. elim (Bool-cases (bit is i)) [
        | inl some_set ↦ cc ((pick_interrupt_best is i only some_set).0)
        | inr clear ↦ clear ∙ sym (bit-zero i)
      ] in
      absurd (h (bit_ext is 0 none_set))
]

-- ===== src/Integer/Target.antt =====
-- Where jumps and branches go.
use mpact_riscv.Common.{
  ℕ, ◌+◌, ◌-◌, ◌*◌, ◌/◌, ◌%◌, ◌^◌, ◌≤◌, ◌<◌, ◌≡◌, ◌≢◌, refl, ap, ◌∙◌, arith, Bool, true, false,
  ◌&&◌, ◌==◌, ◌/=◌, not, ltb, leb, if◌then◌else◌, bit_and, Option, some,
}
use native.Mathlib.Nat.{mod-lt, one-le-pow}
use mpact_riscv.Bits.{bit, bit_ext, bit-bit_and, bit-shl, bit-shr, bit-ones}
use mpact_riscv.Words.{IsWord, complement, of_bool}
use mpact_riscv.Words.Laws.{bit-above, bit-complement}
use mpact_riscv.Words.Halves.{bit_and-ones}
use mpact_riscv.Hart.Code
use mpact_riscv.Hart.Defs.{Hart, Env}
use mpact_riscv.Hart.Trap.{trap}
use mpact_riscv.Zicsr.{write_register}
use mpact_riscv.Bitmanip.{signed_ltb}
use mpact_riscv.Integer.{slt, sltu, add}
use mpact_riscv.Integer.Alu.{slt-sltu}
use mpact_riscv.Integer.Control.{
  Place, has_compressed, is_target_misaligned, set_pc, jump, jal, jalr, branch_to,
  branch_conditional, beq, bne, blt, bltu, bge, bgeu,
}

-- The last bit of a word cleared.
even_lem : (w x : ℕ) → IsWord w x → bit_and x (complement w 1) ≡ x / 2 * 2
even_lem w x word = bit_ext _ _ λ i.
    rw (bit-bit_and, bit-complement, bit-ones 1 i, bit-shl 1 (x / 2) i, bit-shr 1 x (i - 1))
      (ground (arith, bit-above w x i word, moved i))
  where
    moved : (i : ℕ) → 1 ≤ i → bit x (i - 1 + 1) ≡ bit x i
    moved i h = ap (bit x) (omega (arith, h))

-- A hart that jumped: the pc, the branch flag, the link register and the other registers.
pub record Jumped (rd target link : ℕ) (h r : Hart) : Type 0 where
  pub pc : r.regs.pc ≡ target
  pub branch : r.branch ≡ true
  pub linked : r.regs.x rd ≡ link
  pub kept : (n : ℕ) → n ≢ rd → r.regs.x n ≡ h.regs.x n

-- A jump to `target` from `place`, which a trap replaces if it is `misaligned`.
abbrev pub JumpsOrTraps : ℕ → Env → Place → ℕ → ℕ → Hart → Bool → Hart → Type 0
JumpsOrTraps w env place rd target h true r =
    r ≡ trap env false target Code.instruction_address_misaligned place.address h
JumpsOrTraps w env place rd target h false r =
    Jumped rd target ((place.address + place.size) % 2 ^ w) h r

abbrev pub JumpsTo : ℕ → Env → Option ℕ → Place → ℕ → ℕ → Hart → Hart → Type 0
JumpsTo w env misa place rd target h r =
    JumpsOrTraps w env place rd target h (not (has_compressed misa) && target % 4 /= 0) r

jump-JumpsTo :
    (w : ℕ) (env : Env) (get_misa : Hart → Option ℕ) (place : Place) (rd target : ℕ) (h : Hart)
    → JumpsTo w env (get_misa h) place rd target h (jump w env get_misa place rd target h)
unfolding jump is_target_misaligned set_pc write_register
jump-JumpsTo w env get_misa place rd target h =
    rw (bit_and-ones 2 target) (decided (not (has_compressed (get_misa h)) && target % 4 /= 0))
  where
    link : ℕ
    link = (place.address + place.size) % 2 ^ w

    decided :
        (misaligned : Bool)
        → JumpsOrTraps w env place rd target h misaligned (
            if misaligned
            then trap env false target Code.instruction_address_misaligned place.address h
            else write_register rd link (set_pc target h))
    decided true = refl
    decided false = record {
      pc = refl;
      branch = refl;
      linked = ground arith;
      kept = λ n other. ground (arith, other);
    }

-- JAL goes to the sum of the offset and its own address, and JALR to that of the offset and the base
-- register, with the last bit cleared: the link register gets the address of the next instruction and the
-- other registers are kept. If misa is not found or has no compressed instructions, and the target is not
-- a multiple of 4, a misaligned address trap with the target as its value is all that happens.
pub jal-JumpsTo :
    (w : ℕ) (env : Env) (get_misa : Hart → Option ℕ) (place : Place) (rd rs offset : ℕ) (h : Hart)
    → JumpsTo w env
        (get_misa h)
        place
        rd
        ((offset + place.address) % 2 ^ w / 2 * 2)
        h
        (jal w env get_misa place rd offset h)
      × JumpsTo w env
          (get_misa h)
          place
          rd
          ((offset + h.regs.x rs) % 2 ^ w / 2 * 2)
          h
          (jalr w env get_misa place rd rs offset h)
unfolding jal jalr
jal-JumpsTo w env get_misa place rd rs offset h = (
  rw
      (even_lem w ((offset + place.address) % 2 ^ w)
        (mod-lt _ {m = 2 ^ w} (one-le-pow w 2 (omega arith))))
      (jump-JumpsTo w env get_misa place rd _ h),
  rw
      (even_lem w ((offset + h.regs.x rs) % 2 ^ w)
        (mod-lt _ {m = 2 ^ w} (one-le-pow w 2 (omega arith))))
      (jump-JumpsTo w env get_misa place rd _ h),
)

signed_order :
    (w a b : ℕ)
    → 0 < w
    → IsWord w a
    → IsWord w b
    → signed_ltb w a b ≡ ltb (add w a (2 ^ (w - 1))) (add w b (2 ^ (w - 1)))
unfolding slt sltu
signed_order w a b wide a_word b_word = same_test _ _ (slt-sltu w a b wide a_word b_word).0
  where
    same_test : (c d : Bool) → of_bool c ≡ of_bool d → c ≡ d
    same_test true true e = refl
    same_test true false e = absurd (omega (arith, e))
    same_test false true e = absurd (omega (arith, e))
    same_test false false e = refl

module _ (w : ℕ) (env : Env) (get_misa : Hart → Option ℕ) (place : Place) (rs₁ rs₂ offset : ℕ)
    (h : Hart) where
  -- What a branch does if it is taken.
  abbrev pub taken : Option Hart
  taken = branch_to env place ((offset + place.address) % 2 ^ w) (get_misa h) h

  -- On registers that hold words of `w` bits, BEQ, BLTU and BLT are taken when the first operand is equal to
  -- the second one, less than it, and less than it after half of the range is added to both; BNE, BGEU and
  -- BGE are taken exactly when those are not. A branch that is not taken changes nothing.
  pub branches :
      0 < w
      → IsWord w (h.regs.x rs₁)
      → IsWord w (h.regs.x rs₂)
      → let a = h.regs.x rs₁ in
        let b = h.regs.x rs₂ in
        let half = 2 ^ (w - 1) in
        let less = ltb (add w a half) (add w b half) in
        (beq w env get_misa place rs₁ rs₂ offset h ≡ (if a == b then taken else some h))
        × (bne w env get_misa place rs₁ rs₂ offset h ≡ (if a == b then some h else taken))
        × (bltu w env get_misa place rs₁ rs₂ offset h ≡ (if ltb a b then taken else some h))
        × (bgeu w env get_misa place rs₁ rs₂ offset h ≡ (if ltb a b then some h else taken))
        × (blt w env get_misa place rs₁ rs₂ offset h ≡ (if less then taken else some h))
        × (bge w env get_misa place rs₁ rs₂ offset h ≡ (if less then some h else taken))
  unfolding beq bne bltu bgeu blt bge branch_conditional
  branches wide a_word b_word =
      let a = h.regs.x rs₁ in
      let b = h.regs.x rs₂ in
      let signed = signed_order w a b wide a_word b_word in
      (
        refl,
        ap (λ c. if c then taken else some h) (distinct a b) ∙ chosen (a == b),
        refl,
        ap (λ c. if c then taken else some h) (reversed a b) ∙ chosen (ltb a b),
        ap (λ c. if c then taken else some h) signed,
        ap (λ c. if not c then taken else some h) signed ∙ chosen _,
      )
    where
      chosen : (c : Bool) → (if not c then taken else some h) ≡ (if c then some h else taken)
      chosen true = refl
      chosen false = refl

      distinct : (a b : ℕ) → (a /= b) ≡ not (a == b)
      distinct a b = ground arith

      reversed : (a b : ℕ) → leb b a ≡ not (ltb a b)
      reversed a b = ground arith

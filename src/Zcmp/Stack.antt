-- ===== src/Zcmp/Stack.antt =====
-- A push and the pop of the same registers.
use mpact_riscv.Common.{
  Bool-cases, inl, inr, ℕ, suc, ◌+◌, ◌-◌, ◌*◌, ◌/◌, ◌%◌, ◌^◌, ◌≤◌, ◌<◌, ◌≡◌, refl, ap, ap₂, subst,
  ◌∙◌, arith, true, false, ◌==◌, ltb, if◌then◌else◌, List, [], ◌∷◌, map,
}
use native.Mathlib.Nat.{
  mod-lt, mod-add-div', one-le-pow, div-eq_of_lt, add-mul-div_left, mul-le-mul_right,
}
use mpact_riscv.Words.{IsWord}
use mpact_riscv.Hart.Defs.{Hart, Env}
use mpact_riscv.Muldiv.High.{pow_add}
use mpact_riscv.Muldiv.Signed.{mod_unique}
use mpact_riscv.Zicsr.{write_register}
use mpact_riscv.Integer.Control.{Place}
use mpact_riscv.Integer.Memory.{System, MemoryOps, load_memory, store_memory}
use mpact_riscv.Integer.Access.{StoresWords}
use mpact_riscv.Zcmp.{from_words, to_words, count, write_all, push, pop, k_stack_adj_base}

module _ (w : ℕ) (x : ℕ → ℕ) (words : (r : ℕ) → IsWord w (x r)) where
  -- The words of the number of a list of words.
  to_words-from_words :
      (regs : List ℕ) → to_words w (count regs) (from_words w (map x regs)) ≡ map x regs
  to_words-from_words [] = refl
  to_words-from_words (r ∷ rs) =
      let v = from_words w (map x rs) in
      let low : (x r + v * 2 ^ w) % 2 ^ w ≡ x r =
        mod_unique (2 ^ w) _ _ 0 v (omega arith) (words r) in
      let high : (x r + v * 2 ^ w) / 2 ^ w ≡ v =
        let swapped : v * 2 ^ w ≡ 2 ^ w * v = omega arith in
        ap (λ t. (x r + t) / 2 ^ w) swapped
        ∙ add-mul-div_left (x r) v (one-le-pow w 2 (omega arith))
        ∙ omega (arith, div-eq_of_lt (words r)) in
      ap₂ ◌∷◌ low (ap (to_words w (count rs)) high ∙ to_words-from_words rs)

  from_words-lt : (regs : List ℕ) → from_words w (map x regs) < 2 ^ (w * count regs)
  from_words-lt [] = one-le-pow (w * 0) 2 (omega arith)
  from_words-lt (r ∷ rs) =
      let v = from_words w (map x rs) in
      let longer : 2 ^ (w * suc (count rs)) ≡ 2 ^ w * 2 ^ (w * count rs) =
        ap (λ k. 2 ^ k) (omega arith) ∙ pow_add w (w * count rs) in
      let below : suc v * 2 ^ w ≤ 2 ^ (w * count rs) * 2 ^ w =
        mul-le-mul_right (2 ^ w) (from_words-lt rs) in
      omega (arith, words r, longer, below)

  -- Writes of the values that registers had: each register that has its value keeps it.
  write_all-same :
      (regs : List ℕ) (h : Hart) (n : ℕ)
      → h.regs.x n ≡ x n
      → (write_all regs (map x regs) h).regs.x n ≡ x n
  unfolding write_all write_register
  write_all-same [] h n same = same
  write_all-same (r ∷ rs) h n same =
      write_all-same rs (write_register r (x r) h) n (ground (arith, same, ap x))

-- An adjustment of the stack pointer and back.
adjust_back : (w a d : ℕ) → IsWord w a → IsWord w d → ((a + (2 ^ w - d)) % 2 ^ w + d) % 2 ^ w ≡ a
adjust_back w a d a_word d_word =
    mod_unique (2 ^ w) _ a ((a + (2 ^ w - d)) / 2 ^ w) 1
      (omega (arith, mod-add-div' (a + (2 ^ w - d)) (2 ^ w), d_word)) a_word

module _ {M : Type 0} (w : ℕ) (ops : MemoryOps M) (env : Env) where
  push-within :
      (place : Place) (sp : ℕ) (regs : List ℕ) (rlist spimm6 : ℕ) (s : System M)
      → let x = s.hart.regs.x in
        let size = w / 8 * count regs in
        let address = (x sp + (2 ^ 64 - size)) % 2 ^ 64 in
        let adjustment = (spimm6 + k_stack_adj_base w rlist) % 2 ^ w in
        address ≤ s.max_physical_address
        → push w ops env place sp regs rlist spimm6 s ≡ record s {
          memory = ops.store address size (from_words w (map x regs)) s.memory;
          hart = write_register sp ((x sp + (2 ^ w - adjustment)) % 2 ^ w) s.hart;
        }
  unfolding push store_memory
  push-within place sp regs rlist spimm6 s within =
      let address = (s.hart.regs.x sp + (2 ^ 64 - w / 8 * count regs)) % 2 ^ 64 in
      let allowed : ltb s.max_physical_address address ≡ false = ground (arith, within) in
      rw allowed refl

  pop-within :
      (place : Place) (garbage sp : ℕ) (regs : List ℕ) (rlist spimm6 : ℕ) (s : System M)
      (new_sp : ℕ)
      → (s.hart.regs.x sp + (spimm6 + k_stack_adj_base w rlist) % 2 ^ w) % 2 ^ w ≡ new_sp
      → let size = w / 8 * count regs in
        let address = (new_sp + (2 ^ 64 - size)) % 2 ^ 64 in
        address ≤ s.max_physical_address
        → pop w ops env place garbage sp regs rlist spimm6 s ≡ record s {
          hart =
              write_register sp new_sp
                (write_all regs (to_words w (count regs) (ops.load address size s.memory)) s.hart);
        }
  unfolding pop load_memory
  pop-within place garbage sp regs rlist spimm6 s new_sp moved within =
      let address = (new_sp + (2 ^ 64 - w / 8 * count regs)) % 2 ^ 64 in
      let allowed : ltb s.max_physical_address address ≡ false = ground (arith, within) in
      rw (moved, allowed) refl

  -- A push within the bound, followed by the pop of the same list of registers with the same adjustment,
  -- leaves every register as it was, on a hart whose registers hold words and whose width is a number of
  -- bytes.
  pub pop-push :
      (push_place pop_place : Place) (garbage sp : ℕ) (regs : List ℕ) (rlist spimm6 : ℕ)
      (s : System M) (n : ℕ)
      → StoresWords ops env
      → w % 8 ≡ 0
      → ((r : ℕ) → IsWord w (s.hart.regs.x r))
      → (s.hart.regs.x sp + (2 ^ 64 - w / 8 * count regs)) % 2 ^ 64 ≤ s.max_physical_address
      → let pushed = push w ops env push_place sp regs rlist spimm6 s in
        (pop w ops env pop_place garbage sp regs rlist spimm6 pushed).hart.regs.x n
        ≡ s.hart.regs.x n
  unfolding write_register
  pop-push push_place pop_place garbage sp regs rlist spimm6 s n laws bytes words within =
      let size = w / 8 * count regs in
      let x = s.hart.regs.x in
      let address = (x sp + (2 ^ 64 - size)) % 2 ^ 64 in
      let base = spimm6 + k_stack_adj_base w rlist in
      let adjustment = base % 2 ^ w in
      let lowered = (x sp + (2 ^ w - adjustment)) % 2 ^ w in
      let back =
        adjust_back w (x sp) adjustment (words sp)
          (mod-lt base {m = 2 ^ w} (one-le-pow w 2 (omega arith))) in
      let same : (sp == sp) ≡ true = ground arith in
      let value = from_words w (map x regs) in
      let pushed_hart = write_register sp lowered s.hart in
      let pushed : System M = record s {
        memory = ops.store address size value s.memory;
        hart = pushed_hart;
      } in
      let moved : (pushed_hart.regs.x sp + adjustment) % 2 ^ w ≡ x sp = rw same back in
      let w_bytes : w ≡ 8 * (w / 8) = omega (arith, bytes) in
      let bits : w * count regs ≡ 8 * size = ap (λ t. t * count regs) w_bytes ∙ omega arith in
      let word : IsWord (8 * size) value =
        subst (λ k. value < 2 ^ k) bits (from_words-lt w x words regs) in
      let loaded : to_words w (count regs) (ops.load address size pushed.memory) ≡ map x regs =
        ap (to_words w (count regs)) (laws.load-store address size value s.memory word)
        ∙ to_words-from_words w x words regs in
      let kept : (if n == sp then x sp else (write_all regs (map x regs) pushed_hart).regs.x n)
          ≡ x n =
        elim (Bool-cases (n == sp)) [
          | inl e ↦ ground (arith, e, ap x)
          | inr e ↦ rw e (write_all-same w x words regs pushed_hart n (rw e refl))
        ] in
      ap (λ t. (pop w ops env pop_place garbage sp regs rlist spimm6 t).hart.regs.x n)
        (push-within push_place sp regs rlist spimm6 s within)
      ∙ ap (λ t. t.hart.regs.x n)
          (pop-within pop_place garbage sp regs rlist spimm6 pushed (x sp) moved within)
      ∙ ap (λ vs. if n == sp then x sp else (write_all regs vs pushed_hart).regs.x n) loaded
      ∙ kept

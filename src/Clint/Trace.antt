-- ===== src/Clint/Trace.antt =====
-- The controller over any sequence of the calls that other parts make of it.
use mpact_riscv.Common.{ℕ, ◌≡◌, arith, ◌||◌, ◌==◌, Bool, true, false, bit_and, List, [], ◌∷◌}
use mpact_riscv.Words.{u8, u16, u32}
use mpact_riscv.Clint.Lines.{MipLines}
use mpact_riscv.Clint.{
  Clint, set_value, write_msip, write_mtimecmp_low, write_mtimecmp_high, create, reset, write,
  store,
}
use mpact_riscv.Clint.Timer.{set_value-InStep}
use mpact_riscv.Clint.Wired.{
  InStep, refresh-InStep, IsWired, set_value-IsWired, store-IsWired, reset-IsWired, create-IsWired,
}

-- A change of the cycle counter, a store of `size` bytes, and a reset.
pub data Event : Type 0 where
  counted : Event
  stored : ℕ → ℕ → ℕ → Event
  was_reset : Event

-- Whether the event writes mtime from outside.
abbrev pub sets_mtime : Event → Bool
sets_mtime counted = false
sets_mtime (stored address size word) =
    let offset = u32 (bit_and address 0xffff) in offset == 0xbff8 || offset == 0xbffc
sets_mtime was_reset = true

abbrev pub NoneSetsMtime : List Event → Type 0
NoneSetsMtime [] = Unit
NoneSetsMtime (e ∷ es) = (sets_mtime e ≡ false) × NoneSetsMtime es

module _ {S : Type 0} (lines : MipLines S) where
  unfoldable pub apply : Event → Clint → S → Clint × S
  apply counted c s = set_value lines c s
  apply (stored address size word) c s = store lines address size word c s
  apply was_reset c s = reset lines c s

  unfoldable pub run : List Event → Clint → S → Clint × S
  run [] c s = (c, s)
  run (e ∷ es) c s = let (c', s') = apply e c s in run es c' s'

  apply-IsWired :
      (e : Event) (c : Clint) (s : S)
      → IsWired lines c s
      → IsWired lines (apply e c s).0 (apply e c s).1
  unfolding apply
  apply-IsWired counted c s w = set_value-IsWired lines c s w
  apply-IsWired (stored address size word) c s w = store-IsWired lines address size word c s w
  apply-IsWired was_reset c s w = reset-IsWired lines c s w

  run_from-IsWired :
      (es : List Event) (c : Clint) (s : S)
      → IsWired lines c s
      → IsWired lines (run es c s).0 (run es c s).1
  unfolding run
  run_from-IsWired [] c s w = w
  run_from-IsWired (e ∷ es) c s w =
      run_from-IsWired es (apply e c s).0 (apply e c s).1 (apply-IsWired e c s w)

  -- From its construction on, over lines that are ready, whatever counter changes, stores and resets
  -- follow: the timer line is the low bit of mtip and the software line the low bit of msip.
  pub run-IsWired :
      (period : ℕ) (es : List Event) (s : S)
      → lines.IsReady s
      → let c = create lines period s in IsWired lines (run es c.0 c.1).0 (run es c.0 c.1).1
  run-IsWired period es s r =
      let c = create lines period s in run_from-IsWired es c.0 c.1 (create-IsWired lines period s r)

  low-InStep : (v : ℕ) (c : Clint) (s : S) → InStep (write_mtimecmp_low lines v c s).0
  unfolding write_mtimecmp_low
  low-InStep v c s = refresh-InStep lines _ s

  high-InStep : (v : ℕ) (c : Clint) (s : S) → InStep (write_mtimecmp_high lines v c s).0
  unfolding write_mtimecmp_high
  high-InStep v c s = refresh-InStep lines _ s

  write-InStep :
      (offset value : ℕ) (c : Clint) (s : S)
      → (offset == 0xbff8 || offset == 0xbffc) ≡ false
      → InStep c
      → InStep (write lines offset value c s).0
  unfolding write write_msip
  write-InStep offset value c s other h =
      ground (arith, low-InStep value c s, high-InStep value c s)

  apply-InStep :
      (e : Event) (c : Clint) (s : S) → sets_mtime e ≡ false → InStep c → InStep (apply e c s).0
  unfolding apply store
  apply-InStep counted c s quiet h = set_value-InStep lines c s h
  apply-InStep (stored address size word) c s quiet h =
      let offset = u32 (bit_and address 0xffff) in
      ground (
        arith,
        write-InStep offset (u8 word) c s quiet h,
        write-InStep offset (u16 word) c s quiet h,
        write-InStep offset (u32 word) c s quiet h,
      )
  apply-InStep was_reset c s quiet h = cc

  run_from-InStep :
      (es : List Event) (c : Clint) (s : S) → NoneSetsMtime es → InStep c → InStep (run es c s).0
  unfolding run
  run_from-InStep [] c s quiet h = h
  run_from-InStep (e ∷ es) c s quiet h =
      run_from-InStep es (apply e c s).0 (apply e c s).1 quiet.1 (apply-InStep e c s quiet.0 h)

  create-InStep : (period : ℕ) (s : S) → InStep (create lines period s).0
  unfolding create
  create-InStep period s = refresh-InStep lines _ _

  -- From its construction on, over counter changes and stores that are not to mtime, mtip tells
  -- whether mtime has reached mtimecmp.
  pub run-InStep :
      (period : ℕ) (es : List Event) (s : S)
      → NoneSetsMtime es
      → let c = create lines period s in InStep (run es c.0 c.1).0
  run-InStep period es s quiet =
      let c = create lines period s in run_from-InStep es c.0 c.1 quiet (create-InStep period s)

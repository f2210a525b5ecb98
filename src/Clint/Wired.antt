-- ===== src/Clint/Wired.antt =====
-- The lines of the controller: the hart's pending bits agree with msip and mtip whatever is run, and
-- mtip agrees with the comparison of the timer where the controller compares.
use mpact_riscv.Common.{sym, ℕ, ◌≡◌, refl, arith, ap, ◌∙◌, leb, bit_and, ◌+◌}
use mpact_riscv.Bits.{bit, bit-bit_and}
use mpact_riscv.Words.{of_bool, u64, u32, u16, u8}
use mpact_riscv.Hart.Status.Fields.{bit-one}
use mpact_riscv.Clint.Lines.{MipLines}
use mpact_riscv.Clint.{
  Clint, refresh, set_value, write_msip, write_mtime_low, write_mtime_high, write_mtimecmp_low,
  write_mtimecmp_high, create, reset, write, store,
}

-- mtip is the result of the comparison.
abbrev pub InStep : Clint → Type 0
InStep c = c.mtip ≡ of_bool (leb c.mtimecmp c.mtime)

module _ {S : Type 0} (lines : MipLines S) where
  pub record IsWired (c : Clint) (s : S) : Type 0 where
    pub ready : lines.IsReady s
    pub timer_is : lines.timer s ≡ bit c.mtip 0
    pub software_is : lines.software s ≡ bit c.msip 0

  pub refresh-InStep : (c : Clint) (s : S) → InStep (refresh lines c s).0
  unfolding refresh
  refresh-InStep c s = ground arith

  -- What the controller sends to the timer line is the low bit of the new mtip.
  refresh-IsWired :
      (c : Clint) (s : S) → IsWired c s → IsWired (refresh lines c s).0 (refresh lines c s).1
  unfolding refresh
  refresh-IsWired c s w =
      let v = of_bool (leb c.mtimecmp c.mtime) in
      ground (
        arith,
        lines.set_mtip-IsReady v s w.ready,
        lines.timer-set_mtip v s w.ready,
        lines.software-set_mtip v s w.ready,
      )

  -- IsWired reads mtip and msip only.
  same_wires : (c d : Clint) (s : S) → c.mtip ≡ d.mtip → c.msip ≡ d.msip → IsWired c s → IsWired d s
  same_wires c d s t m w = record {
    ready = w.ready;
    timer_is = w.timer_is ∙ ap (λ x. bit x 0) t;
    software_is = w.software_is ∙ ap (λ x. bit x 0) m;
  }

  pub set_value-IsWired :
      (c : Clint) (s : S) → IsWired c s → IsWired (set_value lines c s).0 (set_value lines c s).1
  unfolding set_value
  set_value-IsWired c s w =
      let counted : Clint = record c { update_counter = c.update_counter + 1 } in
      let ticked : Clint = record c { update_counter = 0; mtime = u64 (c.mtime + 1) } in
      ground (
        arith,
        same_wires c counted s refl refl w,
        refresh-IsWired ticked s (same_wires c ticked s refl refl w),
      )

  low_bit : (v : ℕ) → bit (bit_and (bit_and v 1) 1) 0 ≡ bit (bit_and v 1) 0
  low_bit v = simp (bit-bit_and, bit-one) (ground arith)

  write_msip-IsWired :
      (value : ℕ) (c : Clint) (s : S)
      → IsWired c s
      → IsWired (write_msip lines value c s).0 (write_msip lines value c s).1
  unfolding write_msip
  write_msip-IsWired value c s w =
      let v = bit_and (bit_and value 1) 1 in
      record {
        ready = lines.set_msip-IsReady v s w.ready;
        timer_is = lines.timer-set_msip v s w.ready ∙ w.timer_is;
        software_is = lines.software-set_msip v s w.ready ∙ low_bit value;
      }

  write_mtimecmp_low-IsWired :
      (value : ℕ) (c : Clint) (s : S)
      → IsWired c s
      → IsWired (write_mtimecmp_low lines value c s).0 (write_mtimecmp_low lines value c s).1
  unfolding write_mtimecmp_low
  write_mtimecmp_low-IsWired value c s w = refresh-IsWired _ s (same_wires c _ s refl refl w)

  write_mtimecmp_high-IsWired :
      (value : ℕ) (c : Clint) (s : S)
      → IsWired c s
      → IsWired (write_mtimecmp_high lines value c s).0 (write_mtimecmp_high lines value c s).1
  unfolding write_mtimecmp_high
  write_mtimecmp_high-IsWired value c s w = refresh-IsWired _ s (same_wires c _ s refl refl w)

  write-IsWired :
      (offset value : ℕ) (c : Clint) (s : S)
      → IsWired c s
      → IsWired (write lines offset value c s).0 (write lines offset value c s).1
  unfolding write write_mtime_low write_mtime_high
  write-IsWired offset value c s w = ground (
    arith,
    write_msip-IsWired value c s w,
    write_mtimecmp_low-IsWired value c s w,
    write_mtimecmp_high-IsWired value c s w,
    w,
  )

  pub store-IsWired :
      (address size word : ℕ) (c : Clint) (s : S)
      → IsWired c s
      → IsWired (store lines address size word c s).0 (store lines address size word c s).1
  unfolding store
  store-IsWired address size word c s w =
      let offset = u32 (bit_and address 0xffff) in
      ground (
        arith,
        write-IsWired offset (u8 word) c s w,
        write-IsWired offset (u16 word) c s w,
        write-IsWired offset (u32 word) c s w,
      )

  pub reset-IsWired :
      (c : Clint) (s : S) → IsWired c s → IsWired (reset lines c s).0 (reset lines c s).1
  unfolding reset write_mtime_low write_mtime_high
  reset-IsWired c s w = write_msip-IsWired 0 _ s (same_wires c _ s refl refl w)

  refresh-IsReady : (c : Clint) (s : S) → lines.IsReady s → lines.IsReady (refresh lines c s).1
  unfolding refresh
  refresh-IsReady c s r =
      ground (arith, lines.set_mtip-IsReady (of_bool (leb c.mtimecmp c.mtime)) s r)

  set_value-IsReady : (c : Clint) (s : S) → lines.IsReady s → lines.IsReady (set_value lines c s).1
  unfolding set_value
  set_value-IsReady c s r =
      ground
        (arith, refresh-IsReady (record c { update_counter = 0; mtime = u64 (c.mtime + 1) }) s r)

  set_value_msip : (c : Clint) (s : S) → (set_value lines c s).0.msip ≡ c.msip
  unfolding set_value refresh
  set_value_msip c s = ground arith

  zero_bit : bit (bit_and 0 1) 0 ≡ bit 0 0
  unfolding bit
  zero_bit = refl

  -- A new controller has set both lines, and compared.
  pub create-IsWired :
      (period : ℕ) (s : S)
      → lines.IsReady s
      → IsWired (create lines period s).0 (create lines period s).1
  unfolding create
  create-IsWired period s r =
      let zeros : Clint = record {
        msip = 0;
        mtime = 0;
        mtimecmp = 0;
        mtip = 0;
        update_counter = 0;
        period = period;
      } in
      let c₁ = (set_value lines zeros s).0 in
      let s₁ = (set_value lines zeros s).1 in
      let r₁ = set_value-IsReady zeros s r in
      let s₂ = lines.set_mtip c₁.mtip s₁ in
      let r₂ = lines.set_mtip-IsReady c₁.mtip s₁ r₁ in
      let v = bit_and c₁.msip 1 in
      let no_msip : c₁.msip ≡ 0 = set_value_msip zeros s in
      refresh-IsWired c₁ (lines.set_msip v s₂) (record {
        ready = lines.set_msip-IsReady v s₂ r₂;
        timer_is = lines.timer-set_msip v s₂ r₂ ∙ lines.timer-set_mtip c₁.mtip s₁ r₁;
        software_is =
            lines.software-set_msip v s₂ r₂
            ∙ ap (λ x. bit (bit_and x 1) 0) no_msip
            ∙ zero_bit
            ∙ ap (λ x. bit x 0) (sym no_msip);
      })

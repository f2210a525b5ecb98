-- ===== src/Clint/Timer.antt =====
-- The timer: how mtime follows the cycle counter, and when mtip agrees with the comparison.
use native.Mathlib.Nat.{add-div_left, add-mod_left, add-zero, div-eq_of_lt, mod-eq_of_lt}
use mpact_riscv.Common.{
  sym, ℕ, zero, suc, ◌+◌, ◌/◌, ◌%◌, ◌^◌, ◌<◌, ◌≡◌, arith, ap, ◌∙◌, leb, if◌then◌else◌,
}
use mpact_riscv.Words.{u64, of_bool}
use mpact_riscv.Clint.Lines.{MipLines}
use mpact_riscv.Clint.{Clint, refresh, set_value}
use mpact_riscv.Clint.Wired.{InStep, refresh-InStep}

module _ {S : Type 0} (lines : MipLines S) where
  -- The controller after `n` changes of the cycle counter.
  unfoldable pub count : ℕ → Clint → S → Clint × S
  count zero c s = (c, s)
  count (suc n) c s = let (c', s') = set_value lines c s in count n c' s'

  refresh_counts :
      (c : Clint) (s : S)
      → ((refresh lines c s).0.mtime ≡ c.mtime)
        × ((refresh lines c s).0.update_counter ≡ c.update_counter)
        × ((refresh lines c s).0.period ≡ c.period)
        × ((refresh lines c s).0.mtimecmp ≡ c.mtimecmp)
  unfolding refresh
  refresh_counts c s = ground arith

  -- The counter runs below the period.
  pub record IsCounting (c : Clint) : Type 0 where
    pub runs : c.update_counter < c.period
    pub mtime_fits : c.mtime < 2 ^ 64
    pub in_step : InStep c

  -- One change of the cycle counter.
  pub record Ticked (c d : Clint) : Type 0 where
    pub counted :
        d.update_counter ≡ (if leb c.period (c.update_counter + 1) then 0 else c.update_counter + 1)
    pub time :
        d.mtime ≡ (if leb c.period (c.update_counter + 1) then (c.mtime + 1) % 2 ^ 64 else c.mtime)
    pub same_period : d.period ≡ c.period
    pub same_mtimecmp : d.mtimecmp ≡ c.mtimecmp

  set_value-Ticked : (c : Clint) (s : S) → Ticked c (set_value lines c s).0
  unfolding set_value
  set_value-Ticked c s =
      ground (arith, refresh_counts (record c { update_counter = 0; mtime = u64 (c.mtime + 1) }) s)

  pub set_value-InStep : (c : Clint) (s : S) → InStep c → InStep (set_value lines c s).0
  unfolding set_value
  set_value-InStep c s h =
      ground
        (arith, refresh-InStep lines (record c { update_counter = 0; mtime = u64 (c.mtime + 1) }) s)

  set_value-IsCounting : (c : Clint) (s : S) → IsCounting c → IsCounting (set_value lines c s).0
  set_value-IsCounting c s h = ground (arith, set_value-Ticked c s, set_value-InStep c s h.in_step)

  -- One change and then `n` more, in numbers: `k` is the update counter and `p` the period.
  one_more :
      (t k n p : ℕ)
      → k < p
      → t < 2 ^ 64
      → let k' = if leb p (k + 1) then 0 else k + 1 in
        let t' = if leb p (k + 1) then (t + 1) % 2 ^ 64 else t in
        ((t' + (k' + n) / p) % 2 ^ 64 ≡ (t + (k + suc n) / p) % 2 ^ 64)
        × ((k' + n) % p ≡ (k + suc n) % p)
  one_more t k n p lt fits =
      ground (arith, add-div_left n {k = p} (omega arith), add-mod_left p n, around, next)
    where
      around : p ≡ k + 1 → k + suc n ≡ p + n
      around e = omega arith

      next : k + suc n ≡ k + 1 + n
      next = omega arith

  -- After n changes of the counter, from a state in which the update counter is below the period,
  -- mtime is a word and mtip is the result of the comparison: mtime has gone up by one for each
  -- period, wherever in a period the changes began, the update counter is the rest, and mtip is the
  -- result of the comparison again.
  pub count-mtime :
      (n : ℕ) (c : Clint) (s : S)
      → IsCounting c
      → let d = (count n c s).0 in
        (d.mtime ≡ (c.mtime + (c.update_counter + n) / c.period) % 2 ^ 64)
        × (d.update_counter ≡ (c.update_counter + n) % c.period)
        × (d.mtip ≡ of_bool (leb c.mtimecmp d.mtime))
  unfolding count
  count-mtime zero c s h =
      let none_done : (c.update_counter + 0) / c.period ≡ 0 =
        ap (λ x. x / c.period) (add-zero c.update_counter) ∙ div-eq_of_lt h.runs in
      let same : (c.update_counter + 0) % c.period ≡ c.update_counter =
        ap (λ x. x % c.period) (add-zero c.update_counter) ∙ mod-eq_of_lt h.runs in
      (omega (arith, none_done), sym same, h.in_step)
  count-mtime (suc n) c s h =
      let d = (set_value lines c s).0 in
      let step = set_value-Ticked c s in
      let rest = count-mtime n d (set_value lines c s).1 (set_value-IsCounting c s h) in
      ground (arith, step, rest, one_more c.mtime c.update_counter n c.period h.runs h.mtime_fits)

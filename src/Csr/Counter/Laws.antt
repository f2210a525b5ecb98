-- ===== src/Csr/Counter/Laws.antt =====
-- Round trips of the counter registers.
use mpact_riscv.Words.{u64, u32}
use mpact_riscv.Common.{
  ap, ℕ, ◌+◌, ◌*◌, ◌/◌, ◌%◌, ◌^◌, ◌<◌, ◌≡◌, arith, some, bit_or, ◌⊎◌, inl, inr,
}
use mpact_riscv.Words.Laws.{bit_or-shl}
use mpact_riscv.Csr.Counter.{
  sub, u64, u32, CounterCsr, CounterPair, counter_value, counter_get_uint64, counter_set,
  performance_set, high_get_uint32, high_set, performance_high_set, carry, bound_value,
}

abbrev pub HasWidth : CounterCsr → Type 0
HasWidth c = (c.width ≡ 32) ⊎ (c.width ≡ 64)

-- A counter register reads the value that was written to it.
pub counter_get_uint64-counter_set :
    (c : CounterCsr) (v : ℕ)
    → HasWidth c
    → v < 2 ^ c.width
    → counter_get_uint64 (counter_set c v) ≡ v
unfolding counter_get_uint64 counter_set counter_value
counter_get_uint64-counter_set c v (inl e) h =
    let fits : v < 2 ^ 32 = rw e at h in rw e (omega arith)
counter_get_uint64-counter_set c v (inr e) h =
    let fits : v < 2 ^ 64 = rw e at h in rw e (omega arith)

-- The bound counter moves on by one.
abbrev pub tick : CounterCsr → ℕ → CounterCsr
tick c n = record c { counter = some ((n + 1) % 2 ^ 64) }

-- A performance counter of 32 or 64 bits that is bound to a counter reads the written word once the
-- writing instruction has been counted.
pub performance_set-tick :
    (c : CounterCsr) (n v : ℕ)
    → HasWidth c
    → n < 2 ^ 64
    → c.counter ≡ some n
    → v < 2 ^ c.width
    → counter_get_uint64 (tick (performance_set c v) n) ≡ v
unfolding counter_get_uint64 performance_set counter_set counter_value
performance_set-tick c n v (inl e) b bound h =
    let fits : v < 2 ^ 32 = rw e at h in rw (e, bound) (omega arith)
performance_set-tick c n v (inr e) b bound h =
    let fits : v < 2 ^ 64 = rw e at h in rw (e, bound) (omega arith)

-- The upper half of a 64-bit counter value with an offset.
high_as_sum :
    (p : CounterPair)
    → p.low.offset < 2 ^ 32
    → high_get_uint32 p
      ≡ u32 (
          u64 (bound_value p.high_counter + (u64 (p.high_offset * 2 ^ 32) + p.low.offset)) / 2 ^ 32)
unfolding high_get_uint32
high_as_sum p l =
    let shifted : u64 (p.high_offset * 2 ^ 32) ≡ p.high_offset % 2 ^ 32 * 2 ^ 32 = omega arith in
    omega (
      arith,
      ap (λ (t : ℕ). bit_or t p.low.offset) shifted,
      bit_or-shl 32 (p.high_offset % 2 ^ 32) p.low.offset l,
    )

-- The upper half reads the written value, whatever the lower half carries into it.
pub high_get_uint32-high_set :
    (p : CounterPair) (v : ℕ)
    → bound_value p.high_counter < 2 ^ 64
    → p.low.offset < 2 ^ 32
    → v < 2 ^ 32
    → high_get_uint32 (high_set p v) ≡ v
unfolding high_set carry
high_get_uint32-high_set p v b l h = ground (arith, high_as_sum (high_set p v) l)

abbrev pub tick_pair : CounterPair → ℕ → CounterPair
tick_pair p n = record {
  low = tick p.low n;
  high_counter = some ((n + 1) % 2 ^ 64);
  high_offset = p.high_offset;
}

-- One step of the counter makes up for one step of the offset.
low_after_tick :
    (c : CounterCsr) (n : ℕ)
    → c.width ≡ 32
    → n < 2 ^ 64
    → c.counter ≡ some n
    → c.offset < 2 ^ 32
    → counter_get_uint64 (tick (record c { offset = sub 32 c.offset 1 }) n) ≡ counter_get_uint64 c
unfolding counter_get_uint64 counter_value
low_after_tick c n w b lc l = rw (w, lc) (omega arith)

-- Once the instruction that wrote the upper half of a bound 32-bit performance counter has been
-- counted, the upper half reads the written word and the lower half what it read before.
pub performance_high_set-tick :
    (p : CounterPair) (n v : ℕ)
    → p.low.width ≡ 32
    → n < 2 ^ 64
    → p.high_counter ≡ some n
    → p.low.counter ≡ some n
    → p.low.offset < 2 ^ 32
    → v < 2 ^ 32
    → (high_get_uint32 (tick_pair (performance_high_set p v) n) ≡ v)
      × (counter_get_uint64 (tick_pair (performance_high_set p v) n).low ≡ counter_get_uint64 p.low)
unfolding performance_high_set high_set carry
performance_high_set-tick p n v w b hc lc l h = (
  ground (arith, high_as_sum (tick_pair (performance_high_set p v) n)),
  low_after_tick p.low n w b lc l,
)

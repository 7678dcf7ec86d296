-- ===== src/Generators/Counter.antt =====
-- core/counter_generator.h: the atomic counter that hands out key numbers.
pub mod Sequence
use ycsb.Prelude.{ℕ, ◌+◌, ◌-◌, ◌%◌, ◌^◌}

pub record CounterGenerator : Type 0 where
  pub counter : ℕ

unfoldable pub new : ℕ → CounterGenerator
new start = record { counter = start }

-- `counter_.fetch_add(1)`
unfoldable pub next : CounterGenerator → ℕ × CounterGenerator
next c = (c.counter, record { counter = (c.counter + 1) % 2 ^ 64 })

-- `counter_.load() - 1`, which wraps at 0
unfoldable pub last : CounterGenerator → ℕ
last c = (c.counter + 2 ^ 64 - 1) % 2 ^ 64

unfoldable pub set : CounterGenerator → ℕ → CounterGenerator
set c start = record { counter = start }

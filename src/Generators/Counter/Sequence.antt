-- ===== src/Generators/Counter/Sequence.antt =====
-- The numbers that repeated calls hand out. Each call is one atomic step, so this is also what
-- several threads draw together, in whatever order they are served.
use ycsb.Prelude.{ℕ, zero, suc, ◌+◌, ◌-◌, ◌%◌, ◌^◌, ◌<◌, ◌≡◌, ◌≢◌, arith}
use ycsb.Generators.Counter.{CounterGenerator, next, last, set}

-- The state after the given number of calls.
pub after : ℕ → CounterGenerator → CounterGenerator
after zero c = c
after (suc n) c = after n (next c).1

-- What call number `i`, counted from 0, returns.
pub drawn : CounterGenerator → ℕ → ℕ
drawn c i = (next (after i c)).0

counter-after :
    (n : ℕ) (c : CounterGenerator)
    → c.counter < 2 ^ 64
    → (after n c).counter ≡ (c.counter + n) % 2 ^ 64
unfolding after next
counter-after zero c h = omega arith
counter-after (suc n) c h = omega (arith, counter-after n (next c).1 (omega arith))

pub drawn_lem :
    (c : CounterGenerator) (i : ℕ) → c.counter < 2 ^ 64 → drawn c i ≡ (c.counter + i) % 2 ^ 64
unfolding drawn next
drawn_lem c i h = counter-after i c h

-- No two of the first 2 ^ 64 calls return the same number.
pub drawn_distinct :
    (c : CounterGenerator) (i j : ℕ)
    → c.counter < 2 ^ 64
    → i < j
    → j < 2 ^ 64
    → drawn c i ≢ drawn c j
drawn_distinct c i j h lt bound = omega (arith, drawn_lem c i h, drawn_lem c j h)

-- Last is the number that the latest call of Next returned, or one less than what Set stored.
pub last_lem :
    (c : CounterGenerator)
    → c.counter < 2 ^ 64
    → (last (next c).1 ≡ (next c).0)
      × ((start : ℕ) → 0 < start → start < 2 ^ 64 → last (set c start) ≡ start - 1)
unfolding last next set
last_lem c h = (omega arith, λ start pos lt. omega arith)

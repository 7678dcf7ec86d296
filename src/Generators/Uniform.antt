-- ===== src/Generators/Uniform.antt =====
-- core/uniform_generator.h, and core/const_generator.h, which always gives one number.
use ycsb.Prelude.{ℕ, ◌≡◌, ◌≤◌, refl, arith}
use ycsb.Prelude.Tests.{leb, if◌then◌else◌}
use ycsb.Prelude.Int.{ℤ, to_u64}
use ycsb.Prelude.Outcome.{Outcome, ok, err, undefined, Returns}
use ycsb.Platform.{Platform, UniformInRange}

pub record ConstGenerator : Type 0 where
  pub constant : ℕ

unfoldable pub new_const : ℤ → ConstGenerator
new_const c = record { constant = to_u64 c }

unfoldable pub next_const : ConstGenerator → ℕ
next_const g = g.constant

pub record UniformGenerator (P : Platform) : Type 0 where
  pub generator : P.Mt
  pub min : ℕ
  pub max : ℕ
  pub last_int : ℕ

module _ (P : Platform) where
  open P use {mt, uniform_int}

  unfoldable pub next : UniformGenerator P → ℕ × UniformGenerator P
  next g =
      let (x, m) = uniform_int g.min g.max g.generator in
      (x, record g { generator = m; last_int = x })

  unfoldable pub last : UniformGenerator P → ℕ
  last g = g.last_int

  -- The constructor draws once. A distribution over an empty range is undefined behaviour.
  unfoldable pub new : ℕ → ℕ → Outcome (UniformGenerator P)
  unfolding next
  new min max =
      if leb min max
      then ok (next (record { generator = mt; min = min; max = max; last_int = 0 })).1
      else err undefined

  -- The generator draws from a range that is not empty, and remembers a number of that range.
  pub record IsOver (lo hi : ℕ) (g : UniformGenerator P) : Type 0 where
    pub low : g.min ≡ lo
    pub high : g.max ≡ hi
    pub ordered : lo ≤ hi
    pub above : lo ≤ g.last_int
    pub below : g.last_int ≤ hi

  module _ (L : UniformInRange P) where
    next-IsOver :
        (g : UniformGenerator P) (lo hi : ℕ)
        → g.min ≡ lo
        → g.max ≡ hi
        → lo ≤ hi
        → IsOver lo hi (next g).1
    unfolding next
    next-IsOver g lo hi a b h = record {
      low = a;
      high = b;
      ordered = h;
      above = omega (arith, L.range g.min g.max g.generator (omega arith));
      below = omega (arith, L.range g.min g.max g.generator (omega arith));
    }

    -- Every number that a generator over a range returns lies in the range, both ends included, it is
    -- what Last then returns, and the generator stays one over that range.
    pub next_range :
        (g : UniformGenerator P) (lo hi : ℕ)
        → IsOver lo hi g
        → (lo ≤ (next g).0)
          × ((next g).0 ≤ hi)
          × (last (next g).1 ≡ (next g).0)
          × IsOver lo hi (next g).1
    unfolding last
    next_range g lo hi v =
        let w = next-IsOver g lo hi v.low v.high v.ordered in
        (unfold next in w.above, unfold next in w.below, unfold next in refl, w)

    -- The constructor gives a generator over its range, where that is not empty.
    pub new-IsOver : (lo hi : ℕ) → lo ≤ hi → Returns (new lo hi) (IsOver lo hi)
    unfolding new
    new-IsOver lo hi h =
        let g : UniformGenerator P = record { generator = mt; min = lo; max = hi; last_int = 0 } in
        ((next g).1, ground arith, next-IsOver g lo hi refl refl h)

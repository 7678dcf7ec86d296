-- ===== src/Generators/Any.antt =====
-- The class hierarchy below Generator<uint64_t>, as a data type with a constructor for each class.
use ycsb.Prelude.{ℕ, Bool}
use ycsb.Prelude.Outcome.{Outcome, ok, ◌>>=◌}
use ycsb.Platform.{Platform}
use ycsb.Generators.Counter as Counter
use ycsb.Generators.Counter.{CounterGenerator}
use ycsb.Generators.Uniform as Uniform
use ycsb.Generators.Uniform.{ConstGenerator, UniformGenerator}
use ycsb.Generators.Zipfian as Zipfian
use ycsb.Generators.Zipfian.{ZipfianGenerator}
use ycsb.Generators.Scrambled as Scrambled
use ycsb.Generators.Scrambled.{ScrambledZipfianGenerator}
use ycsb.Generators.Latest as Latest
use ycsb.Generators.Latest.{SkewedLatestGenerator}

pub data Generator (P : Platform) : Type 0 where
  counter : CounterGenerator → Generator P
  constant : ConstGenerator → Generator P
  uniform : UniformGenerator P → Generator P
  zipfian : ZipfianGenerator P → Generator P
  scrambled : ScrambledZipfianGenerator P → Generator P
  latest : SkewedLatestGenerator P → Generator P

-- The virtual call of Next. `basis` is the counter that a SkewedLatestGenerator refers to.
unfoldable pub next :
    (P : Platform)
    → Bool
    → CounterGenerator
    → Generator P
    → P.Seed
    → Outcome (ℕ × Generator P × P.Seed)
next P ndebug basis (counter c) s = let (x, c') = Counter.next c in ok (x, counter c', s)
next P ndebug basis (constant g) s = ok (Uniform.next_const g, constant g, s)
next P ndebug basis (uniform g) s = let (x, g') = Uniform.next P g in ok (x, uniform g', s)
next P ndebug basis (zipfian g) s = do
  (x, g', s') ← Zipfian.next P ndebug g s
  ok (x, zipfian g', s')
next P ndebug basis (scrambled g) s = do
  (x, g', s') ← Scrambled.next P ndebug g s
  ok (x, scrambled g', s')
next P ndebug basis (latest g) s = do
  (x, g', s') ← Latest.next P ndebug basis g s
  ok (x, latest g', s')

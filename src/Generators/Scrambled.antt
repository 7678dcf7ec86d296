-- ===== src/Generators/Scrambled.antt =====
-- core/scrambled_zipfian_generator.h: popular numbers are spread over the range by hashing.
use ycsb.Prelude.{ℕ, ◌+◌, ◌-◌, ◌%◌, ◌^◌, ◌≤◌, ◌<◌, ◌≡◌, refl, Bool, arith}
use ycsb.Prelude.Tests.{◌==◌, if◌then◌else◌}
use ycsb.Prelude.Outcome.{Outcome, ok, err, undefined, ◌>>=◌, Returns}
use ycsb.Platform.{Platform}
use ycsb.Utils.{fnv_hash_64}
use ycsb.Generators.Zipfian as Zipfian
use ycsb.Generators.Zipfian.{ZipfianGenerator, max_num_items}
use ycsb.Generators.Zipfian.Init as Init

pub record ScrambledZipfianGenerator (P : Platform) : Type 0 where
  pub base : ℕ
  pub num_items : ℕ
  pub generator : ZipfianGenerator P

module _ (P : Platform) where
  open P use {Double, Seed, zipfian_const}

  -- A remainder by 0 is undefined behaviour.
  unfoldable pub scramble : ScrambledZipfianGenerator P → ℕ → Outcome ℕ
  scramble g value =
      if g.num_items == 0
      then err undefined
      else ok ((g.base + fnv_hash_64 value % g.num_items) % 2 ^ 64)

  unfoldable pub next :
      Bool → ScrambledZipfianGenerator P → Seed → Outcome (ℕ × ScrambledZipfianGenerator P × Seed)
  next ndebug g s = do
    (value, zipfian, s') ← Zipfian.next P ndebug g.generator s
    scrambled ← scramble g value
    ok (scrambled, record g { generator = zipfian }, s')

  unfoldable pub last : ScrambledZipfianGenerator P → Outcome ℕ
  last g = scramble g (Zipfian.last P g.generator)

  unfoldable pub new : Bool → ℕ → ℕ → Double → Seed → Outcome (ScrambledZipfianGenerator P × Seed)
  new ndebug min max theta s = do
    (zipfian, s') ← Zipfian.new P ndebug min max theta s
    let n = (max + 2 ^ 64 - min + 1) % 2 ^ 64
    ok (record { base = min; num_items = n; generator = zipfian }, s')

  unfoldable pub new_items : Bool → ℕ → Seed → Outcome (ScrambledZipfianGenerator P × Seed)
  new_items ndebug num_items s = new ndebug 0 ((num_items + 2 ^ 64 - 1) % 2 ^ 64) zipfian_const s

  pub record IsOver (min max : ℕ) (g : ScrambledZipfianGenerator P) : Type 0 where
    pub base : g.base ≡ min
    pub num_items : g.num_items ≡ max - min + 1
    pub generator : Init.IsOver P min max g.generator

  -- A draw, by its number, the generator after it, and what Last returns then.
  pub record InRange (min max : ℕ) (r : ℕ × ScrambledZipfianGenerator P × Seed) : Type 0 where
    pub above : min ≤ r.0
    pub below : r.0 ≤ max
    pub over : IsOver min max r.1
    pub remembers : last r.1 ≡ ok r.0

  scramble_range :
      (g : ScrambledZipfianGenerator P) (min max value : ℕ)
      → g.base ≡ min
      → g.num_items ≡ max - min + 1
      → min ≤ max
      → max < 2 ^ 64
      → Returns (scramble g value) (λ x. (min ≤ x) × (x ≤ max))
  unfolding scramble
  scramble_range g min max value b n lo hi =
      let h : ℕ = fnv_hash_64 value in
      let small : h % g.num_items < g.num_items = omega arith in
      let fits : g.base + h % g.num_items < 2 ^ 64 = omega arith in
      let same : (g.base + h % g.num_items) % 2 ^ 64 ≡ g.base + h % g.num_items = omega arith in
      ((g.base + h % g.num_items) % 2 ^ 64, ground arith, (omega arith, omega arith))

  -- Over a range of at least 2 and fewer than 2 ^ 40 - 1 numbers that fits in 64 bits, Next returns
  -- a number of the range, both ends included, with and without assertions. It stays a generator
  -- over that range, and Last then gives the same number.
  pub next-InRange :
      (ndebug : Bool) (min max : ℕ) (g : ScrambledZipfianGenerator P) (s : Seed)
      → IsOver min max g
      → min < max
      → max < 2 ^ 64
      → max - min + 1 < max_num_items
      → Returns (next ndebug g s) (InRange min max)
  unfolding next last
  next-InRange ndebug min max g s v lo hi few =
      let (z, run, (over, remembers)) =
        Init.next-IsOver P ndebug min max g.generator s v.generator lo few in
      let (x, scrambled, (above, below)) =
        scramble_range g min max z.0 v.base v.num_items (omega arith) hi in
      (
        (x, record g { generator = z.1 }, z.2),
        rw (run, scrambled),
        record {
          above = above;
          below = below;
          over = record { base = v.base; num_items = v.num_items; generator = over };
          remembers = unfold scramble Zipfian.last in rw remembers (unfold scramble in scrambled);
        },
      )

  -- The constructor gives a generator over its range.
  pub new-IsOver :
      (ndebug : Bool) (min max : ℕ) (theta : Double) (s : Seed)
      → min < max
      → max < 2 ^ 64
      → max - min + 1 < max_num_items
      → Returns (new ndebug min max theta s) (λ r. IsOver min max r.0)
  unfolding new
  new-IsOver ndebug min max theta s lo hi few =
      let (r, run, over) = Init.new-IsOver P ndebug min max theta s lo hi few in
      let n : ℕ = (max + 2 ^ 64 - min + 1) % 2 ^ 64 in
      (
        (record { base = min; num_items = n; generator = r.0 }, r.1),
        rw run,
        record { base = refl; num_items = omega arith; generator = over },
      )

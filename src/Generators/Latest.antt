-- ===== src/Generators/Latest.antt =====
-- core/skewed_latest_generator.h. The generator holds a reference to a counter that others advance:
-- the counter is an argument of each call.
use ycsb.Prelude.{ℕ, ◌+◌, ◌-◌, ◌%◌, ◌^◌, ◌≤◌, ◌<◌, ◌≡◌, refl, sym, ap, Bool}
use ycsb.Prelude.Outcome.{Outcome, ok, ◌>>=◌, Returns}
use ycsb.Platform.{Platform}
use ycsb.Generators.Counter as Counter
use ycsb.Generators.Counter.{CounterGenerator}
use ycsb.Generators.Zipfian as Zipfian
use ycsb.Generators.Zipfian.{ZipfianGenerator, max_num_items}
use ycsb.Generators.Zipfian.Zeta.{IsTuned, next_of-Drawn}

pub record SkewedLatestGenerator (P : Platform) : Type 0 where
  pub zipfian : ZipfianGenerator P
  pub last_ : ℕ

module _ (P : Platform) where
  open P use {Seed}

  unfoldable pub next :
      Bool
      → CounterGenerator
      → SkewedLatestGenerator P
      → Seed
      → Outcome (ℕ × SkewedLatestGenerator P × Seed)
  next ndebug basis g s = do
    let max = Counter.last basis
    (z, zipfian, s') ← Zipfian.next_of P ndebug max g.zipfian s
    let value = (max + 2 ^ 64 - z) % 2 ^ 64
    ok (value, record { zipfian = zipfian; last_ = value }, s')

  unfoldable pub last : SkewedLatestGenerator P → ℕ
  last g = g.last_

  -- The constructor draws once.
  unfoldable pub new : Bool → CounterGenerator → Seed → Outcome (SkewedLatestGenerator P × Seed)
  new ndebug basis s = do
    (zipfian, s') ← Zipfian.new_items P ndebug (Counter.last basis) s
    (_, g, s'') ← next ndebug basis (record { zipfian = zipfian; last_ = 0 }) s'
    ok (g, s'')

  -- While the counter's last number is at least 2 and less than 2 ^ 40 - 1, Next returns that number
  -- less a zipfian value, modulo 2 ^ 64; the zipfian generator has then counted all numbers up to the
  -- counter's, however far the counter has moved since the last call.
  pub next_lem :
      (ndebug : Bool) (basis : CounterGenerator) (g : SkewedLatestGenerator P) (s : Seed)
      → IsTuned P g.zipfian
      → 2 ≤ Counter.last basis
      → Counter.last basis < max_num_items
      → Returns (next ndebug basis g s) λ r.
        (r.0 ≡ (Counter.last basis + 2 ^ 64 - r.1.zipfian.last_value) % 2 ^ 64)
        × (last r.1 ≡ r.0)
        × IsTuned P r.1.zipfian
        × (Counter.last basis ≤ r.1.zipfian.n_for_zeta)
  unfolding next last
  next_lem ndebug basis g s t lo hi =
      let max : ℕ = Counter.last basis in
      let (z, run, d) = next_of-Drawn P ndebug max g.zipfian s t lo hi in
      let value : ℕ = (max + 2 ^ 64 - z.0) % 2 ^ 64 in
      (
        (value, record { zipfian = z.1; last_ = value }, z.2),
        rw run,
        (ap (λ k. (max + 2 ^ 64 - k) % 2 ^ 64) (sym d.remembers), refl, d.tuned, d.counted),
      )

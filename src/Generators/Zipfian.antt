-- ===== src/Generators/Zipfian.antt =====
-- core/zipfian_generator.h. `ndebug` says whether the build defines NDEBUG, which removes the
-- assertions. The mutex makes each call one step.
pub mod Zeta
pub mod Init
use ycsb.Prelude.{ℕ, zero, suc, ◌+◌, ◌-◌, ◌%◌, ◌^◌, Bool, ◌&&◌}
use ycsb.Prelude.Tests.{ltb, leb, if◌then◌else◌}
use ycsb.Prelude.Outcome.{Outcome, ok, ◌>>=◌, ◌>>◌, assert}
use ycsb.Platform.{Platform}
use ycsb.Utils.{random_double}

abbrev pub max_num_items : ℕ
max_num_items = 2 ^ 40 - 1

pub record ZipfianGenerator (P : Platform) : Type 0 where
  pub num_items : ℕ
  pub base : ℕ
  pub theta : P.Double
  pub zeta_n : P.Double
  pub eta : P.Double
  pub alpha : P.Double
  pub zeta_2 : P.Double
  pub n_for_zeta : ℕ
  pub last_value : ℕ

module _ (P : Platform) where
  open P use {Double, Seed, lt, add, sub, mul, div, pow, of_u64, truncate_u64, half, zipfian_const}

  -- The rounds left of `for (i = last_num + 1; i <= cur_num; ++i) zeta += 1 / std::pow(i, theta)`.
  unfoldable pub zeta_loop : ℕ → ℕ → Double → Double → Double
  zeta_loop zero i theta zeta = zeta
  zeta_loop (suc n) i theta zeta =
      zeta_loop n (i + 1) theta (add zeta (div (of_u64 1) (pow (of_u64 i) theta)))

  -- Zeta with four arguments
  unfoldable pub zeta_range : ℕ → ℕ → Double → Double → Double
  zeta_range last_num cur_num theta last_zeta =
      zeta_loop (cur_num - last_num) (last_num + 1) theta last_zeta

  -- Zeta with two arguments
  unfoldable pub zeta : ℕ → Double → Double
  zeta num theta = zeta_range 0 num theta (of_u64 0)

  unfoldable pub raise_zeta : Bool → ℕ → ZipfianGenerator P → Outcome (ZipfianGenerator P)
  raise_zeta ndebug num g = do
    assert ndebug (leb g.n_for_zeta num)
    ok (record g { zeta_n = zeta_range g.n_for_zeta num g.theta g.zeta_n; n_for_zeta = num })

  -- Eta
  unfoldable pub eta_of : ZipfianGenerator P → Double
  eta_of g =
      div (sub (of_u64 1) (pow (div (of_u64 2) (of_u64 g.num_items)) (sub (of_u64 1) g.theta)))
        (sub (of_u64 1) (div g.zeta_2 g.zeta_n))

  -- The value that Next computes from the random number.
  unfoldable pub value_of : ℕ → ZipfianGenerator P → Double → ℕ
  value_of num g u =
      let uz = mul u g.zeta_n in
      if lt uz (of_u64 1)
      then 0
      else if lt uz (add (of_u64 1) (pow half g.theta))
      then 1
      else truncate_u64 (
          add (of_u64 g.base)
            (mul (of_u64 num) (pow (add (sub (mul g.eta u) g.eta) (of_u64 1)) g.alpha)))

  unfoldable pub grow : Bool → ℕ → ZipfianGenerator P → Outcome (ZipfianGenerator P)
  grow ndebug num g =
      if ltb g.n_for_zeta num
      then (do raised ← raise_zeta ndebug num g; ok (record raised { eta = eta_of raised }))
      else ok g

  -- Next with the number of items
  unfoldable pub next_of :
      Bool → ℕ → ZipfianGenerator P → Seed → Outcome (ℕ × ZipfianGenerator P × Seed)
  next_of ndebug num g s = do
    assert ndebug (leb 2 num && ltb num max_num_items)
    tuned ← grow ndebug num g
    let (u, s') = random_double P s
    let value = value_of num tuned u
    ok (value, record tuned { last_value = value }, s')

  unfoldable pub next : Bool → ZipfianGenerator P → Seed → Outcome (ℕ × ZipfianGenerator P × Seed)
  next ndebug g s = next_of ndebug g.num_items g s

  unfoldable pub last : ZipfianGenerator P → ℕ
  last g = g.last_value

  -- The members that the constructor initialises before its body; the others wait for it.
  unfoldable pub blank : ℕ → ℕ → Double → ZipfianGenerator P
  blank min n theta = record {
    num_items = n;
    base = min;
    theta = theta;
    zeta_n = of_u64 0;
    eta = of_u64 0;
    alpha = div (of_u64 1) (sub (of_u64 1) theta);
    zeta_2 = zeta 2 theta;
    n_for_zeta = 0;
    last_value = 0;
  }

  -- The body of the constructor, which draws once.
  unfoldable pub build : Bool → ZipfianGenerator P → Seed → Outcome (ZipfianGenerator P × Seed)
  build ndebug g s = do
    assert ndebug (leb 2 g.num_items && ltb g.num_items max_num_items)
    raised ← raise_zeta ndebug g.num_items g
    (_, drawn, s') ← next ndebug (record raised { eta = eta_of raised }) s
    ok (drawn, s')

  -- The constructor with a range: `max - min + 1` is computed in uint64_t.
  unfoldable pub new : Bool → ℕ → ℕ → Double → Seed → Outcome (ZipfianGenerator P × Seed)
  new ndebug min max theta s = build ndebug (blank min ((max + 2 ^ 64 - min + 1) % 2 ^ 64) theta) s

  -- The constructor with a number of items.
  unfoldable pub new_items : Bool → ℕ → Seed → Outcome (ZipfianGenerator P × Seed)
  new_items ndebug num_items s = new ndebug 0 ((num_items + 2 ^ 64 - 1) % 2 ^ 64) zipfian_const s

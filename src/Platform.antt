-- ===== src/Platform.antt =====
-- What the benchmark takes from its platform: the type double with its operations, the
-- pseudo-random engines of the standard library, and the C function rand.
use ycsb.Prelude.{ℕ, ◌≤◌, Bool}
use ycsb.Prelude.Int.{ℤ}
use ycsb.Prelude.Outcome.{Outcome}
use ycsb.Prelude.Text.{Bytes}

pub record Platform : Type 1 where
  -- double, its comparison and arithmetic, std::pow, the conversions, and std::stod
  pub Double : Type 0
  pub lt : Double → Double → Bool
  pub add : Double → Double → Double
  pub sub : Double → Double → Double
  pub mul : Double → Double → Double
  pub div : Double → Double → Double
  pub pow : Double → Double → Double
  pub of_u64 : ℕ → Double
  pub of_int : ℤ → Double
  pub truncate_u64 : Double → ℕ
  pub truncate_int : Double → ℤ
  pub half : Double
  pub stod : Bytes → Outcome Double
  -- max_size() of std::string
  pub max_size : ℕ
  -- the literal 0.99
  pub zipfian_const : Double
  -- the state of the static default_random_engine and of rand(), shared by the whole process
  pub Seed : Type 0
  pub uniform_real : Double → Double → Seed → Double × Seed
  pub rand : Seed → ℕ × Seed
  -- a std::mt19937_64, as it is constructed, and uniform_int_distribution over it
  pub Mt : Type 0
  pub mt : Mt
  pub uniform_int : ℕ → ℕ → Mt → ℕ × Mt

-- The documented range of uniform_int_distribution: both ends are inclusive.
pub record UniformInRange (P : Platform) : Type 0 where
  pub range :
      (lo hi : ℕ) (m : P.Mt)
      → lo ≤ hi
      → (lo ≤ (P.uniform_int lo hi m).0) × ((P.uniform_int lo hi m).0 ≤ hi)

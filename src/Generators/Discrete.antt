-- ===== src/Generators/Discrete.antt =====
-- core/discrete_generator.h: a weighted choice among the values that AddValue registered.
pub mod Listed
use ycsb.Prelude.{ℕ, Bool, Option, none, some, List, [], ◌∷◌, ◌++◌, true, false}
use ycsb.Prelude.Tests.{if◌then◌else◌}
use ycsb.Prelude.Outcome.{Outcome, ok, err, assertion, undefined, ◌>>=◌}
use ycsb.Platform.{Platform}
use ycsb.Utils.{random_double}

-- `last` is `none` while `last_` has not been written.
pub record DiscreteGenerator (P : Platform) (V : Type 0) : Type 0 where
  pub values : List (V × P.Double)
  pub sum : P.Double
  pub last : Option V

module _ (P : Platform) {V : Type 0} where
  open P use {Double, Seed, lt, add, sub, div, of_u64}

  abbrev pub first_of : List (V × Double) → Option V → V → Option V
  first_of [] old value = some value
  first_of (_ ∷ _) old value = old

  unfoldable pub add_value : V → Double → DiscreteGenerator P V → DiscreteGenerator P V
  add_value value weight g = record {
    values = g.values ++ (value, weight) ∷ [];
    sum = add g.sum weight;
    last = first_of g.values g.last value;
  }

  -- The loop over the values; `none` is the end of the loop.
  unfoldable pub choose : List (V × Double) → Double → Double → Option V
  choose [] sum chooser = none
  choose ((value, weight) ∷ rest) sum chooser =
      if lt chooser (div weight sum)
      then some value
      else choose rest sum (sub chooser (div weight sum))

  -- `assert(false); return last_;`
  unfoldable pub fall_through : Bool → Option V → Outcome V
  fall_through false last = err assertion
  fall_through true none = err undefined
  fall_through true (some v) = ok v

  -- How the call ends, with or without a value from the loop.
  unfoldable pub conclude :
      Bool → DiscreteGenerator P V → Option V → Seed → Outcome (V × DiscreteGenerator P V × Seed)
  conclude ndebug g (some v) s = ok (v, record g { last = some v }, s)
  conclude ndebug g none s = do v ← fall_through ndebug g.last; ok (v, g, s)

  unfoldable pub next :
      Bool → DiscreteGenerator P V → Seed → Outcome (V × DiscreteGenerator P V × Seed)
  unfolding conclude
  next ndebug g s =
      let (chooser, s') = random_double P s in conclude ndebug g (choose g.values g.sum chooser) s'

unfoldable pub new : (P : Platform) (V : Type 0) → DiscreteGenerator P V
new P V = record { values = []; sum = P.of_u64 0; last = none }

-- ===== src/Tests/Generators.antt =====
-- Examples about the generators.
use ycsb.Prelude.{◌≢◌, inl}
use ycsb.Prelude.{ℕ, ◌+◌, ◌-◌, ◌%◌, ◌^◌, ◌≤◌, ◌≡◌, refl, false, some, [], ◌∷◌, arith}
use ycsb.Prelude.Outcome.{Returns}
use ycsb.Tests.{hundredths}
use ycsb.Utils.{random_double}
use ycsb.Generators.Counter as Counter
use ycsb.Generators.Counter.{CounterGenerator}
use ycsb.Generators.Uniform as Uniform
use ycsb.Generators.Uniform.{UniformGenerator}
use ycsb.Generators.Zipfian as Zipfian
use ycsb.Generators.Zipfian.{ZipfianGenerator, zeta, zeta_range, eta_of}
use ycsb.Generators.Zipfian.Zeta.{IsTuned, Drawn, zeta_range-zeta, next_of-Drawn}
use ycsb.Generators.Zipfian.Init as Init
use ycsb.Generators.Scrambled as Scrambled
use ycsb.Generators.Scrambled.{ScrambledZipfianGenerator, next-InRange}
use ycsb.Generators.Latest as Latest
use ycsb.Generators.Latest.{SkewedLatestGenerator, next_lem}
use ycsb.Generators.Discrete as Weighted
use ycsb.Generators.Discrete.{DiscreteGenerator}
use ycsb.Generators.Counter.Sequence.{drawn, drawn_distinct}
use ycsb.Generators.Discrete.Listed.{Listed, IsValid, next-Listed}

abbrev from_3 : CounterGenerator
from_3 = record { counter = 3 }

drawn_distinct_example : drawn from_3 1 ≢ drawn from_3 5
drawn_distinct_example = drawn_distinct from_3 1 5 (omega arith) (omega arith) (omega arith)

abbrev five_to_nine : UniformGenerator hundredths
five_to_nine = record { generator = 7; min = 5; max = 9; last_int = 6 }

five_to_nine-IsOver : Uniform.IsOver hundredths 5 9 five_to_nine
five_to_nine-IsOver = record {
  low = refl;
  high = refl;
  ordered = omega arith;
  above = omega arith;
  below = omega arith;
}

zeta_range-zeta_example : zeta_range hundredths 2 4 99 (zeta hundredths 2 99) ≡ zeta hundredths 4 99
zeta_range-zeta_example = zeta_range-zeta hundredths 2 4 99 (omega arith)

-- A generator over 1, 2 and 3, whose `eta` is still to be set, and then with it.
abbrev one_to_three_raised : ZipfianGenerator hundredths
one_to_three_raised = record {
  num_items = 3;
  base = 1;
  theta = 99;
  zeta_n = zeta hundredths 3 99;
  eta = 0;
  alpha = 100;
  zeta_2 = zeta hundredths 2 99;
  n_for_zeta = 3;
  last_value = 2;
}

abbrev one_to_three : ZipfianGenerator hundredths
one_to_three = record one_to_three_raised { eta = eta_of hundredths one_to_three_raised }

one_to_three-IsTuned : IsTuned hundredths one_to_three
one_to_three-IsTuned = record {
  zeta_n = refl;
  eta = unfold eta_of in refl;
  zeta_2 = refl;
  counted = omega arith;
}

next_of-Drawn_example :
    Returns (Zipfian.next_of hundredths false 4 one_to_three 7) (Drawn hundredths one_to_three 4)
next_of-Drawn_example =
    next_of-Drawn hundredths false 4 one_to_three 7 one_to_three-IsTuned (omega arith) (omega arith)

one_to_three-IsOver : Init.IsOver hundredths 1 3 one_to_three
one_to_three-IsOver = record { tuned = one_to_three-IsTuned; base = refl; num_items = refl }

abbrev spread : ScrambledZipfianGenerator hundredths
spread = record { base = 1; num_items = 3; generator = one_to_three }

spread-IsOver : Scrambled.IsOver hundredths 1 3 spread
spread-IsOver = record { base = refl; num_items = refl; generator = one_to_three-IsOver }

next-InRange_example :
    Returns (Scrambled.next hundredths false spread 5) (Scrambled.InRange hundredths 1 3)
next-InRange_example =
    next-InRange hundredths false 1 3 spread 5 spread-IsOver (omega arith) (omega arith)
      (omega arith)

abbrev newest : SkewedLatestGenerator hundredths
newest = record { zipfian = one_to_three; last_ = 0 }

abbrev at_5 : CounterGenerator
at_5 = record { counter = 5 }

next_lem_example : Returns (Latest.next hundredths false at_5 newest 7) λ r.
    (r.0 ≡ (Counter.last at_5 + 2 ^ 64 - r.1.zipfian.last_value) % 2 ^ 64)
    × (Latest.last hundredths r.1 ≡ r.0)
    × IsTuned hundredths r.1.zipfian
    × (Counter.last at_5 ≤ r.1.zipfian.n_for_zeta)
next_lem_example =
    next_lem hundredths false at_5 newest 7 one_to_three-IsTuned
      (unfold Counter.last in omega arith) (unfold Counter.last in omega arith)

abbrev mix : DiscreteGenerator hundredths ℕ
mix = record { values = (10, 95) ∷ (20, 5) ∷ []; sum = 100; last = some 10 }

mix-IsValid : IsValid hundredths mix
mix-IsValid = record { last_listed = inl refl }

next-Listed_example : Listed hundredths mix (20, record mix { last = some 20 }, 98)
next-Listed_example =
    next-Listed hundredths false mix 97 (20, record mix { last = some 20 }, 98) mix-IsValid
      (unfold Weighted.next Weighted.choose Weighted.conclude random_double in refl)

-- ===== src/Tests.antt =====
-- A platform and an engine that are computed, for the examples of the children: a double is a number
-- of hundredths, and the random numbers count on.
pub mod Generators
pub mod Texts
pub mod Workloads
pub mod Clients
pub mod Phases
pub mod Tables
pub mod Program
pub mod Interrupted
pub mod Memory
use ycsb.Prelude.{ℕ, ◌+◌, ◌-◌, ◌*◌, ◌/◌, ◌%◌, ◌≡◌, refl, Bool, true, some, [], arith}
use ycsb.Prelude.Tests.{ltb, if◌then◌else◌}
use ycsb.Prelude.Int.{ℤ, pos, pos_part}
use ycsb.Prelude.Outcome.{Outcome, ok, err, invalid_argument}
use ycsb.Prelude.Text.{Bytes, str, bytes_eq}
use ycsb.Platform.{Platform, UniformInRange}
use ycsb.Lsm.Engine.{Engine, IsLawful}

abbrev stod_of : Bytes → Outcome ℕ
stod_of text =
    if bytes_eq text (str "1.0")
    then ok 100
    else if bytes_eq text (str "0.95")
    then ok 95
    else if bytes_eq text (str "0.05")
    then ok 5
    else if bytes_eq text (str "0")
    then ok 0
    else if bytes_eq text (str "0.0")
    then ok 0
    else err invalid_argument

abbrev pub hundredths : Platform
hundredths = record {
  Double = ℕ;
  lt = ltb;
  add = λ a b. a + b;
  sub = λ a b. a - b;
  mul = λ a b. a * b / 100;
  div = λ a b. a * 100 / b;
  pow = λ a b. a;
  of_u64 = λ n. n * 100;
  of_int = λ n. pos_part n * 100;
  truncate_u64 = λ a. a / 100;
  max_size = 4611686018427387903;
  truncate_int = λ a. pos (a / 100);
  half = 50;
  stod = stod_of;
  zipfian_const = 99;
  Seed = ℕ;
  uniform_real = λ lo hi s. (s % 100, s + 1);
  rand = λ s. (s, s + 1);
  Mt = ℕ;
  mt = 0;
  uniform_int = λ lo hi m. (lo + m % (hi - lo + 1), m + 1);
}

pub hundredths-UniformInRange : UniformInRange hundredths
hundredths-UniformInRange = record { range = λ lo hi m h. (omega arith, omega arith) }

-- An engine that holds its values in a function.
abbrev put_value : Bytes → Bytes → (Bytes → Bytes) → Bytes → Bytes
put_value k v s j = if bytes_eq j k then v else s j

abbrev pub table_engine : Engine
table_engine = record {
  State = Bytes → Bytes;
  get = λ k s. (some (s k), s);
  put = λ k v s. (true, put_value k v s);
  delete = λ k s. (true, put_value k [] s);
  scan = λ k n s. (some [], s);
}

abbrev pub table_engine-IsLawful : IsLawful table_engine
table_engine-IsLawful = record {
  view = λ s k. s k;
  get_value = λ k s. refl;
  view-get = λ k j s. refl;
  put_works = λ k v s. refl;
  view-put = λ k v j s. refl;
  delete_works = λ k s. refl;
  view-delete = λ k j s. refl;
}

-- ===== src/Main/Refusal.antt =====
-- Runs of main that end before a database is opened.
use ycsb.Prelude.{[], ℕ, ◌≡◌, refl, ap, Bool, Option, none, some, List, inl, inr, true, arith}
use ycsb.Prelude.Tests.{Bool-cases, if-then, if◌then◌else◌}
use ycsb.Prelude.Int.{ℤ}
use ycsb.Prelude.Outcome.{Outcome, ok, err, out_of_range, invalid_argument, ◌>>=◌}
use ycsb.Prelude.Text.{Bytes, str, bytes_eq, is_empty}
use ycsb.Platform.{Platform}
use ycsb.Properties as Properties
use ycsb.Properties.{Properties, at, lookup, get_property}
use ycsb.DbFactory.{create_db}
use ycsb.Lsm.Config.{Binding, split_config, unified_config}
use ycsb.Cli.{proceed, CommandLine, parse_command_line}
use ycsb.Main.Program.{Machine, Report, unknown_database, main, with_database}

-- The path of a binding's database is missing.
abbrev pub no_path : Properties → Bytes → Bool
no_path props key = is_empty (get_property props key [])

-- What main ends with, where no database is opened, by the property "dbname" alone and the path.
unfoldable pub refused : Option Bytes → Bool → Bool → Option (Outcome Report)
refused none no_split no_unified = some (err out_of_range)
refused (some name) no_split no_unified =
    if bytes_eq name (str "splitlsm")
    then (if no_split then some (err invalid_argument) else none)
    else if bytes_eq name (str "unifiedlsm")
    then (if no_unified then some (err invalid_argument) else none)
    else some (ok unknown_database)

from_some : {A : Type 0} → A → Option A → A
from_some d none = d
from_some d (some a) = a

some-injective : {A : Type 0} {a b : A} → some a ≡ some b → a ≡ b
unfolding from_some
some-injective {a = a} h = ap (from_some a) h

split_config_refused :
    (threads : ℤ) (props : Properties)
    → no_path props (str "splitlsm.dbpath") ≡ true
    → split_config threads props ≡ err invalid_argument
unfolding split_config
split_config_refused threads props h = if-then _ _ _ h

unified_config_refused :
    (threads : ℤ) (props : Properties)
    → no_path props (str "unifiedlsm.dbpath") ≡ true
    → unified_config threads props ≡ err invalid_argument
unfolding unified_config
unified_config_refused threads props h = if-then _ _ _ h

at-lookup :
    (p : Properties) (key : Bytes) (o : Option Bytes)
    → lookup p key ≡ o
    → at p key ≡ elim o [ none ↦ err out_of_range | some v ↦ ok v ]
unfolding at
at-lookup p key o e =
    ap (λ u. elim u as (λ _. Outcome Bytes) [ none ↦ err out_of_range | some v ↦ ok v ]) e

module _ (P : Platform) (M : Machine) (fuel : ℕ) (ndebug : Bool) (c : CommandLine)
    (s : P.Seed) where
  -- What follows CreateDB.
  abbrev go_on : Outcome (Option Binding) → Outcome Report
  go_on o = o >>= λ b. with_database P M b fuel ndebug c s

  create_db-refused :
      (o : Option Bytes) (r : Outcome Report)
      → lookup c.props (str "dbname") ≡ o
      → refused o
          (no_path c.props (str "splitlsm.dbpath"))
          (no_path c.props (str "unifiedlsm.dbpath"))
        ≡ some r
      → go_on (create_db M.hardware_threads c.props) ≡ r
  unfolding refused create_db with_database
  create_db-refused none r e h = rw (at-lookup c.props (str "dbname") none e) (some-injective h)
  create_db-refused (some name) r e h =
      rw (at-lookup c.props (str "dbname") (some name) e)
        (elim (Bool-cases (bytes_eq name (str "splitlsm"))) [
          | inl split ↦ elim (Bool-cases (no_path c.props (str "splitlsm.dbpath"))) [
            | inl missing ↦
                rw (split, split_config_refused M.hardware_threads c.props missing)
                  (some-injective (ground (arith, split, missing, h)))
            | inr there ↦ absurd (ground (arith, split, there, h))
          ]
          | inr other ↦ elim (Bool-cases (bytes_eq name (str "unifiedlsm"))) [
            | inl unified ↦ elim (Bool-cases (no_path c.props (str "unifiedlsm.dbpath"))) [
              | inl missing ↦
                  rw (other, unified, unified_config_refused M.hardware_threads c.props missing)
                    (some-injective (ground (arith, other, unified, missing, h)))
              | inr there ↦ absurd (ground (arith, other, unified, there, h))
            ]
            | inr unknown ↦ rw (other, unknown) (some-injective (ground (arith, other, unknown, h)))
          ]
        ])

-- On a command line with settings to run, main opens no database and loads nothing where the
-- property "dbname" is missing, which ends the program by the out_of_range of map::at; where its
-- value is the name of a binding and the binding's path is missing or empty, by an invalid_argument;
-- and where it is any other name, by the message about it. `refused` says which, and this is all
-- that main does, on every machine, in every build.
pub main-refused :
    (P : Platform) (M : Machine) (fuel : ℕ) (ndebug : Bool) (args : List Bytes) (c : CommandLine)
    (s : P.Seed) (r : Outcome Report)
    → parse_command_line M.open_file Properties.empty args ≡ ok (proceed c)
    → refused
        (lookup c.props (str "dbname"))
        (no_path c.props (str "splitlsm.dbpath"))
        (no_path c.props (str "unifiedlsm.dbpath"))
      ≡ some r
    → main P M fuel ndebug args s ≡ r
unfolding main
main-refused P M fuel ndebug args c s r parsed h =
    rw parsed (create_db-refused P M fuel ndebug c s (lookup c.props (str "dbname")) r refl h)

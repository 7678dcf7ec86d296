-- ===== src/Cli.antt =====
-- ParseCommandLine of ycsbc.cc, on the arguments behind the program's name.
pub mod Laws
use ycsb.Prelude.{ℕ, Bool, true, false, not, Option, none, some, List, [], ◌∷◌, ◌++◌}
use ycsb.Prelude.Tests.{if◌then◌else◌}
use ycsb.Prelude.Outcome.{Outcome, ok, err, Error}
use ycsb.Prelude.Text.{Bytes, str, bytes_eq, starts_with, split_at}
use ycsb.Properties.{Properties, set_property, load}

pub record CommandLine : Type 0 where
  pub props : Properties
  pub do_load : Bool
  pub do_run : Bool
  pub filename : Bytes

-- How the parser ends: it goes on with settings, or it prints the usage or a message and exits.
pub data Command : Type 0 where
  proceed : CommandLine → Command
  usage : Command
  complain : Bytes → Command

-- What one round of the loop does: it stops, or goes on behind one argument or behind two.
pub data Round : Type 0 where
  stop : Outcome Command → Round
  one : CommandLine → Round
  two : CommandLine → Round

-- An option that takes a value, with the argument behind it, if there is one.
abbrev with_value : Option Bytes → (Bytes → Round) → Round
with_value none f = stop (ok usage)
with_value (some v) f = f v

set_pair : CommandLine → Bytes → Round
set_pair c prop = elim (split_at b'=' prop) [
  | none ↦ stop (ok (complain (str "Argument for -p must be in key=value format")))
  | some (k, v) ↦ two (record c { props = set_property c.props k v })
]

-- The parser catches only strings, and Load throws a utils::Exception, which ends the program.
load_file : CommandLine → Bytes → Option Bytes → Round
load_file c filename content = elim (load content c.props) [
  | ok p ↦ two (record c { props = p; filename = filename })
  | err e ↦ stop (err e)
]

module _ (open_file : Bytes → Option Bytes) where
  unfoldable pub round : CommandLine → Bytes → Option Bytes → Round
  unfolding set_pair load_file
  round c arg next =
      if not (starts_with arg (str "-"))
      then stop (ok usage)
      else if bytes_eq arg (str "-threads")
      then with_value next
          (λ v. two (record c { props = set_property c.props (str "threadcount") v }))
      else if bytes_eq arg (str "-db")
      then with_value next (λ v. two (record c { props = set_property c.props (str "dbname") v }))
      else if bytes_eq arg (str "-P")
      then with_value next (λ v. load_file c v (open_file v))
      else if bytes_eq arg (str "-load")
      then one (record c { do_load = true })
      else if bytes_eq arg (str "-run")
      then one (record c { do_run = true })
      else if bytes_eq arg (str "-p")
      then with_value next (set_pair c)
      else stop (ok (complain (str "Unknown option '" ++ (arg ++ str "'"))))

  unfoldable pub parse_loop : CommandLine → List Bytes → Outcome Command
  parse_loop c [] = ok (proceed c)
  parse_loop c (arg ∷ []) = elim (round c arg none) [
    | stop r ↦ r
    | one c' ↦ parse_loop c' []
    | two c' ↦ parse_loop c' []
  ]
  parse_loop c (arg ∷ next ∷ rest) = elim (round c arg (some next)) [
    | stop r ↦ r
    | one c' ↦ parse_loop c' (next ∷ rest)
    | two c' ↦ parse_loop c' rest
  ]

  -- With no argument at all the usage is printed.
  unfoldable pub parse_command_line : Properties → List Bytes → Outcome Command
  parse_command_line props [] = ok usage
  parse_command_line props (arg ∷ rest) =
      parse_loop (record { props = props; do_load = false; do_run = false; filename = [] })
        (arg ∷ rest)

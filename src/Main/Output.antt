-- ===== src/Main/Output.antt =====
-- What main and the parser print.
use ycsb.Prelude.{ℕ, suc, Option, none, some, [], ◌++◌, ◌∷◌}
use ycsb.Prelude.Int.{ℤ, pos, negsuc}
use ycsb.Prelude.Outcome.{Outcome, ok, ◌>>=◌}
use ycsb.Prelude.Text.{Bytes, str, to_string}
use ycsb.Prelude.Chars.{stoi}
use ycsb.Platform.{Platform}
use ycsb.Timer.{Clock, start, stop}
use ycsb.Properties.{Properties, get_property, at}
use ycsb.Workload.Property as Property
use ycsb.Cli.{CommandLine, Command, proceed}
use ycsb.Main.Program.{Report, shows, unknown_database, finished}

-- What is written to cout, and to cerr.
pub record Printed : Type 0 where
  pub out : Bytes
  pub log : Bytes

-- A line, with endl.
abbrev pub line : Bytes → Bytes
line s = s ++ b'\n' ∷ []

-- UsageMessage
unfoldable pub usage_message : Bytes → Bytes
usage_message command =
    line (str "Usage: " ++ command ++ str " [options]")
    ++ line (str "Options:")
    ++ line (str "  -threads n: execute using n threads (default: 1)")
    ++ line (str "  -db dbname: specify the name of the DB to use (default: basic)")
    ++ line (str "  -P propertyfile: load properties from the given file. Multiple files can")
    ++ line (str "                   be specified, and will be processed in the order specified")
    ++ line (str "  -p name=value: specify a property value on the command line")
    ++ line (
        str "  -load/-run: perform only the load phase or only the run phase "
        ++ str "(default: do both)")

unfoldable pub show_int : ℤ → Bytes
show_int (pos n) = to_string n
show_int (negsuc n) = b'-' ∷ to_string (suc n)

-- The machine that the program prints on: its clock, how a double is written, and the two readings of
-- the clock, before and behind the run phase.
pub record Terminal (P : Platform) : Type 1 where
  pub command : Bytes
  pub clock : Clock P.Double
  pub show_double : P.Double → Bytes
  pub before : clock.Instant
  pub behind : clock.Instant

module _ (P : Platform) (T : Terminal P) where
  open P use {Double, div, of_int}

  -- `total_ops / duration / 1000`
  unfoldable pub throughput : ℤ → Double → Double
  throughput total_ops duration = div (div (of_int total_ops) duration) (of_int (pos 1000))

  unfoldable pub loading_report : ℕ → Bytes
  loading_report sum = line (str "# Loading records:\t" ++ to_string sum)

  unfoldable pub throughput_report : Properties → Bytes → Outcome Bytes
  throughput_report props file_name = do
    dbname ← at props (str "dbname")
    num_threads ← stoi (get_property props (str "threadcount") (str "1"))
    text ← at props Property.operation_count_property
    total_ops ← stoi text
    let duration = stop T.clock (start T.clock T.before) T.behind
    ok (
        line (str "# Transaction throughput (KTPS)")
        ++ line (
            dbname
            ++ b'\t' ∷ file_name
            ++ b'\t' ∷ show_int num_threads
            ++ b'\t' ∷ T.show_double (throughput total_ops duration)))

  -- What the phases print; the sum of the run phase is not printed.
  unfoldable pub phases_report : CommandLine → Option ℕ → Option ℕ → Outcome Printed
  phases_report c none none = ok (record { out = []; log = [] })
  phases_report c (some sum) none = ok (record { out = []; log = loading_report sum })
  phases_report c none (some _) = do
    t ← throughput_report c.props c.filename
    ok (record { out = []; log = t })
  phases_report c (some sum) (some _) = do
    t ← throughput_report c.props c.filename
    ok (record { out = []; log = loading_report sum ++ t })

  -- What a run that ends normally has printed, by the command that the parser has made of the
  -- arguments.
  unfoldable pub printed : Command → Report → Outcome Printed
  printed (proceed c) (finished loaded done) = phases_report c loaded done
  printed (proceed c) unknown_database = do
    dbname ← at c.props (str "dbname")
    ok (record { out = line (str "Unknown database name " ++ dbname); log = [] })
  printed _ (shows message) = ok (record { out = line message; log = [] })
  printed _ _ = ok (record { out = usage_message T.command; log = [] })

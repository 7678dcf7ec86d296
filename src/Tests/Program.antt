-- ===== src/Tests/Program.antt =====
-- An example of a whole run.
use ycsb.Prelude.{ℕ, ◌++◌, ◌-◌, ◌*◌, ◌/◌, ◌≡◌, refl, true, false, none, some, List, [], ◌∷◌, arith}
use ycsb.Prelude.Int.{pos}
use ycsb.Prelude.Outcome.{ok, ◌>>=◌}
use ycsb.Prelude.Text.{Bytes, str, to_string, bytes_eq, is_empty, split_at, starts_with}
use ycsb.Prelude.Chars.{stoi, to_lower}
use ycsb.Utils.{str_to_bool}
use ycsb.Properties as Properties
use ycsb.Properties.{Properties, get_property, at, lookup, find, assign, set_property}
use ycsb.Lsm.Config.{
  SplitConfig, parallelism, split_binding, split_config, split_options, parse_size_t, parse_bool,
}
use ycsb.DbFactory.{create_db}
use ycsb.Workload.Setup.{Settings, read_settings}
use ycsb.Workload.Setup.Serving.{Serving}
use ycsb.Cli.{CommandLine, proceed, round, parse_loop, parse_command_line}
use ycsb.Main.Program.{Machine, finished, unknown_database, main}
use ycsb.Main.Output as Output
use ycsb.Main.Output.{Terminal, printed}
use ycsb.Main.Prints.{main_prints}
use ycsb.Main.Refusal.{refused, main-refused}
use ycsb.Main.Success.{Planned, main_succeeds}
use ycsb.Tests.{hundredths, hundredths-UniformInRange, table_engine, table_engine-IsLawful}
use ycsb.Tests.Workloads.{mostly_reads, value_or}

abbrev machine : Machine
machine = record {
  hardware_threads = pos 4;
  open_file = λ name. none;
  split_engine = table_engine;
  open_split = λ config. ok (λ key. []);
  unified_engine = table_engine;
  open_unified = λ config. ok (λ key. []);
}

abbrev arguments : List Bytes
arguments =
    str "-db"
    ∷ str "splitlsm"
    ∷ str "-threads"
    ∷ str "2"
    ∷ str "-p"
    ∷ str "recordcount=4"
    ∷ str "-p"
    ∷ str "operationcount=3"
    ∷ str "-p"
    ∷ str "splitlsm.dbpath=d"
    ∷ []

abbrev given : Properties
given = record {
  entries =
      (str "dbname", str "splitlsm")
      ∷ (str "threadcount", str "2")
      ∷ (str "recordcount", str "4")
      ∷ (str "operationcount", str "3")
      ∷ (str "splitlsm.dbpath", str "d")
      ∷ [];
}

abbrev line : CommandLine
line = record { props = given; do_load = false; do_run = false; filename = [] }

parsed : parse_command_line machine.open_file Properties.empty arguments ≡ ok (proceed line)
unfolding parse_command_line parse_loop round bytes_eq starts_with split_at set_property assign
parsed = refl

abbrev opened : SplitConfig
opened = record {
  db_path = str "d";
  options = record {
    create_if_missing = true;
    no_compression = true;
    jobs = parallelism (pos 4);
    write_buffer_size = none;
  };
  buffer_size = 8388608;
  collect_size = 134217728;
  collect_threshold = 134217728;
  punch_hole_threshold = 134217728;
  enable_gc = true;
}

chosen : create_db (pos 4) given ≡ ok (some (split_binding opened))
unfolding create_db at lookup find bytes_eq split_config parse_size_t parse_bool split_options
    get_property is_empty
chosen = refl

abbrev settings : Settings hundredths
settings = value_or (read_settings hundredths given) mostly_reads

given-Serving : Serving hundredths given settings 4
unfolding stoi get_property lookup find bytes_eq read_settings str_to_bool to_lower
given-Serving = record {
  read_them = refl;
  uniform_requests = refl;
  constant_lengths = refl;
  bytes = 99;
  some_byte = refl;
  fits = omega arith;
  fields = 9;
  some_field = refl;
  records = refl;
  some_record = omega arith;
  few = omega arith;
  uniform_scans = refl;
  longest = 999;
  some_length = refl;
  from_zero = refl;
  reads = refl;
  no_deletes = refl;
  no_scans = refl;
}

line-Planned : Planned hundredths line settings 4 3 2
unfolding stoi get_property lookup find bytes_eq
line-Planned = record {
  serving = given-Serving;
  threads = refl;
  some_thread = omega arith;
  divides = refl;
  operations = refl;
  both = refl;
}

main_succeeds_example :
    main hundredths machine 1 true arguments 0 ≡ ok (finished (some 4) (some (2 * (3 / 2))))
main_succeeds_example =
    main_succeeds hundredths machine table_engine-IsLawful hundredths-UniformInRange 0 4 3 2
      arguments line settings 0 opened (λ key. []) parsed chosen refl line-Planned

abbrev terminal : Terminal hundredths
terminal = record {
  command = str "ycsbc";
  clock = record { Instant = ℕ; count_between = λ a b. b - a };
  show_double = to_string;
  before = 0;
  behind = 500;
}

main_prints_example :
    (main hundredths machine 1 true arguments 0 >>= printed hundredths terminal (proceed line))
    ≡ ok (record {
      out = [];
      log =
          Output.line (str "# Loading records:\t" ++ to_string 4)
          ++ (Output.line (str "# Transaction throughput (KTPS)")
              ++ Output.line (
                  str "splitlsm"
                  ++ b'\t' ∷ []
                  ++ b'\t' ∷ to_string 2
                  ++ b'\t'
                    ∷ terminal.show_double (
                        hundredths.div
                          (hundredths.div
                            (hundredths.of_int (pos 3))
                            (terminal.clock.count_between 0 500))
                          (hundredths.of_int (pos 1000)))));
    })
main_prints_example =
    main_prints hundredths terminal machine table_engine-IsLawful hundredths-UniformInRange 0 4 3 2
      arguments line settings 0 opened (λ key. []) (str "splitlsm") parsed chosen refl line-Planned
      (unfold at lookup find bytes_eq in refl)

-- The name that the usage message gives as the default.
abbrev basic_line : CommandLine
basic_line = record {
  props = record { entries = (str "dbname", str "basic") ∷ [] };
  do_load = false;
  do_run = false;
  filename = [];
}

basic_parsed :
    parse_command_line machine.open_file Properties.empty (str "-db" ∷ str "basic" ∷ [])
    ≡ ok (proceed basic_line)
unfolding parse_command_line parse_loop round bytes_eq starts_with split_at set_property assign
basic_parsed = refl

main-refused_example :
    main hundredths machine 1 true (str "-db" ∷ str "basic" ∷ []) 0 ≡ ok unknown_database
main-refused_example =
    main-refused hundredths machine 1 true (str "-db" ∷ str "basic" ∷ []) basic_line 0
      (ok unknown_database) basic_parsed
      (unfold refused lookup find get_property bytes_eq is_empty in refl)

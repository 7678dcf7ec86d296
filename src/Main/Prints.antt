-- ===== src/Main/Prints.antt =====
-- What a whole run prints.
use ycsb.Prelude.{ℕ, suc, ◌≡◌, refl, ◌∙◌, true, some, [], List, ◌++◌, ◌∷◌}
use ycsb.Prelude.Int.{pos}
use ycsb.Prelude.Outcome.{ok, ◌>>=◌}
use ycsb.Prelude.Text.{Bytes, str, to_string}
use ycsb.Platform.{Platform, UniformInRange}
use ycsb.Properties as Properties
use ycsb.Properties.{at}
use ycsb.Lsm.Engine.{IsLawful}
use ycsb.Lsm.Config.{SplitConfig, split_binding}
use ycsb.DbFactory.{create_db}
use ycsb.Workload.Property as Property
use ycsb.Workload.Setup.{Settings}
use ycsb.Cli.{CommandLine, proceed, parse_command_line}
use ycsb.Main.Program.{Machine, main}
use ycsb.Main.Success.{Planned, at-get_property, main_succeeds}
use ycsb.Timer.{start, stop}
use ycsb.Main.Output.{
  Terminal, line, show_int, throughput, throughput_report, loading_report, phases_report, printed,
}

-- What the whole program prints on a run that `main_succeeds` is about: nothing to cout, and to cerr
-- the number of records, all of which are loaded, and the throughput. This counts all `m` operations
-- that were asked for, in the time that the clock took, though `t * (m / t)` are run.
pub main_prints :
    (P : Platform) (T : Terminal P) (M : Machine) (works : IsLawful M.split_engine)
    → UniformInRange P
    → (fuel n m t : ℕ) (args : List Bytes) (c : CommandLine) (settings : Settings P) (s : P.Seed)
      (config : SplitConfig) (d : M.split_engine.State) (name : Bytes)
    → parse_command_line M.open_file Properties.empty args ≡ ok (proceed c)
    → create_db M.hardware_threads c.props ≡ ok (some (split_binding config))
    → M.open_split config ≡ ok d
    → Planned P c settings n m t
    → at c.props (str "dbname") ≡ ok name
    → (main P M (suc fuel) true args s >>= printed P T (proceed c))
      ≡ ok (record {
        out = [];
        log =
            line (str "# Loading records:\t" ++ to_string n)
            ++ (line (str "# Transaction throughput (KTPS)")
                ++ line (
                    name
                    ++ b'\t' ∷ c.filename
                    ++ b'\t' ∷ to_string t
                    ++ b'\t'
                      ∷ T.show_double (
                          P.div
                            (P.div (P.of_int (pos m)) (T.clock.count_between T.before T.behind))
                            (P.of_int (pos 1000)))));
      })
unfolding printed phases_report throughput_report loading_report throughput
main_prints P T M works L fuel n m t args c settings s config d name parsed chosen opened v named =
    (λ i.
      main_succeeds P M works L fuel n m t args c settings s config d parsed chosen opened v i
      >>= printed P T (proceed c))
    ∙ rw
        (
          named,
          v.threads,
          at-get_property c.props Property.operation_count_property (pos m) v.operations,
          v.operations,
        )
        (unfold show_int stop start in refl)

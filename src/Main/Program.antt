-- ===== src/Main/Program.antt =====
-- main, over the engines of the lsm-tree project, which are parameters.
use ycsb.Prelude.{ℕ, Bool, true, false, not, ◌&&◌, ◌||◌, Option, none, some, List}
use ycsb.Prelude.Int.{ℤ, pos, pos_part, eq_ℤ}
use ycsb.Prelude.Tests.{if◌then◌else◌}
use ycsb.Prelude.Outcome.{Outcome, ok, ◌>>=◌, ◌>>◌, assert}
use ycsb.Prelude.Text.{Bytes, str}
use ycsb.Prelude.Chars.{stoi}
use ycsb.Platform.{Platform}
use ycsb.Properties as Properties
use ycsb.Properties.{Properties, get_property, at}
use ycsb.Db.{Db}
use ycsb.Lsm.Engine.{Engine}
use ycsb.Lsm.Split.{split_db}
use ycsb.Lsm.Unified.{unified_db}
use ycsb.Lsm.Config.{Binding, split_binding, unified_binding, SplitConfig, UnifiedConfig}
use ycsb.DbFactory.{create_db}
use ycsb.Workload.Property as Property
use ycsb.Workload.Setup as Setup
use ycsb.Client.{World}
use ycsb.Cli.{CommandLine, Command, proceed, usage, complain, parse_command_line}
use ycsb.Main.{ops_per_thread, run_phase}

-- The machine that the program runs on: the number that hardware_concurrency gives, the files, and
-- the two engines with their constructors, which may throw.
pub record Machine : Type 1 where
  pub hardware_threads : ℤ
  pub open_file : Bytes → Option Bytes
  pub split_engine : Engine
  pub open_split : SplitConfig → Outcome split_engine.State
  pub unified_engine : Engine
  pub open_unified : UnifiedConfig → Outcome unified_engine.State

-- What a run that ends normally shows: the usage, a message, or the sums of the phases it ran.
pub data Report : Type 0 where
  shows_usage : Report
  shows : Bytes → Report
  unknown_database : Report
  finished : Option ℕ → Option ℕ → Report

module _ (P : Platform) where
  -- A phase, if it is wanted; `total` is the name of the property with its number of operations. The
  -- loop has started as many threads as `num_threads` says, none where this is negative.
  unfoldable pub phase :
      (D : Db)
      → ℕ
      → Bool
      → Properties
      → Bool
      → Bytes
      → ℤ
      → Bool
      → World P D
      → Outcome (Option ℕ × World P D)
  phase D fuel ndebug props wanted total num_threads is_loading x =
      if wanted
      then (do
        text ← at props total
        total_ops ← stoi text
        assert ndebug (eq_ℤ (pos (pos_part num_threads)) num_threads)
        (sum, y) ←
            run_phase P D fuel ndebug is_loading (ops_per_thread total_ops num_threads)
              (pos_part num_threads) 0 x
        ok (some sum, y))
      else ok (none, x)

  -- The rest of main, on the database that CreateDB has made.
  unfoldable pub benchmark : (D : Db) → D.State → ℕ → Bool → CommandLine → P.Seed → Outcome Report
  benchmark D d fuel ndebug c s = do
    let both = not c.do_load && not c.do_run
    (w, s') ← Setup.init P ndebug c.props s
    num_threads ← stoi (get_property c.props (str "threadcount") (str "1"))
    (loaded, x) ←
        phase D fuel ndebug c.props (c.do_load || both) Property.record_count_property num_threads
          true (record { workload = w; seed = s'; db = d })
    (done, _) ←
        phase D fuel ndebug c.props (c.do_run || both) Property.operation_count_property num_threads
          false x
    ok (finished loaded done)

  module _ (M : Machine) where
    open M use {hardware_threads, open_file, split_engine, open_split, unified_engine, open_unified}

    unfoldable pub with_database : Option Binding → ℕ → Bool → CommandLine → P.Seed → Outcome Report
    with_database none fuel ndebug c s = ok unknown_database
    with_database (some (split_binding config)) fuel ndebug c s = do
      d ← open_split config
      benchmark (split_db split_engine) d fuel ndebug c s
    with_database (some (unified_binding config)) fuel ndebug c s = do
      d ← open_unified config
      benchmark (unified_db unified_engine) d fuel ndebug c s

    execute : Command → ℕ → Bool → P.Seed → Outcome Report
    execute usage fuel ndebug s = ok shows_usage
    execute (complain message) fuel ndebug s = ok (shows message)
    execute (proceed c) fuel ndebug s = do
      binding ← create_db hardware_threads c.props
      with_database binding fuel ndebug c s

    unfoldable pub main : ℕ → Bool → List Bytes → P.Seed → Outcome Report
    unfolding execute
    main fuel ndebug args s = do
      command ← parse_command_line open_file Properties.empty args
      execute command fuel ndebug s

-- ===== src/Main/Success.antt =====
-- A whole run of the benchmark in which everything succeeds.
use ycsb.Prelude.{
  ℕ, suc, ◌*◌, ◌/◌, ◌%◌, ◌<◌, ◌≡◌, refl, ap, ◌∙◌, Bool, true, false, not, ◌&&◌, ◌||◌, Option, none,
  some, List, [], arith,
}
use ycsb.Prelude.Tests.{if-then, ==_iff}
use ycsb.Prelude.Int.{ℤ, pos}
use ycsb.Prelude.Outcome.{Outcome, ok, err, out_of_range}
use ycsb.Prelude.Text.{Bytes, str}
use ycsb.Prelude.Chars.{stoi}
use ycsb.Platform.{Platform, UniformInRange}
use ycsb.Properties.{Properties, get_property, at, lookup, or_default}
use ycsb.Db.{Db}
use ycsb.Lsm.Engine.{IsLawful}
use ycsb.Lsm.Contract.{Implements, split_db-Implements}
use ycsb.Lsm.Split.{split_db}
use ycsb.Lsm.Config.{SplitConfig, split_binding}
use ycsb.DbFactory.{create_db}
use ycsb.Properties as Properties
use ycsb.Workload.Property as Property
use ycsb.Workload.Setup.{Settings}
use ycsb.Workload.Setup.Serving.{Serving, init-Ready}
use ycsb.Workload.Setup.Started.{init-Returns}
use ycsb.Workload.Setup.Chooser.{read_settings_texts}
use ycsb.Client.{World}
use ycsb.Cli.{CommandLine, proceed, parse_command_line}
use ycsb.Main.{ops_per_thread, run_phase}
use ycsb.Main.InTurn.{IsQuiet}
use ycsb.Main.Running.{run_phase-Ran}
use ycsb.Main.Running.Loaded.{run_phase-Filled}
use ycsb.Main.Program.{Machine, finished, phase, benchmark, with_database, main}

pub at-get_property :
    (p : Properties) (k : Bytes) (v : ℤ)
    → stoi (get_property p k []) ≡ ok v
    → at p k ≡ ok (get_property p k [])
unfolding at get_property stoi
at-get_property p k v h = by_value (lookup p k) h
  where
    by_value :
        (o : Option Bytes)
        → stoi (or_default o []) ≡ ok v
        → elim o as (λ _. Outcome Bytes) [ none ↦ err out_of_range | some v ↦ ok v ]
          ≡ ok (or_default o [])
    by_value none h = cc
    by_value (some t) h = refl

wanted_both :
    (load run : Bool)
    → load ≡ run
    → (load || (not load && not run) ≡ true) × (run || (not load && not run) ≡ true)
wanted_both true true e = (refl, refl)
wanted_both false false e = (refl, refl)
wanted_both true false e = cc
wanted_both false true e = cc

module _ (P : Platform) where
  phase_runs :
      (D : Db) (fuel : ℕ) (ndebug wanted : Bool) (props : Properties) (total text : Bytes) (k t : ℕ)
      (is_loading : Bool) (x : World P D) (r : ℕ × World P D)
      → wanted ≡ true
      → at props total ≡ ok text
      → stoi text ≡ ok (pos k)
      → run_phase P D fuel ndebug is_loading (ops_per_thread (pos k) (pos t)) t 0 x ≡ ok r
      → phase P D fuel ndebug props wanted total (pos t) is_loading x ≡ ok (some r.0, r.1)
  unfolding phase
  phase_runs D fuel ndebug wanted props total text k t is_loading x r w a n run =
      if-then wanted _ _ w ∙ rw (a, n, (==_iff t t).1 refl, run) refl

  -- The plan of a run: settings that serve, `t` threads that divide the `n` records, `m` operations,
  -- and no flag or both that choose a phase.
  pub record Planned (c : CommandLine) (settings : Settings P) (n m t : ℕ) : Type 0 where
    pub serving : Serving P c.props settings n
    pub threads : stoi (get_property c.props (str "threadcount") (str "1")) ≡ ok (pos t)
    pub some_thread : 0 < t
    pub divides : n % t ≡ 0
    pub operations : stoi (get_property c.props Property.operation_count_property []) ≡ ok (pos m)
    pub both : c.do_load ≡ c.do_run

  module _ (D : Db) (view : D.State → Bytes → Bytes) (I : Implements D view)
      (quiet : IsQuiet D) where
    pub benchmark_succeeds :
        UniformInRange P
        → (fuel n m t : ℕ) (c : CommandLine) (settings : Settings P) (d : D.State) (s : P.Seed)
        → Planned c settings n m t
        → benchmark P D d (suc fuel) true c s ≡ ok (finished (some n) (some (t * (m / t))))
    unfolding benchmark ops_per_thread
    benchmark_succeeds L fuel n m t c settings d s v =
        let (w, started, _) = init-Returns P L c.props settings n s v.serving in
        let (ready, keys, last) = init-Ready P L c.props settings n s w v.serving started in
        let x : World P D = record { workload = w.0; seed = w.1; db = d } in
        let whole : t * (n / t) ≡ n = grind (arith, v.divides, v.some_thread) in
        let (r, loaded, f) =
          run_phase-Filled P D view I quiet (suc fuel) (n / t) t x ready keys
            (omega (arith, last, whole, v.serving.some_record))
            (omega (arith, whole, v.serving.few)) in
        let (q, run, ran) =
          run_phase-Ran P D view I L fuel quiet (m / t) t r.1 f.ready f.in_place in
        let (load, go) = wanted_both c.do_load c.do_run v.both in
        let count : stoi (get_property c.props Property.record_count_property []) ≡ ok (pos n) =
          (read_settings_texts P c.props settings v.serving.read_them).0
          ∙ ap ok v.serving.records in
        rw
          (
            started,
            v.threads,
            phase_runs D (suc fuel) true (c.do_load || (not c.do_load && not c.do_run)) c.props
                Property.record_count_property _ n t true x r load
                (at-get_property c.props Property.record_count_property (pos n) count) count loaded,
            phase_runs D (suc fuel) true (c.do_run || (not c.do_load && not c.do_run)) c.props
                Property.operation_count_property _ m t false r.1 q go
                (at-get_property c.props Property.operation_count_property (pos m) v.operations)
                v.operations run,
          )
          (λ i. ok (finished (some ((f.all_ok ∙ whole) i)) (some (ran.all_ok i))))

  -- The whole program, on a command line that asks for the SplitLSM engine, which works and opens.
  -- Where the properties serve (uniform requests, values of one positive length that a string can
  -- hold, at least one field, keys from 0 on, reads, no deletes, no scans, and uniform scan lengths)
  -- and the number of threads divides the number of records, a build without assertions loads all
  -- `n` records, and each of the `t * (m / t)` transactions that it then runs succeeds: these are
  -- the two sums of its report. One round for each transaction key is enough.
  pub main_succeeds :
      (M : Machine) (works : IsLawful M.split_engine)
      → UniformInRange P
      → (fuel n m t : ℕ) (args : List Bytes) (c : CommandLine) (settings : Settings P) (s : P.Seed)
        (config : SplitConfig) (d : M.split_engine.State)
      → parse_command_line M.open_file Properties.empty args ≡ ok (proceed c)
      → create_db M.hardware_threads c.props ≡ ok (some (split_binding config))
      → M.open_split config ≡ ok d
      → Planned c settings n m t
      → main P M (suc fuel) true args s ≡ ok (finished (some n) (some (t * (m / t))))
  unfolding main with_database
  main_succeeds M works L fuel n m t args c settings s config d parsed chosen opened v =
      rw (parsed, chosen, opened)
        (benchmark_succeeds (split_db M.split_engine) works.view
          (split_db-Implements M.split_engine works)
          (record { init = λ _. refl; close = λ _. refl }) L fuel n m t c settings d s v)

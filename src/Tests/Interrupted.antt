-- ===== src/Tests/Interrupted.antt =====
-- Examples about threads that are interrupted between any two actions.
use ycsb.Prelude.{ℕ, refl, true, false, inl, arith}
use ycsb.Prelude.Text.{Bytes, str, is_empty}
use ycsb.Db.{Db}
use ycsb.Lsm.Contract.{split_db-Implements}
use ycsb.Lsm.Split.{split_db}
use ycsb.Actions.Threads.{Ends}
use ycsb.Client.{World}
use ycsb.Client.Ready.{IsServed, Ready}
use ycsb.Client.Service.{InPlace}
use ycsb.Prelude.{some, [], ◌∷◌}
use ycsb.Workload.{read, delete, scan}
use ycsb.Client.Actions.Anyhow.{AnyOperation}
use ycsb.Main.Actions.AnyMix.{PhaseOver, any_mix-Ends}
use ycsb.Main.InTurn.{IsQuiet}
use ycsb.Main.Actions.{phase_pool}
use ycsb.Main.Actions.Ended.{PhaseDone, interrupted_phase}
use ycsb.Tests.{hundredths, hundredths-UniformInRange, table_engine, table_engine-IsLawful}
use ycsb.Tests.Workloads.{small, small-IsOver, zero_to, three_bytes}

abbrev table_db : Db
table_db = split_db table_engine

abbrev values : (Bytes → Bytes) → Bytes → Bytes
values s k = s k

-- The small workload with a value under every key.
abbrev full_world : World hundredths table_db
full_world = record { workload = small; seed = 0; db = λ _. str "v" }

full_world-Ready : Ready hundredths IsServed full_world.workload
full_world-Ready = record {
  requests = (zero_to 4, refl, small-IsOver);
  fields = (zero_to 1, refl);
  scans = (zero_to 1, refl);
  lengths = (three_bytes, refl, omega arith, omega arith);
  keys = (_, refl);
  operations = record {
    valid = record { last_listed = inl refl };
    served = (tt, (tt, tt));
    first = _;
    others = _;
    some_operation = refl;
  };
  some_field = omega arith;
}

full_world-InPlace : InPlace hundredths table_db values full_world
full_world-InPlace = record { present = λ k h. unfold is_empty in refl }

table_db-IsQuiet : IsQuiet table_db
table_db-IsQuiet = record { init = λ d. refl; close = λ d. refl }

interrupted_phase_example :
    Ends
      (World hundredths table_db)
      ℕ
      (PhaseDone hundredths table_db values 3 2 full_world)
      (phase_pool hundredths table_db 1 true false 3 2 full_world)
interrupted_phase_example =
    interrupted_phase hundredths table_db values
      (split_db-Implements table_engine table_engine-IsLawful) hundredths-UniformInRange
      table_db-IsQuiet 0 3 2 full_world full_world-Ready full_world-InPlace

-- The same with deletions and scans.
abbrev mixed_world : World hundredths table_db
mixed_world = record full_world {
  workload = record small {
    op_chooser = record {
      values = (read, 50) ∷ (delete, 25) ∷ (scan, 25) ∷ [];
      sum = 100;
      last = some read;
    };
  };
}

mixed_world-Ready : Ready hundredths AnyOperation mixed_world.workload
mixed_world-Ready = record {
  requests = (zero_to 4, refl, small-IsOver);
  scans = (zero_to 1, refl);
  fields = (zero_to 1, refl);
  lengths = (three_bytes, refl, omega arith, omega arith);
  keys = (_, refl);
  operations = record {
    valid = record { last_listed = inl refl };
    served = (tt, (tt, (tt, tt)));
    first = _;
    others = _;
    some_operation = refl;
  };
  some_field = omega arith;
}

any_mix-Ends_example :
    Ends
      (World hundredths table_db)
      ℕ
      (PhaseOver hundredths table_db 3 2 mixed_world)
      (phase_pool hundredths table_db 1 true false 3 2 mixed_world)
any_mix-Ends_example =
    any_mix-Ends hundredths table_db hundredths-UniformInRange 0 3 2 false mixed_world
      mixed_world-Ready

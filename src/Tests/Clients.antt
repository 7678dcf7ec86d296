-- ===== src/Tests/Clients.antt =====
-- Examples about the client and the database bindings.
use ycsb.Prelude.{ℕ, ◌≡◌, ◌≢◌, refl, Bool, true, false, Option, some, List, [], ◌∷◌, ◌++◌}
use ycsb.Prelude.Outcome.{ok}
use ycsb.Prelude.Text.{Bytes, str, is_empty}
use ycsb.Tests.{hundredths, table_engine, table_engine-IsLawful}
use ycsb.Tests.Workloads.{small, small_field_drawn, value_or}
use ycsb.Utils.{random_double}
use ycsb.Prelude.{none, arith}
use ycsb.Prelude.Int.{pos, negsuc}
use ycsb.Db.{no_data_status}
use ycsb.Lsm.Engine.{Engine}
use ycsb.Lsm.Scans.{scanned, split_scan_lem}
use ycsb.Lsm.Contract.{Implements, split_db-Implements}
use ycsb.Lsm.Split as Split
use ycsb.Lsm.Unified as Unified
use ycsb.Lsm.Agreement.{unified_db-split_db}
use ycsb.Generators.Counter as Counter
use ycsb.Generators.Uniform as Uniform
use ycsb.Generators.Discrete as Weighted
use ycsb.Generators.Any as Any
use ycsb.Workload.{next_transaction_key, draw_key, next_operation, next_field_name}
use ycsb.Workload.Fields.{field_name}
use ycsb.Workload.Frame.{config}
use ycsb.Client.{
  World, is_ok, one_field, requested_fields, transaction_read, dispatch, do_transaction,
}
use ycsb.Client.Laws.{do_transaction-Keeps}
use ycsb.Client.Requests.{requested_fields-unwritten}

split_db-Implements_example : Implements (Split.split_db table_engine) (λ s k. s k)
split_db-Implements_example = split_db-Implements table_engine table_engine-IsLawful

unified_db-split_db_example : Unified.unified_db table_engine ≡ Split.split_db table_engine
unified_db-split_db_example = unified_db-split_db table_engine

requested_fields-unwritten_example :
    (f : Bytes) × (◌≡◌ {A = Option (List Bytes)}
      (some ((str "field" ++ field_name 0) ∷ []))
      (some (f ∷ [])))
    × ((i : ℕ) → f ≢ field_name i)
requested_fields-unwritten_example =
    requested_fields-unwritten hundredths false small 0
      (some ((str "field" ++ field_name 0) ∷ []), small_field_drawn, 0) refl
      (unfold requested_fields one_field next_field_name Any.next Uniform.next in refl)

-- The small workload before an empty database.
abbrev pub empty_world : World hundredths (Split.split_db table_engine)
empty_world = record { workload = small; seed = 0; db = λ _. [] }

abbrev transacted : Bool × World hundredths (Split.split_db table_engine)
transacted =
    value_or (do_transaction hundredths (Split.split_db table_engine) 1 false empty_world)
      (false, empty_world)

transacted_lem :
    do_transaction hundredths (Split.split_db table_engine) 1 false empty_world ≡ ok transacted
unfolding do_transaction dispatch transaction_read next_operation next_transaction_key draw_key
    requested_fields one_field next_field_name Any.next Uniform.next Counter.last Weighted.next
    Weighted.choose Weighted.conclude random_double Split.split_read Split.finish_read is_empty
    is_ok
transacted_lem = refl

do_transaction-Keeps_example : config hundredths transacted.1.workload ≡ config hundredths small
do_transaction-Keeps_example =
    do_transaction-Keeps hundredths (Split.split_db table_engine) 1 false empty_world transacted
      transacted_lem

-- The same with reads of all fields and a value under every key.
abbrev full_world : World hundredths (Split.split_db table_engine)
full_world = record {
  workload = record small { read_all_fields = true };
  seed = 0;
  db = λ _. str "v";
}

table_db-Implements : Implements (Split.split_db table_engine) (λ s k. s k)
table_db-Implements = split_db-Implements table_engine table_engine-IsLawful

-- An engine that finds the key itself.
abbrev finding : Engine
finding = record table_engine { scan = λ k n s. (some ((k, s k) ∷ []), s) }

split_scan_lem_example :
    (Split.split_scan finding [] (str "k") (pos 3) none [] (λ _. str "v")
      ≡ scanned finding none [] (finding.scan (str "k") 3 (λ _. str "v")))
    × (Split.split_scan finding [] (str "k") (negsuc 0) none [] (λ _. str "v")
        ≡ (no_data_status, [], λ _. str "v"))
split_scan_lem_example =
    split_scan_lem finding [] (str "k") 3 0 none [] (λ _. str "v") (omega arith) (omega arith)

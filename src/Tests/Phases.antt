-- ===== src/Tests/Phases.antt =====
-- Examples about the phases.
use ycsb.Client.{World}
use ycsb.Prelude.Outcome.{err, length_error}
use ycsb.Prelude.Int.{negsuc, to_u64}
use ycsb.Generators.Uniform.{new_const}
use ycsb.Generators.Any as Any
use ycsb.Main.Loading.TooLong.{run_phase_too_long}
use ycsb.Prelude.{◌⊎◌, ◌+◌, ◌*◌, ◌%◌, ◌^◌, ◌≡◌, refl, true, false, [], ◌∷◌, arith}
use ycsb.Prelude.Int.{pos}
use ycsb.Prelude.Outcome.{ok, Returns}
use ycsb.Prelude.Text.{Bytes}
use ycsb.Db.{Db}
use ycsb.Lsm.Contract.{Implements, split_db-Implements}
use ycsb.Lsm.Split.{split_db}
use ycsb.Generators.Uniform.{ConstGenerator}
use ycsb.Generators.Any as Any
use ycsb.Workload.{CoreWorkload, key_name, next_sequence_key}
use ycsb.Main.{ops_per_thread, run_phase}
use ycsb.Main.InTurn.{IsQuiet}
use ycsb.Prelude.Lists.{replicate}
use ycsb.Main.Interleaved as Interleaved
use ycsb.Main.Interleaved.{Team, ready, keyed, draw}
use ycsb.Main.Interleaved.Workers.{AllIdle, over_all, successes}
use ycsb.Main.Interleaved.Complete.{loaded_anyhow}
use ycsb.Main.Loading.{Loads, Present}
use ycsb.Main.Loading.Phase.{run_phase-Present, run_phase_remainder}
use ycsb.Tests.{hundredths, table_engine, table_engine-IsLawful}
use ycsb.Tests.Workloads.{small, value_or}
use ycsb.Tests.Clients.{empty_world}

abbrev table_db : Db
table_db = split_db table_engine

abbrev values : (Bytes → Bytes) → Bytes → Bytes
values s k = s k

table_db-Implements : Implements table_db values
table_db-Implements = split_db-Implements table_engine table_engine-IsLawful

table_db-IsQuiet : IsQuiet table_db
table_db-IsQuiet = record { init = λ d. refl; close = λ d. refl }

abbrev three_bytes : ConstGenerator
three_bytes = record { constant = 3 }

small-Loads : Loads hundredths table_db values table_db-Implements 0 three_bytes small
small-Loads = record {
  keys = refl;
  lengths = refl;
  some_field = omega arith;
  some_byte = omega arith;
  fits = omega arith;
}

run_phase-Present_example :
    Returns (run_phase hundredths table_db 0 false true 2 2 0 empty_world) λ r.
      (r.0 ≡ 2 * 2)
      × Present hundredths table_db values table_db-Implements r.1.db
          (key_name hundredths small ((0 + 3) % 2 ^ 64))
run_phase-Present_example =
    run_phase-Present hundredths table_db values table_db-Implements table_db-IsQuiet 0 false 2 2 0
      three_bytes empty_world 3 (omega arith) small-Loads (omega arith)

-- The same with a value under every key already.
run_phase_remainder_example :
    Returns
      (run_phase hundredths table_db 0 false true (ops_per_thread (pos 5) (pos 2)) 2 0 empty_world)
      (λ r. r.0 + 5 % 2 ≡ 5)
run_phase_remainder_example =
    run_phase_remainder hundredths table_db values table_db-Implements table_db-IsQuiet 0 false 5 2
      0 three_bytes empty_world (omega arith) (omega arith) small-Loads

-- Two insertions of which both have drawn their keys.
abbrev Loaders : Type 0
Loaders = Team hundredths table_db false

abbrev first_key : Bytes × CoreWorkload hundredths × hundredths.Seed
first_key =
    value_or (next_sequence_key hundredths false empty_world.workload empty_world.seed)
      ([], empty_world.workload, empty_world.seed)

abbrev second_key : Bytes × CoreWorkload hundredths × hundredths.Seed
second_key =
    value_or (next_sequence_key hundredths false first_key.1 first_key.2)
      ([], first_key.1, first_key.2)

first_key_lem :
    next_sequence_key hundredths false empty_world.workload empty_world.seed ≡ ok first_key
unfolding next_sequence_key Any.next
first_key_lem = refl

second_key_lem : next_sequence_key hundredths false first_key.1 first_key.2 ≡ ok second_key
unfolding next_sequence_key Any.next
second_key_lem = refl

abbrev both_keyed : Loaders
both_keyed = record {
  world = record empty_world { workload = second_key.1; seed = second_key.2 };
  workers = keyed second_key.0 0 0 ∷ keyed first_key.0 0 0 ∷ [];
}

both_drawn :
    Interleaved.Reach hundredths table_db false
      (record { world = empty_world; workers = replicate 2 (ready 1 0) })
      both_keyed
both_drawn =
    Interleaved.then_step
      (Interleaved.then_step Interleaved.here
        (draw (ready 1 0 ∷ []) [] 0 0 first_key _ refl first_key_lem refl))
      (draw [] (keyed first_key.0 0 0 ∷ []) 0 0 second_key _ refl second_key_lem refl)

loaded_anyhow_example :
    ((t : Loaders) × Interleaved.Step hundredths table_db false both_keyed t)
    ⊎ (AllIdle both_keyed.workers
        × (over_all successes both_keyed.workers ≡ 2 * 1)
        × Present hundredths table_db values table_db-Implements both_keyed.world.db
            (key_name hundredths small ((0 + 1) % 2 ^ 64)))
loaded_anyhow_example =
    loaded_anyhow hundredths table_db values table_db-Implements false 0 three_bytes empty_world 2 1
      1 both_keyed (omega arith) small-Loads (omega arith) both_drawn

-- A field length of -1.
abbrev too_long : World hundredths table_db
too_long = record empty_world {
  workload = record small { field_len_generator = Any.constant (new_const (negsuc 0)) };
}

run_phase_too_long_example :
    run_phase hundredths table_db 0 false true 3 2 0 too_long ≡ err length_error
run_phase_too_long_example = run_phase_too_long hundredths table_db 0 2 1 false too_long (record {
  keys = (_, refl);
  lengths = (_, refl, unfold new_const to_u64 in omega arith);
  some_field = omega arith;
})

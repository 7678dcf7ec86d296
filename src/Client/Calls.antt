-- ===== src/Client/Calls.antt =====
-- The calls of the client that are one action for other threads: a call of one generator, which locks
-- its mutex or is atomic, a draw from rand, and a call of the database. NextOperation is two actions.
use ycsb.Prelude.{ℕ, Bool}
use ycsb.Prelude.Outcome.{Outcome, ok, ◌>>=◌}
use ycsb.Platform.{Platform}
use ycsb.Utils.{random_double, random_print_char}
use ycsb.Db.{Db}
use ycsb.Generators.Any as Any
use ycsb.Generators.Discrete as Weighted
use ycsb.Prelude.Text.{Bytes}
use ycsb.Workload.{CoreWorkload, Operation, append_chars}
use ycsb.Client.{World}

-- A call on the workload and the random state.
abbrev pub WorkloadCall : Platform → Type 0 → Type 0
WorkloadCall P A = CoreWorkload P → P.Seed → Outcome (A × CoreWorkload P × P.Seed)

module _ (P : Platform) (ndebug : Bool) where
  -- The number that NextOperation draws, for which it locks its mutex, and the choice by it, which
  -- writes `last_` alone.
  unfoldable pub draw_chance : WorkloadCall P P.Double
  draw_chance w s = let (u, s') = random_double P s in ok (u, w, s')

  unfoldable pub choose_operation : P.Double → WorkloadCall P Operation
  choose_operation u w s = do
    let g = w.op_chooser
    (op, g', s') ← Weighted.conclude P ndebug g (Weighted.choose P g.values g.sum u) s
    ok (op, record w { op_chooser = g' }, s')

  -- One round of the loop of NextTransactionKey.
  unfoldable pub draw_number : WorkloadCall P ℕ
  draw_number w s = do
    (n, g, s') ← Any.next P ndebug w.insert_key_sequence w.key_chooser s
    ok (n, record w { key_chooser = g }, s')

  -- The length of a value.
  unfoldable pub draw_length : WorkloadCall P ℕ
  draw_length w s = do
    (n, g, s') ← Any.next P ndebug w.insert_key_sequence w.field_len_generator s
    ok (n, record w { field_len_generator = g }, s')

  -- The text of a value, which no other thread sees.
  unfoldable pub append_value : ℕ → ℕ → WorkloadCall P Bytes
  append_value n c w s = do value ← append_chars P n c; ok (value, w, s)

  -- The character of a value.
  unfoldable pub draw_char : WorkloadCall P ℕ
  draw_char w s = let (c, s') = random_print_char P s in ok (c, w, s')

module _ {P : Platform} {D : Db} where
  abbrev pub at_workload : {A : Type 0} → World P D → A × CoreWorkload P × P.Seed → World P D
  at_workload x r = record x { workload = r.1; seed = r.2 }

  abbrev pub on_workload : {A : Type 0} → WorkloadCall P A → World P D → Outcome (A × World P D)
  on_workload f x = f x.workload x.seed >>= λ r. ok (r.0, at_workload x r)

  abbrev pub on_db : {A : Type 0} → (D.State → A × D.State) → World P D → Outcome (A × World P D)
  on_db f x = let (a, d) = f x.db in ok (a, record x { db = d })

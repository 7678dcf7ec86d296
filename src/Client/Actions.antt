-- ===== src/Client/Actions.antt =====
-- core/client.h with other threads between the actions of an operation: the calls of DoInsert and
-- DoTransaction as programs, whose actions are those of `Client.Calls` and looks at members of the
-- workload.
pub mod Alone
pub mod Kept
pub mod Draws
pub mod Parts
pub mod Served
pub mod Anyhow
use ycsb.Prelude.{ℕ, zero, suc, ◌+◌, Bool, true, false, Option, none, some, List, [], ◌∷◌, ◌++◌}
use ycsb.Prelude.Tests.{leb, if◌then◌else◌}
use ycsb.Prelude.Lists.{replicate}
use ycsb.Prelude.Int.{ℤ, pos_part}
use ycsb.Prelude.Outcome.{err, no_fuel, assert}
use ycsb.Prelude.Outcome as Outcome
use ycsb.Prelude.Text.{Bytes, str, to_string}
use ycsb.Platform.{Platform}
use ycsb.Db.{Db, KvPair}
use ycsb.Generators.Counter as Counter
use ycsb.Actions.{Prog, ret, ◌>>=◌, once, look}
use ycsb.Workload.{
  Operation, insert, read, update, delete, scan, read_modify_write, key_name, next_table,
  next_sequence_key, next_field_name, next_scan_length,
}
use ycsb.Client.{World, to_int, is_ok, is_nonnegative}
use ycsb.Client.Calls.{
  draw_chance, choose_operation, draw_number, draw_length, draw_char, append_value, on_workload,
  on_db,
}

module _ (P : Platform) (D : Db) (ndebug : Bool) where
  abbrev Does : Type 0 → Type 1
  Does A = Prog (World P D) A

  -- NextTable
  abbrev pub table_program : Does Bytes
  table_program = look (λ x. next_table P x.workload)

  -- NextSequenceKey
  unfoldable pub sequence_key_program : Does Bytes
  sequence_key_program = once (on_workload (next_sequence_key P ndebug))

  -- NextScanLength
  unfoldable pub scan_length_program : Does ℕ
  scan_length_program = once (on_workload (next_scan_length P ndebug))

  -- NextOperation
  unfoldable pub operation_program : Does Operation
  operation_program = do
    chance ← once (on_workload (draw_chance P ndebug))
    once (on_workload (choose_operation P ndebug chance))

  -- NextTransactionKey: a draw, and then the test against the counter.
  unfoldable pub transaction_key_program : ℕ → Does Bytes
  transaction_key_program zero = once (λ x. err no_fuel)
  transaction_key_program (suc fuel) = do
    key_num ← once (on_workload (draw_number P ndebug))
    inserted ← look (λ x. leb key_num (Counter.last x.workload.insert_key_sequence))
    let again = transaction_key_program fuel
    if inserted then look (λ x. key_name P x.workload key_num) else again

  -- The value of one field.
  unfoldable pub value_program : Does Bytes
  value_program = do
    n ← once (on_workload (draw_length P ndebug))
    c ← once (on_workload (draw_char P ndebug))
    once (on_workload (append_value P ndebug n c))

  -- The rounds left of the loop of BuildValues, from field `i` on.
  unfoldable pub fields_program : ℕ → ℕ → List KvPair → Does (List KvPair)
  fields_program zero i values = ret values
  fields_program (suc n) i values = value_program >>= λ v.
      fields_program n (i + 1) (values ++ (str "field" ++ to_string i, v) ∷ [])

  -- BuildValues
  unfoldable pub values_program : Does (List KvPair)
  values_program = do n ← look (λ x. pos_part x.workload.field_count); fields_program n 0 []

  -- BuildUpdate
  unfoldable pub update_program : Does (List KvPair)
  update_program = do
    name ← once (on_workload (next_field_name P ndebug))
    value ← value_program
    ret ((name, value) ∷ [])

  -- The field that a read asks for.
  unfoldable pub one_field_program : Does (Option (List Bytes))
  one_field_program = do
    name ← once (on_workload (next_field_name P ndebug))
    ret (some ((str "field" ++ name) ∷ []))

  unfoldable pub requested_program : Does (Option (List Bytes))
  requested_program = do
    all ← look (λ x. x.workload.read_all_fields)
    if all then ret none else one_field_program

  unfoldable pub written_program : Does (List KvPair)
  written_program = do
    all ← look (λ x. x.workload.write_all_fields)
    if all then values_program else update_program

  -- A read; the rows that it gives are dropped.
  unfoldable pub read_call : Bytes → Bytes → Option (List Bytes) → D.State → ℤ × D.State
  read_call table key fields d = let (status, _, d') = D.read table key fields [] d in (status, d')

  unfoldable pub scan_call : Bytes → Bytes → ℤ → Option (List Bytes) → D.State → ℤ × D.State
  scan_call table key len fields d =
      let (status, _, d') = D.scan table key len fields [] d in (status, d')

  -- DoInsert
  unfoldable pub insert_program : Does Bool
  insert_program = do
    key ← sequence_key_program
    pairs ← values_program
    table ← table_program
    status ← once (on_db (D.insert table key pairs))
    ret (is_ok status)

  -- The transactions, with their status.
  unfoldable pub dispatch_program : Operation → ℕ → Does ℤ
  dispatch_program read fuel = do
    table ← table_program
    key ← transaction_key_program fuel
    fields ← requested_program
    once (on_db (read_call table key fields))
  dispatch_program update fuel = do
    table ← table_program
    key ← transaction_key_program fuel
    values ← written_program
    once (on_db (D.update table key values))
  dispatch_program delete fuel = do
    table ← table_program
    key ← transaction_key_program fuel
    once (on_db (D.delete table key))
  dispatch_program insert fuel = do
    table ← table_program
    key ← sequence_key_program
    values ← values_program
    once (on_db (D.insert table key values))
  dispatch_program scan fuel = do
    table ← table_program
    key ← transaction_key_program fuel
    len ← scan_length_program
    fields ← requested_program
    once (on_db (scan_call table key (to_int len) fields))
  dispatch_program read_modify_write fuel = do
    table ← table_program
    key ← transaction_key_program fuel
    fields ← requested_program
    _ ← once (on_db (read_call table key fields))
    values ← written_program
    once (on_db (D.update table key values))

  -- DoTransaction
  unfoldable pub transaction_program : ℕ → Does Bool
  transaction_program fuel = do
    op ← operation_program
    status ← dispatch_program op fuel
    _ ← once (λ x. Outcome.◌>>=◌ (assert ndebug (is_nonnegative status)) (λ u. Outcome.ok (u, x)))
    ret (is_ok status)

-- ===== src/Client.antt =====
-- core/client.h: the client, over a database and a workload. `fuel` bounds the rounds in which one
-- call of NextTransactionKey may draw.
pub mod Laws
pub mod Requests
pub mod Written
pub mod Ready
pub mod Service
pub mod Reads
pub mod Calls
pub mod Actions
use ycsb.Prelude.{
  ℕ, zero, suc, ◌%◌, ◌^◌, Bool, true, false, Option, none, some, List, [], ◌∷◌, ◌++◌,
}
use ycsb.Prelude.Tests.{ltb, if◌then◌else◌}
use ycsb.Prelude.Int.{ℤ, pos, negsuc, sub_ℕ}
use ycsb.Prelude.Outcome.{Outcome, ok, ◌>>=◌, ◌>>◌, assert}
use ycsb.Prelude.Text.{Bytes, str}
use ycsb.Platform.{Platform}
use ycsb.Db.{Db, KvPair}
use ycsb.Workload.{
  CoreWorkload, Operation, insert, read, update, delete, scan, read_modify_write, next_table,
  next_sequence_key, next_transaction_key, next_operation, next_field_name, next_scan_length,
  build_values, build_update,
}

-- What the client works on: the workload, the process-wide random state, and the database.
pub record World (P : Platform) (D : Db) : Type 0 where
  pub workload : CoreWorkload P
  pub seed : P.Seed
  pub db : D.State

-- the conversion of a size_t to int
unfoldable pub to_int : ℕ → ℤ
to_int n = let m = n % 2 ^ 32 in if ltb m (2 ^ 31) then pos m else sub_ℕ m (2 ^ 32)

unfoldable pub is_ok : ℤ → Bool
is_ok (pos zero) = true
is_ok _ = false

pub is_nonnegative : ℤ → Bool
is_nonnegative (pos _) = true
is_nonnegative (negsuc _) = false

module _ (P : Platform) where
  open P use {Seed}

  unfoldable pub one_field :
      Bool → CoreWorkload P → Seed → Outcome (Option (List Bytes) × CoreWorkload P × Seed)
  one_field ndebug w s = do
    (name, w', s') ← next_field_name P ndebug w s
    ok (some ((str "field" ++ name) ∷ []), w', s')

  -- The fields that a read asks for: NULL, or one name with "field" in front.
  unfoldable pub requested_fields :
      Bool → CoreWorkload P → Seed → Outcome (Option (List Bytes) × CoreWorkload P × Seed)
  requested_fields ndebug w s = if w.read_all_fields then ok (none, w, s) else one_field ndebug w s

  -- The values that an update writes.
  unfoldable pub written_values :
      Bool → CoreWorkload P → Seed → Outcome (List KvPair × CoreWorkload P × Seed)
  written_values ndebug w s =
      if w.write_all_fields then build_values P ndebug [] w s else build_update P ndebug [] w s

module _ (P : Platform) (D : Db) where
  -- DoInsert
  unfoldable pub do_insert : Bool → World P D → Outcome (Bool × World P D)
  do_insert ndebug x = do
    (key, w₁, s₁) ← next_sequence_key P ndebug x.workload x.seed
    (pairs, w₂, s₂) ← build_values P ndebug [] w₁ s₁
    let (status, d) = D.insert (next_table P w₂) key pairs x.db
    ok (is_ok status, record { workload = w₂; seed = s₂; db = d })

  unfoldable pub transaction_read : ℕ → Bool → World P D → Outcome (ℤ × World P D)
  transaction_read fuel ndebug x = do
    let table = next_table P x.workload
    (key, w₁, s₁) ← next_transaction_key P fuel ndebug x.workload x.seed
    (fields, w₂, s₂) ← requested_fields P ndebug w₁ s₁
    let (status, _, d) = D.read table key fields [] x.db
    ok (status, record { workload = w₂; seed = s₂; db = d })

  -- The status of the read is dropped.
  unfoldable pub transaction_read_modify_write : ℕ → Bool → World P D → Outcome (ℤ × World P D)
  transaction_read_modify_write fuel ndebug x = do
    let table = next_table P x.workload
    (key, w₁, s₁) ← next_transaction_key P fuel ndebug x.workload x.seed
    (fields, w₂, s₂) ← requested_fields P ndebug w₁ s₁
    let (_, _, d₁) = D.read table key fields [] x.db
    (values, w₃, s₃) ← written_values P ndebug w₂ s₂
    let (status, d₂) = D.update table key values d₁
    ok (status, record { workload = w₃; seed = s₃; db = d₂ })

  unfoldable pub transaction_scan : ℕ → Bool → World P D → Outcome (ℤ × World P D)
  transaction_scan fuel ndebug x = do
    let table = next_table P x.workload
    (key, w₁, s₁) ← next_transaction_key P fuel ndebug x.workload x.seed
    (len, w₂, s₂) ← next_scan_length P ndebug w₁ s₁
    (fields, w₃, s₃) ← requested_fields P ndebug w₂ s₂
    let (status, _, d) = D.scan table key (to_int len) fields [] x.db
    ok (status, record { workload = w₃; seed = s₃; db = d })

  unfoldable pub transaction_update : ℕ → Bool → World P D → Outcome (ℤ × World P D)
  transaction_update fuel ndebug x = do
    let table = next_table P x.workload
    (key, w₁, s₁) ← next_transaction_key P fuel ndebug x.workload x.seed
    (values, w₂, s₂) ← written_values P ndebug w₁ s₁
    let (status, d) = D.update table key values x.db
    ok (status, record { workload = w₂; seed = s₂; db = d })

  unfoldable pub transaction_insert : Bool → World P D → Outcome (ℤ × World P D)
  transaction_insert ndebug x = do
    let table = next_table P x.workload
    (key, w₁, s₁) ← next_sequence_key P ndebug x.workload x.seed
    (values, w₂, s₂) ← build_values P ndebug [] w₁ s₁
    let (status, d) = D.insert table key values x.db
    ok (status, record { workload = w₂; seed = s₂; db = d })

  unfoldable pub transaction_delete : ℕ → Bool → World P D → Outcome (ℤ × World P D)
  transaction_delete fuel ndebug x = do
    let table = next_table P x.workload
    (key, w₁, s₁) ← next_transaction_key P fuel ndebug x.workload x.seed
    let (status, d) = D.delete table key x.db
    ok (status, record { workload = w₁; seed = s₁; db = d })

  -- The cases of DoTransaction; the enumeration has no other.
  unfoldable pub dispatch : Operation → ℕ → Bool → World P D → Outcome (ℤ × World P D)
  dispatch read fuel ndebug x = transaction_read fuel ndebug x
  dispatch update fuel ndebug x = transaction_update fuel ndebug x
  dispatch delete fuel ndebug x = transaction_delete fuel ndebug x
  dispatch insert fuel ndebug x = transaction_insert ndebug x
  dispatch scan fuel ndebug x = transaction_scan fuel ndebug x
  dispatch read_modify_write fuel ndebug x = transaction_read_modify_write fuel ndebug x

  -- DoTransaction
  unfoldable pub do_transaction : ℕ → Bool → World P D → Outcome (Bool × World P D)
  unfolding is_nonnegative
  do_transaction fuel ndebug x = do
    (op, w, s) ← next_operation P ndebug x.workload x.seed
    (status, y) ← dispatch op fuel ndebug (record x { workload = w; seed = s })
    assert ndebug (is_nonnegative status)
    ok (is_ok status, y)

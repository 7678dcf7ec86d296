-- ===== src/Lsm/Unified.antt =====
-- db/unifiedlsm_db.cc: the operations of the binding to lsm_tree::UnifiedLSM.
use ycsb.Prelude.{ℕ, ◌^◌, Bool, true, false, Option, none, some, List, [], ◌∷◌, ◌++◌}
use ycsb.Prelude.Int.{ℤ, to_u64}
use ycsb.Prelude.Tests.{ltb, if◌then◌else◌}
use ycsb.Prelude.Text.{Bytes, str, is_empty}
use ycsb.Db.{Db, KvPair, ok_status, no_data_status}
use ycsb.Lsm.Engine.{Engine}

-- SerializeValues
unfoldable pub serialize_values : List KvPair → Bytes
serialize_values [] = []
serialize_values ((_, value) ∷ _) = value

pub populate_fields : Bytes → List Bytes → List KvPair → List KvPair
populate_fields value [] result = result
populate_fields value (f ∷ fields) result = populate_fields value fields (result ++ (f, value) ∷ [])

-- PopulateResult
unfoldable pub populate_result : Bytes → Option (List Bytes) → List KvPair → List KvPair
unfolding populate_fields
populate_result value none result = result ++ (str "field0", value) ∷ []
populate_result value (some fields) result = populate_fields value fields result

-- The loop of Scan over the entries found.
unfoldable pub collect_rows :
    List (Bytes × Bytes) → Option (List Bytes) → List (List KvPair) → List (List KvPair)
collect_rows [] fields result = result
collect_rows ((_, value) ∷ out) fields result =
    collect_rows out fields (result ++ populate_result value fields [] ∷ [])

-- vector::reserve throws from this number of pairs on, each of 64 bytes.
abbrev pub max_pairs : ℕ
max_pairs = 2 ^ 57

module _ (E : Engine) where
  open E use {State, get, put, delete, scan}

  unfoldable pub finish_read :
      Option (List Bytes) → List KvPair → Option Bytes × State → ℤ × List KvPair × State
  finish_read fields result (none, s) = (no_data_status, result, s)
  finish_read fields result (some value, s) =
      if is_empty value
      then (no_data_status, result, s)
      else (ok_status, populate_result value fields result, s)

  unfoldable pub finish_scan :
      Option (List Bytes)
      → List (List KvPair)
      → Option (List (Bytes × Bytes)) × State
      → ℤ × List (List KvPair) × State
  finish_scan fields result (none, s) = (no_data_status, result, s)
  finish_scan fields result (some out, s) = (ok_status, collect_rows out fields result, s)

  unfoldable pub finish_write : Bool × State → ℤ × State
  finish_write (true, s) = (ok_status, s)
  finish_write (false, s) = (no_data_status, s)

  unfoldable pub unified_read :
      Bytes → Bytes → Option (List Bytes) → List KvPair → State → ℤ × List KvPair × State
  unfolding finish_read
  unified_read table key fields result s = finish_read fields result (get key s)

  unfoldable pub unified_scan :
      Bytes
      → Bytes
      → ℤ
      → Option (List Bytes)
      → List (List KvPair)
      → State
      → ℤ × List (List KvPair) × State
  unfolding finish_scan
  unified_scan table key record_count fields result s =
      if ltb (to_u64 record_count) max_pairs
      then finish_scan fields result (scan key (to_u64 record_count) s)
      else (no_data_status, result, s)

  unfoldable pub unified_update : Bytes → Bytes → List KvPair → State → ℤ × State
  unfolding finish_write
  unified_update table key values s = finish_write (put key (serialize_values values) s)

  unfoldable pub unified_insert : Bytes → Bytes → List KvPair → State → ℤ × State
  unfolding unified_update
  unified_insert table key values s = unified_update table key values s

  unfoldable pub unified_delete : Bytes → Bytes → State → ℤ × State
  unfolding finish_write
  unified_delete table key s = finish_write (delete key s)

-- The binding as a database; Init and Close are the empty ones of the base class.
abbrev pub unified_db : Engine → Db
unified_db E = record {
  State = E.State;
  init = λ s. s;
  close = λ s. s;
  read = unified_read E;
  scan = unified_scan E;
  update = unified_update E;
  insert = unified_insert E;
  delete = unified_delete E;
}

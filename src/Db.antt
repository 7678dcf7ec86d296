-- ===== src/Db.antt =====
-- core/db.h: the interface that the client works with, as a record of operations on a state.
use ycsb.Prelude.{List, Option}
use ycsb.Prelude.Int.{ℤ, pos}
use ycsb.Prelude.Text.{Bytes}

abbrev pub KvPair : Type 0
KvPair = Bytes × Bytes

-- DB::kOK, DB::kErrorNoData, DB::kErrorConflict
abbrev pub ok_status : ℤ
ok_status = pos 0

abbrev pub no_data_status : ℤ
no_data_status = pos 1

abbrev pub conflict_status : ℤ
conflict_status = pos 2

-- A vector that a call appends to is an argument and comes back; `none` for the fields is NULL.
pub record Db : Type 1 where
  pub State : Type 0
  pub init : State → State
  pub close : State → State
  pub read : Bytes → Bytes → Option (List Bytes) → List KvPair → State → ℤ × List KvPair × State
  pub scan :
      Bytes
      → Bytes
      → ℤ
      → Option (List Bytes)
      → List (List KvPair)
      → State
      → ℤ × List (List KvPair) × State
  pub update : Bytes → Bytes → List KvPair → State → ℤ × State
  pub insert : Bytes → Bytes → List KvPair → State → ℤ × State
  pub delete : Bytes → Bytes → State → ℤ × State

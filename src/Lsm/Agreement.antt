-- ===== src/Lsm/Agreement.antt =====
-- The two bindings are the same program over their engines.
use ycsb.Prelude.{
  ◌≡◌, refl, ap, ◌∙◌, Bool, true, false, Option, none, some, List, [], ◌∷◌, ◌++◌, arith,
}
use ycsb.Prelude.Int.{ℤ, to_u64}
use ycsb.Prelude.Tests.{ltb, if◌then◌else◌}
use ycsb.Prelude.Text.{Bytes}
use ycsb.Db.{KvPair, no_data_status}
use ycsb.Lsm.Engine.{Engine}
use ycsb.Lsm.Split
use ycsb.Lsm.Unified

populate-eq :
    (v : Bytes) (fields : List Bytes) (r : List KvPair)
    → Unified.populate_result v (some fields) r ≡ Split.populate_result v (some fields) r
unfolding Unified.populate_result Split.populate_result
populate-eq v [] r = refl
populate-eq v (f ∷ fields) r = populate-eq v fields (r ++ (f, v) ∷ [])

populate_result-eq :
    (v : Bytes) (fs : Option (List Bytes)) (r : List KvPair)
    → Unified.populate_result v fs r ≡ Split.populate_result v fs r
populate_result-eq v none r = unfold Unified.populate_result Split.populate_result in refl
populate_result-eq v (some fields) r = populate-eq v fields r

collect_rows-eq :
    (out : List (Bytes × Bytes)) (fs : Option (List Bytes)) (r : List (List KvPair))
    → Unified.collect_rows out fs r ≡ Split.collect_rows out fs r
unfolding Unified.collect_rows Split.collect_rows
collect_rows-eq [] fs r = refl
collect_rows-eq ((_, v) ∷ out) fs r =
    rw (populate_result-eq v fs [])
      (collect_rows-eq out fs (r ++ Split.populate_result v fs [] ∷ []))

serialize-eq : (vs : List KvPair) → Unified.serialize_values vs ≡ Split.serialize_values vs
unfolding Unified.serialize_values Split.serialize_values
serialize-eq [] = refl
serialize-eq (_ ∷ _) = refl

module _ (E : Engine) where
  read-eq :
      (t k : Bytes) (fs : Option (List Bytes)) (r : List KvPair) (s : E.State)
      → Unified.unified_read E t k fs r s ≡ Split.split_read E t k fs r s
  unfolding Unified.unified_read Split.split_read
  read-eq t k fs r s = finish (E.get k s)
    where
      finish :
          (p : Option Bytes × E.State) → Unified.finish_read E fs r p ≡ Split.finish_read E fs r p
      finish (none, u) = refl
      finish (some v, u) = ground (arith, populate_result-eq v fs r)

  finish_scan-eq :
      (fs : Option (List Bytes)) (r : List (List KvPair))
      (p : Option (List (Bytes × Bytes)) × E.State)
      → Unified.finish_scan E fs r p ≡ Split.finish_scan E fs r p
  unfolding Unified.finish_scan Split.finish_scan
  finish_scan-eq fs r (none, u) = refl
  finish_scan-eq fs r (some out, u) = rw (collect_rows-eq out fs r)

  finish_write-eq : (p : Bool × E.State) → Unified.finish_write E p ≡ Split.finish_write E p
  unfolding Unified.finish_write Split.finish_write
  finish_write-eq (true, u) = refl
  finish_write-eq (false, u) = refl

  scan-eq :
      (t k : Bytes) (n : ℤ) (fs : Option (List Bytes)) (r : List (List KvPair)) (s : E.State)
      → Unified.unified_scan E t k n fs r s ≡ Split.split_scan E t k n fs r s
  scan-eq t k n fs r s =
      unfold Unified.unified_scan Split.split_scan in
      ap (λ p. if ltb (to_u64 n) Split.max_pairs then p else (no_data_status, r, s))
        (finish_scan-eq fs r (E.scan k (to_u64 n) s))

  update-eq :
      (t k : Bytes) (vs : List KvPair) (s : E.State)
      → Unified.unified_update E t k vs s ≡ Split.split_update E t k vs s
  update-eq t k vs s =
      unfold Unified.unified_update Split.split_update in
      finish_write-eq (E.put k (Unified.serialize_values vs) s)
      ∙ ap (λ v. Split.finish_write E (E.put k v s)) (serialize-eq vs)

  insert-eq :
      (t k : Bytes) (vs : List KvPair) (s : E.State)
      → Unified.unified_insert E t k vs s ≡ Split.split_insert E t k vs s
  insert-eq t k vs s = unfold Unified.unified_insert Split.split_insert in update-eq t k vs s

  delete-eq :
      (t k : Bytes) (s : E.State) → Unified.unified_delete E t k s ≡ Split.split_delete E t k s
  delete-eq t k s =
      unfold Unified.unified_delete Split.split_delete in finish_write-eq (E.delete k s)

  -- Over the same engine operations the UnifiedLSM binding and the SplitLSM binding are equal, in
  -- every operation, on every branch, failures of the engine included.
  pub unified_db-split_db : Unified.unified_db E ≡ Split.split_db E
  unified_db-split_db = λ i. record {
    State = E.State;
    init = λ s. s;
    close = λ s. s;
    read = λ t k fs r s. read-eq t k fs r s i;
    scan = λ t k n fs r s. scan-eq t k n fs r s i;
    update = λ t k vs s. update-eq t k vs s i;
    insert = λ t k vs s. insert-eq t k vs s i;
    delete = λ t k s. delete-eq t k s i;
  }

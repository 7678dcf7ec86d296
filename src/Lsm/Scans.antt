-- ===== src/Lsm/Scans.antt =====
-- Scan of the SplitLSM binding, on every branch.
use ycsb.Prelude.{
  ℕ, ◌^◌, ◌<◌, ◌≡◌, refl, sym, ap, ◌∙◌, Option, none, some, List, [], ◌∷◌, ◌++◌, map, arith,
}
use ycsb.Prelude.Int.{ℤ, pos, negsuc, to_u64}
use ycsb.Prelude.Tests.{ltb, lt→ltb, le→ltb, if-then, if-else}
use ycsb.Prelude.Text.{Bytes}
use ycsb.Db.{KvPair, ok_status, no_data_status}
use ycsb.Lsm.Engine.{Engine}
use ycsb.Lsm.Contract.{row, populate_result-row}
use ycsb.Lsm.Split
use mathlib.Core.List.{append_assoc, append-nil}

-- The entries found, each as the row of its value.
abbrev pub rows : Option (List Bytes) → List (Bytes × Bytes) → List (List KvPair)
rows fields out = map (λ e. row e.1 fields) out

collect_rows-rows :
    (out : List (Bytes × Bytes)) (fields : Option (List Bytes)) (result : List (List KvPair))
    → Split.collect_rows out fields result ≡ result ++ rows fields out
unfolding Split.collect_rows
collect_rows-rows [] fields result = sym (append-nil result)
collect_rows-rows ((k, v) ∷ out) fields result =
    collect_rows-rows out fields (result ++ Split.populate_result v fields [] ∷ [])
    ∙ append_assoc result (Split.populate_result v fields [] ∷ []) (rows fields out)
    ∙ ap (λ r. result ++ r ∷ rows fields out) (populate_result-row v fields [])

module _ (E : Engine) where
  -- What a scan gives for what the engine has found, or for its exception.
  abbrev pub scanned :
      Option (List Bytes)
      → List (List KvPair)
      → Option (List (Bytes × Bytes)) × E.State
      → ℤ × List (List KvPair) × E.State
  scanned fields result (none, s) = (no_data_status, result, s)
  scanned fields result (some out, s) = (ok_status, result ++ rows fields out, s)

  finish_scan-scanned :
      (fields : Option (List Bytes)) (result : List (List KvPair))
      (f : Option (List (Bytes × Bytes)) × E.State)
      → Split.finish_scan E fields result f ≡ scanned fields result f
  unfolding Split.finish_scan
  finish_scan-scanned fields result (none, s) = refl
  finish_scan-scanned fields result (some out, s) =
      λ i. (ok_status, collect_rows-rows out fields result i, s)

  -- Asked for `n` records, fewer than 2 ^ 57, Scan asks the engine for as many from the key on; for
  -- each entry found it appends one row, with the entry's value under every field asked for or under
  -- "field0", and reports success, and where the engine throws it reports kErrorNoData and appends
  -- nothing. Asked for a negative number it reports kErrorNoData without asking the engine.
  pub split_scan_lem :
      (table key : Bytes) (n m : ℕ) (fields : Option (List Bytes)) (result : List (List KvPair))
      (s : E.State)
      → n < 2 ^ 57
      → m < 2 ^ 31
      → (Split.split_scan E table key (pos n) fields result s
          ≡ scanned fields result (E.scan key n s))
        × (Split.split_scan E table key (negsuc m) fields result s ≡ (no_data_status, result, s))
  unfolding Split.split_scan to_u64
  split_scan_lem table key n m fields result s few negative = (
    if-then (ltb n (2 ^ 57)) _ _ (lt→ltb n (2 ^ 57) few)
        ∙ finish_scan-scanned fields result (E.scan key n s),
    if-else (ltb (to_u64 (negsuc m)) (2 ^ 57)) _ _
        (le→ltb (to_u64 (negsuc m)) (2 ^ 57) (omega arith)),
  )

-- ===== src/Lsm/Contract.antt =====
-- What the bindings promise as databases, over an engine that works.
use ycsb.Prelude.{◌≡◌, refl, sym, ap, ◌∙◌, Option, none, some, List, [], ◌∷◌, ◌++◌, map, arith}
use ycsb.Prelude.Tests.{if◌then◌else◌}
use ycsb.Prelude.Text.{Bytes, str, bytes_eq, is_empty}
use ycsb.Db.{Db, KvPair, ok_status, no_data_status}
use ycsb.Lsm.Engine.{Engine, IsLawful}
use ycsb.Lsm.Split
use mathlib.Core.List.{append_assoc, append-nil}

-- The value that a write stores: that of the first pair alone.
unfoldable pub stored : List KvPair → Bytes
stored [] = []
stored ((_, v) ∷ _) = v

-- What a read appends for a stored value: each field asked for with that value, whatever the field,
-- or one pair under "field0".
pub row : Bytes → Option (List Bytes) → List KvPair
row v none = (str "field0", v) ∷ []
row v (some fields) = map (λ f. (f, v)) fields

abbrev pub Keeps : {S : Type 0} → (S → Bytes → Bytes) → S → S → Type 0
Keeps view s t = (j : Bytes) → view t j ≡ view s j

-- A database that holds one value under each key. The table's name plays no part.
pub record Implements (D : Db) (view : D.State → Bytes → Bytes) : Type 0 where
  pub read_status :
      (t k : Bytes) (fs : Option (List Bytes)) (r : List KvPair) (s : D.State)
      → (D.read t k fs r s).0 ≡ (if is_empty (view s k) then no_data_status else ok_status)
  pub read_result :
      (t k : Bytes) (fs : Option (List Bytes)) (r : List KvPair) (s : D.State)
      → (D.read t k fs r s).1 ≡ (if is_empty (view s k) then r else r ++ row (view s k) fs)
  pub read_keeps :
      (t k : Bytes) (fs : Option (List Bytes)) (r : List KvPair) (s : D.State)
      → Keeps view s (D.read t k fs r s).2
  pub update_status :
      (t k : Bytes) (vs : List KvPair) (s : D.State) → (D.update t k vs s).0 ≡ ok_status
  pub view-update :
      (t k j : Bytes) (vs : List KvPair) (s : D.State)
      → view (D.update t k vs s).1 j ≡ (if bytes_eq j k then stored vs else view s j)
  pub insert-eq-update :
      (t k : Bytes) (vs : List KvPair) (s : D.State) → D.insert t k vs s ≡ D.update t k vs s
  pub delete_status : (t k : Bytes) (s : D.State) → (D.delete t k s).0 ≡ ok_status
  pub view-delete :
      (t k j : Bytes) (s : D.State)
      → view (D.delete t k s).1 j ≡ (if bytes_eq j k then [] else view s j)

populate_fields-row :
    (v : Bytes) (fields : List Bytes) (r : List KvPair)
    → Split.populate_result v (some fields) r ≡ r ++ map (λ f. (f, v)) fields
unfolding Split.populate_result
populate_fields-row v [] r = sym (append-nil r)
populate_fields-row v (f ∷ fields) r =
    populate_fields-row v fields (r ++ (f, v) ∷ []) ∙ append_assoc r ((f, v) ∷ []) _

pub populate_result-row :
    (v : Bytes) (fs : Option (List Bytes)) (r : List KvPair)
    → Split.populate_result v fs r ≡ r ++ row v fs
unfolding row
populate_result-row v none r = unfold Split.populate_result in refl
populate_result-row v (some fields) r = populate_fields-row v fields r

serialize_values-stored : (vs : List KvPair) → Split.serialize_values vs ≡ stored vs
unfolding Split.serialize_values stored
serialize_values-stored [] = refl
serialize_values-stored (_ ∷ _) = refl

module _ (E : Engine) (L : IsLawful E) where
  read_status :
      (t k : Bytes) (fs : Option (List Bytes)) (r : List KvPair) (s : E.State)
      → (Split.split_read E t k fs r s).0
        ≡ (if is_empty (L.view s k) then no_data_status else ok_status)
  unfolding Split.split_read
  read_status t k fs r s = ground (arith, L.get_value k s)

  read_result :
      (t k : Bytes) (fs : Option (List Bytes)) (r : List KvPair) (s : E.State)
      → (Split.split_read E t k fs r s).1
        ≡ (if is_empty (L.view s k) then r else r ++ row (L.view s k) fs)
  unfolding Split.split_read
  read_result t k fs r s = ground (arith, L.get_value k s, populate_result-row (L.view s k) fs r)

  read_state :
      (t k : Bytes) (fs : Option (List Bytes)) (r : List KvPair) (s : E.State)
      → (Split.split_read E t k fs r s).2 ≡ (E.get k s).1
  unfolding Split.split_read
  read_state t k fs r s = ground arith

  update_effect :
      (t k : Bytes) (vs : List KvPair) (s : E.State)
      → Split.split_update E t k vs s ≡ (ok_status, (E.put k (stored vs) s).1)
  unfolding Split.split_update
  update_effect t k vs s =
      rw (serialize_values-stored vs) (ground (arith, L.put_works k (stored vs) s))

  delete_effect :
      (t k : Bytes) (s : E.State) → Split.split_delete E t k s ≡ (ok_status, (E.delete k s).1)
  unfolding Split.split_delete
  delete_effect t k s = ground (arith, L.delete_works k s)

  -- Over an engine that works the SplitLSM binding holds one value under each key: a write stores
  -- the value of its first pair and reports success, also under a key without a value; a read of a
  -- key with a value that is not empty reports success and appends that value under every field
  -- asked for, or under "field0"; a read of any other key reports kErrorNoData and appends nothing;
  -- a deletion reports success, also of a key without a value, and empties the key; reads change
  -- nothing, and writes and deletions no other key.
  pub split_db-Implements : Implements (Split.split_db E) L.view
  split_db-Implements = record {
    read_status = read_status;
    read_result = read_result;
    read_keeps = λ t k fs r s j. ap (λ u. L.view u j) (read_state t k fs r s) ∙ L.view-get k j s;
    update_status = λ t k vs s. ap (λ p. p.0) (update_effect t k vs s);
    view-update = λ t k j vs s.
        ap (λ p. L.view p.1 j) (update_effect t k vs s) ∙ L.view-put k (stored vs) j s;
    insert-eq-update = λ t k vs s. unfold Split.split_insert in refl;
    delete_status = λ t k s. ap (λ p. p.0) (delete_effect t k s);
    view-delete = λ t k j s. ap (λ p. L.view p.1 j) (delete_effect t k s) ∙ L.view-delete k j s;
  }

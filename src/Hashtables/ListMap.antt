-- ===== src/Hashtables/ListMap.antt =====
-- A container with unique keys that can be run: a list of entries in the order of their insertion.
pub mod Unique
use ycsb.Prelude.{
  suc, ◌+◌, ◌≡◌, refl, sym, ap, ◌∙◌, Bool, true, false, Option, none, some, List, [], ◌∷◌, ◌++◌,
  inl, inr, arith,
}
use ycsb.Prelude.Tests.{Bool-cases, if◌then◌else◌}
use ycsb.Prelude.Lists.{length, length-append}
use ycsb.Prelude.Text.{Bytes, bytes_eq, bytes_eq_iff}
use ycsb.HashString.{HashString, wrap, equals, equals-wrap}
use ycsb.Hashtables.{is_missing, one_if_found, put_new, put_over}
use ycsb.Hashtables.Container.{Container, IsMap, find_entry, Wrapped, equals-text}

module _ {V : Type 0} where
  -- a new entry, unless the key has one
  unfoldable pub insert_entry :
      HashString → V → List (HashString × V) → Bool × List (HashString × V)
  insert_entry k v m = elim (find_entry k m) [
    | none ↦ (true, m ++ (k, v) ∷ [])
    | some _ ↦ (false, m)
  ]

  -- `pos->second = value`
  unfoldable pub replace_entry : HashString → V → List (HashString × V) → List (HashString × V)
  replace_entry k v [] = []
  replace_entry k v ((j, w) ∷ m) = if equals k j then (j, v) ∷ m else (j, w) ∷ replace_entry k v m

  -- erase
  unfoldable pub erase_entry : HashString → List (HashString × V) → List (HashString × V)
  erase_entry k [] = []
  erase_entry k ((j, w) ∷ m) = if equals k j then m else (j, w) ∷ erase_entry k m

abbrev pub list_map : {V : Type 0} → Container V
list_map {V = V} = record {
  State = List (HashString × V);
  empty = [];
  items = λ m. m;
  find = find_entry;
  insert = insert_entry;
  assign = replace_entry;
  erase = erase_entry;
}

module _ {V : Type 0} where
  -- Every key is the string of its text, and no later entry has it.
  unfoldable Apart : List (HashString × V) → Type 0
  Apart [] = Unit
  Apart ((e, v) ∷ m) = (e ≡ wrap e.value) × (find_entry (wrap e.value) m ≡ none) × Apart m

  find_entry-append :
      (j k : Bytes) (v : V) (m : List (HashString × V))
      → find_entry (wrap j) (m ++ (wrap k, v) ∷ []) ≡ elim (find_entry (wrap j) m) [
        | none ↦ (if bytes_eq j k then some v else none)
        | some w ↦ some w
      ]
  unfolding find_entry
  find_entry-append j k v [] = rw (equals-wrap j k)
  find_entry-append j k v ((i, w) ∷ m) = ground (arith, find_entry-append j k v m)

  find_entry-replace :
      (j k : Bytes) (v : V) (m : List (HashString × V))
      → Apart m
      → find_entry (wrap j) (replace_entry (wrap k) v m)
        ≡ (if bytes_eq j k then put_over v (find_entry (wrap k) m) else find_entry (wrap j) m)
  unfolding find_entry replace_entry Apart
  find_entry-replace j k v [] h = ground arith
  find_entry-replace j k v ((i, w) ∷ m) (e, fresh, h) = ground (
    arith,
    equals-text k i e,
    equals-text j i e,
    bytes_eq_iff k i.value,
    bytes_eq_iff j i.value,
    bytes_eq_iff j k,
    find_entry-replace j k v m h,
  )

  find_entry-erase :
      (j k : Bytes) (m : List (HashString × V))
      → Apart m
      → find_entry (wrap j) (erase_entry (wrap k) m)
        ≡ (if bytes_eq j k then none else find_entry (wrap j) m)
  unfolding find_entry erase_entry Apart
  find_entry-erase j k [] h = ground arith
  find_entry-erase j k ((i, w) ∷ m) (e, fresh, h) = ground (
    arith,
    equals-text k i e,
    equals-text j i e,
    bytes_eq_iff k i.value,
    bytes_eq_iff j i.value,
    bytes_eq_iff j k,
    find_entry-erase j k m h,
  )

  -- A lookup that finds nothing passes every entry.
  passed :
      (k : Bytes) (i : HashString) (w : V) (m : List (HashString × V))
      → i ≡ wrap i.value
      → find_entry (wrap k) ((i, w) ∷ m) ≡ none
      → (bytes_eq i.value k ≡ false) × (find_entry (wrap k) m ≡ none)
  unfolding find_entry
  passed k i w m e free = elim (Bool-cases (bytes_eq k i.value)) [
    | inl b ↦ absurd (ground (arith, b, equals-text k i e))
    | inr b ↦ (
      ground (arith, b, bytes_eq_iff k i.value, bytes_eq_iff i.value k),
      ground (arith, b, equals-text k i e),
    )
  ]

  Apart-append :
      (k : Bytes) (v : V) (m : List (HashString × V))
      → Apart m
      → find_entry (wrap k) m ≡ none
      → Apart (m ++ (wrap k, v) ∷ [])
  unfolding Apart find_entry wrap
  Apart-append k v [] h free = (refl, refl, tt)
  Apart-append k v ((i, w) ∷ m) (e, fresh, h) free =
      let (apart, rest) = passed k i w m e free in
      (e, ground (arith, find_entry-append i.value k v m, fresh, apart), Apart-append k v m h rest)

  replace_fresh :
      (j k : Bytes) (v : V) (m : List (HashString × V))
      → Apart m
      → find_entry (wrap j) m ≡ none
      → find_entry (wrap j) (replace_entry (wrap k) v m) ≡ none
  replace_fresh j k v m h fresh =
      let same : bytes_eq j k ≡ true → find_entry (wrap k) m ≡ none =
        λ b. ap (λ u. find_entry (wrap u) m) (sym ((bytes_eq_iff j k).0 b)) ∙ fresh in
      ground (arith, find_entry-replace j k v m h, fresh, same)

  erase_fresh :
      (j k : Bytes) (m : List (HashString × V))
      → Apart m
      → find_entry (wrap j) m ≡ none
      → find_entry (wrap j) (erase_entry (wrap k) m) ≡ none
  erase_fresh j k m h fresh = ground (arith, find_entry-erase j k m h, fresh)

  replace-Apart :
      (k : Bytes) (v : V) (m : List (HashString × V)) → Apart m → Apart (replace_entry (wrap k) v m)
  unfolding Apart replace_entry
  replace-Apart k v [] h = h
  replace-Apart k v ((i, w) ∷ m) (e, fresh, h) = elim (Bool-cases (equals (wrap k) i)) [
    | inl b ↦ rw b (e, fresh, h)
    | inr b ↦ rw b (e, replace_fresh i.value k v m h fresh, replace-Apart k v m h)
  ]

  erase-Apart : (k : Bytes) (m : List (HashString × V)) → Apart m → Apart (erase_entry (wrap k) m)
  unfolding Apart erase_entry
  erase-Apart k [] h = h
  erase-Apart k ((i, w) ∷ m) (e, fresh, h) = elim (Bool-cases (equals (wrap k) i)) [
    | inl b ↦ rw b h
    | inr b ↦ rw b (e, erase_fresh i.value k m h fresh, erase-Apart k m h)
  ]

  insert-Apart :
      (k : Bytes) (v : V) (m : List (HashString × V))
      → Apart m
      → Apart (insert_entry (wrap k) v m).1
  unfolding insert_entry
  insert-Apart k v m h = go (find_entry (wrap k) m) (Apart-append k v m h)
    where
      go :
          (o : Option V)
          → (o ≡ none → Apart (m ++ (wrap k, v) ∷ []))
          → Apart
              (elim o as (λ _. Bool × List (HashString × V)) [
                | none ↦ (true, m ++ (wrap k, v) ∷ [])
                | some _ ↦ (false, m)
              ]).1
      go none free = free refl
      go (some a) free = h

  Apart-Wrapped : (m : List (HashString × V)) → Apart m → Wrapped m
  unfolding Apart Wrapped
  Apart-Wrapped [] h = tt
  Apart-Wrapped ((i, w) ∷ m) (e, _, h) = (e, Apart-Wrapped m h)

  insert_entry-flag :
      (k : HashString) (v : V) (m : List (HashString × V))
      → (insert_entry k v m).0 ≡ is_missing (find_entry k m)
  unfolding insert_entry
  insert_entry-flag k v m = ground arith

  find_entry-insert :
      (k j : Bytes) (v : V) (m : List (HashString × V))
      → find_entry (wrap j) (insert_entry (wrap k) v m).1
        ≡ (if bytes_eq j k then put_new v (find_entry (wrap k) m) else find_entry (wrap j) m)
  unfolding insert_entry
  find_entry-insert k j v m = ground (arith, find_entry-append j k v m, bytes_eq_iff j k)

  length-insert :
      (k : HashString) (v : V) (m : List (HashString × V))
      → length (insert_entry k v m).1 + one_if_found (find_entry k m) ≡ suc (length m)
  unfolding insert_entry
  length-insert k v m = ground (arith, length-append m ((k, v) ∷ []))

  length-replace :
      (k : HashString) (v : V) (m : List (HashString × V)) → length (replace_entry k v m) ≡ length m
  unfolding replace_entry
  length-replace k v [] = refl
  length-replace k v ((i, w) ∷ m) = ground (arith, length-replace k v m)

  length-erase :
      (k : HashString) (m : List (HashString × V))
      → length (erase_entry k m) + one_if_found (find_entry k m) ≡ length m
  unfolding erase_entry find_entry
  length-erase k [] = omega arith
  length-erase k ((i, w) ∷ m) = ground (arith, length-erase k m)

pub list_map-IsMap : {V : Type 0} → IsMap (list_map {V = V})
unfolding Apart find_entry
list_map-IsMap = record {
  Well = Apart;
  empty-Well = tt;
  insert-Well = insert-Apart;
  assign-Well = replace-Apart;
  erase-Well = erase-Apart;
  keys = Apart-Wrapped;
  empty_items = refl;
  find_items = λ k s. refl;
  insert_flag = λ k v s. insert_entry-flag (wrap k) v s;
  insert_find = λ k j v s _. find_entry-insert k j v s;
  assign_find = λ k j v s h. find_entry-replace j k v s h;
  erase_find = λ k j s h. find_entry-erase j k s h;
  insert_length = λ k v s _. length-insert (wrap k) v s;
  assign_length = λ k v s _. length-replace (wrap k) v s;
  erase_length = λ k s _. length-erase (wrap k) s;
}

-- ===== src/Hashtables/Container.antt =====
-- The containers that the tables of lib stand on: std::unordered_map, tbb::concurrent_hash_map and
-- tbb::concurrent_unordered_map, as far as one thread sees them. None of them is in the repository:
-- they are a parameter of the tables, and `IsMap` says what the tables rely on.
use ycsb.Prelude.{
  suc, ◌+◌, ◌≡◌, refl, ap, ◌∙◌, Bool, Option, none, some, List, [], ◌∷◌, map, inl, inr,
}
use ycsb.Prelude.Tests.{Bool-cases, if◌then◌else◌}
use ycsb.Prelude.Lists.{length}
use ycsb.Prelude.Text.{Bytes, bytes_eq}
use ycsb.HashString.{HashString, wrap, equals, equals-wrap}
use ycsb.Hashtables.{is_missing, one_if_found, put_new, put_over, lookup_text, from_text}

-- `items` are the pairs from begin() to end(); `assign` writes to the `second` of the entry that find
-- came upon, `erase` takes it out.
pub record Container (V : Type 0) : Type 1 where
  pub State : Type 0
  pub empty : State
  pub items : State → List (HashString × V)
  pub find : HashString → State → Option V
  pub insert : HashString → V → State → Bool × State
  pub assign : HashString → V → State → State
  pub erase : HashString → State → State

module _ {V : Type 0} where
  -- The first pair whose key is equal by the string's operator==.
  unfoldable pub find_entry : HashString → List (HashString × V) → Option V
  find_entry k [] = none
  find_entry k ((j, v) ∷ m) = if equals k j then some v else find_entry k m

  -- The pairs that an iterator at the entry of a key runs through, up to end().
  unfoldable pub from_entry : HashString → List (HashString × V) → List (HashString × V)
  from_entry k [] = []
  from_entry k ((j, v) ∷ m) = if equals k j then (j, v) ∷ m else from_entry k m

  -- Every key is the string of its text.
  unfoldable pub Wrapped : List (HashString × V) → Type 0
  Wrapped [] = Unit
  Wrapped ((e, v) ∷ m) = (e ≡ wrap e.value) × Wrapped m

  -- The key's text with the value: `make_pair(pos->first.value(), pos->second)`
  abbrev pub text_of : HashString × V → Bytes × V
  text_of (e, v) = (e.value, v)

-- What the documentation of a map with unique keys says, of a state that its own operations have led
-- to with keys that Copy made.
pub record IsMap {V : Type 0} (C : Container V) : Type 1 where
  pub Well : C.State → Type 0
  pub empty-Well : Well C.empty
  pub insert-Well : (k : Bytes) (v : V) (s : C.State) → Well s → Well (C.insert (wrap k) v s).1
  pub assign-Well : (k : Bytes) (v : V) (s : C.State) → Well s → Well (C.assign (wrap k) v s)
  pub erase-Well : (k : Bytes) (s : C.State) → Well s → Well (C.erase (wrap k) s)
  pub keys : (s : C.State) → Well s → Wrapped (C.items s)
  pub empty_items : C.items C.empty ≡ []
  pub find_items : (k : Bytes) (s : C.State) → C.find (wrap k) s ≡ find_entry (wrap k) (C.items s)
  pub insert_flag :
      (k : Bytes) (v : V) (s : C.State) → (C.insert (wrap k) v s).0 ≡ is_missing (C.find (wrap k) s)
  pub insert_find :
      (k j : Bytes) (v : V) (s : C.State)
      → Well s
      → C.find (wrap j) (C.insert (wrap k) v s).1
        ≡ (if bytes_eq j k then put_new v (C.find (wrap k) s) else C.find (wrap j) s)
  pub assign_find :
      (k j : Bytes) (v : V) (s : C.State)
      → Well s
      → C.find (wrap j) (C.assign (wrap k) v s)
        ≡ (if bytes_eq j k then put_over v (C.find (wrap k) s) else C.find (wrap j) s)
  pub erase_find :
      (k j : Bytes) (s : C.State)
      → Well s
      → C.find (wrap j) (C.erase (wrap k) s) ≡ (if bytes_eq j k then none else C.find (wrap j) s)
  pub insert_length :
      (k : Bytes) (v : V) (s : C.State)
      → Well s
      → length (C.items (C.insert (wrap k) v s).1) + one_if_found (C.find (wrap k) s)
        ≡ suc (length (C.items s))
  pub assign_length :
      (k : Bytes) (v : V) (s : C.State)
      → Well s
      → length (C.items (C.assign (wrap k) v s)) ≡ length (C.items s)
  pub erase_length :
      (k : Bytes) (s : C.State)
      → Well s
      → length (C.items (C.erase (wrap k) s)) + one_if_found (C.find (wrap k) s)
        ≡ length (C.items s)

pub equals-text :
    (k : Bytes) (e : HashString) → e ≡ wrap e.value → equals (wrap k) e ≡ bytes_eq k e.value
equals-text k e h = ap (equals (wrap k)) h ∙ equals-wrap k e.value

module _ {V : Type 0} where
  -- The texts of the pairs say which key has an entry, and where an iterator starts.
  pub lookup_texts :
      (k : Bytes) (m : List (HashString × V))
      → Wrapped m
      → lookup_text k (map text_of m) ≡ find_entry (wrap k) m
  unfolding Wrapped lookup_text find_entry
  lookup_texts k [] h = refl
  lookup_texts k ((e, v) ∷ m) (h, hs) = rw (equals-text k e h, lookup_texts k m hs)

  pub from_texts :
      (k : Bytes) (m : List (HashString × V))
      → Wrapped m
      → map text_of (from_entry (wrap k) m) ≡ from_text k (map text_of m)
  unfolding Wrapped from_text from_entry
  from_texts k [] h = refl
  from_texts k ((e, v) ∷ m) (h, hs) = elim (Bool-cases (bytes_eq k e.value)) [
    | inl b ↦ rw (equals-text k e h, b)
    | inr b ↦ rw (equals-text k e h, b, from_texts k m hs)
  ]

-- ===== src/Hashtables/ListMap/Unique.antt =====
-- The list of entries finds every entry under its key.
use ycsb.Prelude.{◌≡◌, sym, ap, ◌∙◌, none, some, List, [], ◌∷◌, inl, inr, arith}
use ycsb.Prelude.Tests.{Bool-cases, if-then, if-else}
use ycsb.Prelude.Lists.{All}
use ycsb.Prelude.Text.{bytes_eq, bytes_eq_iff, bytes_eq_refl}
use ycsb.HashString.{HashString, wrap, equals}
use ycsb.Hashtables.Container.{find_entry, equals-text}
use ycsb.Hashtables.Memory.Kept.{HasUniqueKeys}
use ycsb.Hashtables.ListMap.{Apart, list_map, list_map-IsMap}

module _ {V : Type 0} where
  abbrev IsFound : List (HashString × V) → HashString × V → Type 0
  IsFound m (e, v) = find_entry (wrap e.value) m ≡ some v

  -- An entry that is found is found behind one with another key.
  IsFound-later :
      (e : HashString) (v : V) (m ms : List (HashString × V))
      → e ≡ wrap e.value
      → find_entry (wrap e.value) m ≡ none
      → All (IsFound m) ms
      → All (IsFound ((e, v) ∷ m)) ms
  unfolding find_entry
  IsFound-later e v m [] well fresh h = tt
  IsFound-later e v m ((f, w) ∷ ms) well fresh (here, rest) = (
    elim (Bool-cases (bytes_eq f.value e.value)) [
      | inl b ↦
          let same = ap (λ k. find_entry (wrap k) m) ((bytes_eq_iff f.value e.value).0 b) in
          absurd (ground (arith, sym here ∙ same ∙ fresh))
      | inr b ↦ if-else (equals (wrap f.value) e) _ _ (equals-text f.value e well ∙ b) ∙ here
    ],
    IsFound-later e v m ms well fresh rest,
  )

  All-IsFound : (m : List (HashString × V)) → Apart m → All (IsFound m) m
  unfolding Apart find_entry
  All-IsFound [] h = tt
  All-IsFound ((e, v) ∷ m) (well, fresh, h) = (
    if-then (equals (wrap e.value) e) _ _ (equals-text e.value e well ∙ bytes_eq_refl e.value),
    IsFound-later e v m m well fresh (All-IsFound m h),
  )

  pub list_map-HasUniqueKeys : HasUniqueKeys (list_map {V = V}) list_map-IsMap
  unfolding list_map-IsMap
  list_map-HasUniqueKeys = record { keys_found = All-IsFound }

-- ===== src/Hashtables/Memory/Handed.antt =====
-- The addresses that Entries hands out.
use ycsb.Prelude.{
  ℕ, zero, suc, ◌≡◌, refl, ap, ◌∙◌, true, false, Option, none, some, List, [], ◌∷◌, map,
}
use ycsb.Prelude.Tests.{if◌then◌else◌}
use ycsb.Prelude.Lists.{All, take}
use ycsb.Prelude.Outcome.{Returns}
use ycsb.Prelude.Text.{Bytes}
use ycsb.HashString.{HashString, wrap, equals}
use ycsb.Hashtables.Container.{Container, IsMap, from_entry}
use ycsb.Hashtables.Memory.{Heap, Stored, entries_stored}
use ycsb.Hashtables.Memory.Kept.{
  HasUniqueKeys, value_of, Kept, IsGiven, find_text-ok, load-ok, texts_of,
}

All-take : {A : Type 0} (Q : A → Type 0) (n : ℕ) (xs : List A) → All Q xs → All Q (take n xs)
All-take Q zero xs h = tt
All-take Q (suc n) [] h = tt
All-take Q (suc n) (x ∷ xs) (h, hs) = (h, All-take Q n xs hs)

module _ {V : Type 0} (Q : HashString × V → Type 0) where
  All-from_entry : (k : HashString) (m : List (HashString × V)) → All Q m → All Q (from_entry k m)
  unfolding from_entry
  All-from_entry k [] h = tt
  All-from_entry k ((e, v) ∷ m) h =
      elim (equals k e) as (λ b. All Q (if b then (e, v) ∷ m else from_entry k m)) [
        | true ↦ h
        | false ↦ All-from_entry k m h.1
      ]

-- The address of a string that is there, with the value of this string in the map.
abbrev pub IsPair : {V : Type 0} → (Bytes → Option V) → Heap → ℕ × V → Type 0
IsPair m h (p, v) = (k : Bytes) × (h.cell p ≡ some k) × (m k ≡ some v)

module _ {V : Type 0} (C : Container (ℕ × V)) (null : V) (laws : IsMap C)
    (unique : HasUniqueKeys C laws) (h₀ : Heap) (m : Bytes → Option V) (t : Stored C null)
    (h : Kept C null laws unique h₀ m t) where
  abbrev IsFound : HashString × (ℕ × V) → Type 0
  IsFound (e, x) = C.find (wrap e.value) t.table ≡ some x

  found-IsPair :
      (items : List (HashString × (ℕ × V)))
      → All IsFound items
      → All (IsPair m t.heap) (map (λ q. q.1) items)
  found-IsPair [] f = tt
  found-IsPair ((e, (p, v)) ∷ items) (f, fs) = (
    (e.value, texts_of C null laws unique h₀ h e.value p v f, h.stands e.value ∙ ap value_of f),
    found-IsPair items fs,
  )

  -- Entries returns, with addresses of strings that are there.
  pub entries_stored-IsPair :
      (key : Option ℕ) (n : ℕ)
      → ((p : ℕ) → key ≡ some p → (s : Bytes) × IsGiven C null laws unique h₀ p s)
      → Returns (entries_stored C null key n t) (All (IsPair m t.heap))
  unfolding entries_stored
  entries_stored-IsPair none n g =
      (_, refl, All-take _ n _ (found-IsPair (C.items t.table) (unique.keys_found t.table h.well)))
  entries_stored-IsPair (some p) n g =
      let (s, given) = g p refl in
      (
        _,
        rw (
          load-ok C null laws unique h₀ m t p s h given,
          find_text-ok C null laws unique h₀ s t t.heap h.well (texts_of C null laws unique h₀ h),
        ),
        All-take _ n _ (
            found-IsPair (from_entry (wrap s) (C.items t.table)) (
              All-from_entry IsFound (wrap s) (C.items t.table)
                (unique.keys_found t.table h.well))),
      )

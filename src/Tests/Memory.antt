-- ===== src/Tests/Memory.antt =====
-- Examples about the table whose strings stand in memory.
use ycsb.Prelude.{ℕ, ◌++◌, List, ◌≡◌, ◌≢◌, refl, false, none, some, [], ◌∷◌, arith}
use ycsb.Prelude.Text.{str, bytes_eq}
use ycsb.HashString.{wrap}
use ycsb.Hashtables.ListMap.{list_map, list_map-IsMap}
use ycsb.Prelude.Tests.{◌==◌, if◌then◌else◌}
use ycsb.Prelude.Outcome.{Returns, err, assertion}
use ycsb.Prelude.Lists.{All}
use ycsb.Hashtables.Memory.Handed.{IsPair}
use ycsb.Hashtables.ListMap.Unique.{list_map-HasUniqueKeys}
use ycsb.Hashtables.Memory.{
  Heap, MemoryCall, insert_at, remove_at, get_at, memory_calls, entries_stored, insert_stored,
}
use ycsb.Hashtables.Memory.Null.{null_key_stops}
use ycsb.Hashtables.Memory.Lost.{insert_stored-lost}
use ycsb.Hashtables.Memory.Kept as Memory
use ycsb.Hashtables.Memory.Safe.{map_calls, memory_calls_safe}

-- A memory with two strings of the caller's.
abbrev two_strings : Heap
two_strings = record {
  next = 2;
  cell = λ p. if p == 0 then some (str "a") else if p == 1 then some (str "b") else none;
}

abbrev by_address : List (MemoryCall ℕ)
by_address = insert_at (some 0) 1 ∷ insert_at (some 1) 3 ∷ remove_at (some 0) ∷ get_at (some 1) ∷ []

memory_calls_safe_example :
    Returns
      (memory_calls list_map 0 false by_address (record { table = []; heap = two_strings }))
      λ r.
        (r.0 ≡ (map_calls 0 two_strings by_address (λ _. none)).0)
        × Memory.Kept list_map 0 list_map-IsMap list_map-HasUniqueKeys two_strings
            (map_calls 0 two_strings by_address (λ _. none)).1
            r.1
        × Returns
            (entries_stored list_map 0 (some 1) 5 r.1)
            (All (IsPair (map_calls 0 two_strings by_address (λ _. none)).1 r.1.heap))
memory_calls_safe_example =
    memory_calls_safe list_map 0 list_map-IsMap list_map-HasUniqueKeys false two_strings by_address
      (some 1) 5
      ((omega arith, refl), ((omega arith, refl), ((omega arith, refl), ((omega arith, refl), tt))))
      (omega arith, refl)

abbrev one_insertion : List (MemoryCall ℕ)
one_insertion = insert_at (some 0) 1 ∷ []

-- A table with one entry.
one_stored :
    Returns
      (memory_calls list_map 0 false one_insertion (record { table = []; heap = two_strings }))
      λ r.
        (r.0 ≡ (map_calls 0 two_strings one_insertion (λ _. none)).0)
        × Memory.Kept list_map 0 list_map-IsMap list_map-HasUniqueKeys two_strings
            (map_calls 0 two_strings one_insertion (λ _. none)).1
            r.1
        × Returns
            (entries_stored list_map 0 none 0 r.1)
            (All (IsPair (map_calls 0 two_strings one_insertion (λ _. none)).1 r.1.heap))
one_stored =
    memory_calls_safe list_map 0 list_map-IsMap list_map-HasUniqueKeys false two_strings
      one_insertion none 0 ((omega arith, refl), tt) tt

insert_stored-lost_example : Returns (insert_stored list_map 0 (some 0) 5 one_stored.0.1) λ r.
    (r.0 ≡ false)
    × (r.1.heap.cell one_stored.0.1.heap.next ≡ some (str "a"))
    × (list_map.find (wrap (str "b")) r.1.table ≢ some (one_stored.0.1.heap.next, 7))
insert_stored-lost_example =
    insert_stored-lost list_map 0 list_map-IsMap list_map-HasUniqueKeys two_strings
      (map_calls 0 two_strings one_insertion (λ _. none)).1 one_stored.0.1 0 (str "a") (str "b") 5 7
      1 one_stored.2.1 (record { old = omega arith; text = refl }) (unfold bytes_eq in refl)

null_key_stops_example :
    memory_calls list_map 0 false
      (one_insertion ++ get_at none ∷ by_address)
      (record { table = []; heap = two_strings })
    ≡ err assertion
null_key_stops_example =
    null_key_stops list_map 0 list_map-IsMap list_map-HasUniqueKeys false two_strings one_insertion
      (get_at none) by_address ((omega arith, refl), tt) tt

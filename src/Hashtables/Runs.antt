-- ===== src/Hashtables/Runs.antt =====
-- The three tables of lib, and what any calls from a new table lead to.
use ycsb.Prelude.{ℕ, ◌≤◌, ◌≡◌, refl, ap, Option, none, some, List, arith}
use ycsb.Prelude.Lists.{length}
use ycsb.Prelude.Text.{Bytes}
use ycsb.HashString.{wrap}
use ycsb.Hashtables.{Follows, value_or_null}
use ycsb.Hashtables.Calls.{Call, after_calls}
use ycsb.Hashtables.Container.{Container, IsMap}
use ycsb.Hashtables.Contract.{StandsOn}
use ycsb.Hashtables.Kept.{after_calls-Follows}
use ycsb.Hashtables.Stl.{
  stl_table, get_value_of, insert_pair, update_value, remove_key, entries, size,
}
use ycsb.Hashtables.TbbRand.{
  rand_table, rand_get, rand_insert, rand_update, rand_remove, rand_entries, rand_size,
}
use ycsb.Hashtables.TbbScan.{
  scan_table, scan_get, scan_insert, scan_update, scan_remove, scan_entries, scan_size,
}

-- A method that looks an entry up, and changes the table where there is one.
module _ {V S : Type 0} (null : V) where
  abbrev after_lookup : Option V → S → S → V × S
  after_lookup o t u = elim o [ none ↦ (null, t) | some old ↦ (old, u) ]

  old-after_lookup : (o : Option V) (t u : S) → (after_lookup o t u).0 ≡ value_or_null null o
  old-after_lookup none t u = refl
  old-after_lookup (some old) t u = refl

  copies-after_lookup :
      {X : Type 0} (f : S → X) (o : Option V) (t u : S) → f u ≡ f t → f (after_lookup o t u).1 ≡ f t
  copies-after_lookup f none t u h = refl
  copies-after_lookup f (some old) t u h = h

  table-after_lookup :
      {X : Type 0} (f : S → X) (o : Option V) (t u : S)
      → f (after_lookup o t u).1 ≡ elim o [ none ↦ f t | some _ ↦ f u ]
  table-after_lookup f none t u = refl
  table-after_lookup f (some old) t u = refl

value-lookup :
    {V : Type 0} (null : V) (o : Option V)
    → elim o [ none ↦ null | some v ↦ v ] ≡ value_or_null null o
value-lookup null none = refl
value-lookup null (some v) = refl

module _ {V : Type 0} (C : Container V) (null : V) where
  stl_table-StandsOn : StandsOn C null (stl_table C null) (λ t. t.table) (λ t. t.copies)
  unfolding get_value_of insert_pair update_value remove_key entries size
  stl_table-StandsOn = record {
    get = λ s k. value-lookup null (C.find (wrap k) s.table);
    insert_flag = λ s k v. refl;
    insert = λ s k v. refl;
    insert_null = λ s v. refl;
    update_old = λ s k v. old-after_lookup null (C.find (wrap k) s.table) s _;
    update = λ s k v. table-after_lookup null (λ t. t.table) (C.find (wrap k) s.table) s _;
    remove_old = λ s k. old-after_lookup null (C.find (wrap k) s.table) s _;
    remove = λ s k. table-after_lookup null (λ t. t.table) (C.find (wrap k) s.table) s _;
    insert_copies = λ s k v. omega arith;
    update_copies =
        λ s k v. copies-after_lookup null (λ t. t.copies) (C.find (wrap k) s.table) s _ refl;
    remove_copies = λ s k. table-after_lookup null (λ t. t.copies) (C.find (wrap k) s.table) s _;
    entries_all = λ s n. refl;
    entries_from = λ s k n. refl;
    size = λ s. refl;
  }

  rand_table-StandsOn : StandsOn C null (rand_table C null) (λ t. t.table) (λ t. t.copies)
  unfolding rand_get rand_insert rand_update rand_remove rand_entries rand_size
  rand_table-StandsOn = record {
    get = λ s k. value-lookup null (C.find (wrap k) s.table);
    insert_flag = λ s k v. refl;
    insert = λ s k v. refl;
    insert_null = λ s v. refl;
    update_old = λ s k v. old-after_lookup null (C.find (wrap k) s.table) s _;
    update = λ s k v. table-after_lookup null (λ t. t.table) (C.find (wrap k) s.table) s _;
    remove_old = λ s k. old-after_lookup null (C.find (wrap k) s.table) s _;
    remove = λ s k. table-after_lookup null (λ t. t.table) (C.find (wrap k) s.table) s _;
    insert_copies = λ s k v. omega arith;
    update_copies =
        λ s k v. copies-after_lookup null (λ t. t.copies) (C.find (wrap k) s.table) s _ refl;
    remove_copies = λ s k. table-after_lookup null (λ t. t.copies) (C.find (wrap k) s.table) s _;
    entries_all = λ s n. refl;
    entries_from = λ s k n. refl;
    size = λ s. refl;
  }

  scan_table-StandsOn : StandsOn C null (scan_table C null) (λ t. t.table) (λ t. t.copies)
  unfolding scan_get scan_insert scan_update scan_remove scan_entries scan_size
  scan_table-StandsOn = record {
    get = λ s k. value-lookup null (C.find (wrap k) s.table);
    insert_flag = λ s k v. refl;
    insert = λ s k v. refl;
    insert_null = λ s v. refl;
    update_old = λ s k v. old-after_lookup null (C.find (wrap k) s.table) s _;
    update = λ s k v. table-after_lookup null (λ t. t.table) (C.find (wrap k) s.table) s _;
    remove_old = λ s k. old-after_lookup null (C.find (wrap k) s.table) s _;
    remove = λ s k. table-after_lookup null (λ t. t.table) (C.find (wrap k) s.table) s _;
    insert_copies = λ s k v. omega arith;
    update_copies =
        λ s k v. copies-after_lookup null (λ t. t.copies) (C.find (wrap k) s.table) s _ refl;
    remove_copies = λ s k. table-after_lookup null (λ t. t.copies) (C.find (wrap k) s.table) s _;
    entries_all = λ s n. refl;
    entries_from = λ s k n. refl;
    size = λ s. refl;
  }

-- Whatever methods have been called on a new StlHashtable, with strings as keys (or NULL, for Insert
-- and Entries), on a container with unique keys: its methods do to the map of its entries what the
-- interface says, Entries lists this map in one order from a key or the beginning on, and Copy has
-- allocated at least as many strings that Free has not given back as there are entries.
pub stl_run :
    {V : Type 0} (C : Container V) (laws : IsMap C) (null : V) (cs : List (Call V)) (k j : Bytes)
    (v : V) (n : ℕ)
    → Follows
        (stl_table C null)
        null
        (λ t key. C.find (wrap key) t.table)
        (after_calls (stl_table C null) cs (record { table = C.empty; copies = 0 }))
        k
        j
        v
        n
      × (size C null (after_calls (stl_table C null) cs (record { table = C.empty; copies = 0 }))
          ≤ (after_calls (stl_table C null) cs (record { table = C.empty; copies = 0 })).copies)
stl_run C laws null cs k j v n =
    after_calls-Follows C null laws (stl_table C null) (λ t. t.table) (λ t. t.copies)
      (stl_table-StandsOn C null) (record { table = C.empty; copies = 0 }) cs k j v n
      laws.empty-Well (omega (arith, ap length laws.empty_items))

-- Whatever methods one thread has called on a new TbbRandHashtable or on a new TbbScanHashtable,
-- with strings as keys (or NULL, for Insert and Entries), on a container with unique keys: the
-- methods do to the map of its entries what the interface says, Entries lists this map in one order
-- from a key or the beginning on, and Copy has allocated at least as many strings that Free has not
-- given back as there are entries.
pub tbb_runs :
    {V : Type 0} (C : Container V) (laws : IsMap C) (null : V) (cs : List (Call V)) (k j : Bytes)
    (v : V) (n : ℕ)
    → Follows
        (rand_table C null)
        null
        (λ t key. C.find (wrap key) t.table)
        (after_calls (rand_table C null) cs (record { table = C.empty; copies = 0 }))
        k
        j
        v
        n
      × (rand_size C null
            (after_calls (rand_table C null) cs (record { table = C.empty; copies = 0 }))
          ≤ (after_calls (rand_table C null) cs (record { table = C.empty; copies = 0 })).copies)
      × Follows
          (scan_table C null)
          null
          (λ t key. C.find (wrap key) t.table)
          (after_calls (scan_table C null) cs (record { table = C.empty; copies = 0 }))
          k
          j
          v
          n
      × (scan_size C null
            (after_calls (scan_table C null) cs (record { table = C.empty; copies = 0 }))
          ≤ (after_calls (scan_table C null) cs (record { table = C.empty; copies = 0 })).copies)
tbb_runs C laws null cs k j v n =
    let none_yet : length (C.items C.empty) ≤ 0 = omega (arith, ap length laws.empty_items) in
    let (rand, rand_strings) =
      after_calls-Follows C null laws (rand_table C null) (λ t. t.table) (λ t. t.copies)
        (rand_table-StandsOn C null) (record { table = C.empty; copies = 0 }) cs k j v n
        laws.empty-Well none_yet in
    let (scan, scan_strings) =
      after_calls-Follows C null laws (scan_table C null) (λ t. t.table) (λ t. t.copies)
        (scan_table-StandsOn C null) (record { table = C.empty; copies = 0 }) cs k j v n
        laws.empty-Well none_yet in
    (rand, rand_strings, scan, scan_strings)

-- ===== src/Hashtables/TbbRand.antt =====
-- lib/tbb_rand_hashtable.h: the table on tbb::concurrent_hash_map, as
-- far as one thread sees it: the locks that the methods take are not modelled.
use ycsb.Prelude.{ℕ, ◌+◌, ◌-◌, Bool, false, Option, none, some, List, map}
use ycsb.Prelude.Lists.{take, length}
use ycsb.Prelude.Text.{Bytes}
use ycsb.HashString.{wrap}
use ycsb.Hashtables.{StringHashtable}
use ycsb.Hashtables.Container.{Container, from_entry, text_of}

-- `copies` counts the strings that Copy has allocated and Free has not given back.
pub record TbbRandHashtable {V : Type 0} (C : Container V) : Type 0 where
  pub table : C.State
  pub copies : ℕ

module _ {V : Type 0} (C : Container V) (null : V) where
  -- Get
  unfoldable pub rand_get : TbbRandHashtable C → Bytes → V
  rand_get t key = elim (C.find (wrap key) t.table) [ none ↦ null | some v ↦ v ]

  -- Insert; the key may be NULL.
  unfoldable pub rand_insert : Option Bytes → V → TbbRandHashtable C → Bool × TbbRandHashtable C
  rand_insert none value t = (false, t)
  rand_insert (some key) value t =
      let r = C.insert (wrap key) value t.table in
      (r.0, record { table = r.1; copies = t.copies + 1 })

  -- Update: `old` is NULL unless find comes upon an entry.
  unfoldable pub rand_update : Bytes → V → TbbRandHashtable C → V × TbbRandHashtable C
  rand_update key value t = elim (C.find (wrap key) t.table) [
    | none ↦ (null, t)
    | some old ↦ (old, record t { table = C.assign (wrap key) value t.table })
  ]

  -- Remove, with erase by the accessor, behind the free of the key's string.
  unfoldable pub rand_remove : Bytes → TbbRandHashtable C → V × TbbRandHashtable C
  rand_remove key t = elim (C.find (wrap key) t.table) [
    | none ↦ (null, t)
    | some old ↦ (old, record { table = C.erase (wrap key) t.table; copies = t.copies - 1 })
  ]

  -- Entries: at most `n` pairs, from what equal_range finds on, or from the beginning.
  unfoldable pub rand_entries : TbbRandHashtable C → Option Bytes → ℕ → List (Bytes × V)
  rand_entries t none n = take n (map text_of (C.items t.table))
  rand_entries t (some key) n = take n (map text_of (from_entry (wrap key) (C.items t.table)))

  -- Size
  unfoldable pub rand_size : TbbRandHashtable C → ℕ
  rand_size t = length (C.items t.table)

  abbrev pub rand_table : StringHashtable V
  rand_table = record {
    State = TbbRandHashtable C;
    get = rand_get;
    insert = rand_insert;
    update = rand_update;
    remove = rand_remove;
    entries = rand_entries;
    size = rand_size;
  }

-- ===== src/Hashtables/TbbScan.antt =====
-- lib/tbb_scan_hashtable.h: the table on tbb::concurrent_unordered_map, as
-- far as one thread sees it: the locks that the methods take are not modelled.
use ycsb.Prelude.{ℕ, ◌+◌, ◌-◌, Bool, false, Option, none, some, List, map}
use ycsb.Prelude.Lists.{take, length}
use ycsb.Prelude.Text.{Bytes}
use ycsb.HashString.{wrap}
use ycsb.Hashtables.{StringHashtable}
use ycsb.Hashtables.Container.{Container, from_entry, text_of}

-- `copies` counts the strings that Copy has allocated and Free has not given back.
pub record TbbScanHashtable {V : Type 0} (C : Container V) : Type 0 where
  pub table : C.State
  pub copies : ℕ

module _ {V : Type 0} (C : Container V) (null : V) where
  -- Get
  unfoldable pub scan_get : TbbScanHashtable C → Bytes → V
  scan_get t key = elim (C.find (wrap key) t.table) [ none ↦ null | some v ↦ v ]

  -- Insert; the key may be NULL.
  unfoldable pub scan_insert : Option Bytes → V → TbbScanHashtable C → Bool × TbbScanHashtable C
  scan_insert none value t = (false, t)
  scan_insert (some key) value t =
      let r = C.insert (wrap key) value t.table in
      (r.0, record { table = r.1; copies = t.copies + 1 })

  -- Update: `old` is NULL unless find comes upon an entry.
  unfoldable pub scan_update : Bytes → V → TbbScanHashtable C → V × TbbScanHashtable C
  scan_update key value t = elim (C.find (wrap key) t.table) [
    | none ↦ (null, t)
    | some old ↦ (old, record t { table = C.assign (wrap key) value t.table })
  ]

  -- Remove, with unsafe_erase, behind the free of the key's string.
  unfoldable pub scan_remove : Bytes → TbbScanHashtable C → V × TbbScanHashtable C
  scan_remove key t = elim (C.find (wrap key) t.table) [
    | none ↦ (null, t)
    | some old ↦ (old, record { table = C.erase (wrap key) t.table; copies = t.copies - 1 })
  ]

  -- Entries: at most `n` pairs, from what equal_range finds on, or from the beginning.
  unfoldable pub scan_entries : TbbScanHashtable C → Option Bytes → ℕ → List (Bytes × V)
  scan_entries t none n = take n (map text_of (C.items t.table))
  scan_entries t (some key) n = take n (map text_of (from_entry (wrap key) (C.items t.table)))

  -- Size
  unfoldable pub scan_size : TbbScanHashtable C → ℕ
  scan_size t = length (C.items t.table)

  abbrev pub scan_table : StringHashtable V
  scan_table = record {
    State = TbbScanHashtable C;
    get = scan_get;
    insert = scan_insert;
    update = scan_update;
    remove = scan_remove;
    entries = scan_entries;
    size = scan_size;
  }

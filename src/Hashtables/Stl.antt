-- ===== src/Hashtables/Stl.antt =====
-- lib/stl_hashtable.h: the table on std::unordered_map. `copies` counts the strings that Copy has
-- allocated and Free has not given back.
use ycsb.Prelude.{ℕ, ◌+◌, ◌-◌, Bool, false, Option, none, some, List, map}
use ycsb.Prelude.Lists.{take, length}
use ycsb.Prelude.Text.{Bytes}
use ycsb.HashString.{wrap}
use ycsb.Hashtables.{StringHashtable}
use ycsb.Hashtables.Container.{Container, from_entry, text_of}

pub record StlHashtable {V : Type 0} (C : Container V) : Type 0 where
  pub table : C.State
  pub copies : ℕ

module _ {V : Type 0} (C : Container V) (null : V) where
  -- Size
  unfoldable pub size : StlHashtable C → ℕ
  size t = length (C.items t.table)

  -- Get
  unfoldable pub get_value_of : StlHashtable C → Bytes → V
  get_value_of t key = elim (C.find (wrap key) t.table) [ none ↦ null | some v ↦ v ]

  -- Insert; the key may be NULL.
  unfoldable pub insert_pair : Option Bytes → V → StlHashtable C → Bool × StlHashtable C
  insert_pair none value t = (false, t)
  insert_pair (some key) value t =
      let r = C.insert (wrap key) value t.table in
      (r.0, record { table = r.1; copies = t.copies + 1 })

  -- Update
  unfoldable pub update_value : Bytes → V → StlHashtable C → V × StlHashtable C
  update_value key value t = elim (C.find (wrap key) t.table) [
    | none ↦ (null, t)
    | some old ↦ (old, record t { table = C.assign (wrap key) value t.table })
  ]

  -- Remove, which frees the key's string before it erases the entry.
  unfoldable pub remove_key : Bytes → StlHashtable C → V × StlHashtable C
  remove_key key t = elim (C.find (wrap key) t.table) [
    | none ↦ (null, t)
    | some old ↦ (old, record { table = C.erase (wrap key) t.table; copies = t.copies - 1 })
  ]

  -- Entries: at most `n` pairs, from the entry of the key on, or from the beginning.
  unfoldable pub entries : StlHashtable C → Option Bytes → ℕ → List (Bytes × V)
  entries t none n = take n (map text_of (C.items t.table))
  entries t (some key) n = take n (map text_of (from_entry (wrap key) (C.items t.table)))

  abbrev pub stl_table : StringHashtable V
  stl_table = record {
    State = StlHashtable C;
    get = get_value_of;
    insert = insert_pair;
    update = update_value;
    remove = remove_key;
    entries = entries;
    size = size;
  }

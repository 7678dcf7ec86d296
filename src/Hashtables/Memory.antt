-- ===== src/Hashtables/Memory.antt =====
-- lib/stl_hashtable.h with its strings in memory: Copy and Free of lib/string.h, and Malloc and Free
-- of lib/mem_alloc.h, on a heap of C strings. A key is the address of a string. The container holds
-- each key with the address of the block that Copy made, beside the value.
pub mod Kept
pub mod Methods
pub mod Removal
pub mod Handed
pub mod Lost
pub mod Safe
pub mod Null
use ycsb.Prelude.{map, ℕ, ◌+◌, Bool, true, false, Option, none, some, List, [], ◌∷◌}
use ycsb.Prelude.Tests.{◌==◌, if◌then◌else◌}
use ycsb.Prelude.Lists.{take}
use ycsb.Prelude.Outcome.{Outcome, ok, err, undefined, ◌>>=◌, ◌>>◌, assert}
use ycsb.Prelude.Text.{Bytes, bytes_eq}
use ycsb.HashString.{HashString, wrap}
use ycsb.Hashtables.{value_or_null, is_missing, put_new, put_over}
use ycsb.Hashtables.Container.{Container, from_entry}
use ycsb.Hashtables.Calls.{Answer, value_answer, flag_answer}

-- The blocks that are allocated, with the strings that stand in them. Blocks from `next` on have not
-- been used yet.
pub record Heap : Type 0 where
  pub next : ℕ
  pub cell : ℕ → Option Bytes

abbrev pub write : (ℕ → Option Bytes) → ℕ → Option Bytes → ℕ → Option Bytes
write cell p s q = if p == q then s else cell q

-- To read a string whose block is not allocated is undefined.
unfoldable pub load : ℕ → Heap → Outcome Bytes
load p h = elim (h.cell p) [ none ↦ err undefined | some s ↦ ok s ]

-- `strcpy` into a new block
unfoldable pub copy : Bytes → Heap → ℕ × Heap
copy s h = (h.next, record { next = h.next + 1; cell = write h.cell h.next (some s) })

-- Free, which is undefined for a block that is not allocated.
unfoldable pub free : ℕ → Heap → Outcome Heap
free p h = elim (h.cell p) [
  | none ↦ err undefined
  | some _ ↦ ok (record h { cell = write h.cell p none })
]

-- A call with the address of its key, which may be NULL.
pub data MemoryCall (V : Type 0) : Type 0 where
  get_at : Option ℕ → MemoryCall V
  insert_at : Option ℕ → V → MemoryCall V
  update_at : Option ℕ → V → MemoryCall V
  remove_at : Option ℕ → MemoryCall V

-- `assert(cstr)` of Wrap, in front of a call of the address. Without assertions the strlen of NULL is
-- undefined.
unfoldable pub on_string : {A : Type 0} → Bool → Option ℕ → (ℕ → Outcome A) → Outcome A
on_string ndebug none call = assert ndebug false >> err undefined
on_string ndebug (some key) call = call key

module _ {V : Type 0} (C : Container (ℕ × V)) (null : V) where
  -- The table with the memory that it shares with its caller.
  pub record Stored : Type 0 where
    pub table : C.State
    pub heap : Heap

  -- The block of an entry's key is there, and holds the key.
  unfoldable pub holds : Heap → HashString × (ℕ × V) → Bool
  holds h (e, (p, _)) = elim (h.cell p) [ none ↦ false | some s ↦ bytes_eq s e.value ]

  unfoldable pub all_hold : Heap → List (HashString × (ℕ × V)) → Bool
  all_hold h [] = true
  all_hold h (q ∷ m) = if holds h q then all_hold h m else false

  -- A lookup may compare with any key, and so read its block.
  unfoldable pub find_text : Bytes → Stored → Outcome (Option (ℕ × V))
  find_text s t =
      if all_hold t.heap (C.items t.table) then ok (C.find (wrap s) t.table) else err undefined

  -- Get
  unfoldable pub get_stored : ℕ → Stored → Outcome (V × Stored)
  get_stored key t = do
    s ← load key t.heap
    found ← find_text s t
    elim found [ none ↦ ok (null, t) | some (_, v) ↦ ok (v, t) ]

  -- Insert, which compares like a lookup.
  unfoldable pub insert_stored : Option ℕ → V → Stored → Outcome (Bool × Stored)
  insert_stored none value t = ok (false, t)
  insert_stored (some key) value t = do
    s ← load key t.heap
    let (p, h) = copy s t.heap
    _ ← find_text s (record t { heap = h })
    let (new, table) = C.insert (wrap s) (p, value) t.table
    ok (new, record { table = table; heap = h })

  -- Update
  unfoldable pub update_stored : ℕ → V → Stored → Outcome (V × Stored)
  update_stored key value t = do
    s ← load key t.heap
    found ← find_text s t
    elim found [
      | none ↦ ok (null, t)
      | some (p, old) ↦ ok (old, record t { table = C.assign (wrap s) (p, value) t.table })
    ]

  -- Remove, which frees the block before it erases the entry that the iterator is at.
  unfoldable pub remove_stored : ℕ → Stored → Outcome (V × Stored)
  remove_stored key t = do
    s ← load key t.heap
    found ← find_text s t
    elim found [
      | none ↦ ok (null, t)
      | some (p, old) ↦
          free p t.heap >>= λ h. ok (old, record { table = C.erase (wrap s) t.table; heap = h })
    ]

  -- Entries, with the addresses of the table's own strings.
  unfoldable pub entries_stored : Option ℕ → ℕ → Stored → Outcome (List (ℕ × V))
  entries_stored none n t = ok (take n (map (λ q. q.1) (C.items t.table)))
  entries_stored (some key) n t = do
    s ← load key t.heap
    _ ← find_text s t
    ok (take n (map (λ q. q.1) (from_entry (wrap s) (C.items t.table))))

  unfoldable pub memory_call : Bool → MemoryCall V → Stored → Outcome (Answer V × Stored)
  memory_call ndebug (get_at key) t = do
    (v, u) ← on_string ndebug key (λ p. get_stored p t)
    ok (value_answer v, u)
  memory_call ndebug (insert_at key value) t = do
    (b, u) ← insert_stored key value t
    ok (flag_answer b, u)
  memory_call ndebug (update_at key value) t = do
    (v, u) ← on_string ndebug key (λ p. update_stored p value t)
    ok (value_answer v, u)
  memory_call ndebug (remove_at key) t = do
    (v, u) ← on_string ndebug key (λ p. remove_stored p t)
    ok (value_answer v, u)

  -- Calls one after the other, with their answers.
  unfoldable pub memory_calls :
      Bool → List (MemoryCall V) → Stored → Outcome (List (Answer V) × Stored)
  memory_calls ndebug [] t = ok ([], t)
  memory_calls ndebug (c ∷ cs) t =
      memory_call ndebug c t >>= λ r. memory_calls ndebug cs r.1 >>= λ q. ok (r.0 ∷ q.0, q.1)

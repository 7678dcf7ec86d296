-- ===== src/Hashtables/Memory/Safe.antt =====
-- No call reads or frees a block that is not allocated.
use ycsb.Prelude.{
  subst, ℕ, ◌<◌, ◌≡◌, refl, ap, ◌∙◌, Bool, false, Option, none, some, List, [], ◌∷◌, arith,
}
use ycsb.Prelude.Tests.{if◌then◌else◌}
use ycsb.Prelude.Lists.{All}
use ycsb.Prelude.Outcome.{Returns}
use ycsb.Prelude.Text.{Bytes, bytes_eq}
use ycsb.HashString.{wrap}
use ycsb.Hashtables.{value_or_null, is_missing, put_new, put_over}
use ycsb.Hashtables.Calls.{Answer, value_answer, flag_answer}
use ycsb.Hashtables.Container.{Container, IsMap, find_entry}
use ycsb.Hashtables.Memory.{
  Heap, MemoryCall, get_at, insert_at, update_at, remove_at, Stored, on_string, insert_stored,
  memory_call, memory_calls, entries_stored,
}
use ycsb.Hashtables.Memory.Handed.{IsPair, entries_stored-IsPair}
use ycsb.Hashtables.Memory.Kept.{HasUniqueKeys, Kept, IsGiven}
use ycsb.Hashtables.Memory.Methods.{get_stored-Kept, insert_stored-Kept}
use ycsb.Hashtables.Memory.Removal.{update_stored-Kept, remove_stored-Kept}

some-injective : {a b : ℕ} → ◌≡◌ {A = Option ℕ} (some a) (some b) → a ≡ b
some-injective h = cc

-- The string at an address, where there is one.
abbrev pub text_at : Heap → ℕ → Bytes
text_at h p = elim (h.cell p) [ none ↦ [] | some s ↦ s ]

-- The key of a call is a string that stands in this memory, or NULL in an insertion.
abbrev pub IsKey : Heap → ℕ → Type 0
IsKey h p = (p < h.next) × (h.cell p ≡ some (text_at h p))

abbrev pub HasKey : {V : Type 0} → Heap → MemoryCall V → Type 0
HasKey h (get_at none) = ⊥
HasKey h (get_at (some p)) = IsKey h p
HasKey h (insert_at none v) = Unit
HasKey h (insert_at (some p) v) = IsKey h p
HasKey h (update_at none v) = ⊥
HasKey h (update_at (some p) v) = IsKey h p
HasKey h (remove_at none) = ⊥
HasKey h (remove_at (some p)) = IsKey h p

module _ {V : Type 0} (null : V) (h : Heap) where
  -- A finite map, changed for one key.
  abbrev pub change : Bytes → (Option V → Option V) → (Bytes → Option V) → Bytes → Option V
  change k f m j = if bytes_eq j k then f (m k) else m j

  -- What a call is on a map from texts to values, with no memory but that of the keys. A NULL key is
  -- no entry's.
  abbrev pub map_call : MemoryCall V → (Bytes → Option V) → Answer V × (Bytes → Option V)
  map_call (get_at none) m = (value_answer null, m)
  map_call (get_at (some p)) m = (value_answer (value_or_null null (m (text_at h p))), m)
  map_call (insert_at none v) m = (flag_answer false, m)
  map_call (insert_at (some p) v) m =
      (flag_answer (is_missing (m (text_at h p))), change (text_at h p) (put_new v) m)
  map_call (update_at none v) m = (value_answer null, m)
  map_call (update_at (some p) v) m =
      (value_answer (value_or_null null (m (text_at h p))), change (text_at h p) (put_over v) m)
  map_call (remove_at none) m = (value_answer null, m)
  map_call (remove_at (some p)) m =
      (value_answer (value_or_null null (m (text_at h p))), change (text_at h p) (λ _. none) m)

  abbrev pub map_calls :
      List (MemoryCall V) → (Bytes → Option V) → List (Answer V) × (Bytes → Option V)
  map_calls [] m = ([], m)
  map_calls (c ∷ cs) m = let r = map_call c m in let q = map_calls cs r.1 in (r.0 ∷ q.0, q.1)

module _ {V : Type 0} (C : Container (ℕ × V)) (null : V) (laws : IsMap C)
    (unique : HasUniqueKeys C laws) (h₀ : Heap) where
  abbrev pub Keeps : (Bytes → Option V) → Stored C null → Type 0
  Keeps m t = Kept C null laws unique h₀ m t

  IsGiven-of : (p : ℕ) → IsKey h₀ p → IsGiven C null laws unique h₀ p (text_at h₀ p)
  IsGiven-of p k = record { old = k.0; text = k.1 }

  pub memory_call-Kept :
      (ndebug : Bool) (c : MemoryCall V) (m : Bytes → Option V) (t : Stored C null)
      → HasKey h₀ c
      → Keeps m t
      → Returns
          (memory_call C null ndebug c t)
          λ r. (r.0 ≡ (map_call null h₀ c m).0) × Keeps (map_call null h₀ c m).1 r.1
  unfolding memory_call on_string
  memory_call-Kept ndebug (get_at none) m t k h = absurd k
  memory_call-Kept ndebug (get_at (some p)) m t k h = (
    _,
    rw (get_stored-Kept C null laws unique h₀ m t p (text_at h₀ p) h (IsGiven-of p k)),
    (refl, h),
  )
  memory_call-Kept ndebug (insert_at none v) m t k h =
      ((flag_answer false, t), unfold insert_stored in refl, (refl, h))
  memory_call-Kept ndebug (insert_at (some p) v) m t k h =
      let (r, run, (e, kept)) =
        insert_stored-Kept C null laws unique h₀ m t p (text_at h₀ p) v h (IsGiven-of p k) in
      ((flag_answer r.0, r.1), rw run, (ap flag_answer e, kept))
  memory_call-Kept ndebug (update_at none v) m t k h = absurd k
  memory_call-Kept ndebug (update_at (some p) v) m t k h =
      let (r, run, (e, kept)) =
        update_stored-Kept C null laws unique h₀ m t p (text_at h₀ p) v h (IsGiven-of p k) in
      ((value_answer r.0, r.1), rw run, (ap value_answer e, kept))
  memory_call-Kept ndebug (remove_at none) m t k h = absurd k
  memory_call-Kept ndebug (remove_at (some p)) m t k h =
      let (r, run, (e, kept)) =
        remove_stored-Kept C null laws unique h₀ m t p (text_at h₀ p) h (IsGiven-of p k) in
      ((value_answer r.0, r.1), rw run, (ap value_answer e, kept))

  memory_calls-Kept :
      (ndebug : Bool) (cs : List (MemoryCall V)) (m : Bytes → Option V) (t : Stored C null)
      → All (HasKey h₀) cs
      → Keeps m t
      → Returns
          (memory_calls C null ndebug cs t)
          λ r. (r.0 ≡ (map_calls null h₀ cs m).0) × Keeps (map_calls null h₀ cs m).1 r.1
  unfolding memory_calls
  memory_calls-Kept ndebug [] m t k h = (([], t), refl, (refl, h))
  memory_calls-Kept ndebug (c ∷ cs) m t k h =
      let (r, run, (e, kept)) = memory_call-Kept ndebug c m t k.0 h in
      let (q, runs, (es, all)) =
        memory_calls-Kept ndebug cs (map_call null h₀ c m).1 r.1 k.1 kept in
      ((r.0 ∷ q.0, q.1), rw (run, runs), (λ i. e i ∷ es i, all))

  key-IsGiven :
      (v : V) (key : Option ℕ)
      → HasKey h₀ (insert_at key v)
      → (p : ℕ) → key ≡ some p
      → (s : Bytes) × IsGiven C null laws unique h₀ p s
  key-IsGiven v none k p e = absurd (cc)
  key-IsGiven v (some q) k p e =
      subst (λ p. (s : Bytes) × IsGiven C null laws unique h₀ p s) (some-injective e)
        (text_at h₀ q, IsGiven-of q k)

  empty_find : (k : Bytes) → C.find (wrap k) C.empty ≡ none
  empty_find k =
      laws.find_items k C.empty
      ∙ ap (find_entry (wrap k)) laws.empty_items
      ∙ unfold find_entry in refl

  pub empty-Kept : Keeps (λ _. none) (record { table = C.empty; heap = h₀ })
  empty-Kept = record {
    well = laws.empty-Well;
    owned = λ k p v e. absurd (ground (arith, empty_find k, e));
    given = λ q lt. refl;
    grown = omega arith;
    stands = λ k. rw (empty_find k);
  }

-- Whatever Get, Insert, Update and Remove are called on a new StlHashtable, with keys that are
-- strings that stood in the caller's memory, or NULL for Insert, on a container with unique keys: no
-- call reads or frees a block that is not allocated, so that all calls return; they answer as those
-- of a map from texts to values; and in the end the table stands for this map, each of its keys
-- stands in a block that is none of the caller's, and the caller's blocks are as they were. Entries,
-- called then from such a key or the beginning on, returns too, with addresses of strings that are
-- there, and their values.
pub memory_calls_safe :
    {V : Type 0} (C : Container (ℕ × V)) (null : V) (laws : IsMap C) (unique : HasUniqueKeys C laws)
    (ndebug : Bool) (h₀ : Heap) (cs : List (MemoryCall V)) (key : Option ℕ) (n : ℕ)
    → All (HasKey h₀) cs
    → HasKey h₀ (insert_at key null)
    → Returns (memory_calls C null ndebug cs (record { table = C.empty; heap = h₀ })) λ r.
      (r.0 ≡ (map_calls null h₀ cs (λ _. none)).0)
      × Kept C null laws unique h₀ (map_calls null h₀ cs (λ _. none)).1 r.1
      × Returns
          (entries_stored C null key n r.1)
          (All (IsPair (map_calls null h₀ cs (λ _. none)).1 r.1.heap))
memory_calls_safe C null laws unique ndebug h₀ cs key n k given =
    let (r, run, (e, kept)) =
      memory_calls-Kept C null laws unique h₀ ndebug cs (λ _. none)
        (record { table = C.empty; heap = h₀ }) k (empty-Kept C null laws unique h₀) in
    (
      r,
      run,
      (
        e,
        kept,
        entries_stored-IsPair C null laws unique h₀ _ r.1 kept key n
            (key-IsGiven C null laws unique h₀ null key given),
      ),
    )

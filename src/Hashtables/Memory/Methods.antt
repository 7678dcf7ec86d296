-- ===== src/Hashtables/Memory/Methods.antt =====
-- Get and Insert keep the memory, and answer as the map of the entries does.
use ycsb.Prelude.{ℕ, ◌<◌, ◌≡◌, refl, sym, ap, ◌∙◌, Option, none, some, arith}
use ycsb.Prelude.Tests.{if◌then◌else◌}
use ycsb.Prelude.Outcome.{ok, Returns}
use ycsb.Prelude.Text.{Bytes, bytes_eq}
use ycsb.HashString.{wrap}
use ycsb.Hashtables.{value_or_null, is_missing, put_new}
use ycsb.Hashtables.Container.{Container, IsMap}
use ycsb.Hashtables.Memory.{Heap, write, copy, Stored, get_stored, insert_stored}
use ycsb.Hashtables.Memory.Kept.{
  HasUniqueKeys, write_here, write_elsewhere, value_of, IsBlock, Kept, IsGiven, find_text-ok,
  load-ok, value_answer_of, texts_of, changed-Kept,
}

-- How the changes of a map and of a container with blocks go together.
missing-value_of : {V : Type 0} (o : Option (ℕ × V)) → is_missing o ≡ is_missing (value_of o)
missing-value_of none = refl
missing-value_of (some q) = refl

put_new-value_of :
    {V : Type 0} (p : ℕ) (v : V) (o : Option (ℕ × V))
    → put_new v (value_of o) ≡ value_of (put_new (p, v) o)
put_new-value_of p v none = refl
put_new-value_of p v (some q) = refl

module _ {V : Type 0} (C : Container (ℕ × V)) (null : V) (laws : IsMap C)
    (unique : HasUniqueKeys C laws) (h₀ : Heap) where
  pub get_stored-Kept :
      (m : Bytes → Option V) (t : Stored C null) (p : ℕ) (s : Bytes)
      → Kept C null laws unique h₀ m t
      → IsGiven C null laws unique h₀ p s
      → get_stored C null p t ≡ ok (value_or_null null (m s), t)
  unfolding get_stored
  get_stored-Kept m t p s h g =
      rw
        (
          load-ok C null laws unique h₀ m t p s h g,
          find_text-ok C null laws unique h₀ s t t.heap h.well (texts_of C null laws unique h₀ h),
        )
        (value_answer_of C null laws unique h₀ (C.find (wrap s) t.table) t
          ∙ ap (λ o. ok (value_or_null null o, t)) (sym (h.stands s)))

  -- A block that the heap has already is not the one that a copy makes.
  copied_elsewhere : (s : Bytes) (h : Heap) (q : ℕ) → q < h.next → (copy s h).1.cell q ≡ h.cell q
  unfolding copy
  copied_elsewhere s h q lt = write_elsewhere h.cell h.next q (some s) (λ e. omega arith)

  new-IsBlock :
      (m : Bytes → Option V) (t : Stored C null) (s : Bytes) (v : V) (o : Option (ℕ × V))
      → Kept C null laws unique h₀ m t
      → C.find (wrap s) t.table ≡ o
      → (q : ℕ) (w : V) → put_new (t.heap.next, v) o ≡ some (q, w)
      → IsBlock C null laws unique h₀ (copy s t.heap).1 s q
  unfolding copy
  new-IsBlock m t s v none h found q w e =
      let same : t.heap.next ≡ q = cc in
      record {
        text =
            ap (write t.heap.cell t.heap.next (some s)) (sym same)
            ∙ write_here t.heap.cell t.heap.next (some s);
        above = omega (arith, h.grown);
        below = omega arith;
      }
  new-IsBlock m t s v (some old) h found q w e =
      let block = h.owned s q w (found ∙ e) in
      record {
        text = copied_elsewhere s t.heap q block.below ∙ block.text;
        above = block.above;
        below = omega (arith, block.below);
      }

  -- Insert returns: the keys that it compares with have their blocks.
  pub insert_stored-eq :
      (m : Bytes → Option V) (t : Stored C null) (p : ℕ) (s : Bytes) (v : V)
      → Kept C null laws unique h₀ m t
      → IsGiven C null laws unique h₀ p s
      → insert_stored C null (some p) v t
        ≡ ok (
          (C.insert (wrap s) (t.heap.next, v) t.table).0,
          record {
            table = (C.insert (wrap s) (t.heap.next, v) t.table).1;
            heap = (copy s t.heap).1;
          },
        )
  unfolding insert_stored copy
  insert_stored-eq m t p s v h g =
      let texts : (k : Bytes) (q : ℕ) (w : V)
          → C.find (wrap k) t.table ≡ some (q, w)
          → (copy s t.heap).1.cell q ≡ some k =
        λ k q w e.
          copied_elsewhere s t.heap q (h.owned k q w e).below
          ∙ texts_of C null laws unique h₀ h k q w e in
      rw (
        load-ok C null laws unique h₀ m t p s h g,
        find_text-ok C null laws unique h₀ s t (copy s t.heap).1 h.well texts,
      )

  pub insert_stored-Kept :
      (m : Bytes → Option V) (t : Stored C null) (p : ℕ) (s : Bytes) (v : V)
      → Kept C null laws unique h₀ m t
      → IsGiven C null laws unique h₀ p s
      → Returns (insert_stored C null (some p) v t) λ r.
        (r.0 ≡ is_missing (m s))
        × Kept C null laws unique h₀ (λ j. if bytes_eq j s then put_new v (m s) else m j) r.1
  unfolding copy
  insert_stored-Kept m t p s v h g = (
    _,
    insert_stored-eq m t p s v h g,
    (
      laws.insert_flag s (t.heap.next, v) t.table
          ∙ missing-value_of (C.find (wrap s) t.table)
          ∙ ap is_missing (sym (h.stands s)),
      changed-Kept C null laws unique h₀ m t _ s (put_new v) (put_new (t.heap.next, v)) h
          (laws.insert-Well s (t.heap.next, v) t.table h.well)
          (λ k. laws.insert_find s k (t.heap.next, v) t.table h.well)
          (put_new-value_of t.heap.next v) (new-IsBlock m t s v (C.find (wrap s) t.table) h refl)
          (λ k q b block. record {
            text = copied_elsewhere s t.heap q block.below ∙ block.text;
            above = block.above;
            below = omega (arith, block.below);
          })
          (λ q lt. copied_elsewhere s t.heap q (omega (arith, h.grown))) (omega arith),
    ),
  )

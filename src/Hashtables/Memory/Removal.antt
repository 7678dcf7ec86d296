-- ===== src/Hashtables/Memory/Removal.antt =====
-- Update and Remove keep the memory, and answer as the map of the entries does.
use ycsb.Prelude.{
  ◌⊎◌, ℕ, ◌≡◌, refl, sym, ap, ◌∙◌, subst, false, Option, none, some, inl, inr, arith,
}
use ycsb.Prelude.Tests.{if◌then◌else◌}
use ycsb.Prelude.Outcome.{ok, Returns}
use ycsb.Prelude.Text.{Bytes, bytes_eq, bytes_eq_iff}
use ycsb.HashString.{wrap}
use ycsb.Hashtables.{value_or_null, put_over}
use ycsb.Hashtables.Container.{Container, IsMap}
use ycsb.Hashtables.Contract.{missing}
use ycsb.Hashtables.Memory.{Heap, write, free, Stored, update_stored, remove_stored}
use ycsb.Hashtables.Memory.Kept.{
  HasUniqueKeys, write_elsewhere, value_of, IsBlock, Kept, IsGiven, find_text-ok, load-ok, texts_of,
  changed-Kept,
}

put_over-value_of :
    {V : Type 0} (p : ℕ) (v : V) (o : Option (ℕ × V))
    → put_over v (value_of o) ≡ value_of (put_over (p, v) o)
put_over-value_of p v none = refl
put_over-value_of p v (some q) = refl

found_or_not : {A : Type 0} (o : Option A) → (o ≡ none) ⊎ ((a : A) × (o ≡ some a))
found_or_not none = inl refl
found_or_not (some a) = inr (a, refl)

none_over : {A : Type 0} (a b : A) (o : Option A) → o ≡ none → put_over a o ≡ some b → ⊥
none_over a b none e h = cc
none_over a b (some c) e h = cc

some_over : {A : Type 0} (a c b : A) (o : Option A) → o ≡ some c → put_over a o ≡ some b → a ≡ b
some_over a c b none e h = absurd (cc)
some_over a c b (some d) e h = cc

-- Different strings are in different blocks.
apart :
    (h : Heap) (p q : ℕ) (s k : Bytes)
    → bytes_eq k s ≡ false
    → h.cell p ≡ some s
    → h.cell q ≡ some k
    → p ≡ q
    → ⊥
apart h p q s k b e e' same = ground (arith, bytes_eq_iff k s, sym e ∙ ap h.cell same ∙ e')

free-ok :
    (p : ℕ) (s : Bytes) (h : Heap)
    → h.cell p ≡ some s
    → free p h ≡ ok (record h { cell = write h.cell p none })
unfolding free
free-ok p s h e = ground (arith, e)

module _ {V : Type 0} (C : Container (ℕ × V)) (null : V) (laws : IsMap C)
    (unique : HasUniqueKeys C laws) (h₀ : Heap) where
  pub update_stored-Kept :
      (m : Bytes → Option V) (t : Stored C null) (p : ℕ) (s : Bytes) (v : V)
      → Kept C null laws unique h₀ m t
      → IsGiven C null laws unique h₀ p s
      → Returns (update_stored C null p v t) λ r.
        (r.0 ≡ value_or_null null (m s))
        × Kept C null laws unique h₀ (λ j. if bytes_eq j s then put_over v (m s) else m j) r.1
  unfolding update_stored
  update_stored-Kept m t p s v h g =
      let loaded = load-ok C null laws unique h₀ m t p s h g in
      let compared =
        find_text-ok C null laws unique h₀ s t t.heap h.well (texts_of C null laws unique h₀ h) in
      elim (found_or_not (C.find (wrap s) t.table)) [
        | inl e ↦ (
          (null, t),
          rw (loaded, compared, e),
          (
            ap (value_or_null null) (sym (h.stands s ∙ ap value_of e)),
            changed-Kept C null laws unique h₀ m t t s (put_over v) (put_over (0, v)) h h.well
                (λ k. missing C (0, null) laws s k t.table (put_over (0, v)) refl e)
                (put_over-value_of 0 v) (λ q w same. absurd (none_over (0, v) (q, w) _ e same))
                (λ k q b block. block) (λ q lt. refl) (omega arith),
          ),
        )
        | inr ((q, old), e) ↦ (
          (old, record t { table = C.assign (wrap s) (q, v) t.table }),
          rw (loaded, compared, e),
          (
            ap (value_or_null null) (sym (h.stands s ∙ ap value_of e)),
            changed-Kept C null laws unique h₀ m t _ s (put_over v) (put_over (q, v)) h
                (laws.assign-Well s (q, v) t.table h.well)
                (λ k. laws.assign_find s k (q, v) t.table h.well) (put_over-value_of q v)
                (λ q' w same.
                  subst (IsBlock C null laws unique h₀ t.heap s)
                    (ap (λ x. x.0) (some_over (q, v) (q, old) (q', w) _ e same))
                    (h.owned s q old e))
                (λ k q' b block. block) (λ q' lt. refl) (omega arith),
          ),
        )
      ]

  pub remove_stored-Kept :
      (m : Bytes → Option V) (t : Stored C null) (p : ℕ) (s : Bytes)
      → Kept C null laws unique h₀ m t
      → IsGiven C null laws unique h₀ p s
      → Returns (remove_stored C null p t) λ r.
        (r.0 ≡ value_or_null null (m s))
        × Kept C null laws unique h₀ (λ j. if bytes_eq j s then none else m j) r.1
  unfolding remove_stored
  remove_stored-Kept m t p s h g =
      let loaded = load-ok C null laws unique h₀ m t p s h g in
      let compared =
        find_text-ok C null laws unique h₀ s t t.heap h.well (texts_of C null laws unique h₀ h) in
      elim (found_or_not (C.find (wrap s) t.table)) [
        | inl e ↦ (
          (null, t),
          rw (loaded, compared, e),
          (
            ap (value_or_null null) (sym (h.stands s ∙ ap value_of e)),
            changed-Kept C null laws unique h₀ m t t s (λ _. none) (λ _. none) h h.well
                (λ k. missing C (0, null) laws s k t.table (λ _. none) refl e) (λ o. refl)
                (λ q w same. absurd (cc)) (λ k q b block. block) (λ q lt. refl) (omega arith),
          ),
        )
        | inr ((q, old), e) ↦
            let block = h.owned s q old e in
            (
              (
                old,
                record {
                  table = C.erase (wrap s) t.table;
                  heap = record t.heap { cell = write t.heap.cell q none };
                },
              ),
              rw (loaded, compared, e, free-ok q s t.heap block.text),
              (
                ap (value_or_null null) (sym (h.stands s ∙ ap value_of e)),
                changed-Kept C null laws unique h₀ m t _ s (λ _. none) (λ _. none) h
                    (laws.erase-Well s t.table h.well) (λ k. laws.erase_find s k t.table h.well)
                    (λ o. refl) (λ q' w same. absurd (cc))
                    (λ k q' b other. record {
                      text =
                          write_elsewhere t.heap.cell q q' none
                            (apart t.heap q q' s k b block.text other.text)
                          ∙ other.text;
                      above = other.above;
                      below = other.below;
                    })
                    (λ q' lt.
                      write_elsewhere t.heap.cell q q' none (λ same. omega (arith, block.above)))
                    (omega arith),
              ),
            )
      ]

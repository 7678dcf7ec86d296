-- ===== src/Hashtables/Memory/Kept.antt =====
-- What the methods keep of the memory: every entry has a block of its own with its key, and the
-- blocks of the caller are as they were.
use ycsb.Prelude.{
  ℕ, ◌≤◌, ◌<◌, ◌≡◌, refl, sym, ap, ◌∙◌, subst, Bool, true, false, Option, none, some, List, [], ◌∷◌,
  inl, inr, arith,
}
use ycsb.Prelude.Tests.{◌==◌, if◌then◌else◌, Bool-cases, if-then, if-else}
use ycsb.Prelude.Lists.{All}
use ycsb.Prelude.Outcome.{Outcome, ok}
use ycsb.Prelude.Text.{Bytes, bytes_eq, bytes_eq_iff, bytes_eq_refl}
use ycsb.HashString.{HashString, wrap}
use ycsb.Hashtables.{value_or_null}
use ycsb.Hashtables.Container.{Container, IsMap}
use ycsb.Hashtables.Memory.{Heap, write, load, Stored, holds, all_hold, find_text}

-- The container finds every entry under its key: keys are unique.
pub record HasUniqueKeys {V : Type 0} (C : Container V) (laws : IsMap C) : Type 0 where
  pub keys_found :
      (s : C.State) → laws.Well s → All (λ q. C.find (wrap q.0.value) s ≡ some q.1) (C.items s)

pub write_here : (cell : ℕ → Option Bytes) (p : ℕ) (s : Option Bytes) → write cell p s p ≡ s
write_here cell p s = ground arith

pub write_elsewhere :
    (cell : ℕ → Option Bytes) (p q : ℕ) (s : Option Bytes) → (p ≡ q → ⊥) → write cell p s q ≡ cell q
write_elsewhere cell p q s apart = elim (Bool-cases (p == q)) [
  | inl e ↦ absurd (apart (ground (arith, e)))
  | inr e ↦ rw e
]

-- The value without the address of the block.
abbrev pub value_of : {V : Type 0} → Option (ℕ × V) → Option V
value_of none = none
value_of (some (p, v)) = some v

-- What holds on both sides of a conditional.
by_key :
    {V : Type 0} (b : Bool) (x y : Option V) (u w : Option (ℕ × V))
    → x ≡ value_of u
    → y ≡ value_of w
    → (if b then x else y) ≡ value_of (if b then u else w)
by_key true x y u w h k = h
by_key false x y u w h k = k

module _ {V : Type 0} (C : Container (ℕ × V)) (null : V) (laws : IsMap C)
    (unique : HasUniqueKeys C laws) (h₀ : Heap) where
  -- The block of the key `k`: not one of the caller's.
  pub record IsBlock (h : Heap) (k : Bytes) (p : ℕ) : Type 0 where
    pub text : h.cell p ≡ some k
    pub above : h₀.next ≤ p
    pub below : p < h.next

  -- The table stands for the map `m`, its keys are in blocks of their own, and what the caller had in
  -- memory at `h₀` is as it was.
  pub record Kept (m : Bytes → Option V) (t : Stored C null) : Type 0 where
    pub well : laws.Well t.table
    pub owned :
        (k : Bytes) (p : ℕ) (v : V) → C.find (wrap k) t.table ≡ some (p, v) → IsBlock t.heap k p
    pub given : (q : ℕ) → q < h₀.next → t.heap.cell q ≡ h₀.cell q
    pub grown : h₀.next ≤ t.heap.next
    pub stands : (k : Bytes) → m k ≡ value_of (C.find (wrap k) t.table)

  found_hold :
      (t : Stored C null) (h : Heap) (items : List (HashString × (ℕ × V)))
      → ((k : Bytes) (p : ℕ) (v : V) → C.find (wrap k) t.table ≡ some (p, v) → h.cell p ≡ some k)
      → All (λ q. C.find (wrap q.0.value) t.table ≡ some q.1) items
      → all_hold C null h items ≡ true
  unfolding all_hold holds
  found_hold t h [] texts found = refl
  found_hold t h ((e, (p, v)) ∷ items) texts (here, rest) =
      ground (arith, texts e.value p v here, bytes_eq_refl e.value, found_hold t h items texts rest)

  -- A lookup returns while the keys have their blocks.
  pub find_text-ok :
      (s : Bytes) (t : Stored C null) (h : Heap)
      → laws.Well t.table
      → ((k : Bytes) (p : ℕ) (v : V) → C.find (wrap k) t.table ≡ some (p, v) → h.cell p ≡ some k)
      → find_text C null s (record t { heap = h }) ≡ ok (C.find (wrap s) t.table)
  unfolding find_text
  find_text-ok s t h well texts =
      rw (found_hold t h (C.items t.table) texts (unique.keys_found t.table well))

  -- The key of a call: a string that the caller had in memory.
  pub record IsGiven (p : ℕ) (s : Bytes) : Type 0 where
    pub old : p < h₀.next
    pub text : h₀.cell p ≡ some s

  pub load-ok :
      (m : Bytes → Option V) (t : Stored C null) (p : ℕ) (s : Bytes)
      → Kept m t
      → IsGiven p s
      → load p t.heap ≡ ok s
  unfolding load
  load-ok m t p s h g = ground (arith, h.given p g.old, g.text)

  pub value_answer_of :
      (o : Option (ℕ × V)) (t : Stored C null)
      → ◌≡◌ {A = Outcome (V × Stored C null)}
          (elim o [ none ↦ ok (null, t) | some (_, v) ↦ ok (v, t) ])
          (ok (value_or_null null (value_of o), t))
  value_answer_of none t = refl
  value_answer_of (some q) t = refl

  pub texts_of :
      {m : Bytes → Option V} {t : Stored C null}
      → Kept m t
      → (k : Bytes) (p : ℕ) (v : V) → C.find (wrap k) t.table ≡ some (p, v)
      → t.heap.cell p ≡ some k
  texts_of h k p v e = (h.owned k p v e).text

  -- One entry has changed, by `f` in the map and by `f'` in the container, and what the other entries
  -- and the caller have in memory is as it was.
  pub changed-Kept :
      (m : Bytes → Option V) (t u : Stored C null) (s : Bytes) (f : Option V → Option V)
      (f' : Option (ℕ × V) → Option (ℕ × V))
      → Kept m t
      → laws.Well u.table
      → ((k : Bytes)
          → C.find (wrap k) u.table
            ≡ (if bytes_eq k s then f' (C.find (wrap s) t.table) else C.find (wrap k) t.table))
      → ((o : Option (ℕ × V)) → f (value_of o) ≡ value_of (f' o))
      → ((p : ℕ) (v : V) → f' (C.find (wrap s) t.table) ≡ some (p, v) → IsBlock u.heap s p)
      → ((k : Bytes) (p : ℕ) → bytes_eq k s ≡ false → IsBlock t.heap k p → IsBlock u.heap k p)
      → ((q : ℕ) → q < h₀.next → u.heap.cell q ≡ t.heap.cell q)
      → t.heap.next ≤ u.heap.next
      → Kept (λ j. if bytes_eq j s then f (m s) else m j) u
  changed-Kept m t u s f f' h well finds agree its others same le = record {
    well = well;
    owned = λ k p v e. elim (Bool-cases (bytes_eq k s)) [
      | inl b ↦
          subst (λ j. IsBlock u.heap j p) (sym ((bytes_eq_iff k s).0 b))
            (its p v (sym (if-then (bytes_eq k s) _ _ b) ∙ sym (finds k) ∙ e))
      | inr b ↦
          others k p b (h.owned k p v (sym (if-else (bytes_eq k s) _ _ b) ∙ sym (finds k) ∙ e))
    ];
    given = λ q lt. same q lt ∙ h.given q lt;
    grown = omega (arith, h.grown);
    stands = λ k.
        by_key (bytes_eq k s) _ _ _ _ (ap f (h.stands s) ∙ agree (C.find (wrap s) t.table))
          (h.stands k)
        ∙ ap value_of (sym (finds k));
  }

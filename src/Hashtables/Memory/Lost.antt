-- ===== src/Hashtables/Memory/Lost.antt =====
-- What an insertion that finds its key leaves in memory.
use ycsb.Prelude.{ℕ, ◌<◌, ◌≡◌, ◌≢◌, refl, sym, ◌∙◌, false, Option, none, some, inl, inr, arith}
use ycsb.Prelude.Tests.{Bool-cases, if-then, if-else}
use ycsb.Prelude.Outcome.{Returns}
use ycsb.Prelude.Text.{Bytes, bytes_eq}
use ycsb.HashString.{wrap}
use ycsb.Hashtables.{is_missing, put_new}
use ycsb.Hashtables.Container.{Container, IsMap}
use ycsb.Hashtables.Memory.{Heap, copy, Stored, insert_stored}
use ycsb.Hashtables.Memory.Kept.{HasUniqueKeys, write_here, value_of, Kept, IsGiven}
use ycsb.Hashtables.Memory.Methods.{insert_stored-eq}

-- An entry that is there stays, and its block is an older one.
older :
    {V : Type 0} (o : Option (ℕ × V)) (old v w : V) (next : ℕ)
    → value_of o ≡ some old
    → ((p : ℕ) (u : V) → o ≡ some (p, u) → p < next)
    → put_new (next, v) o ≢ some (next, w)
older none old v w next h below e = cc
older (some (p, u)) old v w next h below e =
    let same : p ≡ next = cc in omega (arith, below p u refl)

known : {V : Type 0} (o : Option (ℕ × V)) (old : V) → value_of o ≡ some old → is_missing o ≡ false
known none old h = absurd (cc)
known (some q) old h = refl

-- An insertion with a key that has an entry, into a table that keeps its memory: it returns, reports
-- that nothing is new, and leaves a copy of the key in a new block that is the block of no entry, of
-- whatever key and with whatever value.
pub insert_stored-lost :
    {V : Type 0} (C : Container (ℕ × V)) (null : V) (laws : IsMap C) (unique : HasUniqueKeys C laws)
    (h₀ : Heap) (m : Bytes → Option V) (t : Stored C null) (p : ℕ) (s k : Bytes) (v w old : V)
    → Kept C null laws unique h₀ m t
    → IsGiven C null laws unique h₀ p s
    → m s ≡ some old
    → Returns (insert_stored C null (some p) v t) λ r.
      (r.0 ≡ false)
      × (r.1.heap.cell t.heap.next ≡ some s)
      × (C.find (wrap k) r.1.table ≢ some (t.heap.next, w))
unfolding copy
insert_stored-lost C null laws unique h₀ m t p s k v w old h g there =
    let found = sym (h.stands s) ∙ there in
    let after = laws.insert_find s k (t.heap.next, v) t.table h.well in
    (
      _,
      insert_stored-eq C null laws unique h₀ m t p s v h g,
      (
        laws.insert_flag s (t.heap.next, v) t.table ∙ known (C.find (wrap s) t.table) old found,
        write_here t.heap.cell t.heap.next (some s),
        elim (Bool-cases (bytes_eq k s)) [
          | inl b ↦ λ e.
              older (C.find (wrap s) t.table) old v w t.heap.next found
                (λ q u e'. (h.owned s q u e').below)
                (sym (after ∙ if-then (bytes_eq k s) _ _ b) ∙ e)
          | inr b ↦ λ e.
              let block =
                h.owned k t.heap.next w (sym (after ∙ if-else (bytes_eq k s) _ _ b) ∙ e) in
              omega (arith, block.below)
        ],
      ),
    )

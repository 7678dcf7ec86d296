-- ===== src/Hashtables/Memory/Null.antt =====
-- A NULL key of Get, Update and Remove, which they pass to Wrap.
use ycsb.Prelude.{ℕ, ◌≡◌, refl, Bool, true, false, Option, none, some, List, [], ◌∷◌, ◌++◌}
use ycsb.Prelude.Tests.{if◌then◌else◌}
use ycsb.Prelude.Lists.{All}
use ycsb.Prelude.Outcome.{err, undefined, assertion}
use ycsb.Prelude.Text.{Bytes}
use ycsb.Hashtables.Container.{Container, IsMap}
use ycsb.Hashtables.Memory.{
  Heap, MemoryCall, get_at, insert_at, update_at, remove_at, Stored, memory_call, memory_calls,
  on_string,
}
use ycsb.Hashtables.Memory.Kept.{HasUniqueKeys}
use ycsb.Hashtables.Memory.Safe.{HasKey, Keeps, map_call, memory_call-Kept, empty-Kept}

-- A call of Get, Update or Remove whose key is NULL.
abbrev pub IsOfNull : {V : Type 0} → MemoryCall V → Type 0
IsOfNull (get_at none) = Unit
IsOfNull (get_at (some p)) = ⊥
IsOfNull (insert_at key v) = ⊥
IsOfNull (update_at none v) = Unit
IsOfNull (update_at (some p) v) = ⊥
IsOfNull (remove_at none) = Unit
IsOfNull (remove_at (some p)) = ⊥

module _ {V : Type 0} (C : Container (ℕ × V)) (null : V) where
  of_null :
      (ndebug : Bool) (c : MemoryCall V) (t : Stored C null)
      → IsOfNull c
      → memory_call C null ndebug c t ≡ err (if ndebug then undefined else assertion)
  unfolding memory_call on_string
  of_null true (get_at none) t h = refl
  of_null false (get_at none) t h = refl
  of_null ndebug (get_at (some p)) t h = absurd h
  of_null ndebug (insert_at key v) t h = absurd h
  of_null true (update_at none v) t h = refl
  of_null false (update_at none v) t h = refl
  of_null ndebug (update_at (some p) v) t h = absurd h
  of_null true (remove_at none) t h = refl
  of_null false (remove_at none) t h = refl
  of_null ndebug (remove_at (some p)) t h = absurd h

  stopped :
      (laws : IsMap C) (unique : HasUniqueKeys C laws) (ndebug : Bool) (h₀ : Heap)
      (cs : List (MemoryCall V)) (c : MemoryCall V) (rest : List (MemoryCall V))
      (m : Bytes → Option V) (t : Stored C null)
      → All (HasKey h₀) cs
      → IsOfNull c
      → Keeps C null laws unique h₀ m t
      → memory_calls C null ndebug (cs ++ c ∷ rest) t
        ≡ err (if ndebug then undefined else assertion)
  unfolding memory_calls
  stopped laws unique ndebug h₀ [] c rest m t given bad kept = rw (of_null ndebug c t bad) refl
  stopped laws unique ndebug h₀ (b ∷ cs) c rest m t given bad kept =
      let (r, run, (_, next)) = memory_call-Kept C null laws unique h₀ ndebug b m t given.0 kept in
      rw
        (run, stopped laws unique ndebug h₀ cs c rest (map_call null h₀ b m).1 r.1 given.1 bad next)
        refl

-- After any calls of a new StlHashtable whose keys are strings in the caller's memory, or NULL for
-- Insert, on a container with unique keys, the first call of Get, Update or Remove with NULL ends
-- the program, whatever would follow: by the failed assertion of Wrap, and in a build without
-- assertions in undefined behaviour.
pub null_key_stops :
    {V : Type 0} (C : Container (ℕ × V)) (null : V) (laws : IsMap C) (unique : HasUniqueKeys C laws)
    (ndebug : Bool) (h₀ : Heap) (cs : List (MemoryCall V)) (c : MemoryCall V)
    (rest : List (MemoryCall V))
    → All (HasKey h₀) cs
    → IsOfNull c
    → memory_calls C null ndebug (cs ++ c ∷ rest) (record { table = C.empty; heap = h₀ })
      ≡ err (if ndebug then undefined else assertion)
null_key_stops C null laws unique ndebug h₀ cs c rest given bad =
    stopped C null laws unique ndebug h₀ cs c rest (λ _. none) _ given bad
      (empty-Kept C null laws unique h₀)

-- ===== src/Lsm/Engine.antt =====
-- What the bindings call of an lsm-tree engine (SplitLSM or UnifiedLSM), which is not part of this
-- repository: four operations that may throw.
use ycsb.Prelude.{ℕ, ◌≡◌, Bool, true, Option, some, List, []}
use ycsb.Prelude.Tests.{if◌then◌else◌}
use ycsb.Prelude.Text.{Bytes, bytes_eq}

-- `none`, and `false` for a write, is an exception.
pub record Engine : Type 1 where
  pub State : Type 0
  pub get : Bytes → State → Option Bytes × State
  pub put : Bytes → Bytes → State → Bool × State
  pub delete : Bytes → State → Bool × State
  pub scan : Bytes → ℕ → State → Option (List (Bytes × Bytes)) × State

-- An engine that works: it does not throw, Get gives the latest value that was put, and the empty
-- text for a key that was never put or was deleted since.
pub record IsLawful (E : Engine) : Type 0 where
  pub view : E.State → Bytes → Bytes
  pub get_value : (k : Bytes) (s : E.State) → (E.get k s).0 ≡ some (view s k)
  pub view-get : (k j : Bytes) (s : E.State) → view (E.get k s).1 j ≡ view s j
  pub put_works : (k v : Bytes) (s : E.State) → (E.put k v s).0 ≡ true
  pub view-put :
      (k v j : Bytes) (s : E.State)
      → view (E.put k v s).1 j ≡ (if bytes_eq j k then v else view s j)
  pub delete_works : (k : Bytes) (s : E.State) → (E.delete k s).0 ≡ true
  pub view-delete :
      (k j : Bytes) (s : E.State)
      → view (E.delete k s).1 j ≡ (if bytes_eq j k then [] else view s j)

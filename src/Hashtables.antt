-- ===== src/Hashtables.antt =====
-- lib/string_hashtable.h: the interface of the tables from C strings to values, and the contract of a
-- finite map that its implementations are held to.
pub mod Container
pub mod Stl
pub mod TbbRand
pub mod TbbScan
pub mod Calls
pub mod Contract
pub mod Kept
pub mod Runs
pub mod Lock
pub mod Memory
pub mod ListMap
use ycsb.Prelude.{ℕ, suc, ◌+◌, ◌≡◌, Bool, true, false, Option, none, some, List, [], ◌∷◌}
use ycsb.Prelude.Tests.{if◌then◌else◌}
use ycsb.Prelude.Lists.{take, length}
use ycsb.Prelude.Text.{Bytes, bytes_eq}

-- StringHashtable<V>. A `const char *` that may be NULL is an option; so is the key of Entries, of
-- which the default is NULL. A method that is not const returns the table behind it.
pub record StringHashtable (V : Type 0) : Type 1 where
  pub State : Type 0
  pub get : State → Bytes → V
  pub insert : Option Bytes → V → State → Bool × State
  pub update : Bytes → V → State → V × State
  pub remove : Bytes → State → V × State
  pub entries : State → Option Bytes → ℕ → List (Bytes × V)
  pub size : State → ℕ

module _ {V : Type 0} where
  -- What an entry that may be missing is returned as: `null` is the NULL of the type of values.
  abbrev pub value_or_null : V → Option V → V
  value_or_null null none = null
  value_or_null null (some v) = v

  abbrev pub is_missing : Option V → Bool
  is_missing none = true
  is_missing (some _) = false

  abbrev pub one_if_found : Option V → ℕ
  one_if_found none = 0
  one_if_found (some _) = 1

  -- An entry for a key that has none, and a new value for a key that has an entry.
  abbrev pub put_new : V → Option V → Option V
  put_new v none = some v
  put_new v (some old) = some old

  abbrev pub put_over : V → Option V → Option V
  put_over v none = none
  put_over v (some old) = some v

  -- The first pair with a key, and the pairs from there on.
  unfoldable pub lookup_text : Bytes → List (Bytes × V) → Option V
  lookup_text k [] = none
  lookup_text k ((j, v) ∷ m) = if bytes_eq k j then some v else lookup_text k m

  unfoldable pub from_text : Bytes → List (Bytes × V) → List (Bytes × V)
  from_text k [] = []
  from_text k ((j, v) ∷ m) = if bytes_eq k j then (j, v) ∷ m else from_text k m

  -- What a table does in a state that stands for the map `view`, for a key `k`, another `j`, a value
  -- and a number of entries.
  pub record Follows (T : StringHashtable V) (null : V) (view : T.State → Bytes → Option V)
      (s : T.State) (k j : Bytes) (v : V) (n : ℕ) : Type 0 where
    pub got : T.get s k ≡ value_or_null null (view s k)
    pub insert_flag : (T.insert (some k) v s).0 ≡ is_missing (view s k)
    pub insert_view :
        view (T.insert (some k) v s).1 j ≡ (if bytes_eq j k then put_new v (view s k) else view s j)
    pub insert_null : T.insert none v s ≡ (false, s)
    pub update_old : (T.update k v s).0 ≡ value_or_null null (view s k)
    pub update_view :
        view (T.update k v s).1 j ≡ (if bytes_eq j k then put_over v (view s k) else view s j)
    pub remove_old : (T.remove k s).0 ≡ value_or_null null (view s k)
    pub remove_view : view (T.remove k s).1 j ≡ (if bytes_eq j k then none else view s j)
    pub insert_size : T.size (T.insert (some k) v s).1 + one_if_found (view s k) ≡ suc (T.size s)
    pub update_size : T.size (T.update k v s).1 ≡ T.size s
    pub remove_size : T.size (T.remove k s).1 + one_if_found (view s k) ≡ T.size s
    pub entries_size : length (T.entries s none (T.size s)) ≡ T.size s
    pub entries_view : lookup_text k (T.entries s none (T.size s)) ≡ view s k
    pub entries_some : T.entries s none n ≡ take n (T.entries s none (T.size s))
    pub entries_from : T.entries s (some k) n ≡ take n (from_text k (T.entries s none (T.size s)))

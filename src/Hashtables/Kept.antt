-- ===== src/Hashtables/Kept.antt =====
-- What any calls leave of a table: a container that its operations have led to, and a string for
-- every entry.
use ycsb.Prelude.{ℕ, ◌+◌, ◌-◌, ◌≤◌, ◌≡◌, sym, ap, subst, Option, none, some, List, [], ◌∷◌, arith}
use ycsb.Prelude.Text.{Bytes}
use ycsb.HashString.{wrap}
use ycsb.Hashtables.{StringHashtable, Follows, one_if_found}
use ycsb.Hashtables.Calls.{
  Call, get_call, insert_call, update_call, remove_call, entries_call, size_call, call, after_calls,
}
use ycsb.Hashtables.Container.{Container, IsMap}
use ycsb.Hashtables.Contract.{StandsOn, size_of, under-Follows}

either_state :
    {V S : Type 0} (P : S → Type 0) (o : Option V) {x y : S}
    → P x
    → P y
    → P (elim o [ none ↦ x | some _ ↦ y ])
either_state P none px py = px
either_state P (some a) px py = py

-- Fewer entries, and as many strings fewer.
fewer :
    {V : Type 0} (o : Option V) (n n' c c' m : ℕ)
    → n' + one_if_found o ≡ n
    → n' ≡ m
    → c' ≡ elim o [ none ↦ c | some _ ↦ c - 1 ]
    → n ≤ c
    → m ≤ c'
fewer none n n' c c' m h same copies le = omega arith
fewer (some a) n n' c c' m h same copies le = omega arith

module _ {V : Type 0} (C : Container V) (null : V) (laws : IsMap C) (T : StringHashtable V)
    (under : T.State → C.State) (copies : T.State → ℕ) (on : StandsOn C null T under copies) where
  -- The container is one that its operations have led to, and every entry has a string of its own.
  abbrev pub Kept : T.State → Type 0
  Kept s = laws.Well (under s) × (size_of C null laws (under s) ≤ copies s)

  insert-Kept : (k : Option Bytes) (v : V) (s : T.State) → Kept s → Kept (T.insert k v s).1
  insert-Kept none v s h = subst Kept (sym (ap (λ r. r.1) (on.insert_null s v))) h
  insert-Kept (some k) v s (well, le) = (
    subst laws.Well (sym (on.insert s k v)) (laws.insert-Well k v (under s) well),
    omega (
      arith,
      ap (size_of C null laws) (on.insert s k v),
      laws.insert_length k v (under s) well,
      on.insert_copies s k v,
    ),
  )

  update-Kept : (k : Bytes) (v : V) (s : T.State) → Kept s → Kept (T.update k v s).1
  update-Kept k v s (well, le) =
      let f = under-Follows C null laws T under copies on s k k v 0 well in
      (
        subst laws.Well (sym (on.update s k v)) (
            either_state laws.Well (C.find (wrap k) (under s)) well
              (laws.assign-Well k v (under s) well)),
        omega (arith, f.update_size, on.size s, on.size (T.update k v s).1, on.update_copies s k v),
      )

  remove-Kept : (k : Bytes) (s : T.State) → Kept s → Kept (T.remove k s).1
  remove-Kept k s (well, le) =
      let f = under-Follows C null laws T under copies on s k k null 0 well in
      (
        subst laws.Well (sym (on.remove s k)) (
            either_state laws.Well (C.find (wrap k) (under s)) well
              (laws.erase-Well k (under s) well)),
        fewer (C.find (wrap k) (under s)) (T.size s) (T.size (T.remove k s).1) (copies s) _ _
            f.remove_size (on.size (T.remove k s).1) (on.remove_copies s k)
            (omega (arith, on.size s)),
      )

  call-Kept : (c : Call V) (s : T.State) → Kept s → Kept (call T c s).1
  unfolding call
  call-Kept (get_call k) s h = h
  call-Kept (insert_call k v) s h = insert-Kept k v s h
  call-Kept (update_call k v) s h = update-Kept k v s h
  call-Kept (remove_call k) s h = remove-Kept k s h
  call-Kept (entries_call k n) s h = h
  call-Kept size_call s h = h

  after_calls-Kept : (cs : List (Call V)) (s : T.State) → Kept s → Kept (after_calls T cs s)
  unfolding after_calls
  after_calls-Kept [] s h = h
  after_calls-Kept (c ∷ cs) s h = after_calls-Kept cs (call T c s).1 (call-Kept c s h)

  -- Whatever calls there were: the table follows the map of its entries, and no entry is without a
  -- string of its own.
  pub after_calls-Follows :
      (s : T.State) (cs : List (Call V)) (k j : Bytes) (v : V) (n : ℕ)
      → laws.Well (under s)
      → size_of C null laws (under s) ≤ copies s
      → Follows T null (λ t key. C.find (wrap key) (under t)) (after_calls T cs s) k j v n
        × (T.size (after_calls T cs s) ≤ copies (after_calls T cs s))
  after_calls-Follows s cs k j v n well le =
      let (well', le') = after_calls-Kept cs s (well, le) in
      (
        under-Follows C null laws T under copies on (after_calls T cs s) k j v n well',
        omega (arith, on.size (after_calls T cs s)),
      )

-- ===== src/Hashtables/Contract.antt =====
-- A table whose methods stand on those of a container with unique keys keeps the contract of a finite
-- map.
use ycsb.Prelude.{
  ℕ, zero, suc, ◌+◌, ◌≡◌, refl, sym, ap, ◌∙◌, true, false, Option, none, some, List, [], ◌∷◌, map,
  inl, inr, arith,
}
use ycsb.Prelude.{◌-◌}
use ycsb.Prelude.Tests.{Bool-cases, if◌then◌else◌}
use ycsb.Prelude.Lists.{take, length, length-map}
use ycsb.Prelude.Text.{Bytes, bytes_eq, bytes_eq_iff}
use ycsb.HashString.{wrap}
use ycsb.Hashtables.{
  StringHashtable, Follows, value_or_null, one_if_found, put_over, lookup_text, from_text,
}
use ycsb.Hashtables.Container.{Container, IsMap, text_of, from_entry, lookup_texts, from_texts}

take_all {ℓ} : {A : Type ℓ} (xs : List A) (n : ℕ) → n ≡ length xs → take n xs ≡ xs
take_all [] zero h = refl
take_all [] (suc n) h = refl
take_all (x ∷ xs) zero h = absurd (omega arith)
take_all (x ∷ xs) (suc n) h = ap (λ l. x ∷ l) (take_all xs n (omega arith))

-- Both outcomes of a lookup.
by_lookup :
    {V S X : Type 0} (o : Option V) (x y : S) (f : S → X) (w : X)
    → (o ≡ none → f x ≡ w)
    → ((a : V) → o ≡ some a → f y ≡ w)
    → f (elim o [ none ↦ x | some _ ↦ y ]) ≡ w
by_lookup none x y f w absent present = absent refl
by_lookup (some a) x y f w absent present = present a refl

module _ {V : Type 0} (C : Container V) (null : V) where
  -- What the methods of a table do to the container below it, and to the strings that it has
  -- allocated and not freed.
  pub record StandsOn (T : StringHashtable V) (under : T.State → C.State) (copies : T.State → ℕ)
      : Type 0 where
    pub get : (s : T.State) (k : Bytes) → T.get s k ≡ value_or_null null (C.find (wrap k) (under s))
    pub insert_flag :
        (s : T.State) (k : Bytes) (v : V)
        → (T.insert (some k) v s).0 ≡ (C.insert (wrap k) v (under s)).0
    pub insert :
        (s : T.State) (k : Bytes) (v : V)
        → under (T.insert (some k) v s).1 ≡ (C.insert (wrap k) v (under s)).1
    pub insert_null : (s : T.State) (v : V) → T.insert none v s ≡ (false, s)
    pub update_old :
        (s : T.State) (k : Bytes) (v : V)
        → (T.update k v s).0 ≡ value_or_null null (C.find (wrap k) (under s))
    pub update :
        (s : T.State) (k : Bytes) (v : V)
        → under (T.update k v s).1 ≡ elim (C.find (wrap k) (under s)) [
          | none ↦ under s
          | some _ ↦ C.assign (wrap k) v (under s)
        ]
    pub remove_old :
        (s : T.State) (k : Bytes)
        → (T.remove k s).0 ≡ value_or_null null (C.find (wrap k) (under s))
    pub remove :
        (s : T.State) (k : Bytes)
        → under (T.remove k s).1 ≡ elim (C.find (wrap k) (under s)) [
          | none ↦ under s
          | some _ ↦ C.erase (wrap k) (under s)
        ]
    pub entries_all :
        (s : T.State) (n : ℕ) → T.entries s none n ≡ take n (map text_of (C.items (under s)))
    pub entries_from :
        (s : T.State) (k : Bytes) (n : ℕ)
        → T.entries s (some k) n ≡ take n (map text_of (from_entry (wrap k) (C.items (under s))))
    pub insert_copies :
        (s : T.State) (k : Bytes) (v : V) → copies (T.insert (some k) v s).1 ≡ suc (copies s)
    pub update_copies : (s : T.State) (k : Bytes) (v : V) → copies (T.update k v s).1 ≡ copies s
    pub remove_copies :
        (s : T.State) (k : Bytes)
        → copies (T.remove k s).1
          ≡ elim (C.find (wrap k) (under s)) [ none ↦ copies s | some _ ↦ copies s - 1 ]
    pub size : (s : T.State) → T.size s ≡ length (C.items (under s))

  module _ (laws : IsMap C) where
    abbrev pub size_of : C.State → ℕ
    size_of s = length (C.items s)

    same_find :
        (k j : Bytes) (s : C.State) → bytes_eq j k ≡ true → C.find (wrap j) s ≡ C.find (wrap k) s
    same_find k j s e = ap (λ u. C.find (wrap u) s) ((bytes_eq_iff j k).0 e)

    -- A key that has no entry: nothing to write to, and nothing to take out.
    pub missing :
        (k j : Bytes) (s : C.State) (f : Option V → Option V)
        → f none ≡ none
        → C.find (wrap k) s ≡ none
        → C.find (wrap j) s ≡ (if bytes_eq j k then f (C.find (wrap k) s) else C.find (wrap j) s)
    missing k j s f fn h = elim (Bool-cases (bytes_eq j k)) [
      | inl b ↦ rw (b, h, fn, same_find k j s b, h)
      | inr b ↦ rw b
    ]

    module _ (T : StringHashtable V) (under : T.State → C.State) (copies : T.State → ℕ)
        (on : StandsOn T under copies) where
      -- All pairs, which is what Entries gives for no key and the size.
      all_pairs : (s : T.State) → T.entries s none (T.size s) ≡ map text_of (C.items (under s))
      all_pairs s =
          on.entries_all s (T.size s)
          ∙ take_all (map text_of (C.items (under s))) (T.size s)
              (on.size s ∙ sym (length-map text_of (C.items (under s))))

      pub under-Follows :
          (s : T.State) (k j : Bytes) (v : V) (n : ℕ)
          → laws.Well (under s)
          → Follows T null (λ t key. C.find (wrap key) (under t)) s k j v n
      under-Follows s k j v n well = record {
        got = on.get s k;
        insert_flag = on.insert_flag s k v ∙ laws.insert_flag k v (under s);
        insert_view =
            ap (C.find (wrap j)) (on.insert s k v) ∙ laws.insert_find k j v (under s) well;
        insert_null = on.insert_null s v;
        update_old = on.update_old s k v;
        update_view =
            ap (C.find (wrap j)) (on.update s k v)
            ∙ by_lookup (C.find (wrap k) (under s)) (under s) _ (C.find (wrap j)) _
                (missing k j (under s) (put_over v) refl)
                (λ _ _. laws.assign_find k j v (under s) well);
        remove_old = on.remove_old s k;
        remove_view =
            ap (C.find (wrap j)) (on.remove s k)
            ∙ by_lookup (C.find (wrap k) (under s)) (under s) _ (C.find (wrap j)) _
                (missing k j (under s) (λ _. none) refl)
                (λ _ _. laws.erase_find k j (under s) well);
        insert_size =
            ap (λ n. n + one_if_found (C.find (wrap k) (under s)))
              (on.size (T.insert (some k) v s).1 ∙ ap size_of (on.insert s k v))
            ∙ laws.insert_length k v (under s) well
            ∙ ap suc (sym (on.size s));
        update_size =
            on.size (T.update k v s).1
            ∙ ap size_of (on.update s k v)
            ∙ by_lookup (C.find (wrap k) (under s)) (under s) _ size_of _ (λ _. refl)
                (λ _ _. laws.assign_length k v (under s) well)
            ∙ sym (on.size s);
        remove_size =
            ap (λ n. n + one_if_found (C.find (wrap k) (under s)))
              (on.size (T.remove k s).1 ∙ ap size_of (on.remove s k))
            ∙ by_lookup (C.find (wrap k) (under s)) (under s) _
                (λ x. size_of x + one_if_found (C.find (wrap k) (under s))) _
                (λ h. omega (arith, ap one_if_found h)) (λ _ _. laws.erase_length k (under s) well)
            ∙ sym (on.size s);
        entries_size =
            ap length (all_pairs s) ∙ length-map text_of (C.items (under s)) ∙ sym (on.size s);
        entries_view =
            ap (lookup_text k) (all_pairs s)
            ∙ lookup_texts k (C.items (under s)) (laws.keys (under s) well)
            ∙ sym (laws.find_items k (under s));
        entries_some = on.entries_all s n ∙ ap (take n) (sym (all_pairs s));
        entries_from =
            on.entries_from s k n
            ∙ ap (take n) (
                from_texts k (C.items (under s)) (laws.keys (under s) well)
                ∙ ap (from_text k) (sym (all_pairs s)));
      }

-- ===== src/Properties/Laws.antt =====
-- Reading after writing, and what a property file sets.
use ycsb.Prelude.{◌≡◌, refl, sym, ap, ◌∙◌, Option, none, some, List, [], ◌∷◌, arith}
use ycsb.Prelude.Tests.{if◌then◌else◌}
use ycsb.Prelude.Outcome.{ok}
use ycsb.Prelude.Text.{Bytes, bytes_eq, bytes_eq_iff}
use ycsb.Properties.{
  Properties, find, assign, lookup, or_default, get_property, set_property, lines, parse_line,
  load_line, load_lines, load,
}

find-assign :
    (k j v : Bytes) (m : List (Bytes × Bytes))
    → find j (assign k v m) ≡ (if bytes_eq j k then some v else find j m)
unfolding find assign
find-assign k j v [] = refl
find-assign k j v ((i, w) ∷ m) =
    ground (arith, bytes_eq_iff k i, bytes_eq_iff j i, bytes_eq_iff j k, find-assign k j v m)

-- After a write the written key reads as the new value, and every other key as before.
pub lookup-set_property :
    (p : Properties) (k j v : Bytes)
    → lookup (set_property p k v) j ≡ (if bytes_eq j k then some v else lookup p j)
unfolding lookup set_property
lookup-set_property p k j v = find-assign k j v p.entries

-- The value that the last line about the key gives it, if any line does.
pub last_set : Bytes → List Bytes → Option Bytes
last_set k [] = none
last_set k (l ∷ ls) = elim (last_set k ls) [
  | some v ↦ some v
  | none ↦ elim (parse_line l) [ none ↦ none | some (j, v) ↦ if bytes_eq k j then some v else none ]
]

abbrev or_else : Option Bytes → Option Bytes → Option Bytes
or_else none o = o
or_else (some v) o = some v

abbrev value_for : Bytes → Option (Bytes × Bytes) → Option Bytes
value_for k none = none
value_for k (some (j, v)) = if bytes_eq k j then some v else none

lookup-load_line :
    (l : Bytes) (p : Properties) (k : Bytes)
    → lookup (load_line p l) k ≡ or_else (value_for k (parse_line l)) (lookup p k)
unfolding load_line
lookup-load_line l p k = by_pair (parse_line l)
  where
    by_pair :
        (o : Option (Bytes × Bytes))
        → lookup (elim o [ none ↦ p | some (j, v) ↦ set_property p j v ]) k
          ≡ or_else (value_for k o) (lookup p k)
    by_pair none = refl
    by_pair (some (j, v)) = ground (arith, lookup-set_property p j k v)

last_set-cons :
    (k l : Bytes) (ls : List Bytes)
    → last_set k (l ∷ ls) ≡ or_else (last_set k ls) (value_for k (parse_line l))
unfolding last_set
last_set-cons k l ls = ground arith

or_else_assoc : (a b c : Option Bytes) → or_else a (or_else b c) ≡ or_else (or_else a b) c
or_else_assoc none b c = refl
or_else_assoc (some v) b c = refl

lookup-load_lines :
    (ls : List Bytes) (p : Properties) (k : Bytes)
    → lookup (load_lines p ls) k ≡ or_else (last_set k ls) (lookup p k)
unfolding load_lines
lookup-load_lines [] p k = unfold last_set in refl
lookup-load_lines (l ∷ ls) p k =
    lookup-load_lines ls (load_line p l) k
    ∙ ap (or_else (last_set k ls)) (lookup-load_line l p k)
    ∙ or_else_assoc (last_set k ls) (value_for k (parse_line l)) (lookup p k)
    ∙ ap (λ o. or_else o (lookup p k)) (sym (last_set-cons k l ls))

-- A load fails only on a stream that is not open. Otherwise, under every key, the store then reads
-- as the last line of the file about that key says, and as before where no line is about it.
pub load_lookup :
    (content : Bytes) (p : Properties)
    → (r : Properties) × (load (some content) p ≡ ok r)
      × ((k d : Bytes)
          → get_property r k d ≡ or_default (last_set k (lines content)) (get_property p k d))
unfolding load get_property
load_lookup content p = (
  load_lines p (lines content),
  refl,
  λ k d. ground (arith, lookup-load_lines (lines content) p k),
)

-- ===== src/Properties/RoundTrip.antt =====
-- A property file that is written line by line loads as the settings it was written from.
use ycsb.Prelude.{ℕ, ◌≡◌, refl, ap, ◌∙◌, false, some, List, [], ◌∷◌, ◌++◌}
use ycsb.Prelude.Tests.{◌==◌, ==_iff}
use ycsb.Prelude.Lists.{All}
use ycsb.Prelude.Outcome.{ok}
use ycsb.Prelude.Text.{Bytes, split_at}
use ycsb.Utils.Trim.{IsTrimmed, trim-eq_self}
use ycsb.Properties.{
  Properties, set_property, lines, first, parse_line, load_line, load_lines, load,
}

-- The byte does not occur in the text.
abbrev pub Lacks : ℕ → Bytes → Type 0
Lacks c s = All (λ b. (b == c) ≡ false) s

-- A key or value that the format can carry: no line feed, no space at its ends; a key has no equals
-- sign and does not begin like a comment.
abbrev pub IsPlain : Bytes × Bytes → Type 0
IsPlain (k, v) =
    Lacks 10 k × Lacks b'=' k × ((first k == b'#') ≡ false) × IsTrimmed k × Lacks 10 v × IsTrimmed v

abbrev pub line_of : Bytes × Bytes → Bytes
line_of (k, v) = k ++ b'=' ∷ v

pub render : List (Bytes × Bytes) → Bytes
render [] = []
render (e ∷ es) = line_of e ++ 10 ∷ render es

pub set_all : Properties → List (Bytes × Bytes) → Properties
set_all p [] = p
set_all p ((k, v) ∷ es) = set_all (set_property p k v) es

Lacks-append : (c : ℕ) (s t : Bytes) → Lacks c s → Lacks c t → Lacks c (s ++ t)
Lacks-append c [] t h k = k
Lacks-append c (b ∷ s) t h k = (h.0, Lacks-append c s t h.1 k)

-- A text without a line feed is one line, and what follows the line feed are the other lines.
lines-append : (l rest : Bytes) → Lacks 10 l → lines (l ++ 10 ∷ rest) ≡ l ∷ lines rest
unfolding lines
lines-append [] rest h = refl
lines-append (c ∷ l) rest h = rw (lines-append l rest h.1, h.0)

pub split_at-append : (c : ℕ) (k v : Bytes) → Lacks c k → split_at c (k ++ c ∷ v) ≡ some (k, v)
unfolding split_at
split_at-append c [] v h = rw ((==_iff c c).1 refl)
split_at-append c (b ∷ k) v h = rw (h.0, split_at-append c k v h.1)

first-append : (k v : Bytes) → ((first k == b'#') ≡ false) → (first (k ++ b'=' ∷ v) == b'#') ≡ false
unfolding first
first-append [] v h = refl
first-append (c ∷ k) v h = h

parse_line-line_of : (k v : Bytes) → IsPlain (k, v) → parse_line (line_of (k, v)) ≡ some (k, v)
unfolding parse_line
parse_line-line_of k v (_, no_equals, no_comment, key_trimmed, _, value_trimmed) = rw (
  first-append k v no_comment,
  split_at-append b'=' k v no_equals,
  trim-eq_self k key_trimmed,
  trim-eq_self v value_trimmed,
)

load_line-line_of :
    (k v : Bytes) (p : Properties)
    → IsPlain (k, v)
    → load_line p (line_of (k, v)) ≡ set_property p k v
unfolding load_line
load_line-line_of k v p h = rw (parse_line-line_of k v h, load_line)

load_lines-render :
    (es : List (Bytes × Bytes)) (p : Properties)
    → All IsPlain es
    → load_lines p (lines (render es)) ≡ set_all p es
unfolding load_lines render set_all
load_lines-render [] p h = unfold lines load_line parse_line split_at first in refl
load_lines-render ((k, v) ∷ es) p h =
    let no_feed = Lacks-append 10 k (b'=' ∷ v) h.0.0 (refl, h.0.4) in
    ap (load_lines p) (lines-append (line_of (k, v)) (render es) no_feed)
    ∙ ap (λ q. load_lines q (lines (render es))) (load_line-line_of k v p h.0)
    ∙ load_lines-render es (set_property p k v) h.1

-- Writing settings one to a line, `key=value`, and loading the file sets just these, in that order,
-- where every key and value is one that the format can carry.
pub load-render :
    (es : List (Bytes × Bytes)) (p : Properties)
    → All IsPlain es
    → load (some (render es)) p ≡ ok (set_all p es)
unfolding load
load-render es p h = ap ok (load_lines-render es p h)

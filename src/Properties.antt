-- ===== src/Properties.antt =====
-- core/properties.h: the property store and the property file format.
pub mod Laws
pub mod RoundTrip
use ycsb.Prelude.{ℕ, ◌≡◌, Bool, true, Option, none, some, List, [], ◌∷◌, arith}
use ycsb.Prelude.Tests.{◌==◌, if◌then◌else◌}
use ycsb.Prelude.Outcome.{Outcome, ok, err, exception, out_of_range}
use ycsb.Prelude.Text.{Bytes, str, bytes_eq, split_at}
use ycsb.Utils.{trim}

-- std::map<std::string, std::string>. The program never iterates over it, so entries stand in the
-- order in which they were first set.
pub record Properties : Type 0 where
  pub entries : List (Bytes × Bytes)

abbrev pub empty : Properties
empty = record { entries = [] }

unfoldable pub find : Bytes → List (Bytes × Bytes) → Option Bytes
find k [] = none
find k ((j, v) ∷ m) = if bytes_eq k j then some v else find k m

unfoldable pub assign : Bytes → Bytes → List (Bytes × Bytes) → List (Bytes × Bytes)
assign k v [] = (k, v) ∷ []
assign k v ((j, w) ∷ m) = if bytes_eq k j then (j, v) ∷ m else (j, w) ∷ assign k v m

-- The value under a key, if there is one.
unfoldable pub lookup : Properties → Bytes → Option Bytes
lookup p key = find key p.entries

abbrev pub or_default : Option Bytes → Bytes → Bytes
or_default none d = d
or_default (some v) d = v

unfoldable pub get_property : Properties → Bytes → Bytes → Bytes
get_property p key default_value = or_default (lookup p key) default_value

-- operator[], which is map::at
unfoldable pub at : Properties → Bytes → Outcome Bytes
at p key = elim (lookup p key) [ none ↦ err out_of_range | some v ↦ ok v ]

unfoldable pub set_property : Properties → Bytes → Bytes → Properties
set_property p key value = record { entries = assign key value p.entries }

-- The lines that std::getline gives until the end of the file: the text between line feeds, and a
-- last one, empty where the file ends in a line feed.
add_first : ℕ → List Bytes → List Bytes
add_first c [] = (c ∷ []) ∷ []
add_first c (l ∷ ls) = (c ∷ l) ∷ ls

unfoldable pub lines : Bytes → List Bytes
unfolding add_first
lines [] = [] ∷ []
lines (c ∷ s) = let rest = lines s in if c == 10 then [] ∷ rest else add_first c rest

-- `line[0]`, which is the null character on an empty line
unfoldable pub first : Bytes → ℕ
first [] = 0
first (c ∷ _) = c

-- What a line sets, if it is no comment and has an equals sign.
unfoldable pub parse_line : Bytes → Option (Bytes × Bytes)
parse_line line =
    if first line == b'#'
    then none
    else elim (split_at b'=' line) [ none ↦ none | some (k, v) ↦ some (trim k, trim v) ]

-- One round of the loop of Load.
unfoldable pub load_line : Properties → Bytes → Properties
load_line p line = elim (parse_line line) [ none ↦ p | some (k, v) ↦ set_property p k v ]

unfoldable pub load_lines : Properties → List Bytes → Properties
load_lines p [] = p
load_lines p (l ∷ ls) = load_lines (load_line p l) ls

-- Load, on the content of the stream; `none` is a stream that is not open.
unfoldable pub load : Option Bytes → Properties → Outcome Properties
load none p = err (exception (str "File not open!"))
load (some content) p = ok (load_lines p (lines content))

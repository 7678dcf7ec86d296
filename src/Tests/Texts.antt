-- ===== src/Tests/Texts.antt =====
-- Examples about texts: hashes, properties, command lines and key names.
use ycsb.Prelude.{◌≡◌, ◌↔◌, refl, true, false, Option, none, some, List, [], ◌∷◌, ◌++◌}
use ycsb.Prelude.Tests.{if◌then◌else◌}
use ycsb.Prelude.Lists.{All}
use ycsb.Prelude.Int.{pos}
use ycsb.Prelude.Outcome.{ok, err, exception}
use ycsb.Prelude.Text.{Bytes, str, bytes_eq, to_string}
use ycsb.Prelude.Chars.{is_space, drop_spaces}
use ycsb.Prelude.{arith}
use ycsb.Prelude.Tests.{ltb}
use ycsb.Workload.KeyOrder.{precedes, build_key_name_order}
use ycsb.Properties.{Properties, empty, get_property, or_default, lines, first, load}
use ycsb.Properties.Laws.{last_set, load_lookup}
use ycsb.Properties.RoundTrip.{IsPlain, render, set_all, load-render}
use ycsb.Cli.{proceed, usage, parse_command_line}
use ycsb.Cli.Laws.{
  Flag, threads, file, load_only, property, all_words, IsUsable, apply_all, start, no_db,
  parse_command_line-words, parse_command_line_misused, parse_command_line_closed,
}
use ycsb.Workload.{build_key_name}
use ycsb.Workload.Names.{numbered, build_key_name-eq_iff}

abbrev settings_file : Bytes
settings_file = str "# a comment" ++ 10 ∷ str " recordcount = 5" ++ 10 ∷ str "recordcount=6"

load_lookup_example :
    (r : Properties) × (load (some settings_file) empty ≡ ok r)
    × ((k d : Bytes)
        → get_property r k d
          ≡ or_default (last_set k (lines settings_file)) (get_property empty k d))
load_lookup_example = load_lookup settings_file empty

abbrev two_settings : List (Bytes × Bytes)
two_settings = (str "a", str "1") ∷ (str "b", str "x=2") ∷ []

two_settings-IsPlain : All IsPlain two_settings
unfolding drop_spaces is_space first
two_settings-IsPlain = (
  ((refl, tt), (refl, tt), refl, (refl, refl), (refl, tt), (refl, refl)),
  (((refl, tt), (refl, tt), refl, (refl, refl), (refl, (refl, (refl, tt))), (refl, refl)), tt),
)

load-render_example : load (some (render two_settings)) empty ≡ ok (set_all empty two_settings)
load-render_example = load-render two_settings empty two_settings-IsPlain

-- A machine that has one file.
abbrev one_file : Bytes → Option Bytes
one_file name = if bytes_eq name (str "w") then some settings_file else none

abbrev options : List Flag
options = file (str "w") settings_file ∷ property (str "k") (str "v") ∷ load_only ∷ []

options-IsUsable : All (IsUsable one_file) (threads (str "2") ∷ options)
unfolding bytes_eq
options-IsUsable = (tt, (refl, ((refl, tt), (tt, tt))))

parse_command_line-words_example :
    parse_command_line one_file empty (all_words (threads (str "2") ∷ options))
    ≡ ok (proceed (apply_all one_file (start one_file empty) (threads (str "2") ∷ options)))
parse_command_line-words_example =
    parse_command_line-words one_file empty (threads (str "2")) options options-IsUsable

parse_command_line_misused_example :
    parse_command_line one_file empty (all_words (threads (str "2") ∷ options) ++ str "-db" ∷ [])
    ≡ ok usage
parse_command_line_misused_example =
    parse_command_line_misused one_file empty (threads (str "2")) options (str "-db" ∷ [])
      options-IsUsable no_db

parse_command_line_closed_example :
    parse_command_line one_file empty
      (all_words (threads (str "2") ∷ options) ++ str "-P" ∷ str "x" ∷ str "-load" ∷ [])
    ≡ err (exception (str "File not open!"))
parse_command_line_closed_example =
    parse_command_line_closed one_file empty (threads (str "2")) options (str "x")
      (str "-load" ∷ []) options-IsUsable (unfold bytes_eq in refl)

build_key_name-eq_iff_example :
    (build_key_name false (pos 1) 4 ≡ build_key_name false (pos 1) 5)
    ↔ (numbered false 4 ≡ numbered false 5)
build_key_name-eq_iff_example = build_key_name-eq_iff false (pos 1) 4 5

build_key_name_order_example :
    precedes (build_key_name true (pos 3) 9) (build_key_name true (pos 3) 10) ≡ ltb 9 10
build_key_name_order_example =
    build_key_name_order (pos 3) 9 10 (unfold to_string in omega arith)
      (unfold to_string in omega arith)

-- ===== src/Cli/Laws.antt =====
-- Command lines that are written from a list of options.
use ycsb.Prelude.{◌≡◌, refl, sym, ap, ◌∙◌, true, false, Option, none, some, List, [], ◌∷◌, ◌++◌}
use mathlib.Core.List.{append_assoc, append-nil}
use ycsb.Prelude.Lists.{All}
use ycsb.Prelude.Outcome.{Outcome, ok, err, exception}
use ycsb.Prelude.Text.{Bytes, str, bytes_eq, starts_with}
use ycsb.Properties.{Properties, set_property, load, load_lines, lines}
use ycsb.Properties.RoundTrip.{Lacks, split_at-append}
use ycsb.Cli.{
  CommandLine, Command, proceed, usage, stop, one, two, set_pair, round, parse_loop,
  parse_command_line,
}

pub data Flag : Type 0 where
  threads : Bytes → Flag
  db : Bytes → Flag
  file : Bytes → Bytes → Flag
  load_only : Flag
  run_only : Flag
  property : Bytes → Bytes → Flag

-- The arguments for an option.
pub words : Flag → List Bytes
words (threads n) = str "-threads" ∷ n ∷ []
words (db name) = str "-db" ∷ name ∷ []
words (file name _) = str "-P" ∷ name ∷ []
words load_only = str "-load" ∷ []
words run_only = str "-run" ∷ []
words (property k v) = str "-p" ∷ (k ++ b'=' ∷ v) ∷ []

pub all_words : List Flag → List Bytes
all_words [] = []
all_words (f ∷ fs) = words f ++ all_words fs

module _ (open_file : Bytes → Option Bytes) where
  -- A file can be opened and has the content; a property's name has no equals sign.
  abbrev pub IsUsable : Flag → Type 0
  IsUsable (file name content) = open_file name ≡ some content
  IsUsable (property k v) = Lacks b'=' k
  IsUsable _ = Unit

  loaded : Properties → Bytes → Properties
  loaded p content = load_lines p (lines content)

  -- What an option sets.
  pub apply : CommandLine → Flag → CommandLine
  apply c (threads n) = record c { props = set_property c.props (str "threadcount") n }
  apply c (db name) = record c { props = set_property c.props (str "dbname") name }
  apply c (file name content) = record c { props = loaded c.props content; filename = name }
  apply c load_only = record c { do_load = true }
  apply c run_only = record c { do_run = true }
  apply c (property k v) = record c { props = set_property c.props k v }

  pub apply_all : CommandLine → List Flag → CommandLine
  apply_all c [] = c
  apply_all c (f ∷ fs) = apply_all (apply c f) fs

  two_words :
      (c c' : CommandLine) (arg next : Bytes) (rest : List Bytes)
      → round open_file c arg (some next) ≡ two c'
      → parse_loop open_file c (arg ∷ next ∷ rest) ≡ parse_loop open_file c' rest
  unfolding parse_loop
  two_words c c' arg next rest e = rw (e, parse_loop)

  stopped :
      (c : CommandLine) (r : Outcome Command) (arg next : Bytes) (rest : List Bytes)
      → round open_file c arg (some next) ≡ stop r
      → parse_loop open_file c (arg ∷ next ∷ rest) ≡ r
  unfolding parse_loop
  stopped c r arg next rest e = rw (e, parse_loop)

  one_word :
      (c c' : CommandLine) (arg : Bytes) (rest : List Bytes)
      → ((next : Option Bytes) → round open_file c arg next ≡ one c')
      → parse_loop open_file c (arg ∷ rest) ≡ parse_loop open_file c' rest
  unfolding parse_loop
  one_word c c' arg [] e = rw (e none, parse_loop)
  one_word c c' arg (next ∷ rest) e = rw (e (some next), parse_loop)

  round_file :
      (c : CommandLine) (name content : Bytes)
      → open_file name ≡ some content
      → round open_file c (str "-P") (some name)
        ≡ two (record c { props = loaded c.props content; filename = name })
  unfolding round bytes_eq starts_with load loaded
  round_file c name content h = rw h

  round_property :
      (c : CommandLine) (k v : Bytes)
      → Lacks b'=' k
      → round open_file c (str "-p") (some (k ++ b'=' ∷ v))
        ≡ two (record c { props = set_property c.props k v })
  unfolding round bytes_eq starts_with
  round_property c k v h = set_pair_lem
    where
      set_pair_lem :
          set_pair c (k ++ b'=' ∷ v) ≡ two (record c { props = set_property c.props k v })
      set_pair_lem = rw (split_at-append b'=' k v h, set_pair)

  round_closed :
      (c : CommandLine) (name : Bytes)
      → open_file name ≡ none
      → round open_file c (str "-P") (some name) ≡ stop (err (exception (str "File not open!")))
  unfolding round bytes_eq starts_with load
  round_closed c name h = rw h

  step_lem :
      (f : Flag) (rest : List Bytes) (c : CommandLine)
      → IsUsable f
      → parse_loop open_file c (words f ++ rest) ≡ parse_loop open_file (apply c f) rest
  unfolding words apply
  step_lem (threads n) rest c h =
      two_words c _ (str "-threads") n rest (unfold round bytes_eq starts_with in refl)
  step_lem (db name) rest c h =
      two_words c _ (str "-db") name rest (unfold round bytes_eq starts_with in refl)
  step_lem (file name content) rest c h =
      two_words c _ (str "-P") name rest (round_file c name content h)
  step_lem load_only rest c h =
      one_word c _ (str "-load") rest (λ next. unfold round bytes_eq starts_with in refl)
  step_lem run_only rest c h =
      one_word c _ (str "-run") rest (λ next. unfold round bytes_eq starts_with in refl)
  step_lem (property k v) rest c h =
      two_words c _ (str "-p") (k ++ b'=' ∷ v) rest (round_property c k v h)

  -- Behind usable options the parser stands as if it had started with what they set.
  pub parse_loop-append :
      (fs : List Flag) (rest : List Bytes) (c : CommandLine)
      → All IsUsable fs
      → parse_loop open_file c (all_words fs ++ rest) ≡ parse_loop open_file (apply_all c fs) rest
  unfolding all_words apply_all
  parse_loop-append [] rest c h = refl
  parse_loop-append (f ∷ fs) rest c h =
      ap (parse_loop open_file c) (append_assoc (words f) (all_words fs) rest)
      ∙ step_lem f (all_words fs ++ rest) c h.0
      ∙ parse_loop-append fs rest (apply c f) h.1

  abbrev pub start : Properties → CommandLine
  start p = record { props = p; do_load = false; do_run = false; filename = [] }

  parse-eq-loop :
      (p : Properties) (f : Flag) (fs : List Flag) (rest : List Bytes)
      → parse_command_line open_file p (all_words (f ∷ fs) ++ rest)
        ≡ parse_loop open_file (start p) (all_words (f ∷ fs) ++ rest)
  unfolding parse_command_line all_words words
  parse-eq-loop p (threads _) fs rest = refl
  parse-eq-loop p (db _) fs rest = refl
  parse-eq-loop p (file _ _) fs rest = refl
  parse-eq-loop p load_only fs rest = refl
  parse-eq-loop p run_only fs rest = refl
  parse-eq-loop p (property _ _) fs rest = refl

  -- A command line of one or more usable options is accepted, and sets what they say, in their order,
  -- so that a later setting of a property overrides an earlier one.
  pub parse_command_line-words :
      (p : Properties) (f : Flag) (fs : List Flag)
      → All IsUsable (f ∷ fs)
      → parse_command_line open_file p (all_words (f ∷ fs))
        ≡ ok (proceed (apply_all (start p) (f ∷ fs)))
  parse_command_line-words p f fs h =
      ap (parse_command_line open_file p) (sym (append-nil (all_words (f ∷ fs))))
      ∙ parse-eq-loop p f fs []
      ∙ parse_loop-append (f ∷ fs) [] (start p) h
      ∙ unfold parse_loop in refl

  -- What makes the parser stop behind usable options: an argument that does not begin with a dash,
  -- or an option that wants a value and is the last argument.
  pub data IsMisused : List Bytes → Type 0 where
    no_option :
        (arg : Bytes) (rest : List Bytes)
        → starts_with arg (str "-") ≡ false
        → IsMisused (arg ∷ rest)
    no_threads : IsMisused (str "-threads" ∷ [])
    no_db : IsMisused (str "-db" ∷ [])
    no_file : IsMisused (str "-P" ∷ [])
    no_property : IsMisused (str "-p" ∷ [])

  misused_lem :
      (rest : List Bytes) (c : CommandLine)
      → IsMisused rest
      → parse_loop open_file c rest ≡ ok usage
  unfolding parse_loop round starts_with
  misused_lem _ c (no_option arg [] h) = rw h
  misused_lem _ c (no_option arg (_ ∷ _) h) = rw h
  misused_lem _ c no_threads = unfold bytes_eq starts_with in refl
  misused_lem _ c no_db = unfold bytes_eq starts_with in refl
  misused_lem _ c no_file = unfold bytes_eq starts_with in refl
  misused_lem _ c no_property = unfold bytes_eq starts_with in refl

  -- One or more usable options make the parser print the usage when an argument follows that does not
  -- begin with a dash, or an option that wants a value as the last argument.
  pub parse_command_line_misused :
      (p : Properties) (f : Flag) (fs : List Flag) (rest : List Bytes)
      → All IsUsable (f ∷ fs)
      → IsMisused rest
      → parse_command_line open_file p (all_words (f ∷ fs) ++ rest) ≡ ok usage
  parse_command_line_misused p f fs rest h m =
      parse-eq-loop p f fs rest
      ∙ parse_loop-append (f ∷ fs) rest (start p) h
      ∙ misused_lem rest (apply_all (start p) (f ∷ fs)) m

  -- Behind one or more usable options a file that cannot be opened ends the program by the exception
  -- of Load, which the parser does not catch, whatever follows.
  pub parse_command_line_closed :
      (p : Properties) (f : Flag) (fs : List Flag) (name : Bytes) (rest : List Bytes)
      → All IsUsable (f ∷ fs)
      → open_file name ≡ none
      → parse_command_line open_file p (all_words (f ∷ fs) ++ str "-P" ∷ name ∷ rest)
        ≡ err (exception (str "File not open!"))
  parse_command_line_closed p f fs name rest h closed =
      parse-eq-loop p f fs (str "-P" ∷ name ∷ rest)
      ∙ parse_loop-append (f ∷ fs) (str "-P" ∷ name ∷ rest) (start p) h
      ∙ stopped (apply_all (start p) (f ∷ fs)) _ (str "-P") name rest
          (round_closed (apply_all (start p) (f ∷ fs)) name closed)

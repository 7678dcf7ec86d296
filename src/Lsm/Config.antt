-- ===== src/Lsm/Config.antt =====
-- The constructors of the two bindings: which properties they read, and what they hand to RocksDB
-- and to the engine.
use ycsb.Prelude.{ℕ, ◌*◌, Bool, true, Option, none, some, [], ◌++◌}
use ycsb.Prelude.Int.{ℤ}
use ycsb.Prelude.Tests.{if◌then◌else◌}
use ycsb.Prelude.Outcome.{Outcome, ok, err, invalid_argument, ◌>>=◌}
use ycsb.Prelude.Text.{Bytes, str, is_empty}
use ycsb.Prelude.Chars.{stoi, stoull}
use ycsb.Properties.{Properties, get_property}
use ycsb.Utils.{str_to_bool}

-- `max_background_jobs`, or IncreaseParallelism with the number of threads of the machine.
pub data Jobs : Type 0 where
  background : ℤ → Jobs
  parallelism : ℤ → Jobs

-- The members of rocksdb::Options that the code sets; `none` keeps the library's default.
pub record Options : Type 0 where
  pub create_if_missing : Bool
  pub no_compression : Bool
  pub jobs : Jobs
  pub write_buffer_size : Option ℕ

pub record SplitConfig : Type 0 where
  pub db_path : Bytes
  pub options : Options
  pub buffer_size : ℕ
  pub collect_size : ℕ
  pub collect_threshold : ℕ
  pub punch_hole_threshold : ℕ
  pub enable_gc : Bool

pub record UnifiedConfig : Type 0 where
  pub db_path : Bytes
  pub options : Options

unfoldable pub parse_size_t : Properties → Bytes → ℕ → Outcome ℕ
parse_size_t props key default_value =
    let value = get_property props key [] in
    if is_empty value then ok default_value else stoull value

unfoldable pub parse_bool : Properties → Bytes → Bool → Outcome Bool
parse_bool props key default_value =
    let value = get_property props key [] in
    if is_empty value then ok default_value else str_to_bool value

-- An optional number: none where the property is missing or empty.
optional : Bytes → Outcome (Option ℕ)
optional value = if is_empty value then ok none else (do n ← stoull value; ok (some n))

jobs_of : ℤ → Bytes → Outcome Jobs
jobs_of threads value =
    if is_empty value then ok (parallelism threads) else (do n ← stoi value; ok (background n))

-- BuildOptions of splitlsm_db.cc; `threads` is what hardware_concurrency gives.
unfoldable pub split_options : ℤ → Properties → Bytes → Outcome Options
unfolding optional jobs_of
split_options threads props prefix = do
  jobs ← jobs_of threads (get_property props (prefix ++ str "max_background_jobs") [])
  size ← optional (get_property props (prefix ++ str "write_buffer_size") [])
  ok (record {
    create_if_missing = true;
    no_compression = true;
    jobs = jobs;
    write_buffer_size = size;
  })

-- BuildOptions of unifiedlsm_db.cc, where `buffer_size` stands in for `write_buffer_size`.
unfoldable pub unified_options : ℤ → Properties → Bytes → Outcome Options
unfolding optional jobs_of
unified_options threads props prefix = do
  let write_buffer = get_property props (prefix ++ str "write_buffer_size") []
  let fallback = get_property props (prefix ++ str "buffer_size") []
  jobs ← jobs_of threads (get_property props (prefix ++ str "max_background_jobs") [])
  size ← if is_empty write_buffer then optional fallback else optional write_buffer
  ok (record {
    create_if_missing = true;
    no_compression = true;
    jobs = jobs;
    write_buffer_size = size;
  })

unfoldable pub split_config : ℤ → Properties → Outcome SplitConfig
split_config threads props = do
  let db_path = get_property props (str "splitlsm.dbpath") []
  if is_empty db_path then err invalid_argument else do
    buffer_size ← parse_size_t props (str "splitlsm.buffer_size") (8 * 1024 * 1024)
    collect_size ← parse_size_t props (str "splitlsm.collect_size") (128 * 1024 * 1024)
    collect_threshold ← parse_size_t props (str "splitlsm.collect_threshold") collect_size
    punch_hole_threshold ← parse_size_t props (str "splitlsm.punch_hole_threshold") collect_size
    enable_gc ← parse_bool props (str "splitlsm.enable_gc") true
    options ← split_options threads props (str "splitlsm.")
    ok (record {
      db_path = db_path;
      options = options;
      buffer_size = buffer_size;
      collect_size = collect_size;
      collect_threshold = collect_threshold;
      punch_hole_threshold = punch_hole_threshold;
      enable_gc = enable_gc;
    })

unfoldable pub unified_config : ℤ → Properties → Outcome UnifiedConfig
unified_config threads props = do
  let db_path = get_property props (str "unifiedlsm.dbpath") []
  if is_empty db_path then err invalid_argument else do
    options ← unified_options threads props (str "unifiedlsm.")
    ok (record { db_path = db_path; options = options })

pub data Binding : Type 0 where
  split_binding : SplitConfig → Binding
  unified_binding : UnifiedConfig → Binding

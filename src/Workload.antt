-- ===== src/Workload.antt =====
-- core/core_workload.{h,cc}: the state of a workload and the calls that the client makes. `ndebug`
-- says whether the build defines NDEBUG.
pub mod Property
pub mod Names
pub mod KeyOrder
pub mod Keys
pub mod Fields
pub mod Frame
pub mod Setup
use ycsb.Prelude.{ℕ, zero, suc, ◌+◌, Bool, true, false, List, [], ◌∷◌, ◌++◌}
use ycsb.Prelude.Tests.{leb, if◌then◌else◌}
use ycsb.Prelude.Lists.{length, replicate}
use ycsb.Prelude.Int.{ℤ, pos, ◌+ℤ◌, ◌-ℤ◌, max_ℤ, pos_part, to_u64}
use ycsb.Prelude.Outcome.{Outcome, ok, err, no_fuel, length_error, ◌>>=◌}
use ycsb.Prelude.Text.{Bytes, str, to_string}
use ycsb.Platform.{Platform}
use ycsb.Utils.{hash, random_print_char}
use ycsb.Db.{KvPair}
use ycsb.Generators.Counter as Counter
use ycsb.Generators.Counter.{CounterGenerator}
use ycsb.Generators.Discrete as Weighted
use ycsb.Generators.Discrete.{DiscreteGenerator}
use ycsb.Generators.Any as Any
use ycsb.Generators.Any.{Generator}

pub data Operation : Type 0 where
  insert read update delete scan read_modify_write : Operation

-- The members of an initialised CoreWorkload, with the generators that the pointers lead to.
pub record CoreWorkload (P : Platform) : Type 0 where
  pub table_name : Bytes
  pub field_count : ℤ
  pub read_all_fields : Bool
  pub write_all_fields : Bool
  pub field_len_generator : Generator P
  pub key_generator : Generator P
  pub op_chooser : DiscreteGenerator P Operation
  pub key_chooser : Generator P
  pub field_chooser : Generator P
  pub scan_len_chooser : Generator P
  pub insert_key_sequence : CounterGenerator
  pub ordered_inserts : Bool
  pub record_count : ℕ
  pub zero_padding : ℤ

-- The digits with `zero_padding` in view, behind the prefix.
unfoldable pub pad_key : ℤ → Bytes → Bytes
pad_key zero_padding digits =
    let prefix = str "user" in
    let total_len = pos (length prefix) +ℤ max_ℤ (pos (length digits)) zero_padding in
    let zeros = max_ℤ (pos 0) (total_len -ℤ pos (length prefix + length digits)) in
    prefix ++ (replicate (to_u64 zeros) b'0' ++ digits)

-- BuildKeyName
unfoldable pub build_key_name : Bool → ℤ → ℕ → Bytes
build_key_name ordered_inserts zero_padding key_num =
    pad_key zero_padding (to_string (if ordered_inserts then key_num else hash key_num))

module _ (P : Platform) where
  open P use {Seed}

  abbrev pub key_name : CoreWorkload P → ℕ → Bytes
  key_name w key_num = build_key_name w.ordered_inserts w.zero_padding key_num

  unfoldable pub next_table : CoreWorkload P → Bytes
  next_table w = w.table_name

  -- Used for loading data, and for inserts in transactions.
  unfoldable pub next_sequence_key :
      Bool → CoreWorkload P → Seed → Outcome (Bytes × CoreWorkload P × Seed)
  next_sequence_key ndebug w s = do
    (key_num, g, s') ← Any.next P ndebug w.insert_key_sequence w.key_generator s
    ok (key_name w key_num, record w { key_generator = g }, s')

  -- The loop of NextTransactionKey: draw until the number is not above the counter's last one.
  unfoldable pub draw_key :
      ℕ → Bool → CounterGenerator → Generator P → Seed → Outcome (ℕ × Generator P × Seed)
  draw_key zero ndebug sequence g s = err no_fuel
  draw_key (suc fuel) ndebug sequence g s = Any.next P ndebug sequence g s >>= λ r.
      elim (leb r.0 (Counter.last sequence)) [
        | true ↦ ok r
        | false ↦ draw_key fuel ndebug sequence r.1 r.2
      ]

  unfoldable pub next_transaction_key :
      ℕ → Bool → CoreWorkload P → Seed → Outcome (Bytes × CoreWorkload P × Seed)
  next_transaction_key fuel ndebug w s = do
    (key_num, g, s') ← draw_key fuel ndebug w.insert_key_sequence w.key_chooser s
    ok (key_name w key_num, record w { key_chooser = g }, s')

  unfoldable pub next_operation :
      Bool → CoreWorkload P → Seed → Outcome (Operation × CoreWorkload P × Seed)
  next_operation ndebug w s = do
    (op, g, s') ← Weighted.next P ndebug w.op_chooser s
    ok (op, record w { op_chooser = g }, s')

  unfoldable pub next_field_name :
      Bool → CoreWorkload P → Seed → Outcome (Bytes × CoreWorkload P × Seed)
  next_field_name ndebug w s = do
    (n, g, s') ← Any.next P ndebug w.insert_key_sequence w.field_chooser s
    ok (str "field" ++ to_string n, record w { field_chooser = g }, s')

  unfoldable pub next_scan_length :
      Bool → CoreWorkload P → Seed → Outcome (ℕ × CoreWorkload P × Seed)
  next_scan_length ndebug w s = do
    (n, g, s') ← Any.next P ndebug w.insert_key_sequence w.scan_len_chooser s
    ok (n, record w { scan_len_chooser = g }, s')

  -- `append(n, c)` on an empty std::string, which throws where `n` is above max_size().
  unfoldable pub append_chars : ℕ → ℕ → Outcome Bytes
  append_chars n c = if leb n P.max_size then ok (replicate n c) else err length_error

  -- `append(field_len_generator_->Next(), RandomPrintChar())`: C++ leaves the order of the two
  -- arguments open, and here the length is drawn first.
  unfoldable pub next_value : Bool → CoreWorkload P → Seed → Outcome (Bytes × CoreWorkload P × Seed)
  next_value ndebug w s = do
    (n, g, s') ← Any.next P ndebug w.insert_key_sequence w.field_len_generator s
    let (c, s'') = random_print_char P s'
    value ← append_chars n c
    ok (value, record w { field_len_generator = g }, s'')

  -- The rounds left of the loop of BuildValues, from field `i` on.
  unfoldable pub build_fields :
      ℕ
      → ℕ
      → Bool
      → List KvPair
      → CoreWorkload P
      → Seed
      → Outcome (List KvPair × CoreWorkload P × Seed)
  build_fields zero i ndebug values w s = ok (values, w, s)
  build_fields (suc n) i ndebug values w s = next_value ndebug w s >>= λ r.
      build_fields n (i + 1) ndebug (values ++ (str "field" ++ to_string i, r.0) ∷ []) r.1 r.2

  unfoldable pub build_values :
      Bool → List KvPair → CoreWorkload P → Seed → Outcome (List KvPair × CoreWorkload P × Seed)
  build_values ndebug values w s = build_fields (pos_part w.field_count) 0 ndebug values w s

  unfoldable pub build_update :
      Bool → List KvPair → CoreWorkload P → Seed → Outcome (List KvPair × CoreWorkload P × Seed)
  build_update ndebug values w s = do
    (name, w', s') ← next_field_name ndebug w s
    (value, w'', s'') ← next_value ndebug w' s'
    ok (values ++ (name, value) ∷ [], w'', s'')

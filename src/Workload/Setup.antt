-- ===== src/Workload/Setup.antt =====
-- Init: from the properties to a workload.
pub mod Laws
pub mod Serving
pub mod Started
pub mod Chooser
use ycsb.Prelude.{ℕ, ◌+◌, ◌-◌, ◌%◌, ◌^◌, Bool, true, false, ◌||◌, not, [], ◌++◌}
use ycsb.Prelude.Tests.{if◌then◌else◌}
use ycsb.Prelude.Int.{ℤ, pos, ◌-ℤ◌, to_u64}
use ycsb.Prelude.Outcome.{Outcome, ok, err, exception, ◌>>=◌}
use ycsb.Prelude.Text.{Bytes, str, bytes_eq}
use ycsb.Prelude.Chars.{stoi}
use ycsb.Platform.{Platform}
use ycsb.Properties.{Properties, get_property}
use ycsb.Utils.{str_to_bool}
use ycsb.Generators.Counter as Counter
use ycsb.Generators.Counter.{CounterGenerator}
use ycsb.Generators.Uniform as Uniform
use ycsb.Generators.Zipfian as Zipfian
use ycsb.Generators.Scrambled as Scrambled
use ycsb.Generators.Latest as Latest
use ycsb.Generators.Discrete as Weighted
use ycsb.Generators.Discrete.{DiscreteGenerator}
use ycsb.Generators.Any.{Generator, counter, constant, uniform, zipfian, scrambled, latest}
use ycsb.Workload.Property as Property
use ycsb.Workload.{Operation, insert, read, update, delete, scan, read_modify_write, CoreWorkload}

-- The numbers and switches that Init reads after it has made the field length generator.
pub record Settings (P : Platform) : Type 0 where
  pub read_proportion : P.Double
  pub update_proportion : P.Double
  pub delete_proportion : P.Double
  pub insert_proportion : P.Double
  pub scan_proportion : P.Double
  pub read_modify_write_proportion : P.Double
  pub record_count : ℤ
  pub request_dist : Bytes
  pub zero_padding : ℤ
  pub max_scan_len : ℤ
  pub scan_len_dist : Bytes
  pub insert_start : ℤ
  pub read_all_fields : Bool
  pub write_all_fields : Bool
  pub ordered_inserts : Bool

module _ (P : Platform) where
  open P use {Double, Seed, lt, mul, of_u64, of_int, truncate_int, stod, zipfian_const}

  unfoldable pub get_field_len_generator : Bool → Properties → Seed → Outcome (Generator P × Seed)
  get_field_len_generator ndebug p s = do
    let dist =
        get_property p Property.field_length_distribution_property
          Property.field_length_distribution_default
    field_len ← stoi (get_property p Property.field_length_property Property.field_length_default)
    if bytes_eq dist (str "constant") || bytes_eq dist (str "fixed")
        then ok (constant (Uniform.new_const field_len), s)
        else if bytes_eq dist (str "uniform")
        then (do g ← Uniform.new P 1 (to_u64 field_len); ok (uniform g, s))
        else if bytes_eq dist (str "zipfian")
        then (do
          (g, s') ← Zipfian.new P ndebug 1 (to_u64 field_len) zipfian_const s
          ok (zipfian g, s'))
        else err (exception (str "Unknown field length distribution: " ++ dist))

  unfoldable pub read_settings : Properties → Outcome (Settings P)
  read_settings p = do
    read_proportion ←
        stod (get_property p Property.read_proportion_property Property.read_proportion_default)
    update_proportion ←
        stod (get_property p Property.update_proportion_property Property.update_proportion_default)
    delete_proportion ←
        stod (get_property p Property.delete_proportion_property Property.delete_proportion_default)
    insert_proportion ←
        stod (get_property p Property.insert_proportion_property Property.insert_proportion_default)
    scan_proportion ←
        stod (get_property p Property.scan_proportion_property Property.scan_proportion_default)
    rmw_proportion ← stod (
        get_property p Property.readmodifywrite_proportion_property
          Property.readmodifywrite_proportion_default)
    record_count ← stoi (get_property p Property.record_count_property [])
    zero_padding ←
        stoi (get_property p Property.zero_padding_property Property.zero_padding_default)
    max_scan_len ←
        stoi (get_property p Property.max_scan_length_property Property.max_scan_length_default)
    insert_start ←
        stoi (get_property p Property.insert_start_property Property.insert_start_default)
    read_all ←
        str_to_bool
          (get_property p Property.read_all_fields_property Property.read_all_fields_default)
    write_all ←
        str_to_bool
          (get_property p Property.write_all_fields_property Property.write_all_fields_default)
    ok (record {
      read_proportion = read_proportion;
      update_proportion = update_proportion;
      delete_proportion = delete_proportion;
      insert_proportion = insert_proportion;
      scan_proportion = scan_proportion;
      read_modify_write_proportion = rmw_proportion;
      record_count = record_count;
      request_dist =
          get_property p Property.request_distribution_property
            Property.request_distribution_default;
      zero_padding = zero_padding;
      max_scan_len = max_scan_len;
      scan_len_dist =
          get_property p Property.scan_length_distribution_property
            Property.scan_length_distribution_default;
      insert_start = insert_start;
      read_all_fields = read_all;
      write_all_fields = write_all;
      ordered_inserts = not (
          bytes_eq (get_property p Property.insert_order_property Property.insert_order_default)
            (str "hashed"));
    })

  -- `if (proportion > 0) op_chooser_.AddValue(op, proportion);`
  unfoldable pub add_positive :
      Operation → Double → DiscreteGenerator P Operation → DiscreteGenerator P Operation
  add_positive op proportion g =
      if lt (of_u64 0) proportion then Weighted.add_value P op proportion g else g

  unfoldable pub operations : Settings P → DiscreteGenerator P Operation
  operations c = add_positive read_modify_write c.read_modify_write_proportion (
      add_positive scan c.scan_proportion (
        add_positive insert c.insert_proportion (
          add_positive delete c.delete_proportion (
            add_positive update c.update_proportion
              (add_positive read c.read_proportion (Weighted.new P Operation))))))

  -- The key chooser, by the distribution of requests.
  unfoldable pub key_chooser_of :
      Bool → Properties → Settings P → CounterGenerator → Seed → Outcome (Generator P × Seed)
  key_chooser_of ndebug p c sequence s =
      let record_count = to_u64 c.record_count in
      if bytes_eq c.request_dist (str "uniform")
      then (do g ← Uniform.new P 0 ((record_count + 2 ^ 64 - 1) % 2 ^ 64); ok (uniform g, s))
      else if bytes_eq c.request_dist (str "zipfian")
      then (do
        op_count ← stoi (get_property p Property.operation_count_property [])
        let new_keys = truncate_int (mul (mul (of_int op_count) c.insert_proportion) (of_u64 2))
        (g, s') ← Scrambled.new_items P ndebug ((record_count + to_u64 new_keys) % 2 ^ 64) s
        ok (scrambled g, s'))
      else if bytes_eq c.request_dist (str "latest")
      then (do (g, s') ← Latest.new P ndebug sequence s; ok (latest g, s'))
      else err (exception (str "Unknown request distribution: " ++ c.request_dist))

  unfoldable pub scan_len_chooser_of : Bool → Settings P → Seed → Outcome (Generator P × Seed)
  scan_len_chooser_of ndebug c s =
      if bytes_eq c.scan_len_dist (str "uniform")
      then (do g ← Uniform.new P 1 (to_u64 c.max_scan_len); ok (uniform g, s))
      else if bytes_eq c.scan_len_dist (str "zipfian")
      then (do
        (g, s') ← Zipfian.new P ndebug 1 (to_u64 c.max_scan_len) zipfian_const s
        ok (zipfian g, s'))
      else err (exception (str "Distribution not allowed for scan length: " ++ c.scan_len_dist))

  -- Init, on a workload that the constructor has just made: its insert key sequence stands at 3.
  unfoldable pub init : Bool → Properties → Seed → Outcome (CoreWorkload P × Seed)
  init ndebug p s = do
    field_count ← stoi (get_property p Property.field_count_property Property.field_count_default)
    (field_len_generator, s₁) ← get_field_len_generator ndebug p s
    c ← read_settings p
    let sequence = Counter.set (Counter.new 3) (to_u64 c.record_count)
    (key_chooser, s₂) ← key_chooser_of ndebug p c sequence s₁
    field_chooser ← Uniform.new P 0 (to_u64 (field_count -ℤ pos 1))
    (scan_len_chooser, s₃) ← scan_len_chooser_of ndebug c s₂
    let w : CoreWorkload P = record {
      table_name = get_property p Property.tablename_property Property.tablename_default;
      field_count = field_count;
      read_all_fields = c.read_all_fields;
      write_all_fields = c.write_all_fields;
      field_len_generator = field_len_generator;
      key_generator = counter (Counter.new (to_u64 c.insert_start));
      op_chooser = operations c;
      key_chooser = key_chooser;
      field_chooser = uniform field_chooser;
      scan_len_chooser = scan_len_chooser;
      insert_key_sequence = sequence;
      ordered_inserts = c.ordered_inserts;
      record_count = to_u64 c.record_count;
      zero_padding = c.zero_padding;
    }
    ok (w, s₃)

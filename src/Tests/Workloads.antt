-- ===== src/Tests/Workloads.antt =====
-- Examples about the workload.
use ycsb.Workload.Setup.Chooser.{init_uniform}
use ycsb.Prelude.{◌-◌}
use ycsb.Prelude.{ℕ, ◌≡◌, refl, true, false, some, [], ◌∷◌, inl, arith}
use ycsb.Prelude.Lists.{All, replicate}
use ycsb.Prelude.Int.{pos, to_u64, ◌-ℤ◌}
use ycsb.Prelude.Outcome.{Outcome, ok, err, Returns}
use ycsb.Prelude.Text.{str, bytes_eq}
use ycsb.Prelude.Chars.{stoi, to_lower}
use ycsb.Tests.{hundredths, hundredths-UniformInRange}
use ycsb.Utils.{random_double, random_print_char, str_to_bool}
use ycsb.Properties.{Properties, get_property, lookup, find}
use ycsb.Db.{KvPair}
use ycsb.Generators.Counter as Counter
use ycsb.Generators.Uniform as Uniform
use ycsb.Generators.Uniform.{UniformGenerator, ConstGenerator}
use ycsb.Generators.Discrete as Weighted
use ycsb.Generators.Discrete.{DiscreteGenerator}
use ycsb.Generators.Discrete.Listed as Listed
use ycsb.Generators.Any as Any
use ycsb.Generators.Any.{counter, constant, uniform}
use ycsb.Workload.{
  Operation, read, update, CoreWorkload, key_name, next_transaction_key, draw_key, next_operation,
  append_chars, next_value, build_fields, build_values,
}
use ycsb.Workload.Keys.{KeyDrawn, next_transaction_key-KeyDrawn, next_transaction_key-uniform}
use ycsb.Workload.Fields.{
  field_name, field_names, names, IsPrintable, LengthDrawn, build_values-All,
}
use ycsb.Workload.Setup.{
  Settings, operations, add_positive, init, get_field_len_generator, read_settings, key_chooser_of,
  scan_len_chooser_of,
}
use ycsb.Workload.Setup.Laws.{proportion, next_operation-Positive}

abbrev pub zero_to : ℕ → UniformGenerator hundredths
zero_to n = record { generator = 0; min = 0; max = n; last_int = 0 }

abbrev pub three_bytes : ConstGenerator
three_bytes = record { constant = 3 }

abbrev pub some_operations : DiscreteGenerator hundredths Operation
some_operations = record { values = (read, 95) ∷ (update, 5) ∷ []; sum = 100; last = some read }

-- A workload over five records of two fields.
abbrev pub small : CoreWorkload hundredths
small = record {
  table_name = str "t";
  field_count = pos 2;
  read_all_fields = false;
  write_all_fields = false;
  field_len_generator = constant three_bytes;
  key_generator = counter (record { counter = 0 });
  op_chooser = some_operations;
  key_chooser = uniform (zero_to 4);
  field_chooser = uniform (zero_to 1);
  scan_len_chooser = uniform (zero_to 1);
  insert_key_sequence = record { counter = 5 };
  ordered_inserts = true;
  record_count = 5;
  zero_padding = pos 1;
}

pub small-IsOver : Uniform.IsOver hundredths 0 (Counter.last small.insert_key_sequence) (zero_to 4)
unfolding Counter.last
small-IsOver = record {
  low = refl;
  high = refl;
  ordered = omega arith;
  above = omega arith;
  below = omega arith;
}

next_transaction_key-uniform_example :
    Returns (next_transaction_key hundredths 1 false small 0) λ r.
      (r.0 ≡ key_name hundredths small (Uniform.next hundredths (zero_to 4)).0)
      × (r.1 ≡ record small { key_chooser = uniform (Uniform.next hundredths (zero_to 4)).1 })
      × Uniform.IsOver hundredths 0
          (Counter.last r.1.insert_key_sequence)
          (Uniform.next hundredths (zero_to 4)).1
next_transaction_key-uniform_example =
    next_transaction_key-uniform hundredths hundredths-UniformInRange 0 false small 0 (zero_to 4)
      refl small-IsOver

abbrev small_drawn : CoreWorkload hundredths
small_drawn = record small {
  key_chooser = uniform (record { generator = 1; min = 0; max = 4; last_int = 0 });
}

next_transaction_key-KeyDrawn_example :
    KeyDrawn hundredths small (key_name hundredths small 0, small_drawn, 0)
next_transaction_key-KeyDrawn_example =
    next_transaction_key-KeyDrawn hundredths 1 false small 0
      (key_name hundredths small 0, small_drawn, 0)
      (unfold next_transaction_key draw_key Any.next Uniform.next Counter.last in refl)

build_values-All_example :
    (names ((field_name 0, replicate 3 33) ∷ (field_name 1, replicate 3 34) ∷ []) ≡ field_names 2 0)
    × All
        (λ (p : KvPair). IsPrintable p.1)
        ((field_name 0, replicate 3 33) ∷ (field_name 1, replicate 3 34) ∷ [])
    × LengthDrawn hundredths small small
build_values-All_example =
    build_values-All hundredths false small 0
      ((field_name 0, replicate 3 33) ∷ (field_name 1, replicate 3 34) ∷ [], small, 2)
      (unfold build_values build_fields next_value append_chars Any.next Uniform.next_const
          random_print_char in
        refl)

abbrev pub small_field_drawn : CoreWorkload hundredths
small_field_drawn = record small {
  field_chooser = uniform (record { generator = 1; min = 0; max = 1; last_int = 0 });
}

abbrev pub mostly_reads : Settings hundredths
mostly_reads = record {
  read_proportion = 95;
  update_proportion = 5;
  delete_proportion = 0;
  insert_proportion = 0;
  scan_proportion = 0;
  read_modify_write_proportion = 0;
  record_count = pos 5;
  request_dist = str "uniform";
  zero_padding = pos 1;
  max_scan_len = pos 10;
  scan_len_dist = str "uniform";
  insert_start = pos 0;
  read_all_fields = true;
  write_all_fields = false;
  ordered_inserts = false;
}

abbrev choosing : CoreWorkload hundredths
choosing = record small { op_chooser = operations hundredths mostly_reads }

abbrev chosen : CoreWorkload hundredths
chosen = record choosing {
  op_chooser = record (operations hundredths mostly_reads) { last = some read };
}

choosing-IsValid : Listed.IsValid hundredths choosing.op_chooser
unfolding operations add_positive Weighted.add_value Weighted.new
choosing-IsValid = record { last_listed = inl refl }

next_operation-Positive_example :
    (hundredths.lt (hundredths.of_u64 0) (proportion hundredths mostly_reads read) ≡ true)
    × (chosen.op_chooser.values ≡ (operations hundredths mostly_reads).values)
    × Listed.IsValid hundredths chosen.op_chooser
next_operation-Positive_example =
    next_operation-Positive hundredths false mostly_reads choosing 0 (read, chosen, 1) refl
      choosing-IsValid
      (unfold next_operation operations add_positive Weighted.add_value Weighted.new Weighted.next
          Weighted.choose Weighted.conclude random_double in
        refl)

-- Properties that Init accepts.
abbrev started_properties : Properties
started_properties = record {
  entries =
      (str "recordcount", str "5")
      ∷ (str "fieldcount", str "2")
      ∷ (str "fieldlength", str "3")
      ∷ [];
}

abbrev pub value_or {ℓ} : {A : Type ℓ} → Outcome A → A → A
value_or (ok a) b = a
value_or (err e) b = b

abbrev started : CoreWorkload hundredths × ℕ
started = value_or (init hundredths false started_properties 0) (small, 0)

init_started : init hundredths false started_properties 0 ≡ ok started
unfolding init stoi get_property lookup find bytes_eq get_field_len_generator read_settings
    str_to_bool to_lower key_chooser_of scan_len_chooser_of Uniform.new Uniform.next to_u64 ◌-ℤ◌
init_started = refl

started_records : started.0.record_count ≡ 5
unfolding init stoi get_property lookup find bytes_eq get_field_len_generator read_settings
    str_to_bool to_lower key_chooser_of scan_len_chooser_of Uniform.new Uniform.next to_u64 ◌-ℤ◌
started_records = refl

init_uniform_example :
    (g : UniformGenerator hundredths) × (started.0.key_chooser ≡ uniform g)
    × Uniform.IsOver hundredths 0 (started.0.record_count - 1) g
    × (Counter.last started.0.insert_key_sequence ≡ started.0.record_count - 1)
init_uniform_example =
    init_uniform hundredths hundredths-UniformInRange false started_properties 0 started
      init_started (unfold get_property lookup find bytes_eq in refl)
      (omega (arith, started_records)) (omega (arith, started_records))

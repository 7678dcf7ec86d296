-- ===== src/Workload/Frame.antt =====
-- What no call on an initialised workload changes.
use ycsb.Prelude.{ℕ, ◌≡◌, ap, sym, Bool, List}
use ycsb.Prelude.Int.{ℤ}
use ycsb.Prelude.Outcome.{Outcome, ok, >>=-eq-ok, ok-injective}
use ycsb.Prelude.Text.{Bytes}
use ycsb.Platform.{Platform}
use ycsb.Db.{KvPair}
use ycsb.Generators.Counter.{CounterGenerator}
use ycsb.Generators.Any as Any
use ycsb.Generators.Discrete as Weighted
use ycsb.Workload.{
  CoreWorkload, next_sequence_key, next_transaction_key, next_operation, next_field_name,
  next_scan_length, build_values, build_update,
}
use ycsb.Workload.Keys.{next_transaction_key-KeyDrawn}
use ycsb.Workload.Fields.{build_values-Built, build_update-Built, next_field_name_lem}

-- The members that are no generators, and the insert key sequence, which is one.
pub record Config : Type 0 where
  pub table_name : Bytes
  pub field_count : ℤ
  pub read_all_fields : Bool
  pub write_all_fields : Bool
  pub insert_key_sequence : CounterGenerator
  pub ordered_inserts : Bool
  pub record_count : ℕ
  pub zero_padding : ℤ

module _ (P : Platform) where
  open P use {Seed}

  abbrev pub config : CoreWorkload P → Config
  config w = record {
    table_name = w.table_name;
    field_count = w.field_count;
    read_all_fields = w.read_all_fields;
    write_all_fields = w.write_all_fields;
    insert_key_sequence = w.insert_key_sequence;
    ordered_inserts = w.ordered_inserts;
    record_count = w.record_count;
    zero_padding = w.zero_padding;
  }

  -- Whenever the call returns, the configuration is what it was.
  abbrev pub KeepsConfig :
      {A : Type 0} → CoreWorkload P → Outcome (A × CoreWorkload P × Seed) → Type 0
  KeepsConfig {A} w o = (r : A × CoreWorkload P × Seed) → o ≡ ok r → config r.1 ≡ config w

  pub next_transaction_key-KeepsConfig :
      (fuel : ℕ) (ndebug : Bool) (w : CoreWorkload P) (s : Seed)
      → KeepsConfig w (next_transaction_key P fuel ndebug w s)
  next_transaction_key-KeepsConfig fuel ndebug w s r h =
      ap config (next_transaction_key-KeyDrawn P fuel ndebug w s r h).3

  pub next_sequence_key-KeepsConfig :
      (ndebug : Bool) (w : CoreWorkload P) (s : Seed)
      → KeepsConfig w (next_sequence_key P ndebug w s)
  unfolding next_sequence_key
  next_sequence_key-KeepsConfig ndebug w s r h =
      let (d, _, rest) =
        >>=-eq-ok (Any.next P ndebug w.insert_key_sequence w.key_generator s) _ h in
      sym (ap (λ t. config t.1) (ok-injective _ r rest))

  pub next_operation-KeepsConfig :
      (ndebug : Bool) (w : CoreWorkload P) (s : Seed) → KeepsConfig w (next_operation P ndebug w s)
  unfolding next_operation
  next_operation-KeepsConfig ndebug w s r h =
      let (d, _, rest) = >>=-eq-ok (Weighted.next P ndebug w.op_chooser s) _ h in
      sym (ap (λ t. config t.1) (ok-injective _ r rest))

  pub next_scan_length-KeepsConfig :
      (ndebug : Bool) (w : CoreWorkload P) (s : Seed)
      → KeepsConfig w (next_scan_length P ndebug w s)
  unfolding next_scan_length
  next_scan_length-KeepsConfig ndebug w s r h =
      let (d, _, rest) =
        >>=-eq-ok (Any.next P ndebug w.insert_key_sequence w.scan_len_chooser s) _ h in
      sym (ap (λ t. config t.1) (ok-injective _ r rest))

  pub next_field_name-KeepsConfig :
      (ndebug : Bool) (w : CoreWorkload P) (s : Seed) → KeepsConfig w (next_field_name P ndebug w s)
  next_field_name-KeepsConfig ndebug w s r h = ap config (next_field_name_lem P ndebug w s r h).2

  pub build_values-KeepsConfig :
      (ndebug : Bool) (values : List KvPair) (w : CoreWorkload P) (s : Seed)
      → KeepsConfig w (build_values P ndebug values w s)
  build_values-KeepsConfig ndebug values w s r h =
      ap config (build_values-Built P ndebug values w s r h).2

  pub build_update-KeepsConfig :
      (ndebug : Bool) (values : List KvPair) (w : CoreWorkload P) (s : Seed)
      → KeepsConfig w (build_update P ndebug values w s)
  build_update-KeepsConfig ndebug values w s r h =
      ap config (build_update-Built P ndebug values w s r h).4

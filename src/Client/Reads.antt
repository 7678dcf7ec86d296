-- ===== src/Client/Reads.antt =====
-- Reads of records that are there.
use ycsb.Prelude.{ℕ, suc, ◌≤◌, ◌≡◌, ap, ◌∙◌, Bool, true, false, none, []}
use ycsb.Prelude.Tests.{if◌then◌else◌}
use ycsb.Prelude.Outcome.{Returns}
use ycsb.Prelude.Text.{Bytes, is_empty}
use ycsb.Platform.{Platform, UniformInRange}
use ycsb.Db.{Db, ok_status, no_data_status}
use ycsb.Lsm.Contract.{Implements}
use ycsb.Generators.Counter as Counter
use ycsb.Generators.Uniform as Uniform
use ycsb.Generators.Any.{uniform}
use ycsb.Workload.{CoreWorkload, key_name, next_table}
use ycsb.Workload.Keys.{next_transaction_key-uniform}
use ycsb.Client.{World, requested_fields, transaction_read}

module _ (P : Platform) (D : Db) (view : D.State → Bytes → Bytes) (I : Implements D view) where
  -- Over a database that keeps the contract and has a value that is not empty under the name of every
  -- key up to the last of the insert key sequence, with a uniform key chooser over these keys and
  -- reads of all fields, a read transaction returns within one round of the loop for the key, reports
  -- success, and changes no value of the database.
  transaction_read_found :
      UniformInRange P
      → (fuel : ℕ) (ndebug : Bool) (x : World P D) (g : Uniform.UniformGenerator P)
      → x.workload.key_chooser ≡ uniform g
      → Uniform.IsOver P 0 (Counter.last x.workload.insert_key_sequence) g
      → x.workload.read_all_fields ≡ true
      → ((k : ℕ)
          → k ≤ Counter.last x.workload.insert_key_sequence
          → is_empty (view x.db (key_name P x.workload k)) ≡ false)
      → Returns
          (transaction_read P D (suc fuel) ndebug x)
          λ r. (r.0 ≡ ok_status) × ((j : Bytes) → view r.1.db j ≡ view x.db j)
  unfolding transaction_read requested_fields
  transaction_read_found L fuel ndebug x g chooser over all present =
      let w = x.workload in
      let table = next_table P w in
      let (a, run, (named, kept, _)) =
        next_transaction_key-uniform P L fuel ndebug w x.seed g chooser over in
      let (_, below, _, _) = Uniform.next_range P L g 0 _ over in
      let reads_all : a.1.read_all_fields ≡ true =
        ap (λ (u : CoreWorkload P). u.read_all_fields) kept ∙ all in
      let there : is_empty (view x.db a.0) ≡ false =
        ap (λ k. is_empty (view x.db k)) named ∙ present (Uniform.next P g).0 below in
      let q = D.read table a.0 none [] x.db in
      (
        (q.0, record { workload = a.1; seed = a.2; db = q.2 }),
        rw (run, reads_all),
        (
          I.read_status table a.0 none [] x.db
              ∙ ap (λ b. if b then no_data_status else ok_status) there,
          λ j. I.read_keeps table a.0 none [] x.db j,
        ),
      )

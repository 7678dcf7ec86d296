-- ===== src/Client/Laws.antt =====
-- What transactions never change, and which fields they ask for.
use ycsb.Prelude.{ℕ, ◌≡◌, ap, ◌∙◌, sym, Bool, none, [], inl, inr}
use ycsb.Prelude.Int.{ℤ}
use ycsb.Prelude.Outcome.{Outcome, ok, >>=-eq-ok, ok-injective, assert-eq-ok, if-eq-ok}
use ycsb.Platform.{Platform}
use ycsb.Db.{Db}
use ycsb.Workload.{
  CoreWorkload, Operation, insert, read, update, delete, scan, read_modify_write, next_sequence_key,
  next_transaction_key, next_operation, next_field_name, next_scan_length, build_values,
  build_update,
}
use ycsb.Workload.Frame.{
  config, KeepsConfig, next_transaction_key-KeepsConfig, next_sequence_key-KeepsConfig,
  next_operation-KeepsConfig, next_scan_length-KeepsConfig, next_field_name-KeepsConfig,
  build_values-KeepsConfig, build_update-KeepsConfig,
}
use ycsb.Client.{
  World, do_insert, one_field, requested_fields, written_values, is_ok, is_nonnegative,
  transaction_read, transaction_read_modify_write, transaction_scan, transaction_update,
  transaction_insert, transaction_delete, dispatch, do_transaction,
}

module _ (P : Platform) where
  open P use {Seed}

  requested_fields-KeepsConfig :
      (ndebug : Bool) (w : CoreWorkload P) (s : Seed)
      → KeepsConfig P w (requested_fields P ndebug w s)
  unfolding requested_fields one_field
  requested_fields-KeepsConfig ndebug w s r h =
      elim (if-eq-ok w.read_all_fields (ok (none, w, s)) (one_field P ndebug w s) r h) [
        | inl e ↦ sym (ap (λ t. config P t.1) (ok-injective (none, w, s) r e))
        | inr e ↦
            let (d, named, rest) = >>=-eq-ok (next_field_name P ndebug w s) _ e in
            sym (ap (λ t. config P t.1) (ok-injective _ r rest))
            ∙ next_field_name-KeepsConfig P ndebug w s d named
      ]

  written_values-KeepsConfig :
      (ndebug : Bool) (w : CoreWorkload P) (s : Seed)
      → KeepsConfig P w (written_values P ndebug w s)
  unfolding written_values
  written_values-KeepsConfig ndebug w s r h =
      elim (if-eq-ok w.write_all_fields (build_values P ndebug [] w s)
        (build_update P ndebug [] w s) r h) [
          | inl e ↦ build_values-KeepsConfig P ndebug [] w s r e
          | inr e ↦ build_update-KeepsConfig P ndebug [] w s r e
        ]

module _ (P : Platform) (D : Db) where
  -- Whenever the call returns, the workload's configuration is what it was.
  abbrev pub Keeps : {A : Type 0} → CoreWorkload P → Outcome (A × World P D) → Type 0
  Keeps {A} w o = (r : A × World P D) → o ≡ ok r → config P r.1.workload ≡ config P w

  transaction_read-Keeps :
      (fuel : ℕ) (ndebug : Bool) (x : World P D)
      → Keeps x.workload (transaction_read P D fuel ndebug x)
  unfolding transaction_read
  transaction_read-Keeps fuel ndebug x r h =
      let (a, p, h₁) = >>=-eq-ok (next_transaction_key P fuel ndebug x.workload x.seed) _ h in
      let (b, q, h₂) = >>=-eq-ok (requested_fields P ndebug a.1 a.2) _ h₁ in
      sym (ap (λ t. config P t.1.workload) (ok-injective _ r h₂))
      ∙ requested_fields-KeepsConfig P ndebug a.1 a.2 b q
      ∙ next_transaction_key-KeepsConfig P fuel ndebug x.workload x.seed a p

  transaction_read_modify_write-Keeps :
      (fuel : ℕ) (ndebug : Bool) (x : World P D)
      → Keeps x.workload (transaction_read_modify_write P D fuel ndebug x)
  unfolding transaction_read_modify_write
  transaction_read_modify_write-Keeps fuel ndebug x r h =
      let (a, p, h₁) = >>=-eq-ok (next_transaction_key P fuel ndebug x.workload x.seed) _ h in
      let (b, q, h₂) = >>=-eq-ok (requested_fields P ndebug a.1 a.2) _ h₁ in
      let (c, o, h₃) = >>=-eq-ok (written_values P ndebug b.1 b.2) _ h₂ in
      sym (ap (λ t. config P t.1.workload) (ok-injective _ r h₃))
      ∙ written_values-KeepsConfig P ndebug b.1 b.2 c o
      ∙ requested_fields-KeepsConfig P ndebug a.1 a.2 b q
      ∙ next_transaction_key-KeepsConfig P fuel ndebug x.workload x.seed a p

  transaction_scan-Keeps :
      (fuel : ℕ) (ndebug : Bool) (x : World P D)
      → Keeps x.workload (transaction_scan P D fuel ndebug x)
  unfolding transaction_scan
  transaction_scan-Keeps fuel ndebug x r h =
      let (a, p, h₁) = >>=-eq-ok (next_transaction_key P fuel ndebug x.workload x.seed) _ h in
      let (b, q, h₂) = >>=-eq-ok (next_scan_length P ndebug a.1 a.2) _ h₁ in
      let (c, o, h₃) = >>=-eq-ok (requested_fields P ndebug b.1 b.2) _ h₂ in
      sym (ap (λ t. config P t.1.workload) (ok-injective _ r h₃))
      ∙ requested_fields-KeepsConfig P ndebug b.1 b.2 c o
      ∙ next_scan_length-KeepsConfig P ndebug a.1 a.2 b q
      ∙ next_transaction_key-KeepsConfig P fuel ndebug x.workload x.seed a p

  transaction_update-Keeps :
      (fuel : ℕ) (ndebug : Bool) (x : World P D)
      → Keeps x.workload (transaction_update P D fuel ndebug x)
  unfolding transaction_update
  transaction_update-Keeps fuel ndebug x r h =
      let (a, p, h₁) = >>=-eq-ok (next_transaction_key P fuel ndebug x.workload x.seed) _ h in
      let (b, q, h₂) = >>=-eq-ok (written_values P ndebug a.1 a.2) _ h₁ in
      sym (ap (λ t. config P t.1.workload) (ok-injective _ r h₂))
      ∙ written_values-KeepsConfig P ndebug a.1 a.2 b q
      ∙ next_transaction_key-KeepsConfig P fuel ndebug x.workload x.seed a p

  transaction_insert-Keeps :
      (ndebug : Bool) (x : World P D) → Keeps x.workload (transaction_insert P D ndebug x)
  unfolding transaction_insert
  transaction_insert-Keeps ndebug x r h =
      let (a, p, h₁) = >>=-eq-ok (next_sequence_key P ndebug x.workload x.seed) _ h in
      let (b, q, h₂) = >>=-eq-ok (build_values P ndebug [] a.1 a.2) _ h₁ in
      sym (ap (λ t. config P t.1.workload) (ok-injective _ r h₂))
      ∙ build_values-KeepsConfig P ndebug [] a.1 a.2 b q
      ∙ next_sequence_key-KeepsConfig P ndebug x.workload x.seed a p

  transaction_delete-Keeps :
      (fuel : ℕ) (ndebug : Bool) (x : World P D)
      → Keeps x.workload (transaction_delete P D fuel ndebug x)
  unfolding transaction_delete
  transaction_delete-Keeps fuel ndebug x r h =
      let (a, p, h₁) = >>=-eq-ok (next_transaction_key P fuel ndebug x.workload x.seed) _ h in
      sym (ap (λ t. config P t.1.workload) (ok-injective _ r h₁))
      ∙ next_transaction_key-KeepsConfig P fuel ndebug x.workload x.seed a p

  pub dispatch-Keeps :
      (op : Operation) (fuel : ℕ) (ndebug : Bool) (x : World P D)
      → Keeps x.workload (dispatch P D op fuel ndebug x)
  unfolding dispatch
  dispatch-Keeps read fuel ndebug x = transaction_read-Keeps fuel ndebug x
  dispatch-Keeps update fuel ndebug x = transaction_update-Keeps fuel ndebug x
  dispatch-Keeps delete fuel ndebug x = transaction_delete-Keeps fuel ndebug x
  dispatch-Keeps insert fuel ndebug x = transaction_insert-Keeps ndebug x
  dispatch-Keeps scan fuel ndebug x = transaction_scan-Keeps fuel ndebug x
  dispatch-Keeps read_modify_write fuel ndebug x = transaction_read_modify_write-Keeps fuel ndebug x

  -- DoTransaction is an operation drawn from the workload, the transaction for it, and a status.
  pub do_transaction_parts :
      (fuel : ℕ) (ndebug : Bool) (x : World P D) (r : Bool × World P D)
      → do_transaction P D fuel ndebug x ≡ ok r
      → (a : Operation × CoreWorkload P × P.Seed) × (b : ℤ × World P D) × (next_operation P ndebug
            x.workload x.seed
          ≡ ok a)
        × (dispatch P D a.0 fuel ndebug (record x { workload = a.1; seed = a.2 }) ≡ ok b)
        × (r.1 ≡ b.1)
  unfolding do_transaction
  do_transaction_parts fuel ndebug x r h =
      let (a, p, h₁) = >>=-eq-ok (next_operation P ndebug x.workload x.seed) _ h in
      let (b, q, h₂) =
        >>=-eq-ok (dispatch P D a.0 fuel ndebug (record x { workload = a.1; seed = a.2 })) _ h₁ in
      (
        a,
        b,
        p,
        q,
        sym (ap (λ t. t.1) (assert-eq-ok ndebug (is_nonnegative b.0) (is_ok b.0, b.1) r h₂)),
      )

  -- Whenever DoTransaction returns, whatever the operation, the workload's configuration is what it
  -- was: the table, the field count, the switches, the record count, the padding, the order of
  -- inserts, and the insert key sequence, which an insert does not advance either.
  pub do_transaction-Keeps :
      (fuel : ℕ) (ndebug : Bool) (x : World P D) (r : Bool × World P D)
      → do_transaction P D fuel ndebug x ≡ ok r
      → config P r.1.workload ≡ config P x.workload
  do_transaction-Keeps fuel ndebug x r h =
      let (a, b, p, q, e) = do_transaction_parts fuel ndebug x r h in
      ap (λ (u : World P D). config P u.workload) e
      ∙ dispatch-Keeps a.0 fuel ndebug (record x { workload = a.1; seed = a.2 }) b q
      ∙ next_operation-KeepsConfig P ndebug x.workload x.seed a p

  pub do_insert-Keeps : (ndebug : Bool) (x : World P D) → Keeps x.workload (do_insert P D ndebug x)
  unfolding do_insert
  do_insert-Keeps ndebug x r h =
      let (a, p, h₁) = >>=-eq-ok (next_sequence_key P ndebug x.workload x.seed) _ h in
      let (b, q, h₂) = >>=-eq-ok (build_values P ndebug [] a.1 a.2) _ h₁ in
      sym (ap (λ t. config P t.1.workload) (ok-injective _ r h₂))
      ∙ build_values-KeepsConfig P ndebug [] a.1 a.2 b q
      ∙ next_sequence_key-KeepsConfig P ndebug x.workload x.seed a p

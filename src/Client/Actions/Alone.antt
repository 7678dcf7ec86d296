-- ===== src/Client/Actions/Alone.antt =====
-- With no other thread between its actions, a program does what the call does.
use ycsb.Prelude.{
  Option, ℕ, zero, suc, ◌+◌, ◌≡◌, refl, sym, ap, ◌∙◌, Bool, List, [], ◌∷◌, ◌++◌, arith,
}
use ycsb.Prelude.Int.{pos_part}
use ycsb.Prelude.Outcome.{assert, Outcome, ok, err, ◌>>=◌, >>=_assoc}
use ycsb.Prelude.Text.{Bytes, str, to_string}
use ycsb.Platform.{Platform}
use ycsb.Db.{Db, KvPair}
use ycsb.Generators.Any as Any
use ycsb.Generators.Discrete as Weighted
use ycsb.Generators.Any.{Generator}
use ycsb.Actions.{Prog, ret, once, look, run, run->>=}
use ycsb.Actions as Actions
use ycsb.Workload.{
  Operation, insert, read, update, delete, scan, read_modify_write, CoreWorkload, next_table,
  next_sequence_key, draw_key, next_transaction_key, next_operation, next_field_name,
  next_scan_length, next_value, build_fields, build_values, build_update,
}
use ycsb.Client.{
  is_ok, is_nonnegative, World, requested_fields, one_field, written_values, do_insert,
  transaction_read, transaction_read_modify_write, transaction_scan, transaction_update,
  transaction_insert, transaction_delete, dispatch, do_transaction,
}
use ycsb.Client.Calls.{
  WorkloadCall, draw_chance, choose_operation, draw_number, draw_length, draw_char, append_value,
  at_workload, on_workload,
}
use ycsb.Client.Actions.{
  sequence_key_program, scan_length_program, operation_program, transaction_key_program,
  value_program, fields_program, values_program, update_program, one_field_program,
  requested_program, written_program, read_call, scan_call, insert_program, dispatch_program,
  transaction_program,
}

module _ (P : Platform) (D : Db) (ndebug : Bool) where
  open P use {Seed}

  -- A program that alone does what a call on the workload does.
  abbrev IsCall : {A : Type 0} → Prog (World P D) A → WorkloadCall P A → Type 0
  IsCall p f = (x : World P D) → run p x ≡ on_workload f x

  right_unit : {A : Type 0} (o : Outcome A) → o >>= (λ r. ok r) ≡ o
  right_unit (ok a) = refl
  right_unit (err e) = refl

  once-IsCall : {A : Type 0} (f : WorkloadCall P A) → IsCall (once (on_workload f)) f
  once-IsCall f x = right_unit (on_workload f x)

  -- Such a program in front of others.
  call_first :
      {A B : Type 0} (p : Prog (World P D) A) (f : WorkloadCall P A) (x : World P D)
      (k : A → Prog (World P D) B) (h : A × CoreWorkload P × Seed → Outcome (B × World P D))
      → IsCall p f
      → ((r : A × CoreWorkload P × Seed) → run (k r.0) (at_workload x r) ≡ h r)
      → run (Actions.◌>>=◌ p k) x ≡ f x.workload x.seed >>= h
  call_first p f x k h e rest =
      run->>= p k x
      ∙ ap (λ o. o >>= λ r. run (k r.0) r.1) (e x)
      ∙ sym (>>=_assoc (f x.workload x.seed) _ _)
      ∙ (λ i. f x.workload x.seed >>= λ r. rest r i)

  value-IsCall : IsCall (value_program P D ndebug) (next_value P ndebug)
  unfolding value_program next_value draw_length draw_char append_value
  value-IsCall x = ground arith

  fields-IsCall :
      (n i : ℕ) (values : List KvPair)
      → IsCall (fields_program P D ndebug n i values) (build_fields P n i ndebug values)
  unfolding fields_program build_fields
  fields-IsCall zero i values x = refl
  fields-IsCall (suc n) i values x =
      call_first (value_program P D ndebug) (next_value P ndebug) x
        (λ v. fields_program P D ndebug n (i + 1) (values ++ (str "field" ++ to_string i, v) ∷ []))
        _ value-IsCall (λ r. fields-IsCall n (i + 1) _ (at_workload x r))
      ∙ >>=_assoc (next_value P ndebug x.workload x.seed) _ _

  values-IsCall : IsCall (values_program P D ndebug) (build_values P ndebug [])
  unfolding values_program build_values
  values-IsCall x = fields-IsCall (pos_part x.workload.field_count) 0 [] x

  update-IsCall : IsCall (update_program P D ndebug) (build_update P ndebug [])
  unfolding update_program build_update
  update-IsCall x =
      call_first (once (on_workload (next_field_name P ndebug))) (next_field_name P ndebug) x
        (λ name. Actions.◌>>=◌ (value_program P D ndebug) (λ value. ret ((name, value) ∷ []))) _
        (once-IsCall (next_field_name P ndebug))
        (λ r.
          call_first (value_program P D ndebug) (next_value P ndebug) (at_workload x r)
            (λ value. ret ((r.0, value) ∷ [])) _ value-IsCall (λ q. refl))
      ∙ ground arith

  one_field-IsCall : IsCall (one_field_program P D ndebug) (one_field P ndebug)
  unfolding one_field_program one_field
  one_field-IsCall x = ground arith

  requested-IsCall : IsCall (requested_program P D ndebug) (requested_fields P ndebug)
  unfolding requested_program requested_fields
  requested-IsCall x = ground (arith, one_field-IsCall x)

  written-IsCall : IsCall (written_program P D ndebug) (written_values P ndebug)
  unfolding written_program written_values
  written-IsCall x = ground (arith, values-IsCall x, update-IsCall x)

  -- One round of the loop, by what the draw gives.
  key_round :
      (fuel : ℕ) (x : World P D) (o : Outcome (ℕ × Generator P × Seed))
      → Any.next P ndebug x.workload.insert_key_sequence x.workload.key_chooser x.seed ≡ o
      → IsCall (transaction_key_program P D ndebug fuel) (next_transaction_key P fuel ndebug)
      → run (transaction_key_program P D ndebug (suc fuel)) x
        ≡ on_workload (next_transaction_key P (suc fuel) ndebug) x
  unfolding transaction_key_program next_transaction_key draw_key draw_number
  key_round fuel x (err e) h rest = rw h
  key_round fuel x (ok d) h rest =
      ground (
        arith,
        h,
        rest (record x { workload = record x.workload { key_chooser = d.1 }; seed = d.2 }),
      )

  transaction_key-IsCall :
      (fuel : ℕ)
      → IsCall (transaction_key_program P D ndebug fuel) (next_transaction_key P fuel ndebug)
  unfolding transaction_key_program next_transaction_key draw_key
  transaction_key-IsCall zero x = refl
  transaction_key-IsCall (suc fuel) x =
      key_round fuel x
        (Any.next P ndebug x.workload.insert_key_sequence x.workload.key_chooser x.seed) refl
        (transaction_key-IsCall fuel)

  requested_then :
      {A : Type 0} (x : World P D) (k : Option (List Bytes) → Prog (World P D) A)
      → run (Actions.◌>>=◌ (requested_program P D ndebug) k) x
        ≡ requested_fields P ndebug x.workload x.seed >>= (λ r. run (k r.0) (at_workload x r))
  requested_then x k =
      call_first (requested_program P D ndebug) (requested_fields P ndebug) x k _ requested-IsCall
        (λ r. refl)

  written_then :
      {A : Type 0} (x : World P D) (k : List KvPair → Prog (World P D) A)
      → run (Actions.◌>>=◌ (written_program P D ndebug) k) x
        ≡ written_values P ndebug x.workload x.seed >>= (λ r. run (k r.0) (at_workload x r))
  written_then x k =
      call_first (written_program P D ndebug) (written_values P ndebug) x k _ written-IsCall
        (λ r. refl)

  values_then :
      {A : Type 0} (x : World P D) (k : List KvPair → Prog (World P D) A)
      → run (Actions.◌>>=◌ (values_program P D ndebug) k) x
        ≡ build_values P ndebug [] x.workload x.seed >>= (λ r. run (k r.0) (at_workload x r))
  values_then x k =
      call_first (values_program P D ndebug) (build_values P ndebug []) x k _ values-IsCall
        (λ r. refl)

  sequence_key-IsCall : IsCall (sequence_key_program P D ndebug) (next_sequence_key P ndebug)
  unfolding sequence_key_program
  sequence_key-IsCall x = once-IsCall (next_sequence_key P ndebug) x

  scan_length-IsCall : IsCall (scan_length_program P D ndebug) (next_scan_length P ndebug)
  unfolding scan_length_program
  scan_length-IsCall x = once-IsCall (next_scan_length P ndebug) x

  operation-IsCall : IsCall (operation_program P D ndebug) (next_operation P ndebug)
  unfolding operation_program next_operation draw_chance choose_operation Weighted.next
  operation-IsCall x = ground arith

  pub run-insert_program :
      (x : World P D) → run (insert_program P D ndebug) x ≡ do_insert P D ndebug x
  unfolding insert_program do_insert
  run-insert_program x =
      call_first (sequence_key_program P D ndebug) _ x _ _ sequence_key-IsCall
        (λ r. values_then (at_workload x r) _)

  module _ (fuel : ℕ) where
    -- A transaction that begins with its key.
    keyed :
        {A : Type 0} (x : World P D) (k : Bytes → Prog (World P D) A)
        (h : Bytes × CoreWorkload P × Seed → Outcome (A × World P D))
        → ((r : Bytes × CoreWorkload P × Seed) → run (k r.0) (at_workload x r) ≡ h r)
        → run (Actions.◌>>=◌ (transaction_key_program P D ndebug fuel) k) x
          ≡ next_transaction_key P fuel ndebug x.workload x.seed >>= h
    keyed x k h rest =
        call_first (transaction_key_program P D ndebug fuel) (next_transaction_key P fuel ndebug) x
          k h (transaction_key-IsCall fuel) rest

    pub run-dispatch_program :
        (op : Operation) (x : World P D)
        → run (dispatch_program P D ndebug op fuel) x ≡ dispatch P D op fuel ndebug x
    unfolding dispatch_program dispatch transaction_read transaction_update transaction_delete
        transaction_insert transaction_scan transaction_read_modify_write read_call scan_call
    run-dispatch_program read x = keyed x _ _ (λ r. requested_then (at_workload x r) _)
    run-dispatch_program update x = keyed x _ _ (λ r. written_then (at_workload x r) _)
    run-dispatch_program delete x = keyed x _ _ (λ r. refl)
    run-dispatch_program insert x =
        call_first (sequence_key_program P D ndebug) _ x _ _ sequence_key-IsCall
          (λ r. values_then (at_workload x r) _)
    run-dispatch_program scan x = keyed x _ _ (λ r.
        call_first (scan_length_program P D ndebug) _ (at_workload x r) _ _ scan_length-IsCall
          (λ q. requested_then (at_workload (at_workload x r) q) _))
    run-dispatch_program read_modify_write x = keyed x _ _ (λ r.
        call_first (requested_program P D ndebug) _ (at_workload x r) _ _ requested-IsCall (λ q.
          written_then
            (record {
              workload = q.1;
              seed = q.2;
              db = (read_call P D ndebug (next_table P x.workload) r.0 q.0 x.db).1;
            })
            _))

    pub run-transaction_program :
        (x : World P D)
        → run (transaction_program P D ndebug fuel) x ≡ do_transaction P D fuel ndebug x
    unfolding transaction_program do_transaction
    run-transaction_program x =
        call_first (operation_program P D ndebug) _ x _ _ operation-IsCall (λ r.
          run->>= (dispatch_program P D ndebug r.0 fuel) _ (at_workload x r) ∙ (λ i.
            run-dispatch_program r.0 (at_workload x r) i >>= λ q.
            sym
              (>>=_assoc {B = Unit {0} × World P D} {C = Bool × World P D}
                (assert ndebug (is_nonnegative q.0)) (λ u. ok (u, q.1)) (λ u. ok (is_ok q.0, u.1)))
              i))

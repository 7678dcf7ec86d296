-- ===== src/Client/Service.antt =====
-- What a transaction does to a database that keeps its contract, on a ready workload whose records
-- are in place.
use ycsb.Prelude.{ℕ, suc, ◌≤◌, ◌≡◌, refl, sym, ap, ◌∙◌, subst, Bool, true, false, List, []}
use ycsb.Prelude.Tests.{if◌then◌else◌}
use ycsb.Prelude.Int.{ℤ}
use ycsb.Prelude.Outcome.{ok, Returns, ◌>>◌, assert_ndebug}
use ycsb.Prelude.Text.{Bytes, bytes_eq, is_empty}
use ycsb.Platform.{Platform, UniformInRange}
use ycsb.Db.{Db, KvPair, ok_status, no_data_status}
use ycsb.Lsm.Contract.{Implements, stored}
use ycsb.Generators.Counter as Counter
use ycsb.Workload.{
  CoreWorkload, Operation, insert, read, update, delete, scan, read_modify_write, key_name,
  next_table, build_key_name,
}
use ycsb.Workload.Frame.{config, next_operation-KeepsConfig}
use ycsb.Client.{
  World, is_ok, is_nonnegative, transaction_read, transaction_read_modify_write, transaction_update,
  transaction_insert, dispatch, do_transaction,
}
use ycsb.Client.Laws.{do_transaction-Keeps}
use ycsb.Client.Written.{kept_by_write}
use ycsb.Client.Ready.{IsServed, Ready}
use ycsb.Client.Ready.Operations.{next_operation-Ready}
use ycsb.Client.Ready.Draws.{
  next_transaction_key-Ready, next_sequence_key-Ready, requested_fields-Ready, build_values-Ready,
  written_values-Ready,
}

module _ (P : Platform) (D : Db) (view : D.State → Bytes → Bytes) where
  abbrev pub HasValue : D.State → Bytes → Type 0
  HasValue d j = is_empty (view d j) ≡ false

  -- Every record that a transaction may ask for is there.
  pub record InPlace (x : World P D) : Type 0 where
    pub present :
        (k : ℕ)
        → k ≤ Counter.last x.workload.insert_key_sequence
        → HasValue x.db (key_name P x.workload k)

  pub record Served (x : World P D) (r : ℤ × World P D) : Type 0 where
    pub success : r.0 ≡ ok_status
    pub ready : Ready P IsServed r.1.workload
    pub kept : (j : Bytes) → HasValue x.db j → HasValue r.1.db j

  module _ (I : Implements D view) where
    pub update-HasValue :
        (t k j : Bytes) (vs : List KvPair) (d : D.State)
        → is_empty (stored vs) ≡ false
        → HasValue d j
        → HasValue (D.update t k vs d).1 j
    update-HasValue t k j vs d filled h =
        ap is_empty (I.view-update t k j vs d) ∙ kept_by_write (bytes_eq j k) _ _ filled h

    insert-Served :
        (t k : Bytes) (vs : List KvPair) (x : World P D) (w : CoreWorkload P) (s : P.Seed)
        → is_empty (stored vs) ≡ false
        → Ready P IsServed w
        → Served x (
          (D.insert t k vs x.db).0,
          record { workload = w; seed = s; db = (D.insert t k vs x.db).1 },
        )
    insert-Served t k vs x w s filled h = record {
      success = ap (λ q. q.0) (I.insert-eq-update t k vs x.db) ∙ I.update_status t k vs x.db;
      ready = h;
      kept = λ j v.
          subst (λ (q : ℤ × D.State). HasValue q.1 j) (sym (I.insert-eq-update t k vs x.db))
            (update-HasValue t k j vs x.db filled v);
    }

    transaction_insert-Served :
        (x : World P D)
        → Ready P IsServed x.workload
        → Returns (transaction_insert P D true x) (Served x)
    unfolding transaction_insert
    transaction_insert-Served x h =
        let (a, keyed, ready) = next_sequence_key-Ready P IsServed x.workload x.seed h in
        let (b, built, (filled, ready')) = build_values-Ready P IsServed a.1 a.2 ready in
        (
          _,
          rw (keyed, built) refl,
          insert-Served (next_table P x.workload) a.0 b.0 x b.1 b.2 filled ready',
        )

    module _ (L : UniformInRange P) (fuel : ℕ) where
      transaction_read-Served :
          (x : World P D)
          → Ready P IsServed x.workload
          → InPlace x
          → Returns (transaction_read P D (suc fuel) true x) (Served x)
      unfolding transaction_read
      transaction_read-Served x h p =
          let (a, keyed, ((k, below, named), ready)) =
            next_transaction_key-Ready P IsServed L fuel x.workload x.seed h in
          let (b, asked, ready') = requested_fields-Ready P IsServed a.1 a.2 ready in
          let t = next_table P x.workload in
          let there : HasValue x.db a.0 =
            ap (λ j. is_empty (view x.db j)) named ∙ p.present k below in
          (
            (
              (D.read t a.0 b.0 [] x.db).0,
              record { workload = b.1; seed = b.2; db = (D.read t a.0 b.0 [] x.db).2 },
            ),
            rw (keyed, asked) refl,
            record {
              success =
                  I.read_status t a.0 b.0 [] x.db
                  ∙ ap (λ e. if e then no_data_status else ok_status) there;
              ready = ready';
              kept = λ j v. ap is_empty (I.read_keeps t a.0 b.0 [] x.db j) ∙ v;
            },
          )

      transaction_update-Served :
          (x : World P D)
          → Ready P IsServed x.workload
          → Returns (transaction_update P D (suc fuel) true x) (Served x)
      unfolding transaction_update
      transaction_update-Served x h =
          let (a, keyed, (_, ready)) =
            next_transaction_key-Ready P IsServed L fuel x.workload x.seed h in
          let (b, written, (filled, ready')) = written_values-Ready P IsServed a.1 a.2 ready in
          let t = next_table P x.workload in
          (
            (
              (D.update t a.0 b.0 x.db).0,
              record { workload = b.1; seed = b.2; db = (D.update t a.0 b.0 x.db).1 },
            ),
            rw (keyed, written) refl,
            record {
              success = I.update_status t a.0 b.0 x.db;
              ready = ready';
              kept = λ j v. update-HasValue t a.0 j b.0 x.db filled v;
            },
          )

      transaction_read_modify_write-Served :
          (x : World P D)
          → Ready P IsServed x.workload
          → Returns (transaction_read_modify_write P D (suc fuel) true x) (Served x)
      unfolding transaction_read_modify_write
      transaction_read_modify_write-Served x h =
          let (a, keyed, (_, ready)) =
            next_transaction_key-Ready P IsServed L fuel x.workload x.seed h in
          let (b, asked, ready') = requested_fields-Ready P IsServed a.1 a.2 ready in
          let (c, written, (filled, ready'')) = written_values-Ready P IsServed b.1 b.2 ready' in
          let t = next_table P x.workload in
          let d : D.State = (D.read t a.0 b.0 [] x.db).2 in
          (
            (
              (D.update t a.0 c.0 d).0,
              record { workload = c.1; seed = c.2; db = (D.update t a.0 c.0 d).1 },
            ),
            rw (keyed, asked, written) refl,
            record {
              success = I.update_status t a.0 c.0 d;
              ready = ready'';
              kept = λ j v.
                  update-HasValue t a.0 j c.0 d filled
                    (ap is_empty (I.read_keeps t a.0 b.0 [] x.db j) ∙ v);
            },
          )

      dispatch-Served :
          (op : Operation) (x : World P D)
          → IsServed op
          → Ready P IsServed x.workload
          → InPlace x
          → Returns (dispatch P D op (suc fuel) true x) (Served x)
      unfolding dispatch
      dispatch-Served read x o h p = transaction_read-Served x h p
      dispatch-Served update x o h p = transaction_update-Served x h
      dispatch-Served insert x o h p = transaction_insert-Served x h
      dispatch-Served read_modify_write x o h p = transaction_read_modify_write-Served x h
      dispatch-Served delete x o h p = absurd o
      dispatch-Served scan x o h p = absurd o

      -- What a transaction leaves: success, a workload that is ready again, and all records in place.
      pub record Stays (x : World P D) (r : Bool × World P D) : Type 0 where
        pub success : r.0 ≡ true
        pub ready : Ready P IsServed r.1.workload
        pub in_place : InPlace r.1
        pub kept : (j : Bytes) → HasValue x.db j → HasValue r.1.db j

      pub InPlace-kept :
          (x y : World P D)
          → config P y.workload ≡ config P x.workload
          → ((j : Bytes) → HasValue x.db j → HasValue y.db j)
          → InPlace x
          → InPlace y
      InPlace-kept x y e kept p = record {
        present = λ k h.
            let named : key_name P y.workload k ≡ key_name P x.workload k =
              ap (λ c. build_key_name c.ordered_inserts c.zero_padding k) e in
            let last = ap (λ c. Counter.last c.insert_key_sequence) e in
            subst (HasValue y.db) (sym named) (kept _ (p.present k (subst (λ m. k ≤ m) last h)));
      }

      pub do_transaction-Stays :
          (x : World P D)
          → Ready P IsServed x.workload
          → InPlace x
          → Returns (do_transaction P D (suc fuel) true x) (Stays x)
      unfolding do_transaction
      do_transaction-Stays x h p =
          let (a, drawn, (served, ready)) = next_operation-Ready P IsServed x.workload x.seed h in
          let y : World P D = record x { workload = a.1; seed = a.2 } in
          let q : InPlace y =
            InPlace-kept x y (next_operation-KeepsConfig P true x.workload x.seed a drawn)
              (λ j v. v) p in
          let (b, run, v) = dispatch-Served a.0 y served ready q in
          let whole : do_transaction P D (suc fuel) true x ≡ ok (is_ok b.0, b.1) =
            unfold do_transaction in
            rw (drawn, run)
              (ap (λ o. o >> ok (is_ok b.0, b.1)) (assert_ndebug (is_nonnegative b.0))) in
          (
            (is_ok b.0, b.1),
            whole,
            record {
              success = ap is_ok v.success ∙ unfold is_ok in refl;
              ready = v.ready;
              in_place =
                  InPlace-kept x b.1
                    (do_transaction-Keeps P D (suc fuel) true x (is_ok b.0, b.1) whole) v.kept p;
              kept = v.kept;
            },
          )

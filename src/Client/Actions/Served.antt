-- ===== src/Client/Actions/Served.antt =====
-- Transactions with other threads between their actions: each succeeds.
use ycsb.Prelude.{ℕ, suc, ◌≤◌, ◌≡◌, refl, sym, ap, ◌∙◌, subst, true, Option, List, []}
use ycsb.Prelude.Tests.{if◌then◌else◌}
use ycsb.Prelude.Int.{ℤ}
use ycsb.Prelude.Outcome.{assert_ndebug}
use ycsb.Prelude.Text.{Bytes, is_empty}
use ycsb.Platform.{Platform, UniformInRange}
use ycsb.Db.{Db, KvPair, ok_status, no_data_status}
use ycsb.Lsm.Contract.{Implements}
use ycsb.Generators.Counter as Counter
use ycsb.Actions.{Prog, once}
use ycsb.Actions.Safe.{once-IsSafe, ret-IsSafe, then-IsSafe}
use ycsb.Workload.{Operation, insert, read, update, delete, scan, read_modify_write, build_key_name}
use ycsb.Workload.Frame.{Config}
use ycsb.Client.{World, is_ok, is_nonnegative}
use ycsb.Client.Calls.{on_db}
use ycsb.Client.Ready.{IsServed}
use ycsb.Client.Service.{HasValue, update-HasValue}
use ycsb.Client.Actions.{read_call, table_program, dispatch_program, transaction_program}
use ycsb.Client.Actions.Kept.{on_db-Keeps, look-IsSafe}
use ycsb.Client.Actions.Parts.{
  Filled, IsSteady, operation-IsSteady, values-IsSteady, requested-IsSteady, written-IsSteady,
  sequence_key-IsSteady, transaction_key-IsSteady,
}

module _ (P : Platform) (D : Db) (view : D.State → Bytes → Bytes) (I : Implements D view)
    (c : Config) (d₀ : D.State) where
  abbrev Succeeds : Prog (World P D) ℤ → Type 0
  Succeeds p = IsSteady P D view IsServed c d₀ (λ status. status ≡ ok_status) p

  table-IsSteady : IsSteady P D view IsServed c d₀ (λ _. Unit) (table_program P D true)
  table-IsSteady = look-IsSafe P D view IsServed c d₀ (λ _. Unit) _ (λ x h. tt)

  read_call-IsSteady :
      (t k : Bytes) (fs : Option (List Bytes))
      → HasValue P D view d₀ k
      → Succeeds (once (on_db (read_call P D true t k fs)))
  unfolding read_call
  read_call-IsSteady t k fs there = once-IsSafe _ (
      on_db-Keeps P D view IsServed c d₀ _ _ λ x h. (
        I.read_status t k fs [] x.db
            ∙ ap (λ e. if e then no_data_status else ok_status) (h.kept k there),
        λ j v. ap is_empty (I.read_keeps t k fs [] x.db j) ∙ v,
      ))

  update-IsSteady :
      (t k : Bytes) (vs : List KvPair) → Filled vs → Succeeds (once (on_db (D.update t k vs)))
  update-IsSteady t k vs filled = once-IsSafe _ (
      on_db-Keeps P D view IsServed c d₀ _ _ λ x h.
        (I.update_status t k vs x.db, λ j v. update-HasValue P D view I t k j vs x.db filled v))

  insert-IsSteady :
      (t k : Bytes) (vs : List KvPair) → Filled vs → Succeeds (once (on_db (D.insert t k vs)))
  insert-IsSteady t k vs filled = once-IsSafe _ (
      on_db-Keeps P D view IsServed c d₀ _ _ λ x h.
        let same = I.insert-eq-update t k vs x.db in
        (
          ap (λ q. q.0) same ∙ I.update_status t k vs x.db,
          λ j v.
              subst (λ (q : ℤ × D.State). HasValue P D view q.1 j) (sym same)
                (update-HasValue P D view I t k j vs x.db filled v),
        ))

  module _ (L : UniformInRange P) (fuel : ℕ)
      (there : (k : ℕ)
        → k ≤ Counter.last c.insert_key_sequence
        → HasValue P D view d₀ (build_key_name c.ordered_inserts c.zero_padding k)) where
    dispatch-IsSteady :
        (op : Operation) → IsServed op → Succeeds (dispatch_program P D true op (suc fuel))
    unfolding dispatch_program
    dispatch-IsSteady read o = then-IsSafe _ table-IsSteady λ t _.
        then-IsSafe _ (transaction_key-IsSteady P D view IsServed c d₀ L fuel there) λ k valued.
          then-IsSafe _ (requested-IsSteady P D view IsServed c d₀)
            λ fs _. read_call-IsSteady t k fs valued
    dispatch-IsSteady update o = then-IsSafe _ table-IsSteady λ t _.
        then-IsSafe _ (transaction_key-IsSteady P D view IsServed c d₀ L fuel there) λ k valued.
          then-IsSafe _ (written-IsSteady P D view IsServed c d₀)
            λ vs filled. update-IsSteady t k vs filled
    dispatch-IsSteady insert o = then-IsSafe _ table-IsSteady λ t _.
        then-IsSafe _ (sequence_key-IsSteady P D view IsServed c d₀) λ k _.
          then-IsSafe _ (values-IsSteady P D view IsServed c d₀)
            λ vs filled. insert-IsSteady t k vs filled
    dispatch-IsSteady read_modify_write o = then-IsSafe _ table-IsSteady λ t _.
        then-IsSafe _ (transaction_key-IsSteady P D view IsServed c d₀ L fuel there) λ k valued.
          then-IsSafe _ (requested-IsSteady P D view IsServed c d₀) λ fs _.
            then-IsSafe _ (read_call-IsSteady t k fs valued) λ _ _.
              then-IsSafe _ (written-IsSteady P D view IsServed c d₀)
                λ vs filled. update-IsSteady t k vs filled
    dispatch-IsSteady delete o = absurd o
    dispatch-IsSteady scan o = absurd o

    pub transaction-IsSteady :
        IsSteady P D view IsServed c d₀ (λ b. b ≡ true) (transaction_program P D true (suc fuel))
    unfolding transaction_program
    transaction-IsSteady = then-IsSafe _ (operation-IsSteady P D view IsServed c d₀) λ op served.
        then-IsSafe _ (dispatch-IsSteady op served) λ status success.
          then-IsSafe _
            (once-IsSafe _ {Q = λ _. Unit}
              λ x h. ((tt, x), rw (assert_ndebug (is_nonnegative status)), (h, tt)))
            λ _ _. ret-IsSafe _ (ap is_ok success ∙ unfold is_ok in refl)

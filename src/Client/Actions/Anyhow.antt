-- ===== src/Client/Actions/Anyhow.antt =====
-- Transactions of any kind over any database, with other threads between their actions: each returns.
use ycsb.Prelude.{ℕ, suc, refl, [], ◌∷◌, true}
use ycsb.Prelude.Outcome.{assert_ndebug}
use ycsb.Prelude.Text.{Bytes, is_empty}
use ycsb.Platform.{Platform, UniformInRange}
use ycsb.Db.{Db}
use ycsb.Actions.{Prog, once}
use ycsb.Actions as Actions
use ycsb.Actions.Safe.{once-IsSafe, ret-IsSafe, then-IsSafe}
use ycsb.Workload.{
  Operation, insert, read, update, delete, scan, read_modify_write, next_scan_length,
}
use ycsb.Workload.Frame.{Config, next_scan_length-KeepsConfig}
use ycsb.Client.{World, is_nonnegative}
use ycsb.Client.Calls.{on_db}
use ycsb.Client.Ready.Draws.{next_scan_length-Ready}
use ycsb.Client.Actions.{
  insert_program, transaction_key_program, table_program, scan_length_program, dispatch_program,
  transaction_program,
}
use ycsb.Client.Actions.Kept.{on_db-Keeps, look-IsSafe}
use ycsb.Client.Actions.Parts.{
  IsSteady, draw-IsSteady, operation-IsSteady, values-IsSteady, requested-IsSteady,
  written-IsSteady, sequence_key-IsSteady, transaction_key-IsSteady,
}

-- A view in which every key has a value, so that no call takes one away.
abbrev pub blank : (D : Db) → D.State → Bytes → Bytes
blank D d k = 0 ∷ []

-- Every operation may be drawn.
abbrev pub AnyOperation : Operation → Type 0
AnyOperation op = Unit

module _ (P : Platform) (D : Db) (c : Config) (d₀ : D.State) where
  -- A program that keeps the workload ready, with what it gives.
  abbrev pub Goes : {A : Type 0} → (A → Type 0) → Prog (World P D) A → Type 0
  Goes Q p = IsSteady P D (blank D) AnyOperation c d₀ Q p

  pub on_db-Goes :
      {A : Type 0} (f : D.State → A × D.State) → Goes (λ _. Unit) (once (on_db {P = P} f))
  on_db-Goes f =
      once-IsSafe _
        (on_db-Keeps P D (blank D) AnyOperation c d₀ (λ _. Unit) f (λ x h. (tt, λ j v. v)))

  table-Goes : Goes (λ _. Unit) (table_program P D true)
  table-Goes = look-IsSafe P D (blank D) AnyOperation c d₀ (λ _. Unit) _ (λ x h. tt)

  scan_length-Goes : Goes (λ _. Unit) (scan_length_program P D true)
  unfolding scan_length_program
  scan_length-Goes =
      draw-IsSteady P D (blank D) AnyOperation c d₀ (λ _. Unit) (next_scan_length P true)
        (next_scan_length-Ready P AnyOperation) (next_scan_length-KeepsConfig P true)

  pub insert-Goes : Goes (λ _. Unit) (insert_program P D true)
  unfolding insert_program
  insert-Goes = then-IsSafe _ (sequence_key-IsSteady P D (blank D) AnyOperation c d₀) λ key _.
      then-IsSafe _ (values-IsSteady P D (blank D) AnyOperation c d₀) λ vs _.
        then-IsSafe _ table-Goes λ t _. then-IsSafe _ (on_db-Goes _) λ status _. ret-IsSafe _ tt

  module _ (L : UniformInRange P) (fuel : ℕ) where
    key_then :
        {A : Type 0} {Q : A → Type 0} {k : Bytes → Bytes → Prog (World P D) A}
        → ((t key : Bytes) → Goes Q (k t key))
        → Goes Q (
            Actions.◌>>=◌
              (table_program P D true)
              λ t. Actions.◌>>=◌ (transaction_key_program P D true (suc fuel)) λ key. k t key)
    key_then rest = then-IsSafe _ table-Goes λ t _.
        then-IsSafe _
          (transaction_key-IsSteady P D (blank D) AnyOperation c d₀ L fuel
            (λ k h. unfold is_empty in refl))
          (λ key _. rest t key)

    dispatch-Goes : (op : Operation) → Goes (λ _. Unit) (dispatch_program P D true op (suc fuel))
    unfolding dispatch_program
    dispatch-Goes read = key_then λ t key.
        then-IsSafe _ (requested-IsSteady P D (blank D) AnyOperation c d₀) λ fs _. on_db-Goes _
    dispatch-Goes update = key_then λ t key.
        then-IsSafe _ (written-IsSteady P D (blank D) AnyOperation c d₀) λ vs _. on_db-Goes _
    dispatch-Goes delete = key_then λ t key. on_db-Goes _
    dispatch-Goes insert = then-IsSafe _ table-Goes λ t _.
        then-IsSafe _ (sequence_key-IsSteady P D (blank D) AnyOperation c d₀) λ key _.
          then-IsSafe _ (values-IsSteady P D (blank D) AnyOperation c d₀) λ vs _. on_db-Goes _
    dispatch-Goes scan = key_then λ t key. then-IsSafe _ scan_length-Goes λ n _.
        then-IsSafe _ (requested-IsSteady P D (blank D) AnyOperation c d₀) λ fs _. on_db-Goes _
    dispatch-Goes read_modify_write = key_then λ t key.
        then-IsSafe _ (requested-IsSteady P D (blank D) AnyOperation c d₀) λ fs _.
          then-IsSafe _ (on_db-Goes _) λ _ _.
            then-IsSafe _ (written-IsSteady P D (blank D) AnyOperation c d₀) λ vs _. on_db-Goes _

    pub transaction-Goes : Goes (λ _. Unit) (transaction_program P D true (suc fuel))
    unfolding transaction_program
    transaction-Goes = then-IsSafe _ (operation-IsSteady P D (blank D) AnyOperation c d₀) λ op _.
        then-IsSafe _ (dispatch-Goes op) λ status _.
          then-IsSafe _
            (once-IsSafe _ {Q = λ _. Unit}
              λ x h. ((tt, x), rw (assert_ndebug (is_nonnegative status)), (h, tt)))
            (λ _ _. ret-IsSafe _ tt)

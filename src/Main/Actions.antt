-- ===== src/Main/Actions.antt =====
-- DelegateClient as a program of atomic actions, and the threads of a phase as a pool of such
-- programs.
pub mod Ended
pub mod OneAfterAnother
pub mod AnyMix
use ycsb.Prelude.{ℕ, zero, suc, ◌+◌, ◌≡◌, refl, sym, ◌∙◌, Bool, true, false, arith}
use ycsb.Prelude.Tests.{if◌then◌else◌}
use ycsb.Prelude.Lists.{replicate}
use ycsb.Prelude.Outcome as Outcome
use ycsb.Prelude.Outcome.{>>=_assoc}
use ycsb.Platform.{Platform}
use ycsb.Db.{Db}
use ycsb.Actions.{Prog, ret, ◌>>=◌, once, run, run->>=}
use ycsb.Actions.Threads.{Pool}
use ycsb.Client.{World}
use ycsb.Client.Calls.{on_db}
use ycsb.Client.Actions.{insert_program, transaction_program}
use ycsb.Client.Actions.Alone.{run-insert_program, run-transaction_program}
use ycsb.Main.{count, client_op, client_loop, delegate_client}

module _ (P : Platform) (D : Db) (fuel : ℕ) (ndebug is_loading : Bool) where
  -- The body of the loop of DelegateClient.
  unfoldable pub op_program : Prog (World P D) Bool
  op_program = if is_loading then insert_program P D ndebug else transaction_program P D ndebug fuel

  -- The rounds left of the loop.
  unfoldable pub loop_program : ℕ → ℕ → Prog (World P D) ℕ
  loop_program zero oks = ret oks
  loop_program (suc n) oks = op_program >>= λ b. loop_program n (oks + count b)

  -- DelegateClient
  unfoldable pub delegate_program : ℕ → Prog (World P D) ℕ
  delegate_program num_ops = do
    _ ← once (on_db (λ d. (tt, D.init d)))
    oks ← loop_program num_ops 0
    _ ← once (on_db (λ d. (tt, D.close d)))
    ret oks

  -- The threads of a phase before their first action.
  unfoldable pub phase_pool : ℕ → ℕ → World P D → Pool (World P D) ℕ
  phase_pool threads num_ops x = record {
    state = x;
    threads = replicate threads (delegate_program num_ops);
  }

  run-op_program : (x : World P D) → run op_program x ≡ client_op P D fuel ndebug is_loading x
  unfolding op_program client_op
  run-op_program x =
      ground (arith, run-insert_program P D ndebug x, run-transaction_program P D ndebug fuel x)

  run-loop_program :
      (n oks : ℕ) (x : World P D)
      → run (loop_program n oks) x ≡ client_loop P D fuel ndebug is_loading n oks x
  unfolding loop_program client_loop
  run-loop_program zero oks x = refl
  run-loop_program (suc n) oks x = run->>= op_program _ x ∙ λ i.
      Outcome.◌>>=◌ (run-op_program x i) (λ r. run-loop_program n (oks + count r.0) r.1 i)

  -- The program of a thread, with no other thread between its actions, does what DelegateClient does:
  -- on every workload and in every build, with the same fuel and all errors included.
  pub run-delegate_program :
      (num_ops : ℕ) (x : World P D)
      → run (delegate_program num_ops) x ≡ delegate_client P D fuel ndebug is_loading num_ops x
  unfolding delegate_program delegate_client
  run-delegate_program num_ops x =
      run->>= (loop_program num_ops 0) _ (record x { db = D.init x.db }) ∙ (λ i.
        Outcome.◌>>=◌ (run-loop_program num_ops 0 (record x { db = D.init x.db }) i)
          (λ r. Outcome.ok (r.0, record r.1 { db = D.close r.1.db })))

-- ===== src/Main/Actions/Ended.antt =====
-- A run phase whose threads may be interrupted between any two actions comes to its end, and all of
-- its transactions succeed.
use ycsb.Prelude.{ℕ, zero, suc, ◌+◌, ◌≤◌, ◌≡◌, refl, sym, ap, ◌∙◌, subst, true, false, arith}
use ycsb.Prelude.Lists.{replicate, length-replicate}
use ycsb.Prelude.Text.{Bytes}
use ycsb.Platform.{Platform, UniformInRange}
use ycsb.Db.{Db}
use ycsb.Lsm.Contract.{Implements}
use ycsb.Generators.Counter as Counter
use ycsb.Actions.{ret}
use ycsb.Actions.Safe.{once-IsSafe, ret-IsSafe, then-IsSafe}
use ycsb.Actions.Threads.{Pool, Ends, AllReturned-replicate, AllSafe-replicate}
use ycsb.Actions.Ending.{safe-Ends}
use ycsb.Workload.{build_key_name}
use ycsb.Workload.Frame.{Config, config}
use ycsb.Client.{World}
use ycsb.Client.Ready.{IsServed, Ready}
use ycsb.Client.Service.{HasValue, InPlace, InPlace-kept}
use ycsb.Client.Actions.Kept.{Kept, on_db-Keeps}
use ycsb.Client.Actions.Parts.{IsSteady}
use ycsb.Client.Actions.Served.{transaction-IsSteady}
use ycsb.Main.{count}
use ycsb.Main.Actions.{op_program, loop_program, delegate_program, phase_pool}
use ycsb.Main.InTurn.{IsQuiet}

module _ (P : Platform) (D : Db) (view : D.State → Bytes → Bytes) (I : Implements D view)
    (L : UniformInRange P) (quiet : IsQuiet D) (fuel : ℕ) where
  module _ (c : Config) (d₀ : D.State)
      (there : (k : ℕ)
        → k ≤ Counter.last c.insert_key_sequence
        → HasValue P D view d₀ (build_key_name c.ordered_inserts c.zero_padding k)) where
    loop-IsSteady :
        (n oks : ℕ)
        → IsSteady P D view IsServed c d₀
            (λ r. r ≡ oks + n)
            (loop_program P D (suc fuel) true false n oks)
    unfolding loop_program op_program
    loop-IsSteady zero oks = ret-IsSafe _ (omega arith)
    loop-IsSteady (suc n) oks =
        then-IsSafe _ (transaction-IsSteady P D view I c d₀ L fuel there) λ b success.
          subst
            (λ m.
              IsSteady P D view IsServed c d₀ (λ r. r ≡ m)
                (loop_program P D (suc fuel) true false n (oks + count b)))
            (omega (arith, ap count success)) (loop-IsSteady n (oks + count b))

    delegate-IsSteady :
        (n : ℕ)
        → IsSteady P D view IsServed c d₀
            (λ r. r ≡ n)
            (delegate_program P D (suc fuel) true false n)
    unfolding delegate_program
    delegate-IsSteady n =
        then-IsSafe _
          (once-IsSafe _ (
            on_db-Keeps P D view IsServed c d₀ (λ _. Unit) _
              λ x h. (tt, λ j v. subst (λ d. HasValue P D view d j) (sym (quiet.init x.db)) v)))
          λ _ _. then-IsSafe _ (loop-IsSteady n 0) λ r e.
            then-IsSafe _
              (once-IsSafe _ (
                on_db-Keeps P D view IsServed c d₀ (λ _. Unit) _
                  λ x h.
                    (tt, λ j v. subst (λ d. HasValue P D view d j) (sym (quiet.close x.db)) v)))
              λ _ _. ret-IsSafe _ (omega (arith, e))

-- What a phase leaves: every thread has returned the number of its operations, the workload is ready,
-- all records are in place, and no key has lost its value.
pub record PhaseDone (P : Platform) (D : Db) (view : D.State → Bytes → Bytes) (threads num_ops : ℕ)
    (x : World P D) (s : Pool (World P D) ℕ) : Type 1 where
  pub all_ok : s.threads ≡ replicate threads (ret num_ops)
  pub ready : Ready P IsServed s.state.workload
  pub in_place : InPlace P D view s.state
  pub kept : (j : Bytes) → HasValue P D view x.db j → HasValue P D view s.state.db j

-- A run phase of `threads` threads, each of which runs DelegateClient for `num_ops` transactions, in
-- a build without assertions, over a database that keeps the contract, whose Init and Close do
-- nothing, and with a ready workload whose records are in place. Other threads may move between any
-- two draws of a generator, calls of the database and looks at a member of the workload. In whatever
-- order the threads do these actions, the phase comes to its end after finitely many of them, and
-- until then some thread can go on. In the end every thread has returned `num_ops`, so that all
-- transactions have succeeded, the workload is ready again, all records are in place, and no key
-- that had a value has lost it.
pub interrupted_phase :
    (P : Platform) (D : Db) (view : D.State → Bytes → Bytes) (I : Implements D view)
    → UniformInRange P
    → IsQuiet D
    → (fuel threads num_ops : ℕ) (x : World P D) → Ready P IsServed x.workload
    → InPlace P D view x
    → Ends
        (World P D)
        ℕ
        (PhaseDone P D view threads num_ops x)
        (phase_pool P D (suc fuel) true false threads num_ops x)
unfolding phase_pool
interrupted_phase P D view I L quiet fuel threads num_ops x h p =
    let c = config P x.workload in
    let there : (k : ℕ)
        → k ≤ Counter.last c.insert_key_sequence
        → HasValue P D view x.db (build_key_name c.ordered_inserts c.zero_padding k) =
      p.present in
    let Inv = Kept P D view IsServed c x.db in
    safe-Ends Inv (λ r. r ≡ num_ops) threads (PhaseDone P D view threads num_ops x)
      (λ s i len all. record {
        all_ok =
            AllReturned-replicate _ _ Inv num_ops s.threads all
            ∙ ap (λ n. replicate n (ret num_ops)) len;
        ready = i.ready;
        in_place = InPlace-kept P D view I L 0 x s.state i.same i.kept p;
        kept = i.kept;
      })
      (phase_pool P D (suc fuel) true false threads num_ops x)
      (record { ready = h; same = refl; kept = λ j v. v }) (length-replicate threads _)
      (AllSafe-replicate _ _ Inv _ threads _
        (delegate-IsSteady P D view I L quiet fuel c x.db there num_ops).safe)

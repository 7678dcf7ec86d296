-- ===== src/Main/Running.antt =====
-- The run phase over a database that holds the records, and the load phase before it.
pub mod Loaded
use ycsb.Prelude.{ℕ, zero, suc, ◌+◌, ◌*◌, ◌≡◌, refl, ap, ◌∙◌, true, false, arith}
use ycsb.Prelude.Outcome.{Returns}
use ycsb.Prelude.Text.{Bytes}
use ycsb.Platform.{Platform, UniformInRange}
use ycsb.Db.{Db}
use ycsb.Lsm.Contract.{Implements}
use ycsb.Client.{World}
use ycsb.Client.Ready.{IsServed, Ready}
use ycsb.Client.Service.{HasValue, InPlace, do_transaction-Stays}
use ycsb.Main.{count, client_op, run_phase}
use ycsb.Main.InTurn.{IsQuiet, in_turn}
use ycsb.Main.InTurn.Sequential.{run_phase-in_turn}

module _ (P : Platform) (D : Db) (view : D.State → Bytes → Bytes) (I : Implements D view) where
  module _ (L : UniformInRange P) (fuel : ℕ) where
    -- After `n` transactions.
    pub record Ran (n : ℕ) (x : World P D) (r : ℕ × World P D) : Type 0 where
      pub all_ok : r.0 ≡ n
      pub ready : Ready P IsServed r.1.workload
      pub in_place : InPlace P D view r.1
      pub kept : (j : Bytes) → HasValue P D view x.db j → HasValue P D view r.1.db j

    in_turn-Ran :
        (n : ℕ) (x : World P D)
        → Ready P IsServed x.workload
        → InPlace P D view x
        → Returns (in_turn P D (suc fuel) true false n x) (Ran n x)
    unfolding in_turn client_op
    in_turn-Ran zero x h p =
        ((0, x), refl, record { all_ok = refl; ready = h; in_place = p; kept = λ j v. v })
    in_turn-Ran (suc n) x h p =
        let (r, run, before) = in_turn-Ran n x h p in
        let (q, last, one) =
          do_transaction-Stays P D view I L fuel r.1 before.ready before.in_place in
        (
          (r.0 + count q.0, q.1),
          rw (run, last) refl,
          record {
            all_ok = ap (λ b. r.0 + count b) one.success ∙ omega (arith, before.all_ok);
            ready = one.ready;
            in_place = one.in_place;
            kept = λ j v. one.kept j (before.kept j v);
          },
        )

    pub run_phase-Ran :
        (quiet : IsQuiet D) (num_ops threads : ℕ) (x : World P D)
        → Ready P IsServed x.workload
        → InPlace P D view x
        → Returns
            (run_phase P D (suc fuel) true false num_ops threads 0 x)
            (Ran (threads * num_ops) x)
    run_phase-Ran quiet num_ops threads x h p =
        let (r, run, ran) = in_turn-Ran (threads * num_ops) x h p in
        (r, run_phase-in_turn P D (suc fuel) true false quiet num_ops threads x ∙ run, ran)

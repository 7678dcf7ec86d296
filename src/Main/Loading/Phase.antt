-- ===== src/Main/Loading/Phase.antt =====
-- The load phase that main runs, thread after thread.
use ycsb.Prelude.{ℕ, ◌+◌, ◌*◌, ◌%◌, ◌^◌, ◌<◌, ◌≡◌, ◌∙◌, Bool, true, arith}
use ycsb.Prelude.Int.{pos}
use ycsb.Prelude.Outcome.{Returns}
use ycsb.Prelude.Text.{Bytes}
use ycsb.Platform.{Platform}
use ycsb.Db.{Db}
use ycsb.Lsm.Contract.{Implements}
use ycsb.Generators.Uniform.{ConstGenerator}
use ycsb.Workload.{key_name}
use ycsb.Client.{World}
use ycsb.Main.{ops_per_thread, run_phase}
use ycsb.Main.InTurn.{IsQuiet}
use ycsb.Main.InTurn.Sequential.{run_phase-in_turn}
use ycsb.Main.Loading.{Loads, Present, Loaded, in_turn-Loaded}

module _ (P : Platform) (D : Db) (view : D.State → Bytes → Bytes) (I : Implements D view) where
  module _ (quiet : IsQuiet D) (fuel : ℕ) (ndebug : Bool) where
    pub run_phase-Loaded :
        (num_ops threads c : ℕ) (g : ConstGenerator) (x : World P D)
        → c < 2 ^ 64
        → Loads P D view I c g x.workload
        → Returns
            (run_phase P D fuel ndebug true num_ops threads 0 x)
            (Loaded P D view I c (threads * num_ops) g x)
    run_phase-Loaded num_ops threads c g x bound l =
        let (r, run, h) = in_turn-Loaded P D view I fuel ndebug (threads * num_ops) c g x bound l in
        (r, run_phase-in_turn P D fuel ndebug true quiet num_ops threads x ∙ run, h)

    -- A load phase over a database that keeps the contract, and whose Init and Close do nothing,
    -- with a workload that writes at least one field and values of one positive length that a string
    -- can hold: it returns, every insertion succeeds, and each of its `threads * num_ops` keys, from
    -- the counter's number on and modulo 2 ^ 64, has a value that is not empty then.
    pub run_phase-Present :
        (num_ops threads c : ℕ) (g : ConstGenerator) (x : World P D) (i : ℕ)
        → c < 2 ^ 64
        → Loads P D view I c g x.workload
        → i < threads * num_ops
        → Returns (run_phase P D fuel ndebug true num_ops threads 0 x) (λ r.
          (r.0 ≡ threads * num_ops)
          × Present P D view I r.1.db (key_name P x.workload ((c + i) % 2 ^ 64)))
    run_phase-Present num_ops threads c g x i bound l lt =
        let (r, run, h) = run_phase-Loaded num_ops threads c g x bound l in
        (r, run, (h.all_ok, h.present i lt))

    -- A load phase over a database that keeps the contract, and whose Init and Close do nothing,
    -- with a workload that writes at least one field and values of one positive length that a string
    -- can hold, returns, and a key that has a value that is not empty before the phase has one after
    -- it.
    run_phase_kept :
        (num_ops threads c : ℕ) (g : ConstGenerator) (x : World P D) (j : Bytes)
        → c < 2 ^ 64
        → Loads P D view I c g x.workload
        → Present P D view I x.db j
        → Returns
            (run_phase P D fuel ndebug true num_ops threads 0 x)
            (λ r. Present P D view I r.1.db j)
    run_phase_kept num_ops threads c g x j bound l p =
        let (r, run, h) = run_phase-Loaded num_ops threads c g x bound l in (r, run, h.kept j p)

    -- A load phase over a database that keeps the contract, and whose Init and Close do nothing,
    -- with a workload that writes at least one field and values of one positive length that a string
    -- can hold, returns. When main splits `all` records over a positive number of threads, the sum
    -- of what the threads return falls short of `all` by the remainder of the division.
    pub run_phase_remainder :
        (all threads c : ℕ) (g : ConstGenerator) (x : World P D)
        → 0 < threads
        → c < 2 ^ 64
        → Loads P D view I c g x.workload
        → Returns
            (run_phase P D fuel ndebug true (ops_per_thread (pos all) (pos threads)) threads 0 x)
            (λ r. r.0 + all % threads ≡ all)
    run_phase_remainder all threads c g x some_thread bound l =
        let (r, run, h) =
          run_phase-Loaded (ops_per_thread (pos all) (pos threads)) threads c g x bound l in
        let parts : threads * ops_per_thread (pos all) (pos threads) + all % threads ≡ all =
          unfold ops_per_thread in grind arith in
        (r, run, omega (arith, h.all_ok, parts))

-- ===== src/Main/Actions/AnyMix.antt =====
-- A phase, of insertions or of any mix of transactions, comes to its end over any database.
use ycsb.Prelude.{
  ℕ, zero, suc, ◌+◌, ◌≤◌, ◌≡◌, refl, ap, ◌∙◌, Bool, true, false, List, [], ◌∷◌, arith,
}
use ycsb.Prelude.Lists.{All, length, length-replicate}
use ycsb.Platform.{Platform, UniformInRange}
use ycsb.Db.{Db}
use ycsb.Actions.{Prog, ret, act}
use ycsb.Actions.Safe.{ret-IsSafe, then-IsSafe}
use ycsb.Actions.Threads.{Pool, Ends, AllReturned, AllSafe-replicate}
use ycsb.Actions.Ending.{safe-Ends}
use ycsb.Workload.Frame.{Config, config}
use ycsb.Client.{World}
use ycsb.Client.Ready.{Ready}
use ycsb.Client.Actions.Kept.{Kept}
use ycsb.Client.Actions.Anyhow.{
  blank, AnyOperation, Goes, on_db-Goes, transaction-Goes, insert-Goes,
}
use ycsb.Main.{count}
use ycsb.Main.Actions.{op_program, loop_program, delegate_program, phase_pool}
use ycsb.Main.Actions.OneAfterAnother.{returned}

count-le : (b : Bool) → count b ≤ 1
count-le true = omega arith
count-le false = omega arith

-- The values of threads that have all returned.
record Values {S : Type 0} (Q : ℕ → Type 0) (ps : List (Prog S ℕ)) : Type 1 where
  values : List ℕ
  gave : ps ≡ returned values
  as_many : length values ≡ length ps
  all_of_them : All Q values

AllReturned-Values :
    {S : Type 0} (Inv : S → Type 0) (Q : ℕ → Type 0) (ps : List (Prog S ℕ))
    → AllReturned S ℕ Inv Q ps
    → Values Q ps
AllReturned-Values Inv Q [] h = record {
  values = [];
  gave = refl;
  as_many = refl;
  all_of_them = tt;
}
AllReturned-Values Inv Q (ret n ∷ ps) h =
    let rest = AllReturned-Values Inv Q ps h.1 in
    record {
      values = n ∷ rest.values;
      gave = ap (λ l. ret n ∷ l) rest.gave;
      as_many = ap suc rest.as_many;
      all_of_them = (h.0, rest.all_of_them);
    }
AllReturned-Values Inv Q (act f k ∷ ps) h = absurd h

module _ (P : Platform) (D : Db) (L : UniformInRange P) (fuel : ℕ) (c : Config) (d₀ : D.State) where
  op-Goes :
      (is_loading : Bool) → Goes P D c d₀ (λ _. Unit) (op_program P D (suc fuel) true is_loading)
  unfolding op_program
  op-Goes true = insert-Goes P D c d₀
  op-Goes false = transaction-Goes P D c d₀ L fuel

  loop-Goes :
      (is_loading : Bool) (n oks most : ℕ)
      → oks + n ≤ most
      → Goes P D c d₀ (λ r. r ≤ most) (loop_program P D (suc fuel) true is_loading n oks)
  unfolding loop_program
  loop-Goes is_loading zero oks most h = ret-IsSafe _ (omega arith)
  loop-Goes is_loading (suc n) oks most h =
      then-IsSafe _ (op-Goes is_loading)
        λ b _. loop-Goes is_loading n (oks + count b) most (omega (arith, count-le b))

  delegate-Goes :
      (is_loading : Bool) (n : ℕ)
      → Goes P D c d₀ (λ r. r ≤ n) (delegate_program P D (suc fuel) true is_loading n)
  unfolding delegate_program
  delegate-Goes is_loading n = then-IsSafe _ (on_db-Goes P D c d₀ (λ d. (tt, D.init d))) λ _ _.
      then-IsSafe _ (loop-Goes is_loading n 0 n (omega arith))
        λ r le. then-IsSafe _ (on_db-Goes P D c d₀ (λ d. (tt, D.close d))) λ _ _. ret-IsSafe _ le

-- What a phase leaves: every thread has returned a count of at most its operations, the workload is
-- ready, and its configuration is what it was.
pub record PhaseOver (P : Platform) (D : Db) (threads num_ops : ℕ) (x : World P D)
    (s : Pool (World P D) ℕ) : Type 1 where
  pub counts : List ℕ
  pub gave : s.threads ≡ returned counts
  pub as_many : length counts ≡ threads
  pub not_more : All (λ n. n ≤ num_ops) counts
  pub ready : Ready P AnyOperation s.state.workload
  pub same : config P s.state.workload ≡ config P x.workload

-- A phase of `threads` threads with `num_ops` operations each, of loading or of transactions, in a
-- build without assertions, with a ready workload that may draw any operations, deletions and scans
-- among them, over any database, whatever its calls do and answer. In whatever order the threads do
-- their actions, the phase comes to its end after finitely many of them, and until then some thread
-- can go on. In the end every thread has returned a count of at most `num_ops` successes, and the
-- workload is ready again, with the configuration that it had.
pub any_mix-Ends :
    (P : Platform) (D : Db)
    → UniformInRange P
    → (fuel threads num_ops : ℕ) (is_loading : Bool) (x : World P D)
    → Ready P AnyOperation x.workload
    → Ends
        (World P D)
        ℕ
        (PhaseOver P D threads num_ops x)
        (phase_pool P D (suc fuel) true is_loading threads num_ops x)
unfolding phase_pool
any_mix-Ends P D L fuel threads num_ops is_loading x h =
    let c = config P x.workload in
    let Inv = Kept P D (blank D) AnyOperation c x.db in
    safe-Ends Inv (λ r. r ≤ num_ops) threads (PhaseOver P D threads num_ops x)
      (λ s i len all.
        let v = AllReturned-Values Inv (λ r. r ≤ num_ops) s.threads all in
        record {
          counts = v.values;
          gave = v.gave;
          as_many = v.as_many ∙ len;
          not_more = v.all_of_them;
          ready = i.ready;
          same = i.same;
        })
      (phase_pool P D (suc fuel) true is_loading threads num_ops x)
      (record { ready = h; same = refl; kept = λ j v. v }) (length-replicate threads _)
      (AllSafe-replicate _ _ Inv _ threads _
        (delegate-Goes P D L fuel c x.db is_loading num_ops).safe)

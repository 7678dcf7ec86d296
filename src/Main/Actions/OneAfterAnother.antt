-- ===== src/Main/Actions/OneAfterAnother.antt =====
-- Threads that run one after the other are one of the orders that a pool allows.
use ycsb.Prelude.{ℕ, zero, suc, ◌+◌, ◌≡◌, refl, ap, ◌∙◌, subst, Bool, List, [], ◌∷◌, ◌++◌, arith}
use mathlib.Core.List.{append_assoc}
use ycsb.Prelude.Lists.{replicate, length}
use ycsb.Prelude.Outcome.{ok, >>=-eq-ok, ok-injective}
use ycsb.Platform.{Platform}
use ycsb.Db.{Db}
use ycsb.Actions.{Prog, ret, act, run}
use ycsb.Actions.Threads.{Pool, go, Reach, here, then_step}
use ycsb.Client.{World}
use ycsb.Main.{delegate_client, run_phase}
use ycsb.Main.Actions.{delegate_program, phase_pool, run-delegate_program}

abbrev pub sum : List ℕ → ℕ
sum [] = 0
sum (n ∷ ns) = n + sum ns

-- What the threads have returned.
abbrev pub returned : {S : Type 0} → List ℕ → List (Prog S ℕ)
returned [] = []
returned (n ∷ ns) = ret n ∷ returned ns

module _ {S A : Type 0} where
  Reach_trans : {s t u : Pool S A} → Reach S A s t → Reach S A t u → Reach S A s u
  Reach_trans r here = r
  Reach_trans r (then_step q st) = then_step (Reach_trans r q) st

  -- A thread that is run to its end while the others wait.
  run-Reach :
      (before after : List (Prog S A)) (p : Prog S A) (x : S) (r : A × S)
      → run p x ≡ ok r
      → Reach S A
          (record { state = x; threads = before ++ p ∷ after })
          (record { state = r.1; threads = before ++ ret r.0 ∷ after })
  run-Reach before after (ret a) x r h =
      subst
        (λ (q : A × S).
          Reach S A (record { state = x; threads = before ++ ret a ∷ after })
            (record { state = q.1; threads = before ++ ret q.0 ∷ after }))
        (ok-injective (a, x) r h) here
  run-Reach before after (act f k) x r h =
      let (q, done, rest) = >>=-eq-ok (f x) _ h in
      Reach_trans (then_step here (go before after f k q _ refl done refl))
        (run-Reach before after (k q.0) q.1 r rest)

module _ (P : Platform) (D : Db) (fuel : ℕ) (ndebug is_loading : Bool) (num_ops : ℕ) where
  -- A pool in this state with these threads, behind others that have returned.
  abbrev behind :
      List (Prog (World P D) ℕ) → World P D → List (Prog (World P D) ℕ) → Pool (World P D) ℕ
  behind before x ps = record { state = x; threads = before ++ ps }

  abbrev waiting : ℕ → List (Prog (World P D) ℕ)
  waiting n = replicate n (delegate_program P D fuel ndebug is_loading num_ops)

  -- What the threads have returned, one value for each, with the sum of them.
  record Sequence (threads sum₀ : ℕ) (before : List (Prog (World P D) ℕ)) (x : World P D)
      (r : ℕ × World P D) : Type 1 where
    values : List ℕ
    as_many : length values ≡ threads
    summed : sum₀ + sum values ≡ r.0
    reached :
        Reach
          (World P D)
          ℕ
          (behind before x (waiting threads))
          (behind before r.1 (returned values))

  run_phase-Sequence :
      (threads sum₀ : ℕ) (before : List (Prog (World P D) ℕ)) (x : World P D) (r : ℕ × World P D)
      → run_phase P D fuel ndebug is_loading num_ops threads sum₀ x ≡ ok r
      → Sequence threads sum₀ before x r
  unfolding run_phase
  run_phase-Sequence zero sum₀ before x r h =
      subst (Sequence 0 sum₀ before x) (ok-injective (sum₀, x) r h)
        (record { values = []; as_many = refl; summed = omega arith; reached = here })
  run_phase-Sequence (suc threads) sum₀ before x r h =
      let (q, done, rest) = >>=-eq-ok (delegate_client P D fuel ndebug is_loading num_ops x) _ h in
      let alone = run-delegate_program P D fuel ndebug is_loading num_ops x ∙ done in
      let next = run_phase-Sequence threads (sum₀ + q.0) (before ++ ret q.0 ∷ []) q.1 r rest in
      record {
        values = q.0 ∷ next.values;
        as_many = ap suc next.as_many;
        summed = omega (arith, next.summed);
        reached =
            Reach_trans
              (run-Reach before (waiting threads)
                (delegate_program P D fuel ndebug is_loading num_ops) x q alone)
              (subst
                (λ l.
                  Reach (World P D) ℕ (record { state = q.1; threads = l })
                    (behind before r.1 (returned (q.0 ∷ next.values))))
                (append_assoc before (ret q.0 ∷ []) (waiting threads))
                (subst
                  (λ l.
                    Reach (World P D) ℕ (behind (before ++ ret q.0 ∷ []) q.1 (waiting threads))
                      (record { state = r.1; threads = l }))
                  (append_assoc before (ret q.0 ∷ []) (returned next.values)) next.reached));
      }

-- Where a phase whose threads run one after the other returns a sum, the pool of the same threads can
-- come to the same workload, random state and database, with as many values returned as there are
-- threads, whose sum is the phase's: in every build, and for loading as for transactions.
pub run_phase-Reach :
    (P : Platform) (D : Db) (fuel : ℕ) (ndebug is_loading : Bool) (threads num_ops : ℕ)
    (x : World P D) (r : ℕ × World P D)
    → run_phase P D fuel ndebug is_loading num_ops threads 0 x ≡ ok r
    → (values : List ℕ) × (length values ≡ threads)
      × (sum values ≡ r.0)
      × Reach
          (World P D)
          ℕ
          (phase_pool P D fuel ndebug is_loading threads num_ops x)
          (record { state = r.1; threads = returned values })
unfolding phase_pool
run_phase-Reach P D fuel ndebug is_loading threads num_ops x r h =
    let s = run_phase-Sequence P D fuel ndebug is_loading num_ops threads 0 [] x r h in
    (s.values, s.as_many, omega (arith, s.summed), s.reached)

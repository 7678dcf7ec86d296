-- ===== src/Main/Interleaved.antt =====
-- The loops of DelegateClient in the load phase, with other threads between the parts of DoInsert: a
-- thread draws its key, builds its values and calls the database, in three steps that each are one
-- for the others. NextSequenceKey is atomic in the code and the database locks for itself;
-- BuildValues is not atomic, but draws characters and lengths only.
pub mod Workers
pub mod Invariant
pub mod Complete
use ycsb.Prelude.{ℕ, suc, ◌+◌, ◌≡◌, Bool, List, [], ◌∷◌, ◌++◌}
use ycsb.Prelude.Int.{ℤ}
use ycsb.Prelude.Outcome.{ok}
use ycsb.Prelude.Text.{Bytes}
use ycsb.Platform.{Platform}
use ycsb.Db.{Db, KvPair}
use ycsb.Workload.{CoreWorkload, next_table, next_sequence_key, build_values}
use ycsb.Client.{World, is_ok}
use ycsb.Main.{count}

-- Between two operations, behind NextSequenceKey, or behind BuildValues; with the operations left
-- after the current one, and the successes.
pub data Worker : Type 0 where
  ready : ℕ → ℕ → Worker
  keyed : Bytes → ℕ → ℕ → Worker
  filled : Bytes → List KvPair → ℕ → ℕ → Worker

module _ (P : Platform) (D : Db) (ndebug : Bool) where
  pub record Team : Type 0 where
    pub world : World P D
    pub workers : List Worker

  -- One worker goes on.
  pub data Step (s : Team) : Team → Type 0 where
    draw :
        (before after : List Worker) (n oks : ℕ) (r : Bytes × CoreWorkload P × P.Seed) (t : Team)
        → s.workers ≡ before ++ ready (suc n) oks ∷ after
        → next_sequence_key P ndebug s.world.workload s.world.seed ≡ ok r
        → t ≡ record {
          world = record s.world { workload = r.1; seed = r.2 };
          workers = before ++ keyed r.0 n oks ∷ after;
        }
        → Step s t
    build :
        (before after : List Worker) (key : Bytes) (n oks : ℕ)
        (r : List KvPair × CoreWorkload P × P.Seed) (t : Team)
        → s.workers ≡ before ++ keyed key n oks ∷ after
        → build_values P ndebug [] s.world.workload s.world.seed ≡ ok r
        → t ≡ record {
          world = record s.world { workload = r.1; seed = r.2 };
          workers = before ++ filled key r.0 n oks ∷ after;
        }
        → Step s t
    put :
        (before after : List Worker) (key : Bytes) (pairs : List KvPair) (n oks : ℕ)
        (r : ℤ × D.State) (t : Team)
        → s.workers ≡ before ++ filled key pairs n oks ∷ after
        → D.insert (next_table P s.world.workload) key pairs s.world.db ≡ r
        → t ≡ record {
          world = record s.world { db = r.1 };
          workers = before ++ ready n (oks + count (is_ok r.0)) ∷ after;
        }
        → Step s t

  pub data Reach (s : Team) : Team → Type 0 where
    here : Reach s s
    then_step : {t u : Team} → Reach s t → Step t u → Reach s u

-- ===== src/Main/InTurn.antt =====
-- The operations of a phase one after the other, by one client, which is what the threads of
-- `run_phase` come to when Init and Close of the database do nothing.
pub mod Sequential
use ycsb.Prelude.{ℕ, zero, suc, ◌+◌, ◌≡◌, Bool}
use ycsb.Prelude.Outcome.{Outcome, ok, ◌>>=◌}
use ycsb.Platform.{Platform}
use ycsb.Db.{Db}
use ycsb.Client.{World}
use ycsb.Main.{count, client_op}

-- Init and Close that do nothing, as those of the base class.
pub record IsQuiet (D : Db) : Type 0 where
  pub init : (d : D.State) → D.init d ≡ d
  pub close : (d : D.State) → D.close d ≡ d

module _ (P : Platform) (D : Db) (fuel : ℕ) (ndebug is_loading : Bool) where
  -- Operations one after the other, by one client.
  unfoldable pub in_turn : ℕ → World P D → Outcome (ℕ × World P D)
  in_turn zero x = ok (0, x)
  in_turn (suc n) x = in_turn n x >>= λ r.
      client_op P D fuel ndebug is_loading r.1 >>= λ q. ok (r.0 + count q.0, q.1)

-- ===== src/Main.antt =====
-- ycsbc.cc: DelegateClient, the two phases, and main.
pub mod InTurn
pub mod Loading
pub mod Interleaved
pub mod Actions
pub mod Running
pub mod Program
pub mod Success
pub mod Refusal
pub mod Output
pub mod Prints
use ycsb.Prelude.{ℕ, zero, suc, ◌+◌, ◌/◌, Bool, true, false}
use ycsb.Prelude.Int.{ℤ, pos_part}
use ycsb.Prelude.Tests.{if◌then◌else◌}
use ycsb.Prelude.Outcome.{Outcome, ok, ◌>>=◌}
use ycsb.Platform.{Platform}
use ycsb.Db.{Db}
use ycsb.Client.{World, do_insert, do_transaction}

-- `oks += b`
abbrev pub count : Bool → ℕ
count true = 1
count false = 0

-- What each of the threads has to do: `total_ops / num_threads` in int. Where the quotient is
-- negative the loop has no round, and with no thread it is not computed.
unfoldable pub ops_per_thread : ℤ → ℤ → ℕ
ops_per_thread total_ops num_threads = pos_part total_ops / pos_part num_threads

module _ (P : Platform) (D : Db) where
  -- The body of the loop of DelegateClient.
  unfoldable pub client_op : ℕ → Bool → Bool → World P D → Outcome (Bool × World P D)
  client_op fuel ndebug is_loading x =
      if is_loading then do_insert P D ndebug x else do_transaction P D fuel ndebug x

  -- The rounds left of the loop.
  unfoldable pub client_loop : ℕ → Bool → Bool → ℕ → ℕ → World P D → Outcome (ℕ × World P D)
  client_loop fuel ndebug is_loading zero oks x = ok (oks, x)
  client_loop fuel ndebug is_loading (suc n) oks x = client_op fuel ndebug is_loading x >>= λ r.
      client_loop fuel ndebug is_loading n (oks + count r.0) r.1

  -- DelegateClient
  unfoldable pub delegate_client : ℕ → Bool → Bool → ℕ → World P D → Outcome (ℕ × World P D)
  delegate_client fuel ndebug is_loading num_ops x = do
    (oks, y) ← client_loop fuel ndebug is_loading num_ops 0 (record x { db = D.init x.db })
    ok (oks, record y { db = D.close y.db })

  -- A phase whose threads run one after the other, with the sum of what they return. `Main.Actions`
  -- is about all other orders.
  unfoldable pub run_phase : ℕ → Bool → Bool → ℕ → ℕ → ℕ → World P D → Outcome (ℕ × World P D)
  run_phase fuel ndebug is_loading num_ops zero sum x = ok (sum, x)
  run_phase fuel ndebug is_loading num_ops (suc threads) sum x =
      delegate_client fuel ndebug is_loading num_ops x >>= λ r.
      run_phase fuel ndebug is_loading num_ops threads (sum + r.0) r.1

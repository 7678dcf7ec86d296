-- ===== src/Client/Actions/Kept.antt =====
-- Calls on a ready workload that other threads call too: each returns, and leaves it ready.
use ycsb.Prelude.{◌≡◌, refl, ◌∙◌}
use ycsb.Prelude.Outcome.{Returns}
use ycsb.Prelude.Text.{Bytes}
use ycsb.Platform.{Platform}
use ycsb.Db.{Db}
use ycsb.Actions.{look}
use ycsb.Actions.Safe.{IsSafe, Keeps, once-IsSafe}
use ycsb.Workload.{Operation, CoreWorkload}
use ycsb.Workload.Frame.{Config, config, KeepsConfig}
use ycsb.Client.{World}
use ycsb.Client.Calls.{WorkloadCall, at_workload, on_workload, on_db}
use ycsb.Client.Ready.{Ready}
use ycsb.Client.Service.{HasValue}

module _ (P : Platform) (D : Db) (view : D.State → Bytes → Bytes)
    (Allowed : Operation → Type 0) where
  open P use {Seed}

  module _ (c : Config) (d₀ : D.State) where
    -- What every action keeps: the workload is ready and has the configuration `c`, and every key
    -- that has a value in `d₀` has one.
    pub record Kept (x : World P D) : Type 0 where
      pub ready : Ready P Allowed x.workload
      pub same : config P x.workload ≡ c
      pub kept : (j : Bytes) → HasValue P D view d₀ j → HasValue P D view x.db j

    -- A call on the workload that returns, and leaves it ready.
    pub on_workload-Keeps :
        {A : Type 0} (Q : A → Type 0) (f : WorkloadCall P A)
        → ((w : CoreWorkload P) (s : Seed)
            → Ready P Allowed w
            → config P w ≡ c
            → Returns (f w s) (λ r. Q r.0 × Ready P Allowed r.1))
        → ((w : CoreWorkload P) (s : Seed) → KeepsConfig P w (f w s))
        → Keeps Kept Q (on_workload f)
    on_workload-Keeps Q f returns frame x h =
        let (r, run, (q, ready)) = returns x.workload x.seed h.ready h.same in
        (
          (r.0, at_workload x r),
          rw run,
          (
            record { ready = ready; same = frame x.workload x.seed r run ∙ h.same; kept = h.kept },
            q,
          ),
        )

    -- A call of the database that takes no value away.
    pub on_db-Keeps :
        {A : Type 0} (Q : A → Type 0) (f : D.State → A × D.State)
        → ((x : World P D)
            → Kept x
            → Q (f x.db).0
              × ((j : Bytes) → HasValue P D view x.db j → HasValue P D view (f x.db).1 j))
        → Keeps Kept Q (on_db f)
    on_db-Keeps Q f effect x h =
        let (q, keeps) = effect x h in
        (
          ((f x.db).0, record x { db = (f x.db).1 }),
          refl,
          (record { ready = h.ready; same = h.same; kept = λ j v. keeps j (h.kept j v) }, q),
        )

    pub look-IsSafe :
        {A : Type 0} (Q : A → Type 0) (f : World P D → A)
        → ((x : World P D) → Kept x → Q (f x))
        → IsSafe Kept Q (look f)
    look-IsSafe Q f h = once-IsSafe Kept (λ x k. ((f x, x), refl, (k, h x k)))

-- ===== src/Main/Interleaved/Complete.antt =====
-- However the parts of the insertions follow one another, the load phase is complete.
use ycsb.Prelude.{
  ℕ, zero, suc, ◌+◌, ◌*◌, ◌%◌, ◌^◌, ◌<◌, ◌≡◌, refl, sym, ◌∙◌, subst, ◌⊎◌, inl, inr, Bool, List, [],
  ◌∷◌, ◌++◌, arith,
}
use ycsb.Prelude.Lists.{replicate}
use ycsb.Prelude.Text.{Bytes}
use ycsb.Platform.{Platform}
use ycsb.Db.{Db}
use ycsb.Lsm.Contract.{Implements}
use ycsb.Generators.Uniform.{ConstGenerator}
use ycsb.Workload.{key_name}
use ycsb.Workload.Keys.{next_sequence_key_lem}
use ycsb.Client.{World, is_ok}
use ycsb.Main.{count}
use ycsb.Client.Written.{build_values-stored}
use ycsb.Main.Loading.{Loads, Present}
use ycsb.Main.Interleaved.{
  Worker, ready, keyed, filled, Team, Step, draw, build, put, Reach, here, then_step,
}
use ycsb.Main.Interleaved.Workers.{
  to_draw, on_the_way, successes, over_all, over_all-replicate, AllIdle, Everywhere-replicate,
  AllIdle-left, AllIdle-empty, idle_or_Busy,
}
use ycsb.Main.Interleaved.Invariant.{Inv, Worth, draw-Inv, build-Inv, put-Inv}

module _ (P : Platform) (D : Db) (view : D.State → Bytes → Bytes) (I : Implements D view)
    (ndebug : Bool) where
  Moves : Team P D ndebug → Type 0
  Moves s = (t : Team P D ndebug) × Step P D ndebug s t

  module _ (c : ℕ) (g : ConstGenerator) (x₀ : World P D) where
    abbrev Holds : ℕ → Team P D ndebug → Type 0
    Holds all s = Inv P D view I ndebug c g x₀ all s.world s.workers

    Step-Inv : (all : ℕ) {s t : Team P D ndebug} → Step P D ndebug s t → Holds all s → Holds all t
    Step-Inv all {s = s} (draw before after n oks r t place run e) inv = subst (Holds all) (sym e) (
        draw-Inv P D view I ndebug c g x₀ all n oks s.world before after r run
          (subst (Inv P D view I ndebug c g x₀ all s.world) place inv))
    Step-Inv all {s = s} (build before after key n oks r t place run e) inv =
        subst (Holds all) (sym e) (
          build-Inv P D view I ndebug c g x₀ all n oks s.world before after key r run
            (subst (Inv P D view I ndebug c g x₀ all s.world) place inv))
    Step-Inv all {s = s} (put before after key pairs n oks r t place run e) inv =
        subst (Holds all)
          (sym (
            e ∙ λ i. record {
              world = record s.world { db = (sym run i).1 };
              workers = before ++ ready n (oks + count (is_ok (sym run i).0)) ∷ after;
            }))
          (put-Inv P D view I ndebug c g x₀ all n oks s.world before after _ key pairs
            (subst (Inv P D view I ndebug c g x₀ all s.world) place inv))

    Reach-Inv : (all : ℕ) {s t : Team P D ndebug} → Holds all s → Reach P D ndebug s t → Holds all t
    Reach-Inv all h here = h
    Reach-Inv all h (then_step r st) = Step-Inv all st (Reach-Inv all h r)

    initial-Inv :
        (threads num_ops : ℕ)
        → c < 2 ^ 64
        → Loads P D view I c g x₀.workload
        → Inv P D view I ndebug c g x₀ (threads * num_ops) x₀ (replicate threads (ready num_ops 0))
    initial-Inv threads num_ops bound l = record {
      drawn = 0;
      loads = subst (λ k. Loads P D view I k g x₀.workload) (omega arith) l;
      same_names = (refl, refl);
      planned = omega (arith, over_all-replicate to_draw threads (ready num_ops 0));
      counted = grind (
        arith,
        over_all-replicate successes threads (ready num_ops 0),
        over_all-replicate on_the_way threads (ready num_ops 0),
      );
      worth = Everywhere-replicate Worth threads (ready num_ops 0) tt;
      accounted = λ i h. elim h [ ];
    }

    -- A worker whose loop has not ended has a next part to do.
    move :
        (all : ℕ) (s : Team P D ndebug) (before after : List Worker) (w : Worker)
        → Holds all s
        → s.workers ≡ before ++ w ∷ after
        → (AllIdle (w ∷ []) → ⊥)
        → Moves s
    unfolding Moves
    move all s before after (ready zero oks) inv place busy = absurd (busy tt)
    move all s before after (ready (suc n) oks) inv place busy = (
      _,
      draw before after n oks _ _ place
          (next_sequence_key_lem P ndebug s.world.workload s.world.seed _ inv.loads.keys) refl,
    )
    move all s before after (keyed key n oks) inv place busy =
        let (b, built, _) =
          build_values-stored P ndebug s.world.workload s.world.seed g inv.loads.lengths
            inv.loads.some_field inv.loads.some_byte inv.loads.fits in
        (_, build before after key n oks b _ place built refl)
    move all s before after (filled key pairs n oks) inv place busy =
        (_, put before after key pairs n oks _ _ place refl refl)

-- A load phase of `threads` loops of `num_ops` insertions each, whose parts follow one another in
-- any order, over a database that keeps the contract, with a workload that writes at least one field
-- and values of one positive length that a string can hold. In every state that it comes to, some
-- thread has a next part to do, or all loops have ended; then every insertion has succeeded, and
-- each of the `threads * num_ops` keys, from the counter's number on and modulo 2 ^ 64, has a value
-- that is not empty.
pub loaded_anyhow :
    (P : Platform) (D : Db) (view : D.State → Bytes → Bytes) (I : Implements D view) (ndebug : Bool)
    (c : ℕ) (g : ConstGenerator) (x : World P D) (threads num_ops i : ℕ) (s : Team P D ndebug)
    → c < 2 ^ 64
    → Loads P D view I c g x.workload
    → i < threads * num_ops
    → Reach P D ndebug (record { world = x; workers = replicate threads (ready num_ops 0) }) s
    → ((t : Team P D ndebug) × Step P D ndebug s t)
      ⊎ (AllIdle s.workers
          × (over_all successes s.workers ≡ threads * num_ops)
          × Present P D view I s.world.db (key_name P x.workload ((c + i) % 2 ^ 64)))
unfolding Moves
loaded_anyhow P D view I ndebug c g x threads num_ops i s bound l lt r =
    let all = threads * num_ops in
    let inv =
      Reach-Inv P D view I ndebug c g x all
        (initial-Inv P D view I ndebug c g x threads num_ops bound l) r in
    elim (idle_or_Busy s.workers) [
      | inr b ↦
          inl
            (move P D view I ndebug c g x all s b.before b.after b.worker inv b.place b.unfinished)
      | inl idle ↦
          let none_left = AllIdle-left s.workers idle in
          inr (
            idle,
            omega (arith, inv.planned, inv.counted),
            elim (inv.accounted i (omega (arith, inv.planned))) [
              | inl there ↦ there
              | inr held ↦ absurd (AllIdle-empty _ s.workers idle held)
            ],
          )
    ]

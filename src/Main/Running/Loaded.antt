-- ===== src/Main/Running/Loaded.antt =====
-- The load phase leaves a ready workload ready and puts its records in place.
use ycsb.Prelude.{
  ℕ, zero, suc, ◌+◌, ◌*◌, ◌%◌, ◌^◌, ◌≤◌, ◌<◌, ◌≡◌, refl, sym, ap, ◌∙◌, subst, true, [], arith,
}
use ycsb.Prelude.Outcome.{Returns, Returns-ok}
use ycsb.Prelude.Text.{Bytes}
use ycsb.Platform.{Platform}
use ycsb.Db.{Db}
use ycsb.Lsm.Contract.{Implements}
use ycsb.Generators.Counter as Counter
use ycsb.Generators.Any.{counter}
use ycsb.Workload.{key_name, build_key_name, next_table}
use ycsb.Workload.Frame.{config, next_sequence_key-KeepsConfig, build_values-KeepsConfig}
use ycsb.Client.{World, do_insert, is_ok}
use ycsb.Client.Ready.{IsServed, Ready}
use ycsb.Client.Ready.Draws.{next_sequence_key-Ready, build_values-Ready}
use ycsb.Client.Service.{HasValue, InPlace}
use ycsb.Main.{count, client_op, run_phase}
use ycsb.Main.InTurn.{IsQuiet, in_turn}
use ycsb.Main.InTurn.Sequential.{run_phase-in_turn}
use ycsb.Main.Loading as Loading
use ycsb.Main.Loading.Phase.{run_phase-Loaded}

module _ (P : Platform) (D : Db) where
  record Prepared (x : World P D) (y : World P D) : Type 0 where
    ready : Ready P IsServed y.workload
    same : config P y.workload ≡ config P x.workload

  do_insert-Prepared :
      (x : World P D)
      → Ready P IsServed x.workload
      → Returns (do_insert P D true x) (λ r. Prepared x r.1)
  unfolding do_insert
  do_insert-Prepared x h =
      let (a, keyed, ready) = next_sequence_key-Ready P IsServed x.workload x.seed h in
      let (b, built, (_, ready')) = build_values-Ready P IsServed a.1 a.2 ready in
      let q = D.insert (next_table P b.1) a.0 b.0 x.db in
      (
        (is_ok q.0, record { workload = b.1; seed = b.2; db = q.1 }),
        rw (keyed, built) refl,
        record {
          ready = ready';
          same =
              build_values-KeepsConfig P true [] a.1 a.2 b built
              ∙ next_sequence_key-KeepsConfig P true x.workload x.seed a keyed;
        },
      )

  in_turn-Prepared :
      (fuel n : ℕ) (x : World P D)
      → Ready P IsServed x.workload
      → Returns (in_turn P D fuel true true n x) (λ r. Prepared x r.1)
  unfolding in_turn client_op
  in_turn-Prepared fuel zero x h = ((0, x), refl, record { ready = h; same = refl })
  in_turn-Prepared fuel (suc n) x h =
      let (r, run, before) = in_turn-Prepared fuel n x h in
      let (q, last, one) = do_insert-Prepared r.1 before.ready in
      (
        (r.0 + count q.0, q.1),
        rw (run, last) refl,
        record { ready = one.ready; same = one.same ∙ before.same },
      )

  module _ (view : D.State → Bytes → Bytes) (I : Implements D view) (quiet : IsQuiet D) where
    -- A load phase on a ready workload whose keys are counted from 0, up to the last one of the
    -- insert key sequence at least: every insertion succeeds, and all records are in place.
    pub record Filled (n : ℕ) (r : ℕ × World P D) : Type 0 where
      pub all_ok : r.0 ≡ n
      pub ready : Ready P IsServed r.1.workload
      pub in_place : InPlace P D view r.1

    pub run_phase-Filled :
        (fuel num_ops threads : ℕ) (x : World P D)
        → Ready P IsServed x.workload
        → x.workload.key_generator ≡ counter (record { counter = 0 })
        → Counter.last x.workload.insert_key_sequence < threads * num_ops
        → threads * num_ops ≤ 2 ^ 64
        → Returns (run_phase P D fuel true true num_ops threads 0 x) (Filled (threads * num_ops))
    run_phase-Filled fuel num_ops threads x h keys enough bounded =
        let (c, e, bytes, fits) = h.lengths in
        let loads : Loading.Loads P D view I 0 c x.workload = record {
          keys = keys;
          lengths = e;
          some_field = h.some_field;
          some_byte = bytes;
          fits = fits;
        } in
        let (r, run, loaded) =
          run_phase-Loaded P D view I quiet fuel true num_ops threads 0 c x (omega arith) loads in
        let p =
          Returns-ok (λ q. Prepared x q.1) (in_turn P D fuel true true (threads * num_ops) x) r
            (in_turn-Prepared fuel (threads * num_ops) x h)
            (sym (run_phase-in_turn P D fuel true true quiet num_ops threads x) ∙ run) in
        let last : Counter.last r.1.workload.insert_key_sequence
            ≡ Counter.last x.workload.insert_key_sequence =
          ap (λ c. Counter.last c.insert_key_sequence) p.same in
        (
          r,
          run,
          record {
            all_ok = loaded.all_ok;
            ready = p.ready;
            in_place = record {
              present = λ k below.
                  let named : key_name P r.1.workload k ≡ key_name P x.workload k =
                    ap (λ c. build_key_name c.ordered_inserts c.zero_padding k) p.same in
                  let number : (0 + k) % 2 ^ 64 ≡ k = omega (arith, last) in
                  let there = loaded.present k (omega (arith, last)) in
                  subst (HasValue P D view r.1.db) (ap (key_name P x.workload) number ∙ sym named)
                    there;
            };
          },
        )

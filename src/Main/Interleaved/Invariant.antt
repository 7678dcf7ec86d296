-- ===== src/Main/Interleaved/Invariant.antt =====
-- What holds between any two parts of the insertions: no key is lost.
use ycsb.Prelude.{
  ℕ, suc, ◌+◌, ◌%◌, ◌^◌, ◌<◌, ◌≡◌, refl, sym, ap, ◌∙◌, subst, ◌⊎◌, inl, inr, Bool, true, false,
  List, [], ◌∷◌, ◌++◌, arith,
}
use ycsb.Prelude.Int.{pos_part}
use ycsb.Prelude.Outcome.{ok, ok-injective}
use ycsb.Prelude.Text.{Bytes, bytes_eq_refl, is_empty}
use ycsb.Platform.{Platform}
use ycsb.Db.{Db, KvPair}
use ycsb.Lsm.Contract.{Implements, stored}
use ycsb.Generators.Uniform.{ConstGenerator}
use ycsb.Generators.Any.{counter}
use mathlib.Core.Path.{ap₂}
use native.Mathlib.Decide.{dec_lt}
use ycsb.Workload.{CoreWorkload, build_key_name, key_name, next_sequence_key, build_values}
use ycsb.Workload.Keys.{next_sequence_key_lem}
use ycsb.Client.{World, is_ok}
use ycsb.Client.Written.{build_values-stored, kept_by_write}
use ycsb.Main.{count}
use ycsb.Main.Loading.{Loads, SameNames, Present}
use ycsb.Main.Interleaved.{Worker, ready, keyed, filled}
use ycsb.Main.Interleaved.Workers.{
  to_draw, on_the_way, successes, over_all, over_all-append, Somewhere, HasKey, Somewhere-here,
  Somewhere-cases, Everywhere, Everywhere-at, Everywhere-moved,
}

-- A record that is about to be inserted has a value.
abbrev pub Worth : Worker → Type 0
Worth (ready n oks) = Unit
Worth (keyed key n oks) = Unit
Worth (filled key pairs n oks) = is_empty (stored pairs) ≡ false

module _ (P : Platform) (D : Db) (view : D.State → Bytes → Bytes) (I : Implements D view) where
  module _ (ndebug : Bool) (c : ℕ) (g : ConstGenerator) (x₀ : World P D) where
    -- The name of the key drawn after `i` others.
    abbrev pub nth_name : ℕ → Bytes
    nth_name i = key_name P x₀.workload ((c + i) % 2 ^ 64)

    -- `drawn` keys have been drawn; each of them is in the database, or a worker has it.
    pub record Inv (all : ℕ) (x : World P D) (ws : List Worker) : Type 0 where
      pub drawn : ℕ
      pub loads : Loads P D view I ((c + drawn) % 2 ^ 64) g x.workload
      pub same_names : SameNames P D view I x₀.workload x.workload
      pub planned : drawn + over_all to_draw ws ≡ all
      pub counted : over_all successes ws + over_all on_the_way ws ≡ drawn
      pub worth : Everywhere Worth ws
      pub accounted :
          (i : ℕ)
          → i < drawn
          → Present P D view I x.db (nth_name i) ⊎ Somewhere (HasKey (nth_name i)) ws

    same_name :
        (w : CoreWorkload P) (k : ℕ)
        → SameNames P D view I x₀.workload w
        → key_name P w k ≡ key_name P x₀.workload k
    same_name w k (o, z) = ap₂ (λ a b. build_key_name a b k) o z

    -- The counts of a list in which one worker has moved.
    moved :
        (f : Worker → ℕ) (before after : List Worker) (w w' : Worker)
        → over_all f (before ++ w ∷ after) + f w' ≡ over_all f (before ++ w' ∷ after) + f w
    moved f before after w w' =
        omega (arith, over_all-append f before (w ∷ after), over_all-append f before (w' ∷ after))

    pub draw-Inv :
        (all n oks : ℕ) (x : World P D) (before after : List Worker)
        (r : Bytes × CoreWorkload P × P.Seed)
        → next_sequence_key P ndebug x.workload x.seed ≡ ok r
        → Inv all x (before ++ ready (suc n) oks ∷ after)
        → Inv all (record x { workload = r.1; seed = r.2 }) (before ++ keyed r.0 n oks ∷ after)
    draw-Inv all n oks x before after r run inv =
        let w = x.workload in
        let d = inv.drawn in
        let key = key_name P w ((c + d) % 2 ^ 64) in
        let r' =
          ok-injective _ _ (sym (next_sequence_key_lem P ndebug w x.seed _ inv.loads.keys) ∙ run) in
        let was = ready (suc n) oks in
        let now = keyed key n oks in
        subst
          (λ q.
            Inv all (record x { workload = q.1; seed = q.2 }) (before ++ keyed q.0 n oks ∷ after))
          r'
          (record {
            drawn = suc d;
            loads = record {
              keys = ap (λ k. counter (record { counter = k })) (omega arith);
              lengths = inv.loads.lengths;
              some_field = inv.loads.some_field;
              some_byte = inv.loads.some_byte;
              fits = inv.loads.fits;
            };
            same_names = inv.same_names;
            planned = omega (arith, inv.planned, moved to_draw before after was now);
            counted = omega (
              arith,
              inv.counted,
              moved successes before after was now,
              moved on_the_way before after was now,
            );
            worth = Everywhere-moved Worth before after was now inv.worth tt;
            accounted = λ i h. elim (dec_lt i d) [
              | yes p ↦ elim (inv.accounted i p) [
                | inl there ↦ inl there
                | inr held ↦
                    elim (Somewhere-cases (HasKey (nth_name i)) before after was now held) [
                      | inl q ↦ absurd q
                      | inr others ↦ inr others
                    ]
              ]
              | no p ↦
                  let last : d ≡ i = omega arith in
                  inr (
                    Somewhere-here (HasKey (nth_name i)) before after now
                      (same_name w ((c + d) % 2 ^ 64) inv.same_names ∙ ap nth_name last))
            ];
          })

    pub build-Inv :
        (all n oks : ℕ) (x : World P D) (before after : List Worker) (key : Bytes)
        (r : List KvPair × CoreWorkload P × P.Seed)
        → build_values P ndebug [] x.workload x.seed ≡ ok r
        → Inv all x (before ++ keyed key n oks ∷ after)
        → Inv all (record x { workload = r.1; seed = r.2 }) (before ++ filled key r.0 n oks ∷ after)
    build-Inv all n oks x before after key r run inv =
        let w = x.workload in
        let (b, built, (worth, frame, lengths)) =
          build_values-stored P ndebug w x.seed g inv.loads.lengths inv.loads.some_field
            inv.loads.some_byte inv.loads.fits in
        let was = keyed key n oks in
        let now = filled key b.0 n oks in
        subst
          (λ q.
            Inv all (record x { workload = q.1; seed = q.2 })
              (before ++ filled key q.0 n oks ∷ after))
          (ok-injective _ _ (sym built ∙ run))
          (record {
            drawn = inv.drawn;
            loads = record {
              keys = ap (λ (u : CoreWorkload P). u.key_generator) frame ∙ inv.loads.keys;
              lengths = lengths;
              some_field =
                  subst (λ (u : CoreWorkload P). 0 < pos_part u.field_count) (sym frame)
                    inv.loads.some_field;
              some_byte = inv.loads.some_byte;
              fits = inv.loads.fits;
            };
            same_names = (
              ap (λ (u : CoreWorkload P). u.ordered_inserts) frame ∙ inv.same_names.0,
              ap (λ (u : CoreWorkload P). u.zero_padding) frame ∙ inv.same_names.1,
            );
            planned = omega (arith, inv.planned, moved to_draw before after was now);
            counted = omega (
              arith,
              inv.counted,
              moved successes before after was now,
              moved on_the_way before after was now,
            );
            worth = Everywhere-moved Worth before after was now inv.worth worth;
            accounted = λ i h. elim (inv.accounted i h) [
              | inl there ↦ inl there
              | inr held ↦ elim (Somewhere-cases (HasKey (nth_name i)) before after was now held) [
                | inl q ↦ inr (Somewhere-here (HasKey (nth_name i)) before after now q)
                | inr others ↦ inr others
              ]
            ];
          })

    pub put-Inv :
        (all n oks : ℕ) (x : World P D) (before after : List Worker) (t key : Bytes)
        (pairs : List KvPair)
        → Inv all x (before ++ filled key pairs n oks ∷ after)
        → Inv all
            (record x { db = (D.insert t key pairs x.db).1 })
            (before ++ ready n (oks + count (is_ok (D.insert t key pairs x.db).0)) ∷ after)
    put-Inv all n oks x before after t key pairs inv =
        let was = filled key pairs n oks in
        let now = ready n (oks + count (is_ok (D.insert t key pairs x.db).0)) in
        let success : is_ok (D.insert t key pairs x.db).0 ≡ true =
          ap (λ q. is_ok q.0) (I.insert-eq-update t key pairs x.db)
          ∙ ap is_ok (I.update_status t key pairs x.db)
          ∙ unfold is_ok in refl in
        let effect = λ (j : Bytes).
          ap (λ q. view q.1 j) (I.insert-eq-update t key pairs x.db)
          ∙ I.view-update t key j pairs x.db in
        let worth = Everywhere-at Worth before after was inv.worth in
        record {
          drawn = inv.drawn;
          loads = inv.loads;
          same_names = inv.same_names;
          planned = omega (arith, inv.planned, moved to_draw before after was now);
          counted = omega (
            arith,
            inv.counted,
            moved successes before after was now,
            moved on_the_way before after was now,
            ap count success,
          );
          worth = Everywhere-moved Worth before after was now inv.worth tt;
          accounted = λ i h. elim (inv.accounted i h) [
            | inl there ↦ inl (ap is_empty (effect (nth_name i)) ∙ kept_by_write _ _ _ worth there)
            | inr held ↦ elim (Somewhere-cases (HasKey (nth_name i)) before after was now held) [
              | inl q ↦ inl (
                  subst (Present P D view I (D.insert t key pairs x.db).1) q
                    (ap is_empty (effect key) ∙ rw (bytes_eq_refl key) worth))
              | inr others ↦ inr others
            ]
          ];
        }

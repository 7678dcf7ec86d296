-- ===== src/Main/Loading.antt =====
-- The load phase, end to end: workload, client, database.
pub mod Phase
pub mod TooLong
use ycsb.Prelude.{
  ℕ, zero, suc, ◌+◌, ◌-◌, ◌%◌, ◌^◌, ◌≤◌, ◌<◌, ◌≡◌, refl, sym, ap, ◌∙◌, subst, Bool, true, false,
  arith,
}
use ycsb.Prelude.Int.{pos_part}
use ycsb.Prelude.Outcome.{Returns}
use ycsb.Prelude.Text.{Bytes, bytes_eq, bytes_eq_refl, is_empty}
use ycsb.Platform.{Platform}
use ycsb.Db.{Db, ok_status}
use ycsb.Lsm.Contract.{Implements}
use ycsb.Generators.Uniform.{ConstGenerator}
use ycsb.Generators.Any.{counter, constant}
use mathlib.Core.Path.{ap₂}
use native.Mathlib.Decide.{dec_lt}
use ycsb.Workload.{CoreWorkload, build_key_name, key_name, next_table}
use ycsb.Workload.Keys.{next_sequence_key_lem}
use ycsb.Client.Written.{build_values-stored, kept_by_write}
use ycsb.Client.{World, do_insert, is_ok}
use ycsb.Main.{count, client_op}
use ycsb.Main.InTurn.{in_turn}

module _ (P : Platform) (D : Db) (view : D.State → Bytes → Bytes) (I : Implements D view) where
  -- A workload that loads: its keys come from a counter that stands at `c`, and it writes records of
  -- at least one field and of values of one length that is neither
  -- 0 nor above what a string can hold.
  pub record Loads (c : ℕ) (g : ConstGenerator) (w : CoreWorkload P) : Type 0 where
    pub keys : w.key_generator ≡ counter (record { counter = c })
    pub lengths : w.field_len_generator ≡ constant g
    pub some_field : 0 < pos_part w.field_count
    pub some_byte : 0 < g.constant
    pub fits : g.constant ≤ P.max_size

  -- The name of key `k` in a workload, by the two members that decide it.
  abbrev pub SameNames : CoreWorkload P → CoreWorkload P → Type 0
  SameNames w w' = (w'.ordered_inserts ≡ w.ordered_inserts) × (w'.zero_padding ≡ w.zero_padding)

  abbrev pub Present : D.State → Bytes → Type 0
  Present d k = is_empty (view d k) ≡ false

  pub record Inserted (c : ℕ) (g : ConstGenerator) (x : World P D) (r : Bool × World P D)
      : Type 0 where
    pub success : r.0 ≡ true
    pub loads : Loads ((c + 1) % 2 ^ 64) g r.1.workload
    pub same_names : SameNames x.workload r.1.workload
    pub present : Present r.1.db (key_name P x.workload c)
    pub kept : (j : Bytes) → Present x.db j → Present r.1.db j

  do_insert-Inserted :
      (ndebug : Bool) (c : ℕ) (g : ConstGenerator) (x : World P D)
      → Loads c g x.workload
      → Returns (do_insert P D ndebug x) (Inserted c g x)
  unfolding do_insert
  do_insert-Inserted ndebug c g x l =
      let w = x.workload in
      let key = key_name P w c in
      let w₁ : CoreWorkload P = record w {
        key_generator = counter (record { counter = (c + 1) % 2 ^ 64 });
      } in
      let keyed = next_sequence_key_lem P ndebug w x.seed (record { counter = c }) l.keys in
      let (b, built, (filled, frame, lengths)) =
        build_values-stored P ndebug w₁ x.seed g l.lengths l.some_field l.some_byte l.fits in
      let t = next_table P b.1 in
      let status : (D.insert t key b.0 x.db).0 ≡ ok_status =
        ap (λ q. q.0) (I.insert-eq-update t key b.0 x.db) ∙ I.update_status t key b.0 x.db in
      let effect = λ (j : Bytes).
        ap (λ q. view q.1 j) (I.insert-eq-update t key b.0 x.db) ∙ I.view-update t key j b.0 x.db in
      (
        (
          is_ok (D.insert t key b.0 x.db).0,
          record { workload = b.1; seed = b.2; db = (D.insert t key b.0 x.db).1 },
        ),
        rw (keyed, built),
        record {
          success = ap is_ok status ∙ unfold is_ok in refl;
          loads = record {
            keys = ap (λ (u : CoreWorkload P). u.key_generator) frame;
            lengths = lengths;
            some_field =
                subst (λ (u : CoreWorkload P). 0 < pos_part u.field_count) (sym frame) l.some_field;
            some_byte = l.some_byte;
            fits = l.fits;
          };
          same_names = (
            ap (λ (u : CoreWorkload P). u.ordered_inserts) frame,
            ap (λ (u : CoreWorkload P). u.zero_padding) frame,
          );
          present = ap is_empty (effect key) ∙ rw (bytes_eq_refl key) filled;
          kept = λ j h. ap is_empty (effect j) ∙ kept_by_write (bytes_eq j key) _ _ filled h;
        },
      )

  -- After `n` insertions from key `c` on: all have succeeded, the records are there, and what was
  -- there before still is.
  pub record Loaded (c n : ℕ) (g : ConstGenerator) (x : World P D) (r : ℕ × World P D)
      : Type 0 where
    pub all_ok : r.0 ≡ n
    pub loads : Loads ((c + n) % 2 ^ 64) g r.1.workload
    pub same_names : SameNames x.workload r.1.workload
    pub present : (i : ℕ) → i < n → Present r.1.db (key_name P x.workload ((c + i) % 2 ^ 64))
    pub kept : (j : Bytes) → Present x.db j → Present r.1.db j

  -- A load phase of `n` operations over a database that keeps its contract, whose workload writes at
  -- least one field and values of one positive length, returns; every insertion succeeds, and then
  -- every one of the `n` keys from the counter's number on, modulo 2 ^ 64, has a value that is not
  -- empty, and so has every key that had one before.
  pub in_turn-Loaded :
      (fuel : ℕ) (ndebug : Bool) (n c : ℕ) (g : ConstGenerator) (x : World P D)
      → c < 2 ^ 64
      → Loads c g x.workload
      → Returns (in_turn P D fuel ndebug true n x) (Loaded c n g x)
  unfolding in_turn client_op
  in_turn-Loaded fuel ndebug zero c g x bound l = (
    (0, x),
    refl,
    record {
      all_ok = refl;
      loads = subst (λ k. Loads k g x.workload) (omega arith) l;
      same_names = (refl, refl);
      present = λ i h. elim h [ ];
      kept = λ j h. h;
    },
  )
  in_turn-Loaded fuel ndebug (suc n) c g x bound l =
      let (r, run, before) = in_turn-Loaded fuel ndebug n c g x bound l in
      let (q, last, one) = do_insert-Inserted ndebug ((c + n) % 2 ^ 64) g r.1 before.loads in
      let named =
        λ (k : ℕ). ap₂ (λ o z. build_key_name o z k) before.same_names.0 before.same_names.1 in
      (
        (r.0 + count q.0, q.1),
        rw (run, last),
        record {
          all_ok = ap (λ b. r.0 + count b) one.success ∙ omega (arith, before.all_ok);
          loads = subst (λ k. Loads k g q.1.workload) (omega arith) one.loads;
          same_names =
              (one.same_names.0 ∙ before.same_names.0, one.same_names.1 ∙ before.same_names.1);
          present = λ i h. elim (dec_lt i n) [
            | yes p ↦ one.kept _ (before.present i p)
            | no p ↦
                let at_end : i ≡ n = omega arith in
                subst (λ k. Present q.1.db (key_name P x.workload ((c + k) % 2 ^ 64))) (sym at_end)
                  (subst (Present q.1.db) (named ((c + n) % 2 ^ 64)) one.present)
          ];
          kept = λ j h. one.kept j (before.kept j h);
        },
      )

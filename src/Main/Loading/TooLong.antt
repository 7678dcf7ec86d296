-- ===== src/Main/Loading/TooLong.antt =====
-- Loading with a length of values that no string can hold.
use ycsb.Prelude.{[], ℕ, zero, suc, ◌%◌, ◌^◌, ◌+◌, ◌<◌, ◌≡◌, refl, Bool, true, false, arith}
use ycsb.Prelude.Tests.{leb}
use ycsb.Prelude.Int.{pos_part}
use ycsb.Prelude.Outcome.{err, length_error}
use ycsb.Platform.{Platform}
use ycsb.Db.{Db}
use ycsb.Generators.Any as Any
use ycsb.Generators.Any.{counter, constant}
use ycsb.Generators.Counter.{CounterGenerator}
use ycsb.Generators.Uniform.{ConstGenerator, next_const}
use ycsb.Workload.{CoreWorkload, append_chars, next_value, build_fields, build_values}
use ycsb.Workload.Keys.{next_sequence_key_lem}
use ycsb.Client.{World, do_insert}
use ycsb.Main.{client_op, client_loop, delegate_client, run_phase}

above : (a b : ℕ) → b < a → leb a b ≡ false
above a b h = ground arith

module _ (P : Platform) where
  -- A workload whose keys come from a counter, and whose values have one length, above what a string
  -- can hold, in at least one field.
  pub record IsTooLong (w : CoreWorkload P) : Type 0 where
    pub keys : (c : CounterGenerator) × (w.key_generator ≡ counter c)
    pub lengths :
        (g : ConstGenerator) × (w.field_len_generator ≡ constant g) × (P.max_size < g.constant)
    pub some_field : 0 < pos_part w.field_count

  next_value_throws :
      (ndebug : Bool) (w : CoreWorkload P) (s : P.Seed) (g : ConstGenerator)
      → w.field_len_generator ≡ constant g
      → P.max_size < g.constant
      → next_value P ndebug w s ≡ err length_error
  unfolding next_value append_chars Any.next next_const
  next_value_throws ndebug w s g e long = rw (e, above g.constant P.max_size long) refl

  build_fields_throws :
      (n : ℕ) (ndebug : Bool) (w : CoreWorkload P) (s : P.Seed) (g : ConstGenerator)
      → 0 < n
      → w.field_len_generator ≡ constant g
      → P.max_size < g.constant
      → build_fields P n 0 ndebug [] w s ≡ err length_error
  unfolding build_fields
  build_fields_throws zero ndebug w s g h e long = absurd (omega arith)
  build_fields_throws (suc n) ndebug w s g h e long =
      rw (next_value_throws ndebug w s g e long) refl

  do_insert_throws :
      (D : Db) (ndebug : Bool) (x : World P D)
      → IsTooLong x.workload
      → do_insert P D ndebug x ≡ err length_error
  unfolding do_insert build_values
  do_insert_throws D ndebug x h =
      let (c, k) = h.keys in
      let (g, e, long) = h.lengths in
      rw
        (
          next_sequence_key_lem P ndebug x.workload x.seed c k,
          build_fields_throws (pos_part x.workload.field_count) ndebug
              (record x.workload {
                key_generator = counter (record { counter = (c.counter + 1) % 2 ^ 64 });
              })
              x.seed g h.some_field e long,
        )
        refl

  -- A load phase of at least one thread and one insertion, with values of a length above what a string
  -- can hold, such as the 2 ^ 64 - 1 that a field length of -1 stands for: over any database, and in
  -- every build, the first insertion throws a length_error, and this is how the phase ends.
  pub run_phase_too_long :
      (D : Db) (fuel num_ops threads : ℕ) (ndebug : Bool) (x : World P D)
      → IsTooLong x.workload
      → run_phase P D fuel ndebug true (suc num_ops) (suc threads) 0 x ≡ err length_error
  unfolding run_phase delegate_client client_loop client_op
  run_phase_too_long D fuel num_ops threads ndebug x h =
      rw (do_insert_throws D ndebug (record x { db = D.init x.db }) h) refl

-- ===== src/Client/Actions/Draws.antt =====
-- The actions in which a client draws from a ready workload: each returns, and leaves it ready.
use ycsb.Prelude.{ℕ, zero, suc, ◌≤◌, ◌<◌, ◌≡◌, refl, sym, ap, Bool, false, arith}
use ycsb.Prelude.Tests.{le→leb}
use ycsb.Prelude.Lists.{replicate}
use ycsb.Prelude.Text.{is_empty}
use ycsb.Prelude.Outcome.{Returns, >>=-eq-ok, ok-injective}
use ycsb.Platform.{Platform, UniformInRange}
use ycsb.Generators.Counter as Counter
use ycsb.Generators.Uniform as Uniform
use ycsb.Generators.Uniform.{next_const}
use ycsb.Generators.Any as Any
use ycsb.Generators.Discrete as Weighted
use ycsb.Generators.Any.{uniform, constant}
use ycsb.Workload.{Operation, CoreWorkload, append_chars}
use ycsb.Workload.Frame.{config, KeepsConfig}
use ycsb.Client.Calls.{
  draw_chance, choose_operation, draw_number, draw_length, draw_char, append_value,
}
use ycsb.Client.Ready.{Ready}

replicate-filled : (n c : ℕ) → 0 < n → is_empty (replicate n c) ≡ false
unfolding is_empty
replicate-filled zero c h = absurd (omega arith)
replicate-filled (suc n) c h = refl

module _ (P : Platform) (Allowed : Operation → Type 0) where
  open P use {Seed}

  pub draw_number-Ready :
      UniformInRange P
      → (ndebug : Bool) (w : CoreWorkload P) (s : Seed) → Ready P Allowed w
      → Returns
          (draw_number P ndebug w s)
          λ r. (r.0 ≤ Counter.last w.insert_key_sequence) × Ready P Allowed r.1
  unfolding draw_number Any.next
  draw_number-Ready L ndebug w s h =
      let (u, e, over) = h.requests in
      let (_, below, _, over') = Uniform.next_range P L u 0 _ over in
      (
        ((Uniform.next P u).0, record w { key_chooser = uniform (Uniform.next P u).1 }, s),
        rw e,
        (
          below,
          record {
            requests = ((Uniform.next P u).1, refl, over');
            fields = h.fields;
            scans = h.scans;
            lengths = h.lengths;
            keys = h.keys;
            operations = h.operations;
            some_field = h.some_field;
          },
        ),
      )

  pub draw_number-KeepsConfig :
      (ndebug : Bool) (w : CoreWorkload P) (s : Seed) → KeepsConfig P w (draw_number P ndebug w s)
  unfolding draw_number
  draw_number-KeepsConfig ndebug w s r h =
      let (d, _, rest) = >>=-eq-ok (Any.next P ndebug w.insert_key_sequence w.key_chooser s) _ h in
      sym (ap (λ t. config P t.1) (ok-injective _ r rest))

  pub draw_length-Ready :
      (ndebug : Bool) (w : CoreWorkload P) (s : Seed)
      → Ready P Allowed w
      → Returns
          (draw_length P ndebug w s)
          (λ r. ((0 < r.0) × (r.0 ≤ P.max_size)) × Ready P Allowed r.1)
  unfolding draw_length Any.next next_const
  draw_length-Ready ndebug w s h =
      let (c, e, bytes, fits) = h.lengths in
      (
        (c.constant, record w { field_len_generator = constant c }, s),
        rw e,
        (
          (bytes, fits),
          record {
            requests = h.requests;
            fields = h.fields;
            scans = h.scans;
            lengths = (c, refl, bytes, fits);
            keys = h.keys;
            operations = h.operations;
            some_field = h.some_field;
          },
        ),
      )

  pub draw_length-KeepsConfig :
      (ndebug : Bool) (w : CoreWorkload P) (s : Seed) → KeepsConfig P w (draw_length P ndebug w s)
  unfolding draw_length
  draw_length-KeepsConfig ndebug w s r h =
      let (d, _, rest) =
        >>=-eq-ok (Any.next P ndebug w.insert_key_sequence w.field_len_generator s) _ h in
      sym (ap (λ t. config P t.1) (ok-injective _ r rest))

  pub draw_char-Ready :
      (ndebug : Bool) (w : CoreWorkload P) (s : Seed)
      → Ready P Allowed w
      → Returns (draw_char P ndebug w s) (λ r. Unit {0} × Ready P Allowed r.1)
  unfolding draw_char
  draw_char-Ready ndebug w s h = (_, refl, (tt, h))

  pub draw_char-KeepsConfig :
      (ndebug : Bool) (w : CoreWorkload P) (s : Seed) → KeepsConfig P w (draw_char P ndebug w s)
  unfolding draw_char
  draw_char-KeepsConfig ndebug w s r h = sym (ap (λ t. config P t.1) (ok-injective _ r h))

  pub draw_chance-Ready :
      (ndebug : Bool) (w : CoreWorkload P) (s : Seed)
      → Ready P Allowed w
      → Returns (draw_chance P ndebug w s) (λ r. Unit {0} × Ready P Allowed r.1)
  unfolding draw_chance
  draw_chance-Ready ndebug w s h = (_, refl, (tt, h))

  pub draw_chance-KeepsConfig :
      (ndebug : Bool) (w : CoreWorkload P) (s : Seed) → KeepsConfig P w (draw_chance P ndebug w s)
  unfolding draw_chance
  draw_chance-KeepsConfig ndebug w s r h = sym (ap (λ t. config P t.1) (ok-injective _ r h))

  pub choose_operation-KeepsConfig :
      (ndebug : Bool) (u : P.Double) (w : CoreWorkload P) (s : Seed)
      → KeepsConfig P w (choose_operation P ndebug u w s)
  unfolding choose_operation
  choose_operation-KeepsConfig ndebug u w s r h =
      let g = w.op_chooser in
      let (d, _, rest) =
        >>=-eq-ok (Weighted.conclude P ndebug g (Weighted.choose P g.values g.sum u) s) _ h in
      sym (ap (λ t. config P t.1) (ok-injective _ r rest))

  -- A value of a positive length that a string can hold can be made, and is not empty.
  pub append_value-Ready :
      (ndebug : Bool) (n c : ℕ)
      → 0 < n
      → n ≤ P.max_size
      → (w : CoreWorkload P) (s : Seed) → Ready P Allowed w
      → Returns (append_value P ndebug n c w s) (λ r. (is_empty r.0 ≡ false) × Ready P Allowed r.1)
  unfolding append_value append_chars
  append_value-Ready ndebug n c positive fits w s h = (
    (replicate n c, w, s),
    rw (le→leb n P.max_size fits) refl,
    (replicate-filled n c positive, h),
  )

  pub append_value-KeepsConfig :
      (ndebug : Bool) (n c : ℕ) (w : CoreWorkload P) (s : Seed)
      → KeepsConfig P w (append_value P ndebug n c w s)
  unfolding append_value
  append_value-KeepsConfig ndebug n c w s r h =
      let (v, _, rest) = >>=-eq-ok (append_chars P n c) _ h in
      sym (ap (λ t. config P t.1) (ok-injective _ r rest))

-- ===== src/Client/Written.antt =====
-- What the values that a client builds come to in a database that keeps the first of them.
use ycsb.Prelude.{
  ℕ, suc, ◌-◌, ◌≤◌, ◌<◌, ◌≡◌, refl, ap, ◌∙◌, Bool, true, false, List, [], ◌∷◌, arith,
}
use ycsb.Prelude.Tests.{if◌then◌else◌}
use ycsb.Prelude.Int.{pos_part}
use ycsb.Prelude.Lists.{All, length}
use ycsb.Prelude.Outcome.{Returns}
use ycsb.Prelude.Text.{Bytes, is_empty}
use ycsb.Platform.{Platform}
use ycsb.Db.{KvPair}
use ycsb.Lsm.Contract.{stored}
use ycsb.Generators.Uniform.{ConstGenerator, UniformGenerator}
use ycsb.Generators.Uniform as Uniform
use ycsb.Generators.Any as Any
use ycsb.Generators.Any.{constant, uniform}
use ycsb.Workload.{CoreWorkload, next_field_name, build_values, build_update}
use ycsb.Workload.Fields.{
  field_name, field_names, names, LengthDrawn, fixed_value, build_values-Built, build_values_fixed,
}

stored_first :
    (vs : List KvPair) (m c : ℕ)
    → names vs ≡ field_names (suc m) 0
    → All (λ p. length p.1 ≡ c) vs
    → 0 < c
    → is_empty (stored vs) ≡ false
unfolding stored is_empty field_names
stored_first [] m c h all lt = absurd (cc)
stored_first ((k, []) ∷ vs) m c h all lt = absurd (omega (arith, all.0))
stored_first ((k, _ ∷ _) ∷ vs) m c h all lt = refl

-- A write that is not empty leaves no key without a value that had one.
pub kept_by_write :
    (b : Bool) (u v : Bytes)
    → is_empty u ≡ false
    → is_empty v ≡ false
    → is_empty (if b then u else v) ≡ false
kept_by_write true u v h k = h
kept_by_write false u v h k = k

module _ (P : Platform) where
  open P use {Seed}

  -- BuildValues with lengths of one positive constant that a string can hold, for at least one field.
  pub build_values-stored :
      (ndebug : Bool) (w : CoreWorkload P) (s : Seed) (g : ConstGenerator)
      → w.field_len_generator ≡ constant g
      → 0 < pos_part w.field_count
      → 0 < g.constant
      → g.constant ≤ P.max_size
      → Returns (build_values P ndebug [] w s) λ r.
        (is_empty (stored r.0) ≡ false)
        × LengthDrawn P w r.1
        × (r.1.field_len_generator ≡ constant g)
  build_values-stored ndebug w s g e fields bytes fits =
      let (b, built, (named, all, lengths)) = build_values_fixed P ndebug w s g e fits in
      let some_field : pos_part w.field_count ≡ suc (pos_part w.field_count - 1) = omega arith in
      (
        b,
        built,
        (
          stored_first b.0 (pos_part w.field_count - 1) g.constant
              (named ∙ ap (λ k. field_names k 0) some_field) all bytes,
          (build_values-Built P ndebug [] w s b built).2,
          lengths,
        ),
      )

  -- With a uniform field chooser a field's name can always be drawn.
  pub next_field_name-uniform :
      (ndebug : Bool) (w : CoreWorkload P) (s : Seed) (g : UniformGenerator P)
      → w.field_chooser ≡ uniform g
      → Returns (next_field_name P ndebug w s) λ r.
        (r.0 ≡ field_name (Uniform.next P g).0)
        × (r.1 ≡ record w { field_chooser = uniform (Uniform.next P g).1 })
  unfolding next_field_name Any.next
  next_field_name-uniform ndebug w s g e =
      let (x, g') = Uniform.next P g in
      ((field_name x, record w { field_chooser = uniform g' }, s), rw e, (refl, refl))

  stored_value :
      (name value : Bytes) → 0 < length value → is_empty (stored ((name, value) ∷ [])) ≡ false
  unfolding stored is_empty
  stored_value name [] h = absurd (omega arith)
  stored_value name (_ ∷ _) h = refl

  -- BuildUpdate with a uniform field chooser and lengths of one positive constant that a string
  -- can hold.
  pub build_update-stored :
      (ndebug : Bool) (w : CoreWorkload P) (s : Seed) (f : UniformGenerator P) (g : ConstGenerator)
      → w.field_chooser ≡ uniform f
      → w.field_len_generator ≡ constant g
      → 0 < g.constant
      → g.constant ≤ P.max_size
      → Returns (build_update P ndebug [] w s) λ r.
        (is_empty (stored r.0) ≡ false)
        × (r.1 ≡ record w {
          field_chooser = uniform (Uniform.next P f).1;
          field_len_generator = constant g;
        })
  unfolding build_update
  build_update-stored ndebug w s f g e e' bytes fits =
      let (d, named, (_, frame)) = next_field_name-uniform ndebug w s f e in
      let e'' : d.1.field_len_generator ≡ constant g =
        ap (λ (u : CoreWorkload P). u.field_len_generator) frame ∙ e' in
      let (v, valued, (len, frame')) = fixed_value P ndebug d.1 d.2 g e'' fits in
      (
        ((d.0, v.0) ∷ [], v.1, v.2),
        rw (named, valued),
        (
          stored_value d.0 v.0 (omega (arith, len)),
          frame' ∙ ap (λ (u : CoreWorkload P). record u { field_len_generator = constant g }) frame,
        ),
      )

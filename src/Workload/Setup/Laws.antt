-- ===== src/Workload/Setup/Laws.antt =====
-- What Init makes of the properties.
use ycsb.Prelude.{◌≡◌, refl, sym, ◌∙◌, subst, ◌⊎◌, inl, inr, Bool, true, List, [], ◌∷◌, ◌++◌}
use ycsb.Prelude.Tests.{if◌then◌else◌, Bool-cases}
use ycsb.Prelude.Int.{pos, ◌-ℤ◌, to_u64}
use ycsb.Prelude.Outcome.{ok, >>=-eq-ok, ok-injective}
use ycsb.Prelude.Chars.{stoi}
use ycsb.Platform.{Platform}
use ycsb.Properties.{Properties, get_property}
use ycsb.Generators.Counter as Counter
use ycsb.Generators.Counter.{CounterGenerator}
use ycsb.Generators.Uniform as Uniform
use ycsb.Generators.Discrete as Weighted
use ycsb.Generators.Discrete.{DiscreteGenerator}
use ycsb.Generators.Discrete.Listed as Listed
use ycsb.Generators.Any.{counter, uniform}
use ycsb.Workload.Property as Property
use ycsb.Workload.{
  Operation, insert, read, update, delete, scan, read_modify_write, CoreWorkload, next_operation,
}
use ycsb.Workload.Setup.{
  Settings, get_field_len_generator, read_settings, add_positive, operations, key_chooser_of,
  scan_len_chooser_of, init,
}

module _ (P : Platform) where
  open P use {Double, Seed, lt, of_u64}

  -- The proportion that the properties give an operation.
  unfoldable pub proportion : Settings P → Operation → Double
  proportion c read = c.read_proportion
  proportion c update = c.update_proportion
  proportion c delete = c.delete_proportion
  proportion c insert = c.insert_proportion
  proportion c scan = c.scan_proportion
  proportion c read_modify_write = c.read_modify_write_proportion

  abbrev pub Positive : Settings P → Operation → Type 0
  Positive c op = lt (of_u64 0) (proportion c op) ≡ true

  IsListed-snoc :
      (op o : Operation) (weight : Double) (xs : List (Operation × Double))
      → Listed.IsListed P op (xs ++ (o, weight) ∷ [])
      → (op ≡ o) ⊎ Listed.IsListed P op xs
  IsListed-snoc op o weight [] (inl e) = inl e
  IsListed-snoc op o weight [] (inr h) = absurd h
  IsListed-snoc op o weight (x ∷ xs) (inl e) = inr (inl e)
  IsListed-snoc op o weight (x ∷ xs) (inr h) = elim (IsListed-snoc op o weight xs h) [
    | inl e ↦ inl e
    | inr k ↦ inr (inr k)
  ]

  -- A chooser that is valid and lists only operations of a positive proportion.
  pub record OnlyPositive (c : Settings P) (g : DiscreteGenerator P Operation) : Type 0 where
    pub valid : Listed.IsValid P g
    pub positive : (op : Operation) → Listed.IsListed P op g.values → Positive c op

  add_positive-OnlyPositive :
      (c : Settings P) (o : Operation) (g : DiscreteGenerator P Operation)
      → OnlyPositive c g
      → OnlyPositive c (add_positive P o (proportion c o) g)
  unfolding add_positive
  add_positive-OnlyPositive c o g h = elim (Bool-cases (lt (of_u64 0) (proportion c o))) [
    | inl e ↦
        subst (λ b. OnlyPositive c (if b then Weighted.add_value P o (proportion c o) g else g))
          (sym e)
          (record {
            valid = Listed.add_value-IsValid P g o (proportion c o) h.valid;
            positive = λ op listed.
                elim (IsListed-snoc op o (proportion c o) g.values
                  (unfold Weighted.add_value in listed)) [
                    | inl same ↦ subst (Positive c) (sym same) e
                    | inr old ↦ h.positive op old
                  ];
          })
    | inr e ↦
        subst (λ b. OnlyPositive c (if b then Weighted.add_value P o (proportion c o) g else g))
          (sym e) h
  ]

  new-OnlyPositive : (c : Settings P) → OnlyPositive c (Weighted.new P Operation)
  unfolding Weighted.new
  new-OnlyPositive c = record {
    valid = record { last_listed = refl };
    positive = λ op listed. absurd listed;
  }

  pub operations-OnlyPositive : (c : Settings P) → OnlyPositive c (operations P c)
  unfolding operations proportion
  operations-OnlyPositive c = add_positive-OnlyPositive c read_modify_write _ (
      add_positive-OnlyPositive c scan _ (
        add_positive-OnlyPositive c insert _ (
          add_positive-OnlyPositive c delete _ (
            add_positive-OnlyPositive c update _
              (add_positive-OnlyPositive c read _ (new-OnlyPositive c))))))

  -- With the chooser that Init fills, every operation that NextOperation returns is one whose
  -- proportion in the properties is greater than 0, and it stays so for the calls that follow: the
  -- chooser keeps its values.
  pub next_operation-Positive :
      (ndebug : Bool) (c : Settings P) (w : CoreWorkload P) (s : Seed)
      (r : Operation × CoreWorkload P × Seed)
      → w.op_chooser.values ≡ (operations P c).values
      → Listed.IsValid P w.op_chooser
      → next_operation P ndebug w s ≡ ok r
      → (lt (of_u64 0) (proportion c r.0) ≡ true)
        × (r.1.op_chooser.values ≡ (operations P c).values)
        × Listed.IsValid P r.1.op_chooser
  unfolding next_operation
  next_operation-Positive ndebug c w s r same valid h =
      let (d, drawn, rest) = >>=-eq-ok (Weighted.next P ndebug w.op_chooser s) _ h in
      let l = Listed.next-Listed P ndebug w.op_chooser s d valid drawn in
      subst
        (λ (t : Operation × CoreWorkload P × Seed).
          (lt (of_u64 0) (proportion c t.0) ≡ true)
          × (t.1.op_chooser.values ≡ (operations P c).values)
          × Listed.IsValid P t.1.op_chooser)
        (ok-injective _ r rest)
        (
          (operations-OnlyPositive c).positive d.0 (subst (Listed.IsListed P d.0) same l.listed),
          l.values ∙ same,
          l.valid,
        )

  -- What Init leaves, whatever the distributions: both counters at their starts, the operation
  -- chooser filled by the proportions, the key chooser and the field lengths that go with the
  -- settings, the field count that is asked for, and a uniform choice of fields.
  pub record Initial (ndebug : Bool) (p : Properties) (w : CoreWorkload P) : Type 0 where
    pub settings : Settings P
    pub read : read_settings P p ≡ ok settings
    pub sequence : w.insert_key_sequence ≡ record { counter = to_u64 settings.record_count }
    pub records : w.record_count ≡ to_u64 settings.record_count
    pub keys : w.key_generator ≡ counter (record { counter = to_u64 settings.insert_start })
    pub chooser : w.op_chooser ≡ operations P settings
    pub valid : Listed.IsValid P w.op_chooser
    pub seed : Seed
    pub chosen :
        (s' : Seed) × (key_chooser_of P ndebug p settings w.insert_key_sequence seed
          ≡ ok (w.key_chooser, s'))
    pub counted :
        stoi (get_property p Property.field_count_property Property.field_count_default)
        ≡ ok w.field_count
    pub lengths :
        (s₀ s₁ : Seed) × (get_field_len_generator P ndebug p s₀ ≡ ok (w.field_len_generator, s₁))
    pub fields : (u : Uniform.UniformGenerator P) × (w.field_chooser ≡ uniform u)
    pub scans :
        (s₂ s₃ : Seed) × (scan_len_chooser_of P ndebug settings s₂ ≡ ok (w.scan_len_chooser, s₃))

  -- Whenever Init returns, the insert key sequence stands at the record count, and the keys of
  -- inserts start at the property "insertstart"; the operation chooser holds what the proportions
  -- ask for; the key chooser, the field length generator and the scan length chooser are those of
  -- the properties, the field count is the one asked for, and fields are chosen by a uniform
  -- generator.
  pub init-Initial :
      (ndebug : Bool) (p : Properties) (s : Seed) (r : CoreWorkload P × Seed)
      → init P ndebug p s ≡ ok r
      → Initial ndebug p r.0
  unfolding init Counter.set Counter.new
  init-Initial ndebug p s r h =
      let (n, counted, h₁) =
        >>=-eq-ok (stoi (get_property p Property.field_count_property Property.field_count_default))
          _ h in
      let (f, made, h₂) = >>=-eq-ok (get_field_len_generator P ndebug p s) _ h₁ in
      let (c, settled, h₃) = >>=-eq-ok (read_settings P p) _ h₂ in
      let sequence : CounterGenerator = record { counter = to_u64 c.record_count } in
      let (k, chosen, h₄) = >>=-eq-ok (key_chooser_of P ndebug p c sequence f.1) _ h₃ in
      let (u, _, h₅) = >>=-eq-ok (Uniform.new P 0 (to_u64 (n -ℤ pos 1))) _ h₄ in
      let (z, scanned, h₆) = >>=-eq-ok (scan_len_chooser_of P ndebug c k.1) _ h₅ in
      subst (λ t. Initial ndebug p t.0) (ok-injective _ r h₆)
        (record {
          settings = c;
          read = settled;
          sequence = refl;
          records = refl;
          keys = refl;
          chooser = refl;
          valid = (operations-OnlyPositive c).valid;
          seed = f.1;
          chosen = (k.1, chosen);
          counted = counted;
          lengths = (s, f.1, made);
          fields = (u, refl);
          scans = (k.1, z.1, scanned);
        })

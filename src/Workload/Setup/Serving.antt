-- ===== src/Workload/Setup/Serving.antt =====
-- Properties from which Init makes a workload whose calls always return.
use ycsb.Prelude.{
  ℕ, suc, ◌-◌, ◌^◌, ◌≤◌, ◌<◌, ◌≡◌, refl, sym, ap, ◌∙◌, subst, true, false, ◌||◌, List, [], ◌∷◌,
  ◌++◌, inl, inr, arith,
}
use ycsb.Prelude.Tests.{if-then, if-else, Bool-cases}
use ycsb.Prelude.Lists.{All}
use ycsb.Prelude.Int.{pos, pos_part, to_u64}
use ycsb.Prelude.Outcome.{ok, >>=-eq-ok, ok-injective, then-eq-ok}
use ycsb.Prelude.Text.{str, bytes_eq}
use ycsb.Prelude.Chars.{stoi}
use ycsb.Platform.{Platform, UniformInRange}
use ycsb.Properties.{Properties, get_property}
use ycsb.Generators.Counter as Counter
use ycsb.Generators.Uniform as Uniform
use ycsb.Generators.Uniform.{ConstGenerator, new_const}
use ycsb.Generators.Discrete as Weighted
use ycsb.Generators.Discrete.{DiscreteGenerator}
use ycsb.Generators.Discrete.Listed as Listed
use ycsb.Generators.Any.{uniform, Generator, counter, constant}
use ycsb.Workload.Property as Property
use ycsb.Workload.{Operation, insert, read, update, delete, scan, read_modify_write, CoreWorkload}
use ycsb.Workload.Setup.{
  scan_len_chooser_of, Settings, get_field_len_generator, read_settings, add_positive, operations,
  init,
}
use ycsb.Workload.Setup.Laws.{Positive, proportion, operations-OnlyPositive, init-Initial}
use ycsb.Workload.Setup.Chooser.{init_uniform}
use ycsb.Client.Ready.{IsServed, Serves, Ready}

module _ (P : Platform) where
  open P use {Double, Seed, lt, of_u64}

  -- Properties with the settings `c` and `n` records: uniform requests, values of one length that is
  -- not 0 and that a string can hold, at least one field, uniform lengths of scans, keys from 0 on, reads, and neither deletes
  -- nor scans.
  pub record Serving (p : Properties) (c : Settings P) (n : ℕ) : Type 0 where
    pub read_them : read_settings P p ≡ ok c
    pub uniform_requests :
        bytes_eq
          (get_property p Property.request_distribution_property
            Property.request_distribution_default)
          (str "uniform")
        ≡ true
    pub constant_lengths :
        bytes_eq
          (get_property p Property.field_length_distribution_property
            Property.field_length_distribution_default)
          (str "constant")
        ≡ true
    pub bytes : ℕ
    pub some_byte :
        stoi (get_property p Property.field_length_property Property.field_length_default)
        ≡ ok (pos (suc bytes))
    pub fits : suc bytes ≤ P.max_size
    pub fields : ℕ
    pub some_field :
        stoi (get_property p Property.field_count_property Property.field_count_default)
        ≡ ok (pos (suc fields))
    pub records : c.record_count ≡ pos n
    pub some_record : 0 < n
    pub few : n < 2 ^ 31
    pub uniform_scans : bytes_eq c.scan_len_dist (str "uniform") ≡ true
    pub longest : ℕ
    pub some_length : c.max_scan_len ≡ pos (suc longest)
    pub from_zero : c.insert_start ≡ pos 0
    pub reads : lt (of_u64 0) c.read_proportion ≡ true
    pub no_deletes : lt (of_u64 0) c.delete_proportion ≡ false
    pub no_scans : lt (of_u64 0) c.scan_proportion ≡ false

  abbrev IsFilled : DiscreteGenerator P Operation → Type 0
  IsFilled g = (x : Operation × Double) × (xs : List (Operation × Double)) × (g.values ≡ x ∷ xs)

  add_positive-IsFilled :
      (o : Operation) (w : Double) (g : DiscreteGenerator P Operation)
      → IsFilled g
      → IsFilled (add_positive P o w g)
  unfolding add_positive Weighted.add_value
  add_positive-IsFilled o w g (x, xs, e) = elim (Bool-cases (lt (of_u64 0) w)) [
    | inl h ↦ (
      x,
      xs ++ (o, w) ∷ [],
      ap (λ (k : DiscreteGenerator P Operation). k.values) (if-then (lt (of_u64 0) w) _ _ h)
          ∙ ap (λ l. l ++ (o, w) ∷ []) e,
    )
    | inr h ↦ (
      x,
      xs,
      ap (λ (k : DiscreteGenerator P Operation). k.values) (if-else (lt (of_u64 0) w) _ _ h) ∙ e,
    )
  ]

  first-IsFilled :
      (w : Double)
      → lt (of_u64 0) w ≡ true
      → IsFilled (add_positive P read w (Weighted.new P Operation))
  unfolding add_positive Weighted.add_value Weighted.new
  first-IsFilled w h = (
    (read, w),
    [],
    ap (λ (k : DiscreteGenerator P Operation). k.values) (if-then (lt (of_u64 0) w) _ _ h),
  )

  operations-IsFilled :
      (c : Settings P) → lt (of_u64 0) c.read_proportion ≡ true → IsFilled (operations P c)
  unfolding operations
  operations-IsFilled c h = add_positive-IsFilled read_modify_write _ _ (
      add_positive-IsFilled scan _ _ (
        add_positive-IsFilled insert _ _ (
          add_positive-IsFilled delete _ _
            (add_positive-IsFilled update _ _ (first-IsFilled c.read_proportion h)))))

  All-IsServed :
      (values : List (Operation × Double))
      → ((op : Operation) → Listed.IsListed P op values → IsServed op)
      → All (λ p. IsServed p.0) values
  All-IsServed [] h = tt
  All-IsServed ((o, w) ∷ rest) h = (h o (inl refl), All-IsServed rest (λ op l. h op (inr l)))

  served :
      (c : Settings P) (op : Operation)
      → lt (of_u64 0) c.delete_proportion ≡ false
      → lt (of_u64 0) c.scan_proportion ≡ false
      → Positive P c op
      → IsServed op
  unfolding proportion
  served c read d s h = tt
  served c update d s h = tt
  served c insert d s h = tt
  served c read_modify_write d s h = tt
  served c delete d s h = cc
  served c scan d s h = cc

  operations-Serves :
      (c : Settings P)
      → lt (of_u64 0) c.read_proportion ≡ true
      → lt (of_u64 0) c.delete_proportion ≡ false
      → lt (of_u64 0) c.scan_proportion ≡ false
      → Serves P IsServed (operations P c)
  operations-Serves c r d s =
      let o = operations-OnlyPositive P c in
      let (x, xs, e) = operations-IsFilled c r in
      record {
        valid = o.valid;
        served = All-IsServed (operations P c).values (λ op l. served c op d s (o.positive op l));
        first = x;
        others = xs;
        some_operation = e;
      }

  constant_length :
      (p : Properties) (s : Seed) (b : ℕ) (r : Generator P × Seed)
      → bytes_eq
          (get_property p Property.field_length_distribution_property
            Property.field_length_distribution_default)
          (str "constant")
        ≡ true
      → stoi (get_property p Property.field_length_property Property.field_length_default)
        ≡ ok (pos (suc b))
      → get_field_len_generator P true p s ≡ ok r
      → r.0 ≡ constant (new_const (pos (suc b)))
  unfolding get_field_len_generator
  constant_length p s b r e len h =
      let (n, read_n, rest) =
        >>=-eq-ok
          (stoi (get_property p Property.field_length_property Property.field_length_default)) _
          h in
      let same : n ≡ pos (suc b) = ok-injective n (pos (suc b)) (sym read_n ∙ len) in
      sym (
        ap (λ (q : Generator P × Seed). q.0)
          (ok-injective _ r (
            then-eq-ok _ _ _ r
              (ap
                (λ t.
                  t
                  || bytes_eq
                      (get_property p Property.field_length_distribution_property
                        Property.field_length_distribution_default)
                      (str "fixed"))
                e)
              rest)))
      ∙ ap (λ k. constant (new_const k)) same

  uniform_scan_lengths :
      (c : Settings P) (s : Seed) (r : Generator P × Seed)
      → bytes_eq c.scan_len_dist (str "uniform") ≡ true
      → scan_len_chooser_of P true c s ≡ ok r
      → (u : Uniform.UniformGenerator P) × (r.0 ≡ uniform u)
  unfolding scan_len_chooser_of
  uniform_scan_lengths c s r e h =
      let (u, _, rest) =
        >>=-eq-ok (Uniform.new P 1 (to_u64 c.max_scan_len)) _ (then-eq-ok _ _ _ r e h) in
      (u, sym (ap (λ (q : Generator P × Seed). q.0) (ok-injective _ r rest)))

  pub init-Ready :
      UniformInRange P
      → (p : Properties) (c : Settings P) (n : ℕ) (s : Seed) (r : CoreWorkload P × Seed)
      → Serving p c n
      → init P true p s ≡ ok r
      → Ready P IsServed r.0
        × (r.0.key_generator ≡ counter (record { counter = 0 }))
        × (Counter.last r.0.insert_key_sequence ≡ n - 1)
  unfolding to_u64 new_const
  init-Ready L p c n s r v h =
      let i = init-Initial P true p s r h in
      let same : i.settings ≡ c = ok-injective i.settings c (sym i.read ∙ v.read_them) in
      let count : r.0.record_count ≡ n =
        i.records ∙ ap (λ (k : Settings P). to_u64 k.record_count) same ∙ ap to_u64 v.records in
      let (u, requested, over, last) =
        init_uniform P L true p s r h v.uniform_requests (omega (arith, v.some_record, count))
          (omega (arith, v.few, count)) in
      let (s₀, s₁, made) = i.lengths in
      let length =
        constant_length p s₀ v.bytes (r.0.field_len_generator, s₁) v.constant_lengths v.some_byte
          made in
      let fields : r.0.field_count ≡ pos (suc v.fields) =
        ok-injective _ _ (sym i.counted ∙ v.some_field) in
      (
        record {
          requests = (u, requested, subst (λ k. Uniform.IsOver P 0 k u) (sym last) over);
          fields = i.fields;
          scans =
              uniform_scan_lengths i.settings i.scans.0 _
                (ap (λ (k : Settings P). bytes_eq k.scan_len_dist (str "uniform")) same
                  ∙ v.uniform_scans)
                i.scans.2;
          lengths = (new_const (pos (suc v.bytes)), length, omega arith, omega (arith, v.fits));
          keys = (_, i.keys);
          operations =
              subst (Serves P IsServed) (sym (i.chooser ∙ ap (operations P) same))
                (operations-Serves c v.reads v.no_deletes v.no_scans);
          some_field = omega (arith, ap pos_part fields);
        },
        i.keys
            ∙ ap (λ (k : Settings P). counter (record { counter = to_u64 k.insert_start })) same
            ∙ ap (λ k. counter (record { counter = to_u64 k })) v.from_zero,
        last ∙ ap (λ k. k - 1) count,
      )

-- ===== src/Workload/Fields.antt =====
-- The records that BuildValues and BuildUpdate write.
use ycsb.Prelude.{
  ℕ, zero, suc, ◌+◌, ◌≤◌, ◌≡◌, refl, sym, ap, ◌∙◌, subst, Bool, List, [], ◌∷◌, ◌++◌, map, arith,
}
use mathlib.Core.List.{append_assoc, append-nil, map-append}
use ycsb.Prelude.Tests.{le→leb}
use ycsb.Prelude.Lists.{All, length, replicate, length-replicate}
use ycsb.Prelude.Int.{pos_part}
use ycsb.Prelude.Outcome.{ok, >>=-eq-ok, ok-injective, Returns}
use ycsb.Prelude.Text.{Bytes, str, to_string}
use ycsb.Platform.{Platform}
use ycsb.Utils.{random_print_char}
use ycsb.Db.{KvPair}
use ycsb.Generators.Any as Any
use ycsb.Generators.Any.{Generator, constant}
use ycsb.Generators.Uniform.{ConstGenerator, next_const}
use ycsb.Workload.{
  CoreWorkload, append_chars, next_value, next_field_name, build_fields, build_values, build_update,
}

-- "field" with the number.
abbrev pub field_name : ℕ → Bytes
field_name i = str "field" ++ to_string i

-- `n` names from number `i` on.
unfoldable pub field_names : ℕ → ℕ → List Bytes
field_names zero i = []
field_names (suc n) i = field_name i ∷ field_names n (i + 1)

abbrev pub names : List KvPair → List Bytes
names = map (λ p. p.0)

-- Every byte is a printable character of ASCII other than the blank.
abbrev pub IsPrintable : Bytes → Type 0
IsPrintable s = All (λ c. (33 ≤ c) × (c ≤ 126)) s

module _ (P : Platform) where
  open P use {Seed}

  abbrev pub LengthDrawn : CoreWorkload P → CoreWorkload P → Type 0
  LengthDrawn w w' = w' ≡ record w { field_len_generator = w'.field_len_generator }

  replicate-IsPrintable : (n c : ℕ) → 33 ≤ c → c ≤ 126 → IsPrintable (replicate n c)
  replicate-IsPrintable zero c lo hi = tt
  replicate-IsPrintable (suc n) c lo hi = ((lo, hi), replicate-IsPrintable n c lo hi)

  appended-eq : (n c : ℕ) (v : Bytes) → append_chars P n c ≡ ok v → replicate n c ≡ v
  unfolding append_chars
  appended-eq n c v h = ground arith

  next_value-IsPrintable :
      (ndebug : Bool) (w : CoreWorkload P) (s : Seed) (r : Bytes × CoreWorkload P × Seed)
      → next_value P ndebug w s ≡ ok r
      → IsPrintable r.0 × LengthDrawn w r.1
  unfolding next_value append_chars random_print_char
  next_value-IsPrintable ndebug w s r h =
      let (d, drawn, rest) =
        >>=-eq-ok (Any.next P ndebug w.insert_key_sequence w.field_len_generator s) _ h in
      let (v, appended, last) = >>=-eq-ok (append_chars P d.0 (random_print_char P d.2).0) _ rest in
      subst (λ t. IsPrintable t.0 × LengthDrawn w t.1) (ok-injective _ r last)
        (
          subst IsPrintable (appended-eq d.0 (random_print_char P d.2).0 v appended)
              (replicate-IsPrintable d.0 _ (omega arith) (omega arith)),
          refl,
        )

  -- What the loop adds to the values there are.
  abbrev pub Built :
      ℕ → ℕ → List KvPair → CoreWorkload P → List KvPair × CoreWorkload P × Seed → Type 0
  Built n i values w r =
      (names r.0 ≡ names values ++ field_names n i)
      × (All (λ p. IsPrintable p.1) values → All (λ p. IsPrintable p.1) r.0)
      × LengthDrawn w r.1

  All-snoc :
      {A : Type 0} (Q : A → Type 0) (xs : List A) (x : A) → All Q xs → Q x → All Q (xs ++ x ∷ [])
  All-snoc Q [] x h q = (q, tt)
  All-snoc Q (y ∷ xs) x h q = (h.0, All-snoc Q xs x h.1 q)

  build_fields-Built :
      (n i : ℕ) (ndebug : Bool) (values : List KvPair) (w : CoreWorkload P) (s : Seed)
      (r : List KvPair × CoreWorkload P × Seed)
      → build_fields P n i ndebug values w s ≡ ok r
      → Built n i values w r
  unfolding build_fields field_names
  build_fields-Built zero i ndebug values w s r h =
      subst (Built zero i values w) (ok-injective _ r h)
        (sym (append-nil (names values)), λ a. a, refl)
  build_fields-Built (suc n) i ndebug values w s r h =
      let (d, drawn, rest) = >>=-eq-ok (next_value P ndebug w s) _ h in
      let (printable, frame) = next_value-IsPrintable ndebug w s d drawn in
      let pair : KvPair = (field_name i, d.0) in
      let (listed, kept, frame') =
        build_fields-Built n (i + 1) ndebug (values ++ pair ∷ []) d.1 d.2 r rest in
      (
        listed
            ∙ ap (λ l. l ++ field_names n (i + 1))
                (map-append (λ (p : KvPair). p.0) values (pair ∷ []))
            ∙ append_assoc (names values) (field_name i ∷ []) (field_names n (i + 1)),
        λ a. kept (All-snoc (λ p. IsPrintable p.1) values pair a printable),
        frame'
            ∙ ap
                (λ (u : CoreWorkload P). record u { field_len_generator = r.1.field_len_generator })
                frame,
      )

  -- Whenever BuildValues returns, it has appended one pair for each field, in order: their names are
  -- "field0", "field1" and so on, as many as the workload has fields, and no new value has any but
  -- printable characters. It has changed nothing of the workload but the field length generator.
  pub build_values-Built :
      (ndebug : Bool) (values : List KvPair) (w : CoreWorkload P) (s : Seed)
      (r : List KvPair × CoreWorkload P × Seed)
      → build_values P ndebug values w s ≡ ok r
      → Built (pos_part w.field_count) 0 values w r
  unfolding build_values
  build_values-Built ndebug values w s r h =
      build_fields-Built (pos_part w.field_count) 0 ndebug values w s r h

  -- Whenever BuildValues returns, starting from no values, it gives one pair for each field, in
  -- order: their names are "field0", "field1" and so on, as many as the workload has fields, and no
  -- value has any but printable characters. It has changed nothing of the workload but the field
  -- length generator.
  pub build_values-All :
      (ndebug : Bool) (w : CoreWorkload P) (s : Seed) (r : List KvPair × CoreWorkload P × Seed)
      → build_values P ndebug [] w s ≡ ok r
      → (names r.0 ≡ field_names (pos_part w.field_count) 0)
        × All (λ p. IsPrintable p.1) r.0
        × LengthDrawn w r.1
  build_values-All ndebug w s r h =
      let (listed, printable, frame) = build_values-Built ndebug [] w s r h in
      (listed, printable tt, frame)

  pub next_field_name_lem :
      (ndebug : Bool) (w : CoreWorkload P) (s : Seed) (r : Bytes × CoreWorkload P × Seed)
      → next_field_name P ndebug w s ≡ ok r
      → (n : ℕ) × (r.0 ≡ field_name n) × (r.1 ≡ record w { field_chooser = r.1.field_chooser })
  unfolding next_field_name
  next_field_name_lem ndebug w s r h =
      let (d, drawn, rest) =
        >>=-eq-ok (Any.next P ndebug w.insert_key_sequence w.field_chooser s) _ h in
      subst
        (λ t.
          (n : ℕ) × (t.0 ≡ field_name n) × (t.1 ≡ record w { field_chooser = t.1.field_chooser }))
        (ok-injective _ r rest) (d.0, refl, refl)

  -- Whenever BuildUpdate returns, it has appended one pair: a field's name, and a value of printable
  -- characters. It has changed nothing of the workload but the two generators that it draws from.
  pub build_update-Built :
      (ndebug : Bool) (values : List KvPair) (w : CoreWorkload P) (s : Seed)
      (r : List KvPair × CoreWorkload P × Seed)
      → build_update P ndebug values w s ≡ ok r
      → (n : ℕ) × (v : Bytes) × (r.0 ≡ values ++ (field_name n, v) ∷ [])
        × IsPrintable v
        × (r.1 ≡ record w {
          field_chooser = r.1.field_chooser;
          field_len_generator = r.1.field_len_generator;
        })
  unfolding build_update
  build_update-Built ndebug values w s r h =
      let (d, named, rest) = >>=-eq-ok (next_field_name P ndebug w s) _ h in
      let (e, valued, last) = >>=-eq-ok (next_value P ndebug d.1 d.2) _ rest in
      let (n, name, frame) = next_field_name_lem ndebug w s d named in
      let (printable, frame') = next_value-IsPrintable ndebug d.1 d.2 e valued in
      let q = ok-injective _ r last in
      (
        n,
        e.0,
        sym (ap (λ t. t.0) q) ∙ ap (λ m. values ++ (m, e.0) ∷ []) name,
        printable,
        subst
            (λ (t : List KvPair × CoreWorkload P × Seed). t.1 ≡ record w {
              field_chooser = t.1.field_chooser;
              field_len_generator = t.1.field_len_generator;
            })
            q
            (frame'
              ∙ ap
                  (λ (u : CoreWorkload P). record u {
                    field_len_generator = e.1.field_len_generator;
                  })
                  frame
              ∙ ap
                  (λ g. record w {
                    field_chooser = g;
                    field_len_generator = e.1.field_len_generator;
                  })
                  (sym (ap (λ u. u.field_chooser) frame'))),
      )

  pub fixed_value :
      (ndebug : Bool) (w : CoreWorkload P) (s : Seed) (g : ConstGenerator)
      → w.field_len_generator ≡ constant g
      → g.constant ≤ P.max_size
      → Returns
          (next_value P ndebug w s)
          λ r. (length r.0 ≡ g.constant) × (r.1 ≡ record w { field_len_generator = constant g })
  unfolding next_value append_chars Any.next next_const random_print_char
  fixed_value ndebug w s g e fits =
      let (c, s') = random_print_char P s in
      (
        (replicate g.constant c, record w { field_len_generator = constant g }, s'),
        rw (e, le→leb g.constant P.max_size fits) refl,
        (length-replicate {0} g.constant c, refl),
      )

  fixed_fields :
      (n i : ℕ) (ndebug : Bool) (values : List KvPair) (w : CoreWorkload P) (s : Seed)
      (g : ConstGenerator)
      → w.field_len_generator ≡ constant g
      → g.constant ≤ P.max_size
      → All (λ p. length p.1 ≡ g.constant) values
      → Returns
          (build_fields P n i ndebug values w s)
          λ r. All (λ p. length p.1 ≡ g.constant) r.0 × (r.1.field_len_generator ≡ constant g)
  unfolding build_fields
  fixed_fields zero i ndebug values w s g e fits h = ((values, w, s), refl, (h, e))
  fixed_fields (suc n) i ndebug values w s g e fits h =
      let (d, run, (len, frame)) = fixed_value ndebug w s g e fits in
      let e' = ap (λ (u : CoreWorkload P). u.field_len_generator) frame in
      let (r, rest, all) =
        fixed_fields n (i + 1) ndebug (values ++ (field_name i, d.0) ∷ []) d.1 d.2 g e' fits
          (All-snoc (λ p. length p.1 ≡ g.constant) values (field_name i, d.0) h len) in
      (r, rw run rest, all)

  -- With field lengths of one constant that a string can hold BuildValues returns, every field has
  -- its value, and every value has that length.
  pub build_values_fixed :
      (ndebug : Bool) (w : CoreWorkload P) (s : Seed) (g : ConstGenerator)
      → w.field_len_generator ≡ constant g
      → g.constant ≤ P.max_size
      → Returns (build_values P ndebug [] w s) λ r.
        (names r.0 ≡ field_names (pos_part w.field_count) 0)
        × All (λ p. length p.1 ≡ g.constant) r.0
        × (r.1.field_len_generator ≡ constant g)
  unfolding build_values
  build_values_fixed ndebug w s g e fits =
      let (r, run, all) = fixed_fields (pos_part w.field_count) 0 ndebug [] w s g e fits tt in
      (r, run, ((build_values-Built ndebug [] w s r run).0, all.0, all.1))

-- ===== src/Workload/Setup/Chooser.antt =====
-- The key chooser that Init makes for uniform requests.
use ycsb.Prelude.{◌+◌, ◌-◌, ◌%◌, ◌^◌, ◌<◌, ◌≡◌, sym, ap, ◌∙◌, subst, Bool, true, [], arith}
use ycsb.Prelude.Int.{to_u64}
use ycsb.Prelude.Outcome.{ok, >>=-eq-ok, ok-injective, then-eq-ok, Returns-ok}
use ycsb.Prelude.Text.{str, bytes_eq}
use ycsb.Prelude.Chars.{stoi}
use ycsb.Platform.{Platform, UniformInRange}
use ycsb.Properties.{Properties, get_property}
use ycsb.Utils.{str_to_bool}
use ycsb.Generators.Counter as Counter
use ycsb.Generators.Counter.{CounterGenerator}
use ycsb.Generators.Uniform as Uniform
use ycsb.Generators.Any.{Generator, uniform}
use ycsb.Workload.Property as Property
use ycsb.Workload.{CoreWorkload}
use ycsb.Workload.Setup.{Settings, read_settings, key_chooser_of, init}
use ycsb.Workload.Setup.Laws.{init-Initial}

module _ (P : Platform) where
  open P use {Seed, stod}

  pub read_settings_texts :
      (p : Properties) (c : Settings P)
      → read_settings P p ≡ ok c
      → (stoi (get_property p Property.record_count_property []) ≡ ok c.record_count)
        × (c.request_dist
            ≡ get_property p Property.request_distribution_property
                Property.request_distribution_default)
  unfolding read_settings
  read_settings_texts p c h =
      let (_, _, h₁) =
        >>=-eq-ok
          (stod (get_property p Property.read_proportion_property Property.read_proportion_default))
          _ h in
      let (_, _, h₂) =
        >>=-eq-ok
          (stod
            (get_property p Property.update_proportion_property Property.update_proportion_default))
          _ h₁ in
      let (_, _, h₃) =
        >>=-eq-ok
          (stod
            (get_property p Property.delete_proportion_property Property.delete_proportion_default))
          _ h₂ in
      let (_, _, h₄) =
        >>=-eq-ok
          (stod
            (get_property p Property.insert_proportion_property Property.insert_proportion_default))
          _ h₃ in
      let (_, _, h₅) =
        >>=-eq-ok
          (stod (get_property p Property.scan_proportion_property Property.scan_proportion_default))
          _ h₄ in
      let (_, _, h₆) =
        >>=-eq-ok
          (stod (
            get_property p Property.readmodifywrite_proportion_property
              Property.readmodifywrite_proportion_default))
          _ h₅ in
      let (_, counted, h₇) =
        >>=-eq-ok (stoi (get_property p Property.record_count_property [])) _ h₆ in
      let (_, _, h₈) =
        >>=-eq-ok
          (stoi (get_property p Property.zero_padding_property Property.zero_padding_default)) _
          h₇ in
      let (_, _, h₉) =
        >>=-eq-ok
          (stoi (get_property p Property.max_scan_length_property Property.max_scan_length_default))
          _ h₈ in
      let (_, _, k₁) =
        >>=-eq-ok
          (stoi (get_property p Property.insert_start_property Property.insert_start_default)) _
          h₉ in
      let (_, _, k₂) =
        >>=-eq-ok
          (str_to_bool
            (get_property p Property.read_all_fields_property Property.read_all_fields_default))
          _ k₁ in
      let (_, _, k₃) =
        >>=-eq-ok
          (str_to_bool
            (get_property p Property.write_all_fields_property Property.write_all_fields_default))
          _ k₂ in
      let e = ok-injective _ c k₃ in
      (
        counted ∙ ap (λ (s : Settings P). ok s.record_count) e,
        sym (ap (λ (s : Settings P). s.request_dist) e),
      )

  -- Whenever Init returns, asked for uniform requests and at least one record, the key chooser draws
  -- from the numbers from 0 to the last number of the insert key sequence, both included, which is
  -- one less than the record count.
  pub init_uniform :
      UniformInRange P
      → (ndebug : Bool) (p : Properties) (s : Seed) (r : CoreWorkload P × Seed)
      → init P ndebug p s ≡ ok r
      → bytes_eq
          (get_property p Property.request_distribution_property
            Property.request_distribution_default)
          (str "uniform")
        ≡ true
      → 0 < r.0.record_count
      → r.0.record_count < 2 ^ 64
      → (g : Uniform.UniformGenerator P) × (r.0.key_chooser ≡ uniform g)
        × Uniform.IsOver P 0 (r.0.record_count - 1) g
        × (Counter.last r.0.insert_key_sequence ≡ r.0.record_count - 1)
  unfolding key_chooser_of Counter.last
  init_uniform L ndebug p s r h e pos_count bound =
      let i = init-Initial P ndebug p s r h in
      let wanted : bytes_eq i.settings.request_dist (str "uniform") ≡ true =
        ap (λ d. bytes_eq d (str "uniform")) (read_settings_texts p i.settings i.read).1 ∙ e in
      let count = to_u64 i.settings.record_count in
      let top = (count + 2 ^ 64 - 1) % 2 ^ 64 in
      let records : r.0.record_count ≡ count = i.records in
      let (g, made, returned) =
        >>=-eq-ok (Uniform.new P 0 top) _
          (then-eq-ok (bytes_eq i.settings.request_dist (str "uniform")) _ _ _ wanted i.chosen.1) in
      let over =
        Returns-ok (Uniform.IsOver P 0 top) _ g (Uniform.new-IsOver P L 0 top (omega arith)) made in
      let t : top ≡ r.0.record_count - 1 = omega (arith, records) in
      (
        g,
        sym (ap (λ (q : Generator P × Seed). q.0) (ok-injective _ _ returned)),
        subst (λ k. Uniform.IsOver P 0 k g) t over,
        ap Counter.last i.sequence ∙ t,
      )

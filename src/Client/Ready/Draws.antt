-- ===== src/Client/Ready/Draws.antt =====
-- Each draw from a ready workload returns, and leaves it ready.
use ycsb.Prelude.{
  ℕ, suc, ◌≤◌, ◌≡◌, refl, sym, ◌∙◌, subst, true, false, none, some, [], ◌∷◌, ◌++◌, inl, inr,
}
use ycsb.Prelude.Tests.{Bool-cases, if-then, if-else}
use ycsb.Prelude.Outcome.{Returns}
use ycsb.Prelude.Text.{str, is_empty}
use ycsb.Platform.{Platform, UniformInRange}
use ycsb.Lsm.Contract.{stored}
use ycsb.Generators.Counter as Counter
use ycsb.Generators.Uniform as Uniform
use ycsb.Generators.Any as Any
use ycsb.Generators.Any.{uniform}
use ycsb.Workload.{
  Operation, CoreWorkload, key_name, next_sequence_key, next_transaction_key, next_scan_length,
  next_field_name, build_values, build_update,
}
use ycsb.Workload.Keys.{next_transaction_key-uniform, next_sequence_key_lem}
use ycsb.Client.{requested_fields, one_field, written_values}
use ycsb.Client.Written.{build_values-stored, build_update-stored, next_field_name-uniform}
use ycsb.Client.Ready.{Ready}

module _ (P : Platform) (Allowed : Operation → Type 0) where
  open P use {Double, Seed}

  pub next_transaction_key-Ready :
      UniformInRange P
      → (fuel : ℕ) (w : CoreWorkload P) (s : Seed) → Ready P Allowed w
      → Returns (next_transaction_key P (suc fuel) true w s) λ r.
        ((k : ℕ) × (k ≤ Counter.last w.insert_key_sequence) × (r.0 ≡ key_name P w k))
        × Ready P Allowed r.1
  next_transaction_key-Ready L fuel w s h =
      let (u, e, over) = h.requests in
      let (_, below, _, over') = Uniform.next_range P L u 0 _ over in
      let (r, run, (named, frame, _)) = next_transaction_key-uniform P L fuel true w s u e over in
      (
        r,
        run,
        (
          ((Uniform.next P u).0, below, named),
          subst (Ready P Allowed) (sym frame) (record {
            requests = ((Uniform.next P u).1, refl, over');
            fields = h.fields;
            scans = h.scans;
            lengths = h.lengths;
            keys = h.keys;
            operations = h.operations;
            some_field = h.some_field;
          }),
        ),
      )

  pub next_sequence_key-Ready :
      (w : CoreWorkload P) (s : Seed)
      → Ready P Allowed w
      → Returns (next_sequence_key P true w s) (λ r. Ready P Allowed r.1)
  next_sequence_key-Ready w s h =
      let (c, e) = h.keys in
      (
        _,
        next_sequence_key_lem P true w s c e,
        record {
          requests = h.requests;
          fields = h.fields;
          scans = h.scans;
          lengths = h.lengths;
          keys = (_, refl);
          operations = h.operations;
          some_field = h.some_field;
        },
      )

  pub next_field_name-Ready :
      (w : CoreWorkload P) (s : Seed)
      → Ready P Allowed w
      → Returns (next_field_name P true w s) (λ r. Unit {0} × Ready P Allowed r.1)
  next_field_name-Ready w s h =
      let (u, e) = h.fields in
      let (d, named, (_, frame)) = next_field_name-uniform P true w s u e in
      (
        d,
        named,
        (
          tt,
          subst (Ready P Allowed) (sym frame) (record {
            requests = h.requests;
            fields = ((Uniform.next P u).1, refl);
            scans = h.scans;
            lengths = h.lengths;
            keys = h.keys;
            operations = h.operations;
            some_field = h.some_field;
          }),
        ),
      )

  pub next_scan_length-Ready :
      (w : CoreWorkload P) (s : Seed)
      → Ready P Allowed w
      → Returns (next_scan_length P true w s) (λ r. Unit {0} × Ready P Allowed r.1)
  unfolding next_scan_length Any.next
  next_scan_length-Ready w s h =
      let (u, e) = h.scans in
      let (n, u') = Uniform.next P u in
      (
        (n, record w { scan_len_chooser = uniform u' }, s),
        rw e,
        (
          tt,
          record {
            requests = h.requests;
            scans = (u', refl);
            fields = h.fields;
            lengths = h.lengths;
            keys = h.keys;
            operations = h.operations;
            some_field = h.some_field;
          },
        ),
      )

  one_field-Ready :
      (w : CoreWorkload P) (s : Seed)
      → Ready P Allowed w
      → Returns (one_field P true w s) (λ r. Ready P Allowed r.1)
  unfolding one_field
  one_field-Ready w s h =
      let (d, named, (_, ready)) = next_field_name-Ready w s h in
      ((some ((str "field" ++ d.0) ∷ []), d.1, d.2), rw named, ready)

  pub requested_fields-Ready :
      (w : CoreWorkload P) (s : Seed)
      → Ready P Allowed w
      → Returns (requested_fields P true w s) (λ r. Ready P Allowed r.1)
  unfolding requested_fields
  requested_fields-Ready w s h = elim (Bool-cases w.read_all_fields) [
    | inl e ↦ ((none, w, s), if-then w.read_all_fields _ _ e, h)
    | inr e ↦
        let (r, run, ready) = one_field-Ready w s h in
        (r, if-else w.read_all_fields _ _ e ∙ run, ready)
  ]

  pub build_values-Ready :
      (w : CoreWorkload P) (s : Seed)
      → Ready P Allowed w
      → Returns
          (build_values P true [] w s)
          (λ r. (is_empty (stored r.0) ≡ false) × Ready P Allowed r.1)
  build_values-Ready w s h =
      let (c, e, bytes, fits) = h.lengths in
      let (r, run, (filled, frame, lengths)) =
        build_values-stored P true w s c e h.some_field bytes fits in
      (
        r,
        run,
        (
          filled,
          subst (Ready P Allowed) (sym frame) (record {
            requests = h.requests;
            fields = h.fields;
            scans = h.scans;
            lengths = (c, lengths, bytes, fits);
            keys = h.keys;
            operations = h.operations;
            some_field = h.some_field;
          }),
        ),
      )

  build_update-Ready :
      (w : CoreWorkload P) (s : Seed)
      → Ready P Allowed w
      → Returns
          (build_update P true [] w s)
          (λ r. (is_empty (stored r.0) ≡ false) × Ready P Allowed r.1)
  build_update-Ready w s h =
      let (c, e, bytes, fits) = h.lengths in
      let (u, chosen) = h.fields in
      let (r, run, (filled, frame)) = build_update-stored P true w s u c chosen e bytes fits in
      (
        r,
        run,
        (
          filled,
          subst (Ready P Allowed) (sym frame) (record {
            requests = h.requests;
            fields = ((Uniform.next P u).1, refl);
            scans = h.scans;
            lengths = (c, refl, bytes, fits);
            keys = h.keys;
            operations = h.operations;
            some_field = h.some_field;
          }),
        ),
      )

  pub written_values-Ready :
      (w : CoreWorkload P) (s : Seed)
      → Ready P Allowed w
      → Returns
          (written_values P true w s)
          (λ r. (is_empty (stored r.0) ≡ false) × Ready P Allowed r.1)
  unfolding written_values
  written_values-Ready w s h = elim (Bool-cases w.write_all_fields) [
    | inl e ↦
        let (r, run, ready) = build_values-Ready w s h in
        (r, if-then w.write_all_fields _ _ e ∙ run, ready)
    | inr e ↦
        let (r, run, ready) = build_update-Ready w s h in
        (r, if-else w.write_all_fields _ _ e ∙ run, ready)
  ]

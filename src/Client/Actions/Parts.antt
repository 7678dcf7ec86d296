-- ===== src/Client/Actions/Parts.antt =====
-- The programs that draw keys and build values, with other threads between their actions.
use ycsb.Prelude.{
  ℕ, zero, suc, ◌+◌, ◌≤◌, ◌<◌, ◌≡◌, sym, ap, ◌∙◌, subst, Bool, true, false, List, [], ◌∷◌, ◌++◌,
  arith,
}
use ycsb.Prelude.Tests.{leb, le→leb, if◌then◌else◌}
use ycsb.Prelude.Outcome.{Returns}
use ycsb.Prelude.Text.{Bytes, str, to_string, is_empty}
use ycsb.Platform.{Platform, UniformInRange}
use ycsb.Db.{Db, KvPair}
use ycsb.Lsm.Contract.{stored}
use ycsb.Generators.Counter as Counter
use ycsb.Actions.{Prog, once, look, ◌>>=◌}
use ycsb.Actions.Safe.{IsSafe, once-IsSafe, ret-IsSafe, then-IsSafe}
use ycsb.Workload.{Operation, key_name, CoreWorkload, build_key_name, next_sequence_key}
use ycsb.Workload.Frame.{
  Config, KeepsConfig, next_sequence_key-KeepsConfig, next_field_name-KeepsConfig,
}
use ycsb.Client.{World}
use ycsb.Client.Calls.{WorkloadCall, draw_number, on_workload}
use ycsb.Client.Ready.{Ready}
use ycsb.Client.Ready.Operations.{choose_operation-Ready}
use ycsb.Client.Ready.Draws.{next_sequence_key-Ready, next_field_name-Ready}
use ycsb.Client.Service.{HasValue}
use ycsb.Client.Actions.{
  operation_program, sequence_key_program, transaction_key_program, value_program, fields_program,
  values_program, update_program, one_field_program, requested_program, written_program,
}
use ycsb.Client.Actions.Kept.{Kept, on_workload-Keeps, look-IsSafe}
use ycsb.Client.Actions.Draws.{
  draw_number-Ready, draw_number-KeepsConfig, draw_length-Ready, draw_length-KeepsConfig,
  draw_chance-Ready, draw_chance-KeepsConfig, choose_operation-KeepsConfig, draw_char-Ready,
  draw_char-KeepsConfig, append_value-Ready, append_value-KeepsConfig,
}

-- What a write needs to leave its key with a value.
abbrev pub Filled : List KvPair → Type 0
Filled vs = is_empty (stored vs) ≡ false

Filled-append : (vs : List KvPair) (p : KvPair) → Filled vs → Filled (vs ++ p ∷ [])
unfolding stored is_empty
Filled-append [] p h = absurd (cc)
Filled-append (v ∷ vs) p h = h

Filled-one : (name value : Bytes) → is_empty value ≡ false → Filled ((name, value) ∷ [])
unfolding stored
Filled-one name value h = h

module _ (P : Platform) (D : Db) (view : D.State → Bytes → Bytes)
    (Allowed : Operation → Type 0) where
  open P use {Seed}

  module _ (c : Config) (d₀ : D.State) where
    -- Safe against other threads that keep the workload ready and the values where they are.
    abbrev pub IsSteady : {A : Type 0} → (A → Type 0) → Prog (World P D) A → Type 0
    IsSteady Q p = IsSafe (Kept P D view Allowed c d₀) Q p

    -- A draw, whatever it gives.
    pub draw-IsSteady :
        {A : Type 0} (Q : A → Type 0) (f : WorkloadCall P A)
        → ((w : CoreWorkload P) (s : Seed)
            → Ready P Allowed w
            → Returns (f w s) (λ r. Q r.0 × Ready P Allowed r.1))
        → ((w : CoreWorkload P) (s : Seed) → KeepsConfig P w (f w s))
        → IsSteady Q (once (on_workload f))
    draw-IsSteady Q f returns frame =
        once-IsSafe _ (on_workload-Keeps P D view Allowed c d₀ Q f (λ w s h e. returns w s h) frame)

    value-IsSteady : IsSteady (λ v. is_empty v ≡ false) (value_program P D true)
    unfolding value_program
    value-IsSteady =
        then-IsSafe _
          (draw-IsSteady (λ n. (0 < n) × (n ≤ P.max_size)) _ (draw_length-Ready P Allowed true)
            (draw_length-KeepsConfig P Allowed true))
          (λ n (positive, fits).
            then-IsSafe _
              (draw-IsSteady (λ _. Unit) _ (draw_char-Ready P Allowed true)
                (draw_char-KeepsConfig P Allowed true))
              (λ b _.
                draw-IsSteady (λ v. is_empty v ≡ false) _
                  (append_value-Ready P Allowed true n b positive fits)
                  (append_value-KeepsConfig P Allowed true n b)))

    fields-IsSteady :
        (n i : ℕ) (values : List KvPair)
        → Filled values
        → IsSteady Filled (fields_program P D true n i values)
    unfolding fields_program
    fields-IsSteady zero i values h = ret-IsSafe _ h
    fields-IsSteady (suc n) i values h =
        then-IsSafe _ value-IsSteady λ v _.
          fields-IsSteady n (i + 1) _ (Filled-append values (str "field" ++ to_string i, v) h)

    some_fields-IsSteady : (n : ℕ) → 0 < n → IsSteady Filled (fields_program P D true n 0 [])
    unfolding fields_program
    some_fields-IsSteady zero h = absurd (omega arith)
    some_fields-IsSteady (suc n) h =
        then-IsSafe _ value-IsSteady λ v filled. fields-IsSteady n 1 _ (Filled-one _ v filled)

    pub values-IsSteady : IsSteady Filled (values_program P D true)
    unfolding values_program
    values-IsSteady =
        then-IsSafe _ (look-IsSafe P D view Allowed c d₀ (λ n. 0 < n) _ (λ x h. h.ready.some_field))
          some_fields-IsSteady

    update-IsSteady : IsSteady Filled (update_program P D true)
    unfolding update_program
    update-IsSteady =
        then-IsSafe _
          (draw-IsSteady (λ _. Unit) _ (next_field_name-Ready P Allowed)
            (next_field_name-KeepsConfig P true))
          (λ name _.
            then-IsSafe _ value-IsSteady (λ v filled. ret-IsSafe _ (Filled-one name v filled)))

    one_field-IsSteady : IsSteady (λ _. Unit) (one_field_program P D true)
    unfolding one_field_program
    one_field-IsSteady =
        then-IsSafe _
          (draw-IsSteady (λ _. Unit) _ (next_field_name-Ready P Allowed)
            (next_field_name-KeepsConfig P true))
          (λ name _. ret-IsSafe _ tt)

    either-IsSteady :
        {A : Type 0} {Q : A → Type 0} {p q : Prog (World P D) A} (b : Bool)
        → IsSteady Q p
        → IsSteady Q q
        → IsSteady Q (if b then p else q)
    either-IsSteady true h k = h
    either-IsSteady false h k = k

    -- A look at a member that says which of two programs comes next.
    choice-IsSteady :
        {A : Type 0} {Q : A → Type 0} {p q : Prog (World P D) A} (f : World P D → Bool)
        → IsSteady Q p
        → IsSteady Q q
        → IsSteady Q (look f >>= λ b. if b then p else q)
    choice-IsSteady f h k =
        then-IsSafe _ (look-IsSafe P D view Allowed c d₀ (λ _. Unit) f (λ x _. tt))
          (λ b _. either-IsSteady b h k)

    pub requested-IsSteady : IsSteady (λ _. Unit) (requested_program P D true)
    unfolding requested_program
    requested-IsSteady =
        choice-IsSteady (λ x. x.workload.read_all_fields) (ret-IsSafe _ tt) one_field-IsSteady

    pub written-IsSteady : IsSteady Filled (written_program P D true)
    unfolding written_program
    written-IsSteady =
        choice-IsSteady (λ x. x.workload.write_all_fields) values-IsSteady update-IsSteady

    pub sequence_key-IsSteady : IsSteady (λ _. Unit) (sequence_key_program P D true)
    unfolding sequence_key_program
    sequence_key-IsSteady =
        draw-IsSteady (λ _. Unit) (next_sequence_key P true)
          (λ w s h.
            let (r, run, ready) = next_sequence_key-Ready P Allowed w s h in (r, run, (tt, ready)))
          (next_sequence_key-KeepsConfig P true)

    -- The key that a transaction gets has a value, whenever it uses it.
    pub transaction_key-IsSteady :
        UniformInRange P
        → (fuel : ℕ)
        → ((k : ℕ)
            → k ≤ Counter.last c.insert_key_sequence
            → HasValue P D view d₀ (build_key_name c.ordered_inserts c.zero_padding k))
        → IsSteady (HasValue P D view d₀) (transaction_key_program P D true (suc fuel))
    unfolding transaction_key_program
    transaction_key-IsSteady L fuel there =
        then-IsSafe _
          (once-IsSafe _ (
            on_workload-Keeps P D view Allowed c d₀ (λ n. n ≤ Counter.last c.insert_key_sequence)
              (draw_number P true)
              (λ w s h e.
                let (r, run, (below, ready)) = draw_number-Ready P Allowed L true w s h in
                (r, run, (subst (λ q. r.0 ≤ Counter.last q.insert_key_sequence) e below, ready)))
              (draw_number-KeepsConfig P Allowed true)))
          λ n below.
            then-IsSafe _
              (look-IsSafe P D view Allowed c d₀ (λ b. b ≡ true) _
                λ x h.
                  ap (λ q. leb n (Counter.last q.insert_key_sequence)) h.same ∙ le→leb n _ below)
              λ b e.
                subst
                  (λ t. IsSteady (HasValue P D view d₀) (
                    if t
                    then look (λ x. key_name P x.workload n)
                    else transaction_key_program P D true fuel))
                  (sym e)
                  (look-IsSafe P D view Allowed c d₀ (HasValue P D view d₀) _ λ x h.
                    subst
                      (λ q.
                        HasValue P D view d₀ (build_key_name q.ordered_inserts q.zero_padding n))
                      (sym h.same) (there n below))

    -- The operation that comes next: one that may be drawn.
    pub operation-IsSteady : IsSteady Allowed (operation_program P D true)
    unfolding operation_program
    operation-IsSteady =
        then-IsSafe _
          (draw-IsSteady (λ _. Unit) _ (draw_chance-Ready P Allowed true)
            (draw_chance-KeepsConfig P Allowed true))
          (λ u _.
            draw-IsSteady Allowed _ (choose_operation-Ready P Allowed u)
              (choose_operation-KeepsConfig P Allowed true u))

-- ===== src/Main/InTurn/Sequential.antt =====
-- The threads one after the other, as `run_phase` runs them: the loops of their clients join to one.
use ycsb.Prelude.{ℕ, zero, suc, ◌+◌, ◌*◌, ◌≡◌, refl, sym, ap, ◌∙◌, Bool, arith}
use ycsb.Prelude.Outcome.{Outcome, ok, err, ◌>>=◌}
use ycsb.Platform.{Platform}
use ycsb.Db.{Db}
use ycsb.Client.{World}
use ycsb.Main.{count, client_op, client_loop, delegate_client, run_phase}
use ycsb.Main.InTurn.{IsQuiet, in_turn}

bind_assoc {ℓ κ ι} :
    {A : Type ℓ} {B : Type κ} {C : Type ι} (m : Outcome A) (f : A → Outcome B) (g : B → Outcome C)
    → ((m >>= f) >>= g) ≡ (m >>= λ a. f a >>= g)
bind_assoc (ok a) f g = refl
bind_assoc (err e) f g = refl

bind_ap {ℓ κ} :
    {A : Type ℓ} {B : Type κ} (m : Outcome A) {f g : A → Outcome B}
    → ((a : A) → f a ≡ g a)
    → (m >>= f) ≡ (m >>= g)
bind_ap m h = λ i. m >>= λ a. h a i

ok_count {ℓ} :
    {A : Type ℓ} {a b : ℕ} (x : A) → a ≡ b → ◌≡◌ {A = Outcome (ℕ × A)} (ok (a, x)) (ok (b, x))
ok_count x e = λ i. ok (e i, x)

suc_times : (k n : ℕ) → n + k * n ≡ suc k * n
suc_times k n = grind arith

-- `k` successes more
abbrev plus {ℓ} : {A : Type ℓ} → ℕ → ℕ × A → Outcome (ℕ × A)
plus k r = ok (k + r.0, r.1)

plus_zero {ℓ} : {A : Type ℓ} (m : Outcome (ℕ × A)) → (m >>= plus 0) ≡ m
plus_zero (ok (n, a)) = ok_count a (omega arith)
plus_zero (err e) = refl

plus-plus {ℓ} :
    {A : Type ℓ} (j k : ℕ) (m : Outcome (ℕ × A))
    → ((m >>= plus k) >>= plus j) ≡ (m >>= plus (j + k))
plus-plus j k (ok (n, a)) = ok_count a (omega arith)
plus-plus j k (err e) = refl

module _ (P : Platform) (D : Db) (fuel : ℕ) (ndebug is_loading : Bool) where
  abbrev op : World P D → Outcome (Bool × World P D)
  op = client_op P D fuel ndebug is_loading

  abbrev turns : ℕ → World P D → Outcome (ℕ × World P D)
  turns = in_turn P D fuel ndebug is_loading

  abbrev once : ℕ × World P D → Outcome (ℕ × World P D)
  once r = op r.1 >>= λ q. ok (r.0 + count q.0, q.1)

  once-plus : (k : ℕ) (q : ℕ × World P D) → once (k + q.0, q.1) ≡ (once q >>= plus k)
  once-plus k q =
      bind_ap (op q.1) (λ p. ok_count p.1 (omega arith)) ∙ sym (bind_assoc (op q.1) _ (plus k))

  in_turn_cons :
      (n : ℕ) (x : World P D) → turns (suc n) x ≡ (op x >>= λ r. turns n r.1 >>= plus (count r.0))
  unfolding in_turn
  in_turn_cons zero x = bind_ap (op x) (λ r. ok_count r.1 (omega arith))
  in_turn_cons (suc n) x =
      ap (λ o. o >>= once) (in_turn_cons n x)
      ∙ bind_assoc (op x) _ once
      ∙ bind_ap (op x) (λ r.
        bind_assoc (turns n r.1) (plus (count r.0)) once
        ∙ bind_ap (turns n r.1) (λ q. once-plus (count r.0) q)
        ∙ sym (bind_assoc (turns n r.1) once (plus (count r.0))))

  in_turn-+ :
      (m n : ℕ) (x : World P D) → turns (m + n) x ≡ (turns m x >>= λ r. turns n r.1 >>= plus r.0)
  in_turn-+ zero n x =
      let same : 0 + n ≡ n = omega arith in
      let none_before : turns n x ≡ (turns 0 x >>= λ r. turns n r.1 >>= plus r.0) =
        unfold in_turn in sym (plus_zero (turns n x)) in
      ap (λ k. turns k x) same ∙ none_before
  in_turn-+ (suc m) n x =
      ap (λ k. turns k x) (omega arith)
      ∙ in_turn_cons (m + n) x
      ∙ bind_ap (op x) (λ r.
        ap (λ o. o >>= plus (count r.0)) (in_turn-+ m n r.1)
        ∙ bind_assoc (turns m r.1) _ (plus (count r.0))
        ∙ bind_ap (turns m r.1) (λ q. plus-plus (count r.0) q.0 (turns n q.1))
        ∙ sym (bind_assoc (turns m r.1) (plus (count r.0)) _))
      ∙ sym (bind_assoc (op x) _ _)
      ∙ ap (λ o. o >>= λ r. turns n r.1 >>= plus r.0) (sym (in_turn_cons m x))

  client_loop-in_turn :
      (n oks : ℕ) (x : World P D)
      → client_loop P D fuel ndebug is_loading n oks x ≡ (turns n x >>= plus oks)
  unfolding client_loop
  client_loop-in_turn zero oks x = unfold in_turn in ok_count x (omega arith)
  client_loop-in_turn (suc n) oks x =
      bind_ap (op x) (λ r.
        client_loop-in_turn n (oks + count r.0) r.1 ∙ sym (plus-plus oks (count r.0) (turns n r.1)))
      ∙ sym (bind_assoc (op x) _ (plus oks))
      ∙ ap (λ o. o >>= plus oks) (sym (in_turn_cons n x))

  module _ (quiet : IsQuiet D) where
    delegate_client-in_turn :
        (n : ℕ) (x : World P D) → delegate_client P D fuel ndebug is_loading n x ≡ turns n x
    unfolding delegate_client
    delegate_client-in_turn n x =
        (λ i.
          client_loop P D fuel ndebug is_loading n 0 (record x { db = quiet.init x.db i }) >>= λ r.
          ok (r.0, record r.1 { db = quiet.close r.1.db i }))
        ∙ ap (λ o. o >>= λ r. ok r) (client_loop-in_turn n 0 x)
        ∙ bind_assoc (turns n x) (plus 0) (λ r. ok r)
        ∙ plus_zero (turns n x)

    run_phase-plus :
        (num_ops k sum : ℕ) (x : World P D)
        → run_phase P D fuel ndebug is_loading num_ops k sum x
          ≡ (turns (k * num_ops) x >>= plus sum)
    unfolding run_phase
    run_phase-plus num_ops zero sum x =
        let no_times : 0 ≡ 0 * num_ops = omega arith in
        let none_after : ok (sum, x) ≡ (turns 0 x >>= plus sum) =
          unfold in_turn in ok_count x (omega arith) in
        none_after ∙ ap (λ n. turns n x >>= plus sum) no_times
    run_phase-plus num_ops (suc k) sum x =
        ap (λ o. o >>= λ r. run_phase P D fuel ndebug is_loading num_ops k (sum + r.0) r.1)
          (delegate_client-in_turn num_ops x)
        ∙ bind_ap (turns num_ops x) (λ r.
          run_phase-plus num_ops k (sum + r.0) r.1
          ∙ sym (plus-plus sum r.0 (turns (k * num_ops) r.1)))
        ∙ sym (bind_assoc (turns num_ops x) _ (plus sum))
        ∙ ap (λ o. o >>= plus sum) (sym (in_turn-+ num_ops (k * num_ops) x))
        ∙ ap (λ n. turns n x >>= plus sum) (suc_times k num_ops)

    pub run_phase-in_turn :
        (num_ops k : ℕ) (x : World P D)
        → run_phase P D fuel ndebug is_loading num_ops k 0 x ≡ turns (k * num_ops) x
    run_phase-in_turn num_ops k x = run_phase-plus num_ops k 0 x ∙ plus_zero (turns (k * num_ops) x)

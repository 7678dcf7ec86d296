-- ===== src/Actions.antt =====
-- What a thread does as a program of atomic actions on a state that all threads share: other threads
-- may move between any two of them.
pub mod Safe
pub mod Threads
pub mod Ending
use ycsb.Prelude.Outcome.{Outcome, ok}
use ycsb.Prelude.Outcome as Outcome
use ycsb.Prelude.{◌≡◌, refl, ap, ◌∙◌}

-- A program returns, or does one action and goes on with the action's value. An action that does not
-- return ends the whole run.
pub data Prog (S A : Type 0) : Type 1 where
  ret : A → Prog S A
  act : {V : Type 0} → (S → Outcome (V × S)) → (V → Prog S A) → Prog S A

infixl 5 ◌>>=◌
abbrev pub ◌>>=◌ : {S A B : Type 0} → Prog S A → (A → Prog S B) → Prog S B
ret a >>= k = k a
act f r >>= k = act f (λ v. r v >>= k)

-- A program of one action.
abbrev pub once : {S A : Type 0} → (S → Outcome (A × S)) → Prog S A
once f = act f (λ a. ret a)

-- A look at the state, which never fails.
abbrev pub look : {S A : Type 0} → (S → A) → Prog S A
look f = once (λ x. ok (f x, x))

-- The program alone, with no other thread.
abbrev pub run : {S A : Type 0} → Prog S A → S → Outcome (A × S)
run (ret a) x = ok (a, x)
run (act f k) x = Outcome.◌>>=◌ (f x) (λ r. run (k r.0) r.1)

pub run->>= :
    {S A B : Type 0} (p : Prog S A) (k : A → Prog S B) (x : S)
    → run (p >>= k) x ≡ Outcome.◌>>=◌ (run p x) (λ r. run (k r.0) r.1)
run->>= (ret a) k x = refl
run->>= (act f r) k x =
    (λ i. Outcome.◌>>=◌ (f x) (λ q. run->>= (r q.0) k q.1 i))
    ∙ Outcome.>>=_assoc (f x) (λ q. run (r q.0) q.1) (λ q. run (k q.0) q.1)

-- ===== src/Actions/Safe.antt =====
-- Programs that always return and keep an invariant of the shared state, whatever other threads that
-- keep it too do between two actions.
use ycsb.Prelude.Outcome.{Outcome, Returns}
use ycsb.Actions.{Prog, ret, act, ◌>>=◌, once}

module _ {S : Type 0} (Inv : S → Type 0) where
  -- Every action returns from every state that keeps the invariant, and keeps it.
  abbrev pub Safe : {A : Type 0} → (A → Type 0) → Prog S A → Type 0
  Safe Q (ret a) = Q a
  Safe Q (act f k) = (x : S) → Inv x → Returns (f x) (λ r. Inv r.1 × Safe Q (k r.0))

  -- What one action has to do.
  abbrev pub Keeps : {A : Type 0} → (A → Type 0) → (S → Outcome (A × S)) → Type 0
  Keeps Q f = (x : S) → Inv x → Returns (f x) (λ r. Inv r.1 × Q r.0)

  pub >>=-Safe :
      {A B : Type 0} (Q : A → Type 0) (R : B → Type 0) (p : Prog S A) (k : A → Prog S B)
      → Safe Q p
      → ((a : A) → Q a → Safe R (k a))
      → Safe R (p >>= k)
  >>=-Safe Q R (ret a) k s h = h a s
  >>=-Safe Q R (act f r) k s h =
      λ x i. let (q, run, (kept, rest)) = s x i in (q, run, (kept, >>=-Safe Q R (r q.0) k rest h))

  -- The same as a type of its own, so that the program can be read off a proof.
  pub record IsSafe {A : Type 0} (Q : A → Type 0) (p : Prog S A) : Type 0 where
    pub safe : Safe Q p

  pub once-IsSafe :
      {A : Type 0} {Q : A → Type 0} {f : S → Outcome (A × S)} → Keeps Q f → IsSafe Q (once f)
  once-IsSafe h = record { safe = h }

  pub ret-IsSafe : {A : Type 0} {Q : A → Type 0} {a : A} → Q a → IsSafe Q (ret a)
  ret-IsSafe h = record { safe = h }

  -- A safe program in front of others that are safe after what it gives.
  pub then-IsSafe :
      {A B : Type 0} {Q : A → Type 0} {R : B → Type 0} {p : Prog S A} {k : A → Prog S B}
      → IsSafe Q p
      → ((a : A) → Q a → IsSafe R (k a))
      → IsSafe R (p >>= k)
  then-IsSafe {Q = Q} {R = R} {p = p} {k = k} h rest = record {
    safe = >>=-Safe Q R p k h.safe (λ a q. (rest a q).safe);
  }

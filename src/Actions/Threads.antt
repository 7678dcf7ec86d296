-- ===== src/Actions/Threads.antt =====
-- Threads that each run a program, on one state: any of them does its next action.
use ycsb.Prelude.{◌∙◌, ℕ, suc, zero, subst, sym, inl, inr, refl, ◌⊎◌, ap, ◌≡◌, List, [], ◌∷◌, ◌++◌}
use ycsb.Prelude.Lists.{replicate, length, length-append}
use ycsb.Prelude.Outcome.{Outcome, ok, Returns-ok}
use ycsb.Actions.{Prog, ret, act}
use ycsb.Actions.Safe.{Safe}

module _ (S A : Type 0) where
  pub record Pool : Type 1 where
    pub state : S
    pub threads : List (Prog S A)

  -- One thread does an action.
  pub data Step (s : Pool) : Pool → Type 1 where
    go :
        {V : Type 0} (before after : List (Prog S A)) (f : S → Outcome (V × S)) (k : V → Prog S A)
        (r : V × S) (t : Pool)
        → s.threads ≡ before ++ act f k ∷ after
        → f s.state ≡ ok r
        → t ≡ record { state = r.1; threads = before ++ k r.0 ∷ after }
        → Step s t

  pub data Reach (s : Pool) : Pool → Type 1 where
    here : Reach s s
    then_step : {t u : Pool} → Reach s t → Step t u → Reach s u

  -- Whatever the threads do next, after finitely many actions the pool is as `Good` says, and until
  -- then it is never stuck.
  pub data Ends (Good : Pool → Type 1) : Pool → Type 1 where
    ended : {s : Pool} → Good s → Ends Good s
    goes : {s : Pool} (t : Pool) → Step s t → ((u : Pool) → Step s u → Ends Good u) → Ends Good s

  -- No thread is added or lost.
  pub Step-length : {s t : Pool} → Step s t → length t.threads ≡ length s.threads
  Step-length (go before after f k r t place run e) =
      ap (λ (u : Pool). length u.threads) e
      ∙ length-append before (k r.0 ∷ after)
      ∙ sym (length-append before (act f k ∷ after))
      ∙ sym (ap length place)

  -- A thread among others that can go on.
  record Going (x : S) (ps : List (Prog S A)) : Type 1 where
    Value : Type 0
    before : List (Prog S A)
    after : List (Prog S A)
    action : S → Outcome (Value × S)
    rest : Value → Prog S A
    result : Value × S
    place : ps ≡ before ++ act action rest ∷ after
    returns : action x ≡ ok result

  module _ (Inv : S → Type 0) (Q : A → Type 0) where
    abbrev pub AllSafe : List (Prog S A) → Type 0
    AllSafe [] = Unit
    AllSafe (p ∷ ps) = Safe Inv Q p × AllSafe ps

    -- All threads have returned.
    abbrev pub AllReturned : List (Prog S A) → Type 0
    AllReturned [] = Unit
    AllReturned (ret a ∷ ps) = Q a × AllReturned ps
    AllReturned (act f k ∷ ps) = ⊥

    pub AllSafe-at :
        (before after : List (Prog S A)) (p : Prog S A)
        → AllSafe (before ++ p ∷ after)
        → Safe Inv Q p
    AllSafe-at [] after p h = h.0
    AllSafe-at (b ∷ before) after p h = AllSafe-at before after p h.1

    pub AllSafe-moved :
        (before after : List (Prog S A)) (p q : Prog S A)
        → AllSafe (before ++ p ∷ after)
        → Safe Inv Q q
        → AllSafe (before ++ q ∷ after)
    AllSafe-moved [] after p q h g = (g, h.1)
    AllSafe-moved (b ∷ before) after p q h g = (h.0, AllSafe-moved before after p q h.1 g)

    pub AllSafe-replicate : (n : ℕ) (p : Prog S A) → Safe Inv Q p → AllSafe (replicate n p)
    AllSafe-replicate zero p h = tt
    AllSafe-replicate (suc n) p h = (h, AllSafe-replicate n p h)

    -- A step keeps the invariant of the state and leaves safe programs.
    pub Step-Safe :
        {s t : Pool} → Step s t → Inv s.state → AllSafe s.threads → Inv t.state × AllSafe t.threads
    Step-Safe {s = s} {t = t} (go before after f k r _ place run e) i safe =
        let safe' = subst AllSafe place safe in
        let at = AllSafe-at before after (act f k) safe' s.state i in
        let (kept, rest) = Returns-ok (λ q. Inv q.1 × Safe Inv Q (k q.0)) (f s.state) r at run in
        subst (λ (u : Pool). Inv u.state × AllSafe u.threads) (sym e)
          (kept, AllSafe-moved before after (act f k) (k r.0) safe' rest)

    going : (x : S) (ps : List (Prog S A)) → Inv x → AllSafe ps → Going x ps ⊎ AllReturned ps
    going x [] i safe = inr tt
    going x (ret a ∷ ps) i safe = elim (going x ps i safe.1) [
      | inl g ↦ inl (record {
        Value = g.Value;
        before = ret a ∷ g.before;
        after = g.after;
        action = g.action;
        rest = g.rest;
        result = g.result;
        place = ap (λ l. ret a ∷ l) g.place;
        returns = g.returns;
      })
      | inr all ↦ inr (safe.0, all)
    ]
    going x (act {V} f k ∷ ps) i safe = inl (record {
      Value = V;
      before = [];
      after = ps;
      action = f;
      rest = k;
      result = (safe.0 x i).0;
      place = refl;
      returns = (safe.0 x i).1;
    })

    -- Among safe programs one can go on, or all have returned.
    pub Step_or_AllReturned :
        (s : Pool)
        → Inv s.state
        → AllSafe s.threads
        → ((t : Pool) × Step s t) ⊎ AllReturned s.threads
    Step_or_AllReturned s i safe = elim (going s.state s.threads i safe) [
      | inl g ↦ inl (_, go g.before g.after g.action g.rest g.result _ g.place g.returns refl)
      | inr all ↦ inr all
    ]

  -- Threads that have all returned the same value are that value as often as there are threads.
  pub AllReturned-replicate :
      (Inv : S → Type 0) (a : A) (ps : List (Prog S A))
      → AllReturned Inv (λ b. b ≡ a) ps
      → ps ≡ replicate (length ps) (ret a)
  AllReturned-replicate Inv a [] h = refl
  AllReturned-replicate Inv a (ret b ∷ ps) h =
      λ i. ret (h.0 i) ∷ AllReturned-replicate Inv a ps h.1 i
  AllReturned-replicate Inv a (act f k ∷ ps) h = absurd h

-- ===== src/Actions/Ending.antt =====
-- Pools of safe programs always come to their end.
use mathlib.Core.WellFounded.{Acc}
use mathlib.Core.Logic.{Lift}
use ycsb.Prelude.{ℕ, ◌∙◌, ◌≡◌, refl, sym, subst, ap, ◌⊎◌, inl, inr, List, [], ◌∷◌, ◌++◌}
use ycsb.Prelude.Lists.{length}
use ycsb.Prelude.Outcome.{Outcome}
use ycsb.Actions.{Prog, ret, act}
use ycsb.Actions.Threads.{
  Pool, Step, go, Ends, ended, goes, AllSafe, AllReturned, Step-Safe, Step-length,
  Step_or_AllReturned,
}

module _ {S A : Type 0} where
  -- One of the programs has done an action.
  abbrev Moved : List (Prog S A) → List (Prog S A) → Type 1
  Moved qs [] = Lift {0, 1} ⊥
  Moved qs (ret a ∷ ps) = (rs : List (Prog S A)) × (qs ≡ ret a ∷ rs) × Moved rs ps
  Moved qs (act {V} f k ∷ ps) =
      ((v : V) × (qs ≡ k v ∷ ps)) ⊎ ((rs : List (Prog S A)) × (qs ≡ act f k ∷ rs) × Moved rs ps)

  Moved-at :
      {V : Type 0} (before after : List (Prog S A)) (f : S → Outcome (V × S)) (k : V → Prog S A)
      (v : V)
      → Moved (before ++ k v ∷ after) (before ++ act f k ∷ after)
  Moved-at [] after f k v = inl (v, refl)
  Moved-at (ret a ∷ before) after f k v = (_, refl, Moved-at before after f k v)
  Moved-at (act g l ∷ before) after f k v = inr (_, refl, Moved-at before after f k v)

  -- A program in front of others adds finitely many actions.
  cons-Acc : (p : Prog S A) (ps : List (Prog S A)) → Acc Moved ps → Acc Moved (p ∷ ps)
  cons-Acc (ret a) ps (Acc.intro _ h) =
      Acc.intro (ret a ∷ ps) λ qs m.
        let (rs, e, moved) = m in subst (Acc Moved) (sym e) (cons-Acc (ret a) rs (h rs moved))
  cons-Acc (act f k) ps (Acc.intro _ h) = Acc.intro (act f k ∷ ps) λ qs m. elim m [
    | inl (v, e) ↦ subst (Acc Moved) (sym e) (cons-Acc (k v) ps (Acc.intro ps h))
    | inr (rs, e, moved) ↦ subst (Acc Moved) (sym e) (cons-Acc (act f k) rs (h rs moved))
  ]

  all-Acc : (ps : List (Prog S A)) → Acc Moved ps
  all-Acc [] = Acc.intro _ λ qs m. absurd m.lower
  all-Acc (p ∷ ps) = cons-Acc p ps (all-Acc ps)

  Step-Moved : {s t : Pool S A} → Step S A s t → Moved t.threads s.threads
  Step-Moved {s = s} (go before after f k r t place run e) =
      subst (λ l. Moved l s.threads) (sym (ap (λ (u : Pool S A). u.threads) e))
        (subst (Moved (before ++ k r.0 ∷ after)) (sym place) (Moved-at before after f k r.0))

  module _ (Inv : S → Type 0) (Q : A → Type 0) (n : ℕ) (Good : Pool S A → Type 1)
      (conclude : (s : Pool S A)
        → Inv s.state
        → length s.threads ≡ n
        → AllReturned S A Inv Q s.threads
        → Good s) where
    Ends-below :
        (ps : List (Prog S A))
        → Acc Moved ps
        → (s : Pool S A) → s.threads ≡ ps
        → Inv s.state
        → length s.threads ≡ n
        → AllSafe S A Inv Q s.threads
        → Ends S A Good s
    Ends-below ps (Acc.intro _ h) s e i len safe = elim (Step_or_AllReturned S A Inv Q s i safe) [
      | inl (t, step) ↦ goes t step λ u st.
          let (i', safe') = Step-Safe S A Inv Q st i safe in
          Ends-below u.threads (h u.threads (subst (Moved u.threads) e (Step-Moved st))) u refl i'
            (Step-length S A st ∙ len) safe'
      | inr all ↦ ended (conclude s i len all)
    ]

    -- Safe programs end whatever the order of their actions is, and no thread is ever stuck.
    pub safe-Ends :
        (s : Pool S A)
        → Inv s.state
        → length s.threads ≡ n
        → AllSafe S A Inv Q s.threads
        → Ends S A Good s
    safe-Ends s i len safe = Ends-below s.threads (all-Acc s.threads) s refl i len safe

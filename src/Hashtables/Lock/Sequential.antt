-- ===== src/Hashtables/Lock/Sequential.antt =====
-- The mutex puts the methods in one order.
use ycsb.Prelude.{
  ℕ, ◌≡◌, refl, sym, ap, ◌∙◌, subst, false, Option, none, some, List, [], ◌∷◌, ◌++◌, inl, inr,
  arith,
}
use ycsb.Prelude.Tests.{if-else, if-then, ◌==◌, ==_iff, Bool-cases, if◌then◌else◌}
use ycsb.Hashtables.{StringHashtable}
use ycsb.Hashtables.Calls.{Call, Answer, call}
use ycsb.Hashtables.Lock.{
  Phase, outside, inside, working, leaving, Thread, System, set, Step, lock, begin, end, unlock,
  Reach, here, then_step, starting,
}

module _ {V : Type 0} (T : StringHashtable V) where
  -- The table is what the calls of the log lead to one after the other, and every call of the log
  -- has returned what it does there.
  abbrev pub OneByOne : T.State → List (ℕ × Call V × Answer V) → T.State → Type 0
  OneByOne t₀ [] t = t ≡ t₀
  OneByOne t₀ ((i, c, a) ∷ log) t = (t' : T.State) × OneByOne t₀ log t' × (call T c t' ≡ (a, t))

  -- The calls of one thread in the log.
  unfoldable pub own : ℕ → List (ℕ × Call V × Answer V) → List (Call V × Answer V)
  own i [] = []
  own i ((j, c, a) ∷ log) = if i == j then (c, a) ∷ own i log else own i log

  -- The call that has started and not ended.
  abbrev pub current : Phase T → List (Call V)
  current outside = []
  current (inside c) = c ∷ []
  current (working c t) = c ∷ []
  current leaving = []

  -- The calls that have ended, the first one first, and then the others.
  abbrev pub in_order : List (Call V × Answer V) → List (Call V) → List (Call V)
  in_order [] cs = cs
  in_order ((c, a) ∷ done) cs = in_order done (c ∷ cs)

  -- Only the holder of the mutex is in a method, and works on the table as it is.
  abbrev pub InPhase : T.State → Option ℕ → ℕ → Phase T → Type 0
  InPhase t holder i outside = holder ≡ some i → ⊥
  InPhase t holder i (inside c) = holder ≡ some i
  InPhase t holder i (working c t') = (holder ≡ some i) × (t' ≡ t)
  InPhase t holder i leaving = holder ≡ some i

  pub record Fits (programs : ℕ → List (Call V)) (t : T.State) (holder : Option ℕ)
      (log : List (ℕ × Call V × Answer V)) (i : ℕ) (th : Thread T) : Type 0 where
    pub in_phase : InPhase t holder i th.phase
    pub answers : th.ended ≡ own i log
    pub order : programs i ≡ in_order th.ended (current th.phase ++ th.todo)

  module _ (t₀ : T.State) (programs : ℕ → List (Call V)) where
    pub record Inv (s : System T) : Type 0 where
      pub history : OneByOne t₀ s.log s.table
      pub fits : (i : ℕ) → Fits programs s.table s.holder s.log i (s.threads i)

    set-all :
        (P : ℕ → Thread T → Type 0) (i : ℕ) (th : Thread T) (f : ℕ → Thread T)
        → P i th
        → ((j : ℕ) → (j == i) ≡ false → P j (f j))
        → (j : ℕ) → P j (set T i th f j)
    unfolding set
    set-all P i th f new old j = elim (Bool-cases (j == i)) [
      | inl h ↦ rw h (subst (λ k. P k th) (sym ((==_iff j i).0 h)) new)
      | inr h ↦ rw h (old j h)
    ]

    not_none : {h : Option ℕ} (j : ℕ) → h ≡ none → h ≡ some j → ⊥
    not_none j e h = cc

    not_other : {h : Option ℕ} (i j : ℕ) → (j == i) ≡ false → h ≡ some i → h ≡ some j → ⊥
    not_other i j apart e h = ground (arith, apart, sym e ∙ h)

    -- A thread that holds the mutex neither before nor after.
    outsider :
        {t t' : T.State} {h h' : Option ℕ} {log log' : List (ℕ × Call V × Answer V)} (j : ℕ)
        (th : Thread T)
        → (h ≡ some j → ⊥)
        → (h' ≡ some j → ⊥)
        → own j log' ≡ own j log
        → Fits programs t h log j th
        → Fits programs t' h' log' j th
    outsider {t = t} {t' = t'} {h = h} {h' = h'} j th before after same f = record {
      in_phase = go th.phase f.in_phase;
      answers = f.answers ∙ sym same;
      order = f.order;
    }
      where
        go : (p : Phase T) → InPhase t h j p → InPhase t' h' j p
        go outside _ = after
        go (inside c) held = absurd (before held)
        go (working c _) (held, _) = absurd (before held)
        go leaving held = absurd (before held)

    pub Step-Inv : {s u : System T} → Step T s u → Inv s → Inv u
    unfolding own
    Step-Inv {s = s} (lock i c cs done u free place e) inv =
        let f : Fits programs s.table s.holder s.log i _ =
          subst (Fits programs s.table s.holder s.log i) place (inv.fits i) in
        subst Inv (sym e) (record {
          history = inv.history;
          fits =
              set-all (Fits programs s.table (some i) s.log) i _ s.threads
                (record { in_phase = refl; answers = f.answers; order = f.order })
                (λ j apart.
                  outsider j (s.threads j) (not_none j free) (not_other i j apart refl) refl
                    (inv.fits j));
        })
    Step-Inv {s = s} (begin i c cs done u place e) inv =
        let f : Fits programs s.table s.holder s.log i _ =
          subst (Fits programs s.table s.holder s.log i) place (inv.fits i) in
        subst Inv (sym e) (record {
          history = inv.history;
          fits =
              set-all (Fits programs s.table s.holder s.log) i _ s.threads
                (record { in_phase = (f.in_phase, refl); answers = f.answers; order = f.order })
                (λ j _. inv.fits j);
        })
    Step-Inv {s = s} (end i c t cs done u place e) inv =
        let f : Fits programs s.table s.holder s.log i _ =
          subst (Fits programs s.table s.holder s.log i) place (inv.fits i) in
        let answer = (call T c t).0 in
        subst Inv (sym e) (record {
          history = (s.table, inv.history, ap (call T c) (sym f.in_phase.1));
          fits =
              set-all (Fits programs (call T c t).1 s.holder ((i, c, answer) ∷ s.log)) i _ s.threads
                (record {
                  in_phase = f.in_phase.0;
                  answers =
                      ap (λ l. (c, answer) ∷ l) f.answers
                      ∙ sym (if-then (i == i) _ _ ((==_iff i i).1 refl));
                  order = f.order;
                })
                (λ j apart.
                  outsider j (s.threads j) (not_other i j apart f.in_phase.0)
                    (not_other i j apart f.in_phase.0) (if-else (j == i) _ _ apart) (inv.fits j));
        })
    Step-Inv {s = s} (unlock i cs done u place e) inv =
        let f : Fits programs s.table s.holder s.log i _ =
          subst (Fits programs s.table s.holder s.log i) place (inv.fits i) in
        subst Inv (sym e) (record {
          history = inv.history;
          fits =
              set-all (Fits programs s.table none s.log) i _ s.threads
                (record { in_phase = λ h. cc; answers = f.answers; order = f.order })
                (λ j apart.
                  outsider j (s.threads j) (not_other i j apart f.in_phase) (not_none j refl) refl
                    (inv.fits j));
        })

    pub Reach-Inv : {s u : System T} → Inv s → Reach T s u → Inv u
    Reach-Inv h here = h
    Reach-Inv h (then_step r st) = Step-Inv st (Reach-Inv h r)

    pub starting-Inv : Inv (starting T t₀ programs)
    unfolding starting own
    starting-Inv = record {
      history = refl;
      fits = λ i. record { in_phase = λ h. cc; answers = refl; order = refl };
    }

  -- Inside a method: between the lock and the end of the guard.
  abbrev pub IsInside : Phase T → Type 0
  IsInside outside = ⊥
  IsInside (inside c) = Unit
  IsInside (working c t) = Unit
  IsInside leaving = Unit

  holds :
      (t : T.State) {h : Option ℕ} (i : ℕ) (p : Phase T) → IsInside p → InPhase t h i p → h ≡ some i
  holds t i outside one _ = absurd one
  holds t i (inside c) _ held = held
  holds t i (working c _) _ (held, _) = held
  holds t i leaving _ held = held

-- However the threads of a table that starts as `t₀` move: the table is what the calls that have
-- ended lead to one after the other, in the order in which they ended, and every one of them has
-- returned what it returns in that order; in this order, a thread has its own calls in the order of
-- its program, which starts with them, and goes on with the call that it is in.
pub one_by_one :
    {V : Type 0} (T : StringHashtable V) (t₀ : T.State) (programs : ℕ → List (Call V))
    (s : System T) (i : ℕ)
    → Reach T (starting T t₀ programs) s
    → OneByOne T t₀ s.log s.table
      × ((s.threads i).ended ≡ own T i s.log)
      × (programs i
          ≡ in_order T (s.threads i).ended (current T (s.threads i).phase ++ (s.threads i).todo))
one_by_one T t₀ programs s i r =
    let inv = Reach-Inv T t₀ programs (starting-Inv T t₀ programs) r in
    let f = inv.fits i in (inv.history, f.answers, f.order)

-- No two threads are inside of a method at once.
inside_alone :
    {V : Type 0} (T : StringHashtable V) (t₀ : T.State) (programs : ℕ → List (Call V))
    (s : System T) (i j : ℕ)
    → Reach T (starting T t₀ programs) s
    → IsInside T (s.threads i).phase
    → IsInside T (s.threads j).phase
    → i ≡ j
inside_alone T t₀ programs s i j r one other =
    let inv = Reach-Inv T t₀ programs (starting-Inv T t₀ programs) r in
    let left = holds T s.table i (s.threads i).phase one (inv.fits i).in_phase in
    let right = holds T s.table j (s.threads j).phase other (inv.fits j).in_phase in
    ground (arith, sym left ∙ right)

-- ===== src/Hashtables/Lock/Ending.antt =====
-- The threads of a locked table come to their ends.
use ycsb.Prelude.{
  ℕ, zero, suc, ◌+◌, ◌*◌, ◌≤◌, ◌<◌, ◌≡◌, refl, sym, ap, ◌∙◌, subst, inl, inr, false, List, [], ◌∷◌,
  arith,
}
use ycsb.Prelude.Tests.{◌==◌, ==_iff, Bool-cases, if-then, if-else}
use ycsb.Prelude.Lists.{length}
use native.Mathlib.Decide.{dec_lt}
use ycsb.Hashtables.{StringHashtable}
use ycsb.Hashtables.Calls.{Call, call}
use ycsb.Hashtables.Lock.{
  Phase, outside, inside, working, leaving, Thread, System, set, Step, lock, begin, end, unlock,
  Reach, here, then_step, starting,
}
use ycsb.Hashtables.Lock.Sequential.{Inv, Step-Inv, Reach-Inv, starting-Inv}
use ycsb.Hashtables.Lock.Deadlock.{HasFinished, Finished, any-Moves}

module _ {V : Type 0} (T : StringHashtable V) where
  -- The steps that are left.
  abbrev phase_steps : Phase T → ℕ
  phase_steps outside = 0
  phase_steps (inside c) = 3
  phase_steps (working c t) = 2
  phase_steps leaving = 1

  abbrev steps : Thread T → ℕ
  steps th = 4 * length th.todo + phase_steps th.phase

  -- Those of the first `n` threads.
  abbrev steps_below : ℕ → (ℕ → Thread T) → ℕ
  steps_below zero f = 0
  steps_below (suc n) f = steps (f n) + steps_below n f

  set-same : (i : ℕ) (th : Thread T) (f : ℕ → Thread T) → set T i th f i ≡ th
  unfolding set
  set-same i th f = if-then (i == i) _ _ ((==_iff i i).1 refl)

  set-other : (i j : ℕ) (th : Thread T) (f : ℕ → Thread T) → (j == i) ≡ false → set T i th f j ≡ f j
  unfolding set
  set-other i j th f h = if-else (j == i) _ _ h

  steps_below-set_above :
      (n i : ℕ) (th : Thread T) (f : ℕ → Thread T)
      → n ≤ i
      → steps_below n (set T i th f) ≡ steps_below n f
  steps_below-set_above zero i th f h = refl
  steps_below-set_above (suc n) i th f h =
      let kept = ap steps (set-other i n th f (ground arith)) in
      omega (arith, kept, steps_below-set_above n i th f (omega arith))

  steps_below-set :
      (n i : ℕ) (th : Thread T) (f : ℕ → Thread T)
      → i < n
      → steps_below n (set T i th f) + steps (f i) ≡ steps_below n f + steps th
  steps_below-set zero i th f h = absurd (omega arith)
  steps_below-set (suc n) i th f h = elim (Bool-cases (n == i)) [
    | inl e ↦
        let same = (==_iff n i).0 e in
        let there = ap steps (ap (set T i th f) same ∙ set-same i th f) in
        let was = ap (λ k. steps (f k)) same in
        omega (arith, there, was, steps_below-set_above n i th f (omega (arith, same)))
    | inr e ↦
        let kept = ap steps (set-other i n th f e) in
        let below : i < n = ground (arith, e) in omega (arith, kept, steps_below-set n i th f below)
  ]

  -- The threads from the number `n` on have nothing to do.
  abbrev Resting : ℕ → System T → Type 0
  Resting n s = (i : ℕ) → n ≤ i → HasFinished T (s.threads i)

  -- The thread that a step moves, and how.
  record Moved (n : ℕ) (s u : System T) : Type 0 where
    mover : ℕ
    moved : Thread T
    among : mover < n
    threads : u.threads ≡ set T mover moved s.threads
    fewer : steps moved < steps (s.threads mover)

  among_first : (n i : ℕ) (s : System T) → Resting n s → (HasFinished T (s.threads i) → ⊥) → i < n
  among_first n i s rest busy = elim (dec_lt i n) [
    | yes p ↦ p
    | no p ↦ absurd (busy (rest i (omega arith)))
  ]

  Step-Moved : (n : ℕ) {s u : System T} → Step T s u → Resting n s → Moved n s u
  Step-Moved n {s = s} (lock i c cs done u free place e) rest = record {
    mover = i;
    moved = record { phase = inside c; todo = cs; ended = done };
    among = among_first n i s rest (λ h. cc);
    threads = ap (λ u. u.threads) e;
    fewer = omega (arith, ap steps place);
  }
  Step-Moved n {s = s} (begin i c cs done u place e) rest = record {
    mover = i;
    moved = record { phase = working c s.table; todo = cs; ended = done };
    among = among_first n i s rest (λ h. cc);
    threads = ap (λ u. u.threads) e;
    fewer = omega (arith, ap steps place);
  }
  Step-Moved n {s = s} (end i c t cs done u place e) rest = record {
    mover = i;
    moved = record { phase = leaving; todo = cs; ended = (c, (call T c t).0) ∷ done };
    among = among_first n i s rest (λ h. cc);
    threads = ap (λ u. u.threads) e;
    fewer = omega (arith, ap steps place);
  }
  Step-Moved n {s = s} (unlock i cs done u place e) rest = record {
    mover = i;
    moved = record { phase = outside; todo = cs; ended = done };
    among = among_first n i s rest (λ h. cc);
    threads = ap (λ u. u.threads) e;
    fewer = omega (arith, ap steps place);
  }

  Moved-Resting : (n : ℕ) {s u : System T} → Moved n s u → Resting n s → Resting n u
  Moved-Resting n {s = s} {u = u} m rest i h =
      let other : u.threads i ≡ s.threads i =
        ap (λ f. f i) m.threads ∙ set-other m.mover i m.moved s.threads (ground (arith, m.among)) in
      subst (HasFinished T) (sym other) (rest i h)

  Moved-fewer :
      (n : ℕ) {s u : System T} → Moved n s u → steps_below n u.threads < steps_below n s.threads
  Moved-fewer n {s = s} m = omega (
    arith,
    ap (steps_below n) m.threads,
    steps_below-set n m.mover m.moved s.threads m.among,
    m.fewer,
  )

  before : {s t u : System T} → Step T s t → Reach T t u → Reach T s u
  before st here = then_step here st
  before st (then_step r more) = then_step (before st r) more

  Reach-Resting : (n : ℕ) {s u : System T} → Resting n s → Reach T s u → Resting n u
  Reach-Resting n rest here = rest
  Reach-Resting n rest (then_step r st) =
      let so_far = Reach-Resting n rest r in Moved-Resting n (Step-Moved n st so_far) so_far

  go :
      (k n : ℕ) (t₀ : T.State) (programs : ℕ → List (Call V)) (s : System T)
      → Inv T t₀ programs s
      → Resting n s
      → steps_below n s.threads ≤ k
      → (u : System T) × Reach T s u × Finished T n u
  go zero n t₀ programs s inv rest bound = elim (any-Moves T s (λ i. (inv.fits i).in_phase) n) [
    | inl finished ↦ (s, here, finished)
    | inr (u, st) ↦ absurd (omega (arith, Moved-fewer n (Step-Moved n st rest)))
  ]
  go (suc k) n t₀ programs s inv rest bound = elim (any-Moves T s (λ i. (inv.fits i).in_phase) n) [
    | inl finished ↦ (s, here, finished)
    | inr (u, st) ↦
        let m = Step-Moved n st rest in
        let (end_state, more, finished) =
          go k n t₀ programs u (Step-Inv T t₀ programs st inv) (Moved-Resting n m rest)
            (omega (arith, Moved-fewer n m)) in
        (end_state, before st more, finished)
  ]

-- Of threads with finite programs of which only the first `n` have anything to call: however they
-- have moved, they can go on so that each of them comes to the end of its program and out of the
-- methods. No order in which the mutex has been taken shuts this off.
pub can_end :
    {V : Type 0} (T : StringHashtable V) (t₀ : T.State) (programs : ℕ → List (Call V))
    (s : System T) (n : ℕ)
    → ((i : ℕ) → n ≤ i → programs i ≡ [])
    → Reach T (starting T t₀ programs) s
    → (u : System T) × Reach T s u × Finished T n u
can_end T t₀ programs s n few r =
    let rest : Resting T n (starting T t₀ programs) = unfold starting in λ i h. (refl, few i h) in
    go T (steps_below T n s.threads) n t₀ programs s
      (Reach-Inv T t₀ programs (starting-Inv T t₀ programs) r) (Reach-Resting T n rest r)
      (omega arith)

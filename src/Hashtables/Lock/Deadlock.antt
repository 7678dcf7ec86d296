-- ===== src/Hashtables/Lock/Deadlock.antt =====
-- The mutex never stops all threads.
use ycsb.Prelude.{ℕ, zero, suc, ◌≡◌, refl, subst, ◌⊎◌, inl, inr, some, List, [], ◌∷◌}
use ycsb.Prelude.Tests.{Option-cases}
use ycsb.Hashtables.{StringHashtable}
use ycsb.Hashtables.Calls.{Call}
use ycsb.Hashtables.Lock.{
  Phase, outside, inside, working, leaving, Thread, System, Step, lock, begin, end, unlock, Reach,
  starting,
}
use ycsb.Hashtables.Lock.Sequential.{Reach-Inv, starting-Inv, InPhase}

module _ {V : Type 0} (T : StringHashtable V) where
  -- Outside, and nothing left to call.
  abbrev pub HasFinished : Thread T → Type 0
  HasFinished th = (th.phase ≡ outside) × (th.todo ≡ [])

  -- The first `n` threads.
  abbrev pub Finished : ℕ → System T → Type 0
  Finished zero s = Unit
  Finished (suc n) s = HasFinished (s.threads n) × Finished n s

  abbrev pub Moves : System T → Type 0
  Moves s = (u : System T) × Step T s u

  -- A thread inside of a method has a step.
  inside-Moves :
      (s : System T) (i : ℕ) (p : Phase T) → (s.threads i).phase ≡ p → (p ≡ outside → ⊥) → Moves s
  inside-Moves s i outside e in_one = absurd (in_one refl)
  inside-Moves s i (inside c) e in_one = (
    _,
    begin i c (s.threads i).todo (s.threads i).ended _
        (λ k. record { phase = e k; todo = (s.threads i).todo; ended = (s.threads i).ended }) refl,
  )
  inside-Moves s i (working c t) e in_one = (
    _,
    end i c t (s.threads i).todo (s.threads i).ended _
        (λ k. record { phase = e k; todo = (s.threads i).todo; ended = (s.threads i).ended }) refl,
  )
  inside-Moves s i leaving e in_one = (
    _,
    unlock i (s.threads i).todo (s.threads i).ended _
        (λ k. record { phase = e k; todo = (s.threads i).todo; ended = (s.threads i).ended }) refl,
  )

  module _ (s : System T) (fits : (i : ℕ) → InPhase T s.table s.holder i (s.threads i).phase) where
    held-Moves : (h : ℕ) → s.holder ≡ some h → Moves s
    held-Moves h e =
        inside-Moves s h (s.threads h).phase refl
          (λ o. subst (InPhase T s.table s.holder h) o (fits h) e)

    thread-Moves :
        (i : ℕ) (p : Phase T) (cs : List (Call V))
        → (s.threads i).phase ≡ p
        → (s.threads i).todo ≡ cs
        → HasFinished (s.threads i) ⊎ Moves s
    thread-Moves i outside [] e f = inl (e, f)
    thread-Moves i outside (c ∷ cs) e f = elim (Option-cases s.holder) [
      | inl free ↦ inr (
        _,
        lock i c cs (s.threads i).ended _ free
            (λ k. record { phase = e k; todo = f k; ended = (s.threads i).ended }) refl,
      )
      | inr (h, held) ↦ inr (held-Moves h held)
    ]
    thread-Moves i (inside c) cs e f = inr (inside-Moves s i (inside c) e (λ o. cc))
    thread-Moves i (working c t) cs e f = inr (inside-Moves s i (working c t) e (λ o. cc))
    thread-Moves i leaving cs e f = inr (inside-Moves s i leaving e (λ o. cc))

    pub any-Moves : (n : ℕ) → Finished n s ⊎ Moves s
    any-Moves zero = inl tt
    any-Moves (suc n) = elim (thread-Moves n (s.threads n).phase (s.threads n).todo refl refl) [
      | inl finished ↦ elim (any-Moves n) [ inl others ↦ inl (finished, others) | inr m ↦ inr m ]
      | inr m ↦ inr m
    ]

-- In every state that the threads of a table reach, each of the first `n` threads is outside of the
-- methods with nothing left to call, or some thread has a step.
never_stuck :
    {V : Type 0} (T : StringHashtable V) (t₀ : T.State) (programs : ℕ → List (Call V))
    (s : System T) (n : ℕ)
    → Reach T (starting T t₀ programs) s
    → Finished T n s ⊎ ((u : System T) × Step T s u)
never_stuck T t₀ programs s n r =
    let inv = Reach-Inv T t₀ programs (starting-Inv T t₀ programs) r in
    any-Moves T s (λ i. (inv.fits i).in_phase) n

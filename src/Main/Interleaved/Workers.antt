-- ===== src/Main/Interleaved/Workers.antt =====
-- What a list of workers counts and holds, when one of them moves.
use ycsb.Prelude.{ℕ, zero, suc, ◌+◌, ◌*◌, ◌≡◌, refl, ap, ◌⊎◌, inl, inr, List, [], ◌∷◌, ◌++◌, arith}
use ycsb.Prelude.Lists.{replicate}
use ycsb.Prelude.Text.{Bytes}
use ycsb.Main.Interleaved.{Worker, ready, keyed, filled}

-- The operations that have yet to draw a key, those that are on their way, and the successes.
abbrev pub to_draw : Worker → ℕ
to_draw (ready n oks) = n
to_draw (keyed key n oks) = n
to_draw (filled key pairs n oks) = n

abbrev pub on_the_way : Worker → ℕ
on_the_way (ready n oks) = 0
on_the_way (keyed key n oks) = 1
on_the_way (filled key pairs n oks) = 1

abbrev pub successes : Worker → ℕ
successes (ready n oks) = oks
successes (keyed key n oks) = oks
successes (filled key pairs n oks) = oks

abbrev pub over_all : (Worker → ℕ) → List Worker → ℕ
over_all f [] = 0
over_all f (w ∷ ws) = f w + over_all f ws

pub over_all-append :
    (f : Worker → ℕ) (xs ys : List Worker) → over_all f (xs ++ ys) ≡ over_all f xs + over_all f ys
over_all-append f [] ys = omega arith
over_all-append f (x ∷ xs) ys = omega (arith, over_all-append f xs ys)

pub over_all-replicate :
    (f : Worker → ℕ) (k : ℕ) (w : Worker) → over_all f (replicate k w) ≡ k * f w
over_all-replicate f zero w = omega arith
over_all-replicate f (suc k) w = grind (arith, over_all-replicate f k w)

-- Every loop has ended.
abbrev pub AllIdle : List Worker → Type 0
AllIdle [] = Unit
AllIdle (ready zero oks ∷ ws) = AllIdle ws
AllIdle (ready (suc n) oks ∷ ws) = ⊥
AllIdle (keyed key n oks ∷ ws) = ⊥
AllIdle (filled key pairs n oks ∷ ws) = ⊥

-- Some worker has something for some predicate.
abbrev pub Somewhere : (Worker → Type 0) → List Worker → Type 0
Somewhere Q [] = ⊥
Somewhere Q (w ∷ ws) = Q w ⊎ Somewhere Q ws

abbrev pub HasKey : Bytes → Worker → Type 0
HasKey k (ready n oks) = ⊥
HasKey k (keyed key n oks) = key ≡ k
HasKey k (filled key pairs n oks) = key ≡ k

module _ (Q : Worker → Type 0) where
  pub Somewhere-here :
      (before after : List Worker) (w : Worker) → Q w → Somewhere Q (before ++ w ∷ after)
  Somewhere-here [] after w q = inl q
  Somewhere-here (x ∷ before) after w q = inr (Somewhere-here before after w q)

  -- It is the worker that moves who has it, or it stays with another one.
  pub Somewhere-cases :
      (before after : List Worker) (w w' : Worker)
      → Somewhere Q (before ++ w ∷ after)
      → Q w ⊎ Somewhere Q (before ++ w' ∷ after)
  Somewhere-cases [] after w w' (inl q) = inl q
  Somewhere-cases [] after w w' (inr s) = inr (inr s)
  Somewhere-cases (x ∷ before) after w w' (inl q) = inr (inl q)
  Somewhere-cases (x ∷ before) after w w' (inr s) = elim (Somewhere-cases before after w w' s) [
    | inl q ↦ inl q
    | inr t ↦ inr (inr t)
  ]

  abbrev pub Everywhere : List Worker → Type 0
  Everywhere [] = Unit
  Everywhere (w ∷ ws) = Q w × Everywhere ws

  pub Everywhere-at :
      (before after : List Worker) (w : Worker) → Everywhere (before ++ w ∷ after) → Q w
  Everywhere-at [] after w e = e.0
  Everywhere-at (x ∷ before) after w e = Everywhere-at before after w e.1

  pub Everywhere-moved :
      (before after : List Worker) (w w' : Worker)
      → Everywhere (before ++ w ∷ after)
      → Q w'
      → Everywhere (before ++ w' ∷ after)
  Everywhere-moved [] after w w' e q = (q, e.1)
  Everywhere-moved (x ∷ before) after w w' e q = (e.0, Everywhere-moved before after w w' e.1 q)

  pub Everywhere-replicate : (k : ℕ) (w : Worker) → Q w → Everywhere (replicate k w)
  Everywhere-replicate zero w q = tt
  Everywhere-replicate (suc k) w q = (q, Everywhere-replicate k w q)

pub AllIdle-left :
    (ws : List Worker) → AllIdle ws → over_all to_draw ws + over_all on_the_way ws ≡ 0
AllIdle-left [] h = refl
AllIdle-left (ready zero oks ∷ ws) h = omega (arith, AllIdle-left ws h)
AllIdle-left (ready (suc n) oks ∷ ws) h = absurd h
AllIdle-left (keyed key n oks ∷ ws) h = absurd h
AllIdle-left (filled key pairs n oks ∷ ws) h = absurd h

pub AllIdle-empty : (k : Bytes) (ws : List Worker) → AllIdle ws → Somewhere (HasKey k) ws → ⊥
AllIdle-empty k [] h s = absurd s
AllIdle-empty k (ready zero oks ∷ ws) h (inl q) = absurd q
AllIdle-empty k (ready zero oks ∷ ws) h (inr s) = AllIdle-empty k ws h s
AllIdle-empty k (ready (suc n) oks ∷ ws) h s = absurd h
AllIdle-empty k (keyed key n oks ∷ ws) h s = absurd h
AllIdle-empty k (filled key pairs n oks ∷ ws) h s = absurd h

-- A worker whose loop has not ended, among others.
pub record Busy (ws : List Worker) : Type 0 where
  pub before : List Worker
  pub worker : Worker
  pub after : List Worker
  pub place : ws ≡ before ++ worker ∷ after
  pub unfinished : AllIdle (worker ∷ []) → ⊥

pub idle_or_Busy : (ws : List Worker) → AllIdle ws ⊎ Busy ws
idle_or_Busy [] = inl tt
idle_or_Busy (ready zero oks ∷ ws) = elim (idle_or_Busy ws) [
  | inl all ↦ inl all
  | inr b ↦ inr (record {
    before = ready zero oks ∷ b.before;
    worker = b.worker;
    after = b.after;
    place = ap (λ l. ready zero oks ∷ l) b.place;
    unfinished = b.unfinished;
  })
]
idle_or_Busy (ready (suc n) oks ∷ ws) = inr (record {
  before = [];
  worker = ready (suc n) oks;
  after = ws;
  place = refl;
  unfinished = λ h. h;
})
idle_or_Busy (keyed key n oks ∷ ws) = inr (record {
  before = [];
  worker = keyed key n oks;
  after = ws;
  place = refl;
  unfinished = λ h. h;
})
idle_or_Busy (filled key pairs n oks ∷ ws) = inr (record {
  before = [];
  worker = filled key pairs n oks;
  after = ws;
  place = refl;
  unfinished = λ h. h;
})

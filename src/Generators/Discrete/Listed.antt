-- ===== src/Generators/Discrete/Listed.antt =====
-- Only registered values are ever returned.
use ycsb.Prelude.{
  ◌≡◌, refl, subst, Bool, true, false, Option, none, some, List, [], ◌∷◌, ◌++◌, ◌⊎◌, inl, inr,
  arith,
}
use ycsb.Prelude.Tests.{Bool-cases}
use ycsb.Prelude.Outcome.{ok, ok-injective, ◌>>=◌}
use ycsb.Platform.{Platform}
use ycsb.Utils.{random_double}
use ycsb.Generators.Discrete.{
  DiscreteGenerator, add_value, choose, conclude, next, fall_through, first_of,
}

module _ (P : Platform) {V : Type 0} where
  open P use {Double, Seed, lt, sub, div}

  -- The value is registered.
  abbrev pub IsListed : V → List (V × Double) → Type 0
  IsListed v [] = ⊥
  IsListed v ((w, _) ∷ rest) = (v ≡ w) ⊎ IsListed v rest

  abbrev pub LastIsListed : Option V → List (V × Double) → Type 0
  LastIsListed none values = values ≡ []
  LastIsListed (some v) values = IsListed v values

  -- What `last_` holds is registered, and it holds something once anything is.
  pub record IsValid (g : DiscreteGenerator P V) : Type 0 where
    pub last_listed : LastIsListed g.last g.values

  IsListed-append : (v : V) (xs ys : List (V × Double)) → IsListed v xs → IsListed v (xs ++ ys)
  IsListed-append v [] ys h = absurd h
  IsListed-append v (x ∷ xs) ys (inl e) = inl e
  IsListed-append v (x ∷ xs) ys (inr h) = inr (IsListed-append v xs ys h)

  choose-IsListed :
      (values : List (V × Double)) (sum u : Double) (v : V)
      → choose P values sum u ≡ some v
      → IsListed v values
  unfolding choose
  choose-IsListed [] sum u v h = cc
  choose-IsListed ((w, weight) ∷ rest) sum u v h = elim (Bool-cases (lt u (div weight sum))) [
    | inl e ↦ inl (ground arith)
    | inr e ↦ inr (choose-IsListed rest sum (sub u (div weight sum)) v (ground arith))
  ]

  LastIsListed-append :
      (values : List (V × Double)) (last : Option V) (v : V) (weight : Double)
      → LastIsListed last values
      → LastIsListed (first_of P values last v) (values ++ (v, weight) ∷ [])
  LastIsListed-append [] last v weight h = inl refl
  LastIsListed-append (x ∷ xs) none v weight h = absurd (cc)
  LastIsListed-append (x ∷ xs) (some u) v weight h = IsListed-append u (x ∷ xs) _ h

  pub add_value-IsValid :
      (g : DiscreteGenerator P V) (v : V) (weight : Double)
      → IsValid g
      → IsValid (add_value P v weight g)
  unfolding add_value
  add_value-IsValid g v weight h = record {
    last_listed = LastIsListed-append g.values g.last v weight h.last_listed;
  }

  -- What a draw is: a registered value, with the registered values and the invariant kept.
  pub record Listed (g : DiscreteGenerator P V) (r : V × DiscreteGenerator P V × Seed)
      : Type 0 where
    pub listed : IsListed r.0 g.values
    pub values : r.1.values ≡ g.values
    pub sum : r.1.sum ≡ g.sum
    pub valid : IsValid r.1

  conclude-Listed :
      (ndebug : Bool) (g : DiscreteGenerator P V) (o : Option V) (s : Seed)
      (r : V × DiscreteGenerator P V × Seed)
      → IsValid g
      → ((v : V) → o ≡ some v → IsListed v g.values)
      → conclude P ndebug g o s ≡ ok r
      → Listed g r
  unfolding conclude fall_through
  conclude-Listed ndebug g (some v) s r h k run = subst (Listed g) (ok-injective _ r run) (record {
    listed = k v refl;
    values = refl;
    sum = refl;
    valid = record { last_listed = k v refl };
  })
  conclude-Listed ndebug g none s r h k run = fallen ndebug g.last h.last_listed run
    where
      fallen :
          (ndebug : Bool) (last : Option V)
          → LastIsListed last g.values
          → (fall_through P ndebug last >>= λ v. ok (v, g, s)) ≡ ok r
          → Listed g r
      fallen false last l e = absurd (cc)
      fallen true none l e = absurd (cc)
      fallen true (some v) l e =
          subst (Listed g) (ok-injective _ r e)
            (record { listed = l; values = refl; sum = refl; valid = h })

  -- The same for the choice by any number that was drawn.
  pub choice-Listed :
      (ndebug : Bool) (g : DiscreteGenerator P V) (u : Double) (s : Seed)
      (r : V × DiscreteGenerator P V × Seed)
      → IsValid g
      → conclude P ndebug g (choose P g.values g.sum u) s ≡ ok r
      → Listed g r
  choice-Listed ndebug g u s r h run =
      conclude-Listed ndebug g (choose P g.values g.sum u) s r h (choose-IsListed g.values g.sum u)
        run

  -- Every value that Next returns is one that AddValue registered, with and without assertions, and
  -- the registered values, their total weight and the invariant stay.
  pub next-Listed :
      (ndebug : Bool) (g : DiscreteGenerator P V) (s : Seed) (r : V × DiscreteGenerator P V × Seed)
      → IsValid g
      → next P ndebug g s ≡ ok r
      → Listed g r
  unfolding next
  next-Listed ndebug g s r h run =
      choice-Listed ndebug g (random_double P s).0 (random_double P s).1 r h run

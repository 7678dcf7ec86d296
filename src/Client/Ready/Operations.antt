-- ===== src/Client/Ready/Operations.antt =====
-- Each choice of an operation by a ready workload returns, and leaves it ready.
use ycsb.Prelude.{◌≡◌, refl, sym, ◌∙◌, subst, true, Option, none, some, List, [], ◌∷◌, inl, inr}
use ycsb.Prelude.Lists.{All}
use ycsb.Prelude.Outcome.{Returns}
use ycsb.Platform.{Platform}
use ycsb.Utils.{random_double}
use ycsb.Generators.Discrete as Weighted
use ycsb.Generators.Discrete.{DiscreteGenerator}
use ycsb.Generators.Discrete.Listed as Listed
use ycsb.Workload.{Operation, CoreWorkload, next_operation}
use ycsb.Client.Calls.{choose_operation}
use ycsb.Client.Ready.{Serves, Ready}

module _ (P : Platform) (Allowed : Operation → Type 0) where
  open P use {Double, Seed}

  listed-IsServed :
      (op : Operation) (values : List (Operation × Double))
      → All (λ p. Allowed p.0) values
      → Listed.IsListed P op values
      → Allowed op
  listed-IsServed op [] h l = absurd l
  listed-IsServed op ((o, _) ∷ rest) h (inl e) = subst Allowed (sym e) h.0
  listed-IsServed op ((o, _) ∷ rest) h (inr l) = listed-IsServed op rest h.1 l

  conclude_returns :
      {V : Type 0} (g : DiscreteGenerator P V) (o last : Option V) (s : Seed) (x : V × Double)
      (xs : List (V × Double))
      → Listed.LastIsListed P last (x ∷ xs)
      → last ≡ g.last
      → Returns (Weighted.conclude P true g o s) (λ _. Unit {0})
  unfolding Weighted.conclude Weighted.fall_through
  conclude_returns g (some v) last s x xs l e = ((v, record g { last = some v }, s), refl, tt)
  conclude_returns g none (some v) s x xs l e = ((v, g, s), rw (sym e) refl, tt)
  conclude_returns g none none s x xs l e = absurd (cc)

  -- In a build without assertions a choice among some values always returns, whatever number it goes
  -- by.
  choice_returns :
      {V : Type 0} (g : DiscreteGenerator P V) (u : Double) (s : Seed) (x : V × Double)
      (xs : List (V × Double))
      → Listed.IsValid P g
      → g.values ≡ x ∷ xs
      → Returns (Weighted.conclude P true g (Weighted.choose P g.values g.sum u) s) (λ _. Unit {0})
  choice_returns g u s x xs v e =
      conclude_returns g (Weighted.choose P g.values g.sum u) g.last s x xs
        (subst (Listed.LastIsListed P g.last) e v.last_listed) refl

  pub choose_operation-Ready :
      (u : Double) (w : CoreWorkload P) (s : Seed)
      → Ready P Allowed w
      → Returns (choose_operation P true u w s) (λ r. Allowed r.0 × Ready P Allowed r.1)
  unfolding choose_operation
  choose_operation-Ready u w s h =
      let o = h.operations in
      let (d, drawn, _) =
        choice_returns w.op_chooser u s o.first o.others o.valid o.some_operation in
      let l = Listed.choice-Listed P true w.op_chooser u s d o.valid drawn in
      let serves : Serves P Allowed d.1 = record {
        valid = l.valid;
        served = subst (All (λ p. Allowed p.0)) (sym l.values) o.served;
        first = o.first;
        others = o.others;
        some_operation = l.values ∙ o.some_operation;
      } in
      (
        (d.0, record w { op_chooser = d.1 }, d.2),
        rw drawn,
        (
          listed-IsServed d.0 w.op_chooser.values o.served l.listed,
          record {
            requests = h.requests;
            fields = h.fields;
            scans = h.scans;
            lengths = h.lengths;
            keys = h.keys;
            operations = serves;
            some_field = h.some_field;
          },
        ),
      )

  pub next_operation-Ready :
      (w : CoreWorkload P) (s : Seed)
      → Ready P Allowed w
      → Returns (next_operation P true w s) (λ r. Allowed r.0 × Ready P Allowed r.1)
  unfolding next_operation Weighted.next choose_operation
  next_operation-Ready w s h =
      choose_operation-Ready (random_double P s).0 w (random_double P s).1 h

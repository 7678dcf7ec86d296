-- ===== src/Workload/Keys.antt =====
-- Which keys transactions and loading name.
use ycsb.Prelude.{ℕ, zero, suc, ◌+◌, ◌%◌, ◌^◌, ◌≤◌, ◌≡◌, refl, subst, Bool, inl, inr, arith}
use ycsb.Prelude.Tests.{leb, leb→le, le→leb, Bool-cases}
use ycsb.Prelude.Outcome.{ok, >>=-eq-ok, ok-injective, Returns}
use ycsb.Prelude.Text.{Bytes}
use ycsb.Platform.{Platform, UniformInRange}
use ycsb.Generators.Counter as Counter
use ycsb.Generators.Counter.{CounterGenerator}
use ycsb.Generators.Uniform as Uniform
use ycsb.Generators.Any as Any
use ycsb.Generators.Any.{Generator, counter, uniform}
use ycsb.Workload.{CoreWorkload, key_name, next_sequence_key, draw_key, next_transaction_key}

module _ (P : Platform) where
  open P use {Seed}

  draw_key-le :
      (fuel : ℕ) (ndebug : Bool) (c : CounterGenerator) (g : Generator P) (s : Seed)
      (r : ℕ × Generator P × Seed)
      → draw_key P fuel ndebug c g s ≡ ok r
      → r.0 ≤ Counter.last c
  unfolding draw_key
  draw_key-le zero ndebug c g s r h = absurd (cc)
  draw_key-le (suc fuel) ndebug c g s r h =
      let (d, drawn, rest) = >>=-eq-ok (Any.next P ndebug c g s) _ h in
      elim (Bool-cases (leb d.0 (Counter.last c))) [
        | inl e ↦ subst (λ t. t.0 ≤ Counter.last c) (ok-injective d r (rw e at rest)) (leb→le _ _ e)
        | inr e ↦ draw_key-le fuel ndebug c d.1 d.2 r (rw e at rest)
      ]

  -- The rest of the workload's state, which a call that draws a key leaves alone.
  abbrev pub KeyDrawn : CoreWorkload P → Bytes × CoreWorkload P × Seed → Type 0
  KeyDrawn w r =
      (k : ℕ) × (k ≤ Counter.last w.insert_key_sequence)
      × (r.0 ≡ key_name P w k)
      × (r.1 ≡ record w { key_chooser = r.1.key_chooser })

  -- Whenever NextTransactionKey returns, it returns the name of a key number that is not above the
  -- last number of the insert key sequence, and it has changed nothing but the key chooser: the
  -- sequence stays where it was.
  pub next_transaction_key-KeyDrawn :
      (fuel : ℕ) (ndebug : Bool) (w : CoreWorkload P) (s : Seed) (r : Bytes × CoreWorkload P × Seed)
      → next_transaction_key P fuel ndebug w s ≡ ok r
      → KeyDrawn w r
  unfolding next_transaction_key
  next_transaction_key-KeyDrawn fuel ndebug w s r h =
      let (d, drawn, rest) =
        >>=-eq-ok (draw_key P fuel ndebug w.insert_key_sequence w.key_chooser s) _ h in
      subst (KeyDrawn w) (ok-injective _ r rest)
        (d.0, draw_key-le fuel ndebug w.insert_key_sequence w.key_chooser s d drawn, refl, refl)

  draw_key-uniform :
      (fuel : ℕ) (ndebug : Bool) (c : CounterGenerator) (g : Uniform.UniformGenerator P) (s : Seed)
      → (Uniform.next P g).0 ≤ Counter.last c
      → draw_key P (suc fuel) ndebug c (uniform g) s
        ≡ ok ((Uniform.next P g).0, uniform (Uniform.next P g).1, s)
  unfolding draw_key Any.next
  draw_key-uniform fuel ndebug c g s h =
      ground (arith, le→leb (Uniform.next P g).0 (Counter.last c) h)

  -- With a uniform chooser over the numbers up to the sequence's last one the first draw serves: one
  -- round of the loop is enough.
  pub next_transaction_key-uniform :
      UniformInRange P
      → (fuel : ℕ) (ndebug : Bool) (w : CoreWorkload P) (s : Seed) (g : Uniform.UniformGenerator P)
      → w.key_chooser ≡ uniform g
      → Uniform.IsOver P 0 (Counter.last w.insert_key_sequence) g
      → Returns (next_transaction_key P (suc fuel) ndebug w s) λ r.
        (r.0 ≡ key_name P w (Uniform.next P g).0)
        × (r.1 ≡ record w { key_chooser = uniform (Uniform.next P g).1 })
        × Uniform.IsOver P 0 (Counter.last r.1.insert_key_sequence) (Uniform.next P g).1
  unfolding next_transaction_key
  next_transaction_key-uniform L fuel ndebug w s g e v =
      let (above, below, remembers, over) = Uniform.next_range P L g 0 _ v in
      let (x, g') = Uniform.next P g in
      (
        (key_name P w x, record w { key_chooser = uniform g' }, s),
        rw (e, draw_key-uniform fuel ndebug w.insert_key_sequence g s below),
        (refl, refl, over),
      )

  -- A sequence key is the name of the counter's number, and the counter moves on by one, modulo
  -- 2 ^ 64; nothing else of the workload changes.
  pub next_sequence_key_lem :
      (ndebug : Bool) (w : CoreWorkload P) (s : Seed) (c : CounterGenerator)
      → w.key_generator ≡ counter c
      → next_sequence_key P ndebug w s
        ≡ ok (
          key_name P w c.counter,
          record w { key_generator = counter (record { counter = (c.counter + 1) % 2 ^ 64 }) },
          s,
        )
  unfolding next_sequence_key Any.next Counter.next
  next_sequence_key_lem ndebug w s c e = rw e

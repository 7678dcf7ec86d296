-- ===== src/Generators/Zipfian/Zeta.antt =====
-- The zeta constant is raised step by step, and is at every time the constant computed from scratch.
use ycsb.Prelude.{ℕ, zero, suc, ◌+◌, ◌-◌, ◌≤◌, ◌<◌, ◌≡◌, refl, ap, ◌∙◌, Bool, inl, inr, arith}
use ycsb.Prelude.Tests.{Bool-cases, ltb, le→leb, lt→ltb, ltb→lt}
use ycsb.Prelude.Outcome.{ok, Returns}
use ycsb.Platform.{Platform}
use ycsb.Utils.{random_double}
use ycsb.Generators.Zipfian.{
  ZipfianGenerator, zeta_loop, zeta_range, zeta, raise_zeta, eta_of, grow, next_of, max_num_items,
  value_of,
}

module _ (P : Platform) where
  open P use {Double, Seed, add, div, pow, of_u64}

  zeta_loop-add :
      (m n k i j : ℕ) (theta z : Double)
      → j ≡ i + m
      → k ≡ m + n
      → zeta_loop P n j theta (zeta_loop P m i theta z) ≡ zeta_loop P k i theta z
  unfolding zeta_loop
  zeta_loop-add zero n k i j theta z p q =
      let same : n ≡ k = omega arith in let start : j ≡ i = omega arith in rw (same, start)
  zeta_loop-add (suc m) n zero i j theta z p q = absurd (omega arith)
  zeta_loop-add (suc m) n (suc k) i j theta z p q =
      zeta_loop-add m n k (i + 1) j theta _ (omega arith) (omega arith)

  -- Going on from a constant that is already there gives what a computation from scratch gives,
  -- operation for operation, whatever the rounding of the doubles.
  pub zeta_range-zeta :
      (m n : ℕ) (theta : Double) → m ≤ n → zeta_range P m n theta (zeta P m theta) ≡ zeta P n theta
  unfolding zeta zeta_range
  zeta_range-zeta m n theta h =
      zeta_loop-add (m - 0) (n - m) (n - 0) (0 + 1) (m + 1) theta (of_u64 0) (omega arith)
        (omega arith)

  -- The constants are those of the items counted so far, and the generator's own items are counted.
  pub record IsTuned (g : ZipfianGenerator P) : Type 0 where
    pub zeta_n : g.zeta_n ≡ zeta P g.n_for_zeta g.theta
    pub eta : g.eta ≡ eta_of P g
    pub zeta_2 : g.zeta_2 ≡ zeta P 2 g.theta
    pub counted : g.num_items ≤ g.n_for_zeta

  pub raise_zeta-tuned :
      (ndebug : Bool) (num : ℕ) (g : ZipfianGenerator P)
      → g.zeta_n ≡ zeta P g.n_for_zeta g.theta
      → g.n_for_zeta ≤ num
      → raise_zeta P ndebug num g ≡ ok (record g { zeta_n = zeta P num g.theta; n_for_zeta = num })
  unfolding raise_zeta
  raise_zeta-tuned ndebug num g t h = rw (le→leb g.n_for_zeta num h) (
      ap (λ z. ok (record g { zeta_n = z; n_for_zeta = num }))
        (ap (zeta_range P g.n_for_zeta num g.theta) t ∙ zeta_range-zeta g.n_for_zeta num g.theta h))

  abbrev Grown : ZipfianGenerator P → ℕ → ZipfianGenerator P → Type 0
  Grown g num r = IsTuned r × (num ≤ r.n_for_zeta) × (r.base ≡ g.base) × (r.num_items ≡ g.num_items)

  grow-IsTuned :
      (ndebug : Bool) (num : ℕ) (g : ZipfianGenerator P)
      → IsTuned g
      → Returns (grow P ndebug num g) (Grown g num)
  unfolding grow
  grow-IsTuned ndebug num g t = elim (Bool-cases (ltb g.n_for_zeta num)) [
    | inl more ↦
        let raised : ZipfianGenerator P = record g {
          zeta_n = zeta P num g.theta;
          n_for_zeta = num;
        } in
        let lt : g.n_for_zeta < num = ltb→lt _ _ more in
        (
          record raised { eta = eta_of P raised },
          rw (more, raise_zeta-tuned ndebug num g t.zeta_n (omega arith)),
          (
            record {
              zeta_n = refl;
              eta = unfold eta_of in refl;
              zeta_2 = t.zeta_2;
              counted = omega (arith, t.counted);
            },
            omega arith,
            refl,
            refl,
          ),
        )
    | inr enough ↦ (g, rw enough, (t, ground arith, refl, refl))
  ]

  -- What a call leaves: a tuned generator that has counted the items asked for, over the same range,
  -- and that remembers the value returned.
  pub record Drawn (g : ZipfianGenerator P) (num : ℕ) (r : ℕ × ZipfianGenerator P × Seed)
      : Type 0 where
    pub tuned : IsTuned r.1
    pub counted : num ≤ r.1.n_for_zeta
    pub base : r.1.base ≡ g.base
    pub num_items : r.1.num_items ≡ g.num_items
    pub remembers : r.1.last_value ≡ r.0

  -- Next on a tuned generator, asked for at least 2 and fewer than 2 ^ 40 - 1 items, returns, with
  -- and without assertions, and leaves a tuned generator over the same range that has counted the
  -- items and remembers the value.
  pub next_of-Drawn :
      (ndebug : Bool) (num : ℕ) (g : ZipfianGenerator P) (s : Seed)
      → IsTuned g
      → 2 ≤ num
      → num < max_num_items
      → Returns (next_of P ndebug num g s) (Drawn g num)
  unfolding next_of
  next_of-Drawn ndebug num g s t lo hi =
      let (r, run, (tuned, counted, base, items)) = grow-IsTuned ndebug num g t in
      let (u, s') = random_double P s in
      (
        (value_of P num r u, record r { last_value = value_of P num r u }, s'),
        rw (le→leb 2 num lo, lt→ltb num max_num_items hi, run),
        record {
          tuned = record {
            zeta_n = tuned.zeta_n;
            eta = unfold eta_of in tuned.eta;
            zeta_2 = tuned.zeta_2;
            counted = tuned.counted;
          };
          counted = counted;
          base = base;
          num_items = items;
          remembers = refl;
        },
      )

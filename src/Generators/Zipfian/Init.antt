-- ===== src/Generators/Zipfian/Init.antt =====
-- The constructor.
use ycsb.Prelude.{ℕ, ◌+◌, ◌-◌, ◌%◌, ◌^◌, ◌≤◌, ◌<◌, ◌≡◌, refl, ap, ◌∙◌, Bool, arith}
use ycsb.Prelude.Tests.{le→leb, lt→ltb}
use ycsb.Prelude.Outcome.{Returns}
use ycsb.Platform.{Platform}
use ycsb.Generators.Zipfian.{
  ZipfianGenerator, zeta_loop, zeta_range, zeta, eta_of, next, blank, build, new, max_num_items,
}
use ycsb.Generators.Zipfian.Zeta.{IsTuned, next_of-Drawn, raise_zeta-tuned}

module _ (P : Platform) where
  open P use {Double, Seed}

  -- A tuned generator over the given range, which it has counted whole.
  pub record IsOver (min max : ℕ) (g : ZipfianGenerator P) : Type 0 where
    pub tuned : IsTuned P g
    pub base : g.base ≡ min
    pub num_items : g.num_items ≡ max - min + 1

  build-blank :
      (ndebug : Bool) (min n : ℕ) (theta : Double) (s : Seed)
      → 2 ≤ n
      → n < max_num_items
      → Returns
          (build P ndebug (blank P min n theta) s)
          λ r. IsTuned P r.0 × (r.0.base ≡ min) × (r.0.num_items ≡ n)
  unfolding build next blank
  build-blank ndebug min n theta s lo hi =
      let g : ZipfianGenerator P = blank P min n theta in
      let fresh : g.zeta_n ≡ zeta P 0 g.theta = unfold zeta zeta_range zeta_loop in refl in
      let none_yet : g.n_for_zeta ≤ n = omega arith in
      let raised : ZipfianGenerator P = record g { zeta_n = zeta P n theta; n_for_zeta = n } in
      let start : ZipfianGenerator P = record raised { eta = eta_of P raised } in
      let tuned : IsTuned P start =
        unfold eta_of in
        record { zeta_n = refl; eta = refl; zeta_2 = refl; counted = omega arith } in
      let (r, run, d) = next_of-Drawn P ndebug n start s tuned lo hi in
      (
        (r.1, r.2),
        rw (
          le→leb 2 n lo,
          lt→ltb n max_num_items hi,
          raise_zeta-tuned P ndebug n g fresh none_yet,
          run,
        ),
        (d.tuned, d.base, d.num_items),
      )

  -- Over a range of at least 2 and fewer than 2 ^ 40 - 1 numbers the constructor returns, with and
  -- without assertions, a generator over that range whose constants are those of all its items.
  pub new-IsOver :
      (ndebug : Bool) (min max : ℕ) (theta : Double) (s : Seed)
      → min < max
      → max < 2 ^ 64
      → max - min + 1 < max_num_items
      → Returns (new P ndebug min max theta s) (λ r. IsOver min max r.0)
  unfolding new
  new-IsOver ndebug min max theta s lo hi few =
      let count : (max + 2 ^ 64 - min + 1) % 2 ^ 64 ≡ max - min + 1 = omega arith in
      let (r, run, (tuned, base, items)) =
        build-blank ndebug min (max - min + 1) theta s (omega arith) few in
      (
        r,
        ap (λ k. build P ndebug (blank P min k theta) s) count ∙ run,
        record { tuned = tuned; base = base; num_items = items },
      )

  -- On a generator over such a range Next returns, and leaves a generator over it that remembers the
  -- value.
  pub next-IsOver :
      (ndebug : Bool) (min max : ℕ) (g : ZipfianGenerator P) (s : Seed)
      → IsOver min max g
      → min < max
      → max - min + 1 < max_num_items
      → Returns (next P ndebug g s) (λ r. IsOver min max r.1 × (r.1.last_value ≡ r.0))
  unfolding next
  next-IsOver ndebug min max g s v lo few =
      let (r, run, d) =
        next_of-Drawn P ndebug g.num_items g s v.tuned (omega (arith, v.num_items))
          (omega (arith, v.num_items)) in
      (
        r,
        run,
        (
          record { tuned = d.tuned; base = d.base ∙ v.base; num_items = d.num_items ∙ v.num_items },
          d.remembers,
        ),
      )

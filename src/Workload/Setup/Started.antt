-- ===== src/Workload/Setup/Started.antt =====
-- Init on properties that serve.
use ycsb.Prelude.{ℕ, suc, ◌+◌, ◌-◌, ◌%◌, ◌^◌, ◌≤◌, ◌≡◌, refl, ap, ◌∙◌, true, arith}
use ycsb.Prelude.Int.{pos, to_u64, ◌-ℤ◌}
use ycsb.Prelude.Outcome.{ok, Returns}
use ycsb.Platform.{Platform, UniformInRange}
use ycsb.Properties.{Properties}
use ycsb.Generators.Uniform as Uniform
use ycsb.Workload.Setup.{
  Settings, init, get_field_len_generator, key_chooser_of, scan_len_chooser_of,
}
use ycsb.Workload.Setup.Chooser.{read_settings_texts}
use ycsb.Generators.Any.{Generator, constant, uniform}
use ycsb.Generators.Uniform.{new_const}
use ycsb.Generators.Counter as Counter
use ycsb.Generators.Counter.{CounterGenerator}
use ycsb.Prelude.Outcome.{◌>>=◌, >>=-Returns}
use ycsb.Workload.Setup.Serving.{Serving}

last_field : (k : ℕ) → to_u64 (pos (suc k) -ℤ pos 1) ≡ k
unfolding to_u64 ◌-ℤ◌
last_field k = ground arith

module _ (P : Platform) (L : UniformInRange P) where
  field_lengths :
      (p : Properties) (c : Settings P) (n : ℕ) (s : P.Seed) (v : Serving P p c n)
      → get_field_len_generator P true p s ≡ ok (constant (new_const (pos (suc v.bytes))), s)
  unfolding get_field_len_generator
  field_lengths p c n s v = rw (v.some_byte, v.constant_lengths) refl

  -- A chooser that is uniform over a range that is not empty.
  uniform_made :
      (lo hi : ℕ) (s : P.Seed)
      → lo ≤ hi
      → Returns {A = Generator P × P.Seed}
          (Uniform.new P lo hi >>= λ g. ok (uniform g, s))
          (λ _. Unit {0})
  uniform_made lo hi s h =
      let (g, made, _) = Uniform.new-IsOver P L lo hi h in ((uniform g, s), rw made refl, tt)

  requests :
      (p : Properties) (c : Settings P) (n : ℕ) (s : P.Seed) (k : CounterGenerator)
      → Serving P p c n
      → Returns (key_chooser_of P true p c k s) (λ _. Unit {0})
  unfolding key_chooser_of
  requests p c n s k v =
      let (r, made, _) =
        uniform_made 0 ((to_u64 c.record_count + 2 ^ 64 - 1) % 2 ^ 64) s (omega arith) in
      (r, rw ((read_settings_texts P p c v.read_them).1, v.uniform_requests) made, tt)

  scan_lengths :
      (p : Properties) (c : Settings P) (n : ℕ) (s : P.Seed)
      → Serving P p c n
      → Returns (scan_len_chooser_of P true c s) (λ _. Unit {0})
  unfolding scan_len_chooser_of
  scan_lengths p c n s v =
      let (r, made, _) = uniform_made 1 (suc v.longest) s (omega arith) in
      (r, rw (v.uniform_scans, v.some_length) (unfold to_u64 in made), tt)

  pub init-Returns :
      (p : Properties) (c : Settings P) (n : ℕ) (s : P.Seed)
      → Serving P p c n
      → Returns (init P true p s) (λ _. Unit {0})
  unfolding init
  init-Returns p c n s v =
      let sequence = Counter.set (Counter.new 3) (to_u64 c.record_count) in
      let lengths = field_lengths p c n s v in
      let (k, keys, _) = requests p c n s sequence v in
      let (g, fields, _) = Uniform.new-IsOver P L 0 v.fields (omega arith) in
      let (l, scans, _) = scan_lengths p c n k.1 v in
      >>=-Returns _ v.some_field (
        >>=-Returns _ lengths (
          >>=-Returns _ v.read_them (
            >>=-Returns _ keys (
              >>=-Returns _ (ap (Uniform.new P 0) (last_field v.fields) ∙ fields)
                (>>=-Returns _ scans (_, refl, tt))))))

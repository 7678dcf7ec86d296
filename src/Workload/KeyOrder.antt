-- ===== src/Workload/KeyOrder.antt =====
-- Zero padding: names in the order of their numbers.
use ycsb.Prelude.{
  ℕ, zero, suc, ◌+◌, ◌-◌, ◌*◌, ◌≤◌, ◌<◌, ◌≡◌, refl, sym, ap, ◌∙◌, Bool, true, false, [], ◌∷◌, ◌++◌,
  ◌⊎◌, inl, inr, arith,
}
use ycsb.Prelude.Tests.{ltb, ◌==◌, if◌then◌else◌}
use ycsb.Prelude.Lists.{length, replicate, length-append, length-replicate}
use ycsb.Prelude.Int.{ℤ, pos_part}
use ycsb.Prelude.Text.{
  Bytes, str, to_string, decimal, decimal-to_string, decimal-zeros, AllDigits, to_string-AllDigits,
}
use ycsb.Workload.{build_key_name}
use ycsb.Workload.Names.{numbered, build_key_name_form}

-- The order of texts byte by byte, as of std::string and of the keys of a store.
unfoldable pub precedes : Bytes → Bytes → Bool
precedes [] [] = false
precedes [] (_ ∷ _) = true
precedes (_ ∷ _) [] = false
precedes (a ∷ s) (b ∷ t) = if ltb a b then true else if a == b then precedes s t else false

precedes-append : (p s t : Bytes) → precedes (p ++ s) (p ++ t) ≡ precedes s t
unfolding precedes
precedes-append [] s t = refl
precedes-append (a ∷ p) s t = ground (arith, precedes-append p s t)

-- As many digits behind a smaller number make a smaller number.
decimal-lt :
    (s t : Bytes) (m n : ℕ)
    → AllDigits s
    → AllDigits t
    → length s ≡ length t
    → m < n
    → decimal m s < decimal n t
unfolding decimal
decimal-lt [] [] m n hs ht e lt = lt
decimal-lt [] (d ∷ t) m n hs ht e lt = absurd (omega arith)
decimal-lt (c ∷ s) [] m n hs ht e lt = absurd (omega arith)
decimal-lt (c ∷ s) (d ∷ t) m n ((lo, hi), hs) ((lo', hi'), ht) e lt =
    decimal-lt s t (m * 10 + (c - b'0')) (n * 10 + (d - b'0')) hs ht (omega arith) (omega arith)

three_ways : (m n : ℕ) → (m < n) ⊎ ((m ≡ n) ⊎ (n < m))
three_ways m n = ground arith

digits_in_order :
    (s t : Bytes) (m : ℕ)
    → AllDigits s
    → AllDigits t
    → length s ≡ length t
    → precedes s t ≡ ltb (decimal m s) (decimal m t)
unfolding precedes decimal
digits_in_order [] [] m hs ht e = ground arith
digits_in_order [] (d ∷ t) m hs ht e = absurd (omega arith)
digits_in_order (c ∷ s) [] m hs ht e = absurd (omega arith)
digits_in_order (c ∷ s) (d ∷ t) m ((lo, hi), hs) ((lo', hi'), ht) e =
    let same : length s ≡ length t = omega arith in
    elim (three_ways c d) [
      | inl lt ↦ ground (
        arith,
        decimal-lt s t (m * 10 + (c - b'0')) (m * 10 + (d - b'0')) hs ht same (omega arith),
      )
      | inr rest ↦ elim rest [
        | inl e' ↦ ground (
          arith,
          digits_in_order s t (m * 10 + (c - b'0')) hs ht same,
          ap (λ x. decimal (m * 10 + (x - b'0')) t) e',
        )
        | inr gt ↦ ground (
          arith,
          decimal-lt t s (m * 10 + (d - b'0')) (m * 10 + (c - b'0')) ht hs (sym same) (omega arith),
        )
      ]
    ]

padded : ℤ → ℕ → Bytes
padded padding k = replicate (pos_part padding - length (to_string k)) b'0' ++ to_string k

padded-AllDigits : (padding : ℤ) (k : ℕ) → AllDigits (padded padding k)
unfolding padded
padded-AllDigits padding k = zeros (pos_part padding - length (to_string k))
  where
    zeros : (z : ℕ) → AllDigits (replicate z b'0' ++ to_string k)
    zeros zero = to_string-AllDigits k
    zeros (suc z) = ((omega arith, omega arith), zeros z)

length-padded :
    (padding : ℤ) (k : ℕ)
    → length (to_string k) ≤ pos_part padding
    → length (padded padding k) ≡ pos_part padding
unfolding padded
length-padded padding k h = omega (
  arith,
  length-append {0} (replicate (pos_part padding - length (to_string k)) b'0') (to_string k),
  length-replicate {0} {A = ℕ} (pos_part padding - length (to_string k)) b'0',
)

decimal-padded : (padding : ℤ) (k : ℕ) → decimal 0 (padded padding k) ≡ k
unfolding padded
decimal-padded padding k = decimal-zeros _ (to_string k) ∙ decimal-to_string k

-- Where inserts are ordered and the zero padding is at least as wide as the digits of two key
-- numbers, their names stand in the order of bytes just as the numbers in theirs: a store that sorts
-- its keys by bytes scans the records in the order of the key numbers.
pub build_key_name_order :
    (padding : ℤ) (m n : ℕ)
    → length (to_string m) ≤ pos_part padding
    → length (to_string n) ≤ pos_part padding
    → precedes (build_key_name true padding m) (build_key_name true padding n) ≡ ltb m n
build_key_name_order padding m n hm hn =
    (λ i. precedes (form m i) (form n i))
    ∙ precedes-append (str "user") (padded padding m) (padded padding n)
    ∙ digits_in_order (padded padding m) (padded padding n) 0 (padded-AllDigits padding m)
        (padded-AllDigits padding n) (length-padded padding m hm ∙ sym (length-padded padding n hn))
    ∙ λ i. ltb (decimal-padded padding m i) (decimal-padded padding n i)
  where
    form : (k : ℕ) → build_key_name true padding k ≡ str "user" ++ padded padding k
    form k = unfold padded numbered in (build_key_name_form true padding k).0

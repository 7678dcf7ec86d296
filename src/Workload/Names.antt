-- ===== src/Workload/Names.antt =====
-- Key names: their form, and that distinct keys have distinct names.
use ycsb.Prelude.{ℕ, ◌+◌, ◌-◌, ◌≤◌, ◌≡◌, sym, ap, ◌∙◌, ◌↔◌, Bool, ◌++◌, arith}
use ycsb.Prelude.Tests.{if◌then◌else◌}
use ycsb.Prelude.Lists.{length, replicate, drop, length-append, length-replicate}
use ycsb.Prelude.Int.{ℤ, pos, negsuc, ◌+ℤ◌, ◌-ℤ◌, max_ℤ, pos_part, to_u64}
use ycsb.Prelude.Text.{Bytes, str, to_string, decimal, decimal-to_string, decimal-zeros}
use ycsb.Utils.{hash}
use ycsb.Workload.{pad_key, build_key_name}

-- The number that the name stands for: the key number itself, or its hash.
unfoldable pub numbered : Bool → ℕ → ℕ
numbered ordered_inserts key_num = if ordered_inserts then key_num else hash key_num

zeros_lem :
    (len : ℕ) (padding : ℤ)
    → to_u64 (max_ℤ (pos 0) (pos 4 +ℤ max_ℤ (pos len) padding -ℤ pos (4 + len)))
      ≡ pos_part padding - len
unfolding to_u64 max_ℤ ◌+ℤ◌ ◌-ℤ◌
zeros_lem len (pos n) = ground arith
zeros_lem len (negsuc n) = ground arith

pad_key_lem :
    (padding : ℤ) (digits : Bytes)
    → pad_key padding digits
      ≡ str "user" ++ (replicate (pos_part padding - length digits) b'0' ++ digits)
unfolding pad_key
pad_key_lem padding digits =
    ap (λ k. str "user" ++ (replicate k b'0' ++ digits)) (zeros_lem (length digits) padding)

-- A key's name is "user" and the decimal digits of its number, with zeros between so that at least
-- as many characters follow the prefix as the padding asks for, and no zero where that many digits
-- are there anyway.
pub build_key_name_form :
    (ordered_inserts : Bool) (padding : ℤ) (key_num : ℕ)
    → let digits = to_string (numbered ordered_inserts key_num) in
      (build_key_name ordered_inserts padding key_num
        ≡ str "user" ++ (replicate (pos_part padding - length digits) b'0' ++ digits))
      × (pos_part padding ≤ length (drop 4 (build_key_name ordered_inserts padding key_num)))
unfolding build_key_name numbered
build_key_name_form ordered_inserts padding key_num =
    let digits = to_string (numbered ordered_inserts key_num) in
    let form = pad_key_lem padding digits in
    (
      form,
      rw (ap (λ s. length (drop 4 s)) form) (
          omega (
            arith,
            length-append {0} (replicate (pos_part padding - length digits) b'0') digits,
            length-replicate {0} {A = ℕ} (pos_part padding - length digits) b'0',
          )),
    )

-- Two keys have one name just where they have one number: the same key number where inserts are
-- ordered, the same hash where they are hashed.
pub build_key_name-eq_iff :
    (ordered_inserts : Bool) (padding : ℤ) (m n : ℕ)
    → (build_key_name ordered_inserts padding m ≡ build_key_name ordered_inserts padding n)
      ↔ (numbered ordered_inserts m ≡ numbered ordered_inserts n)
build_key_name-eq_iff ordered_inserts padding m n = (
  λ h. sym (recovered m) ∙ ap (λ s. decimal 0 (drop 4 s)) h ∙ recovered n,
  λ h. unfold build_key_name numbered in ap (λ k. pad_key padding (to_string k)) h,
)
  where
    recovered :
        (k : ℕ)
        → decimal 0 (drop 4 (build_key_name ordered_inserts padding k)) ≡ numbered ordered_inserts k
    recovered k =
        ap (λ s. decimal 0 (drop 4 s)) (build_key_name_form ordered_inserts padding k).0
        ∙ decimal-zeros _ (to_string (numbered ordered_inserts k))
        ∙ decimal-to_string (numbered ordered_inserts k)

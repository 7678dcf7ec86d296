-- ===== src/Prelude/Text.antt =====
-- std::string as the list of its bytes, and the library calls that the source makes on it.
use Prim.Native.Nat.{ℕ, zero, suc, ◌+◌, ◌-◌, ◌*◌, ◌/◌, ◌%◌, ◌≤◌, ◌<◌}
use Prim.Native.Char.{code}
use Prim.Native.String.{String}
use mathlib.Core.Path.{◌≡◌, refl, ap, sym, ◌∙◌, subst}
use mathlib.Core.Logic.{◌↔◌}
use mathlib.Core.Bool.{Bool, true, false, ◌&&◌}
use mathlib.Core.List.{List, [], ◌∷◌, ◌++◌}
use mathlib.Core.Option.{Option, none, some}
use native.Mathlib.Omega.{arith}
use ycsb.Prelude.Tests.{◌==◌, if◌then◌else◌}
use ycsb.Prelude.Lists.{All, replicate}

abbrev pub Bytes : Type 0
Bytes = List ℕ

-- A literal of the source.
abbrev pub str : String → Bytes
str String.[] = []
str (String.◌∷◌ c s) = code c ∷ str s

-- operator== on std::string
unfoldable pub bytes_eq : Bytes → Bytes → Bool
bytes_eq [] [] = true
bytes_eq [] (_ ∷ _) = false
bytes_eq (_ ∷ _) [] = false
bytes_eq (a ∷ s) (b ∷ t) = (a == b) && bytes_eq s t

pub bytes_eq_iff : (s t : Bytes) → (bytes_eq s t ≡ true) ↔ (s ≡ t)
unfolding bytes_eq
bytes_eq_iff [] [] = (λ _. refl, λ _. refl)
bytes_eq_iff [] (_ ∷ _) = (λ h. cc, λ h. cc)
bytes_eq_iff (_ ∷ _) [] = (λ h. cc, λ h. cc)
bytes_eq_iff (a ∷ s) (b ∷ t) = ground (arith, bytes_eq_iff s t)

pub bytes_eq_refl : (s : Bytes) → bytes_eq s s ≡ true
bytes_eq_refl s = (bytes_eq_iff s s).1 refl

-- std::string::empty
unfoldable pub is_empty : Bytes → Bool
is_empty [] = true
is_empty (_ ∷ _) = false

-- find(c) with the two substr calls that follow it: what stands before and behind the first `c`
unfoldable pub split_at : ℕ → Bytes → Option (Bytes × Bytes)
split_at c [] = none
split_at c (b ∷ s) =
    if b == c
    then some ([], s)
    else elim (split_at c s) [ none ↦ none | some (l, r) ↦ some (b ∷ l, r) ]

-- strncmp(str, pre, strlen(pre)) == 0
unfoldable pub starts_with : Bytes → Bytes → Bool
starts_with s [] = true
starts_with [] (_ ∷ _) = false
starts_with (b ∷ s) (c ∷ t) = (b == c) && starts_with s t

-- std::to_string on an unsigned number: each round divides by ten
emit : ℕ → ℕ → Bytes → Bytes
emit zero n out = out
emit (suc f) n out =
    let rest = emit f (n / 10) ((b'0' + n % 10) ∷ out) in if n == 0 then out else rest

unfoldable pub to_string : ℕ → Bytes
unfolding emit
to_string n = if n == 0 then b'0' ∷ [] else emit n n []

-- The number that a row of decimal digits stands for, behind digits worth `acc`.
unfoldable pub decimal : ℕ → Bytes → ℕ
decimal acc [] = acc
decimal acc (c ∷ s) = decimal (acc * 10 + (c - b'0')) s

emit_step :
    (f n : ℕ) (out : Bytes) → 0 < n → emit (suc f) n out ≡ emit f (n / 10) ((b'0' + n % 10) ∷ out)
unfolding emit
emit_step f n out h = ground arith

decimal_step : (n : ℕ) (out : Bytes) → decimal (n / 10) ((b'0' + n % 10) ∷ out) ≡ decimal n out
unfolding decimal
decimal_step n out = ap (λ k. decimal k out) (omega arith)

decimal-emit : (f n : ℕ) (out : Bytes) → n ≤ f → decimal 0 (emit f n out) ≡ decimal n out
decimal-emit zero zero out h = unfold emit in refl
decimal-emit zero (suc n) out h = elim h [ ]
decimal-emit (suc f) zero out h = unfold emit in refl
decimal-emit (suc f) (suc n) out h =
    ap (decimal 0) (emit_step f (suc n) out (omega arith))
    ∙ decimal-emit f (suc n / 10) ((b'0' + suc n % 10) ∷ out) (omega arith)
    ∙ decimal_step (suc n) out

pub decimal-to_string : (n : ℕ) → decimal 0 (to_string n) ≡ n
unfolding to_string decimal
decimal-to_string zero = refl
decimal-to_string (suc n) = ground (arith, decimal-emit (suc n) (suc n) [])

-- Zeros in front do not change the number.
pub decimal-zeros : (k : ℕ) (s : Bytes) → decimal 0 (replicate k b'0' ++ s) ≡ decimal 0 s
unfolding decimal
decimal-zeros zero s = refl
decimal-zeros (suc k) s = decimal-zeros k s

pub to_string_injective : (m n : ℕ) → to_string m ≡ to_string n → m ≡ n
to_string_injective m n h = sym (decimal-to_string m) ∙ ap (decimal 0) h ∙ decimal-to_string n

-- Decimal digits are characters from '0' to '9'.
abbrev pub AllDigits : Bytes → Type 0
AllDigits s = All (λ c. (b'0' ≤ c) × (c ≤ b'9')) s

emit-AllDigits : (f n : ℕ) (out : Bytes) → AllDigits out → AllDigits (emit f n out)
emit-AllDigits zero n out h = unfold emit in h
emit-AllDigits (suc f) zero out h = unfold emit in h
emit-AllDigits (suc f) (suc n) out h =
    rw (emit_step f (suc n) out (omega arith))
      (emit-AllDigits f (suc n / 10) ((b'0' + suc n % 10) ∷ out) ((omega arith, omega arith), h))

to_string_step : (n : ℕ) → emit (suc n) (suc n) [] ≡ to_string (suc n)
unfolding to_string
to_string_step n = ground arith

pub to_string-AllDigits : (n : ℕ) → AllDigits (to_string n)
to_string-AllDigits zero = unfold to_string in ((omega arith, omega arith), tt)
to_string-AllDigits (suc n) =
    subst AllDigits (to_string_step n) (emit-AllDigits (suc n) (suc n) [] tt)

-- ===== src/Prelude/Chars.antt =====
-- Character tests of the C library (in the "C" locale) and the number parsers of std::string.
use Prim.Native.Nat.{ℕ, ◌+◌, ◌-◌, ◌*◌, ◌^◌, ◌%◌}
use mathlib.Core.Bool.{Bool, true, false, ◌&&◌, ◌||◌}
use mathlib.Core.List.{[], ◌∷◌}
use mathlib.Core.Option.{Option, none, some}
use ycsb.Prelude.Tests.{ltb, leb, ◌==◌, if◌then◌else◌}
use ycsb.Prelude.Int.{ℤ, pos, sub_ℕ}
use ycsb.Prelude.Outcome.{Outcome, ok, err, invalid_argument, out_of_range}
use ycsb.Prelude.Text.{Bytes}

-- std::isspace: tab, the four line controls and the blank
unfoldable pub is_space : ℕ → Bool
is_space c = (c == 32) || (leb 9 c && leb c 13)

-- ::tolower
unfoldable pub to_lower : ℕ → ℕ
to_lower c = if leb b'A' c && leb c b'Z' then c + 32 else c

is_digit : ℕ → Bool
is_digit c = leb b'0' c && leb c b'9'

-- std::find_if_not from the front, with the rest that starts there
unfoldable pub drop_spaces : Bytes → Bytes
drop_spaces [] = []
drop_spaces (c ∷ s) = if is_space c then drop_spaces s else c ∷ s

-- The digits at the front, as far as they go.
more_digits : ℕ → Bytes → ℕ
more_digits n [] = n
more_digits n (c ∷ s) =
    let rest = more_digits (n * 10 + (c - b'0')) s in if is_digit c then rest else n

digits : Bytes → Option ℕ
digits [] = none
digits (c ∷ s) = if is_digit c then some (more_digits (c - b'0') s) else none

-- A sign and the magnitude behind it, as strtol and strtoull read them.
signed : Bytes → Option (Bool × ℕ)
signed [] = none
signed (c ∷ s) =
    if c == b'-'
    then elim (digits s) [ none ↦ none | some n ↦ some (true, n) ]
    else if c == b'+'
    then elim (digits s) [ none ↦ none | some n ↦ some (false, n) ]
    else elim (digits (c ∷ s)) [ none ↦ none | some n ↦ some (false, n) ]

int_of : Bool × ℕ → Outcome ℤ
int_of (true, n) = if ltb (2 ^ 31) n then err out_of_range else ok (sub_ℕ 0 n)
int_of (false, n) = if ltb n (2 ^ 31) then ok (pos n) else err out_of_range

ull_of : Bool × ℕ → Outcome ℕ
ull_of (sign, n) =
    if ltb n (2 ^ 64) then ok (if sign then (2 ^ 64 - n) % 2 ^ 64 else n) else err out_of_range

-- std::stoi
unfoldable pub stoi : Bytes → Outcome ℤ
unfolding is_space is_digit drop_spaces more_digits digits signed int_of
stoi s = elim (signed (drop_spaces s)) [ none ↦ err invalid_argument | some x ↦ int_of x ]

-- std::stoull
unfoldable pub stoull : Bytes → Outcome ℕ
unfolding is_space is_digit drop_spaces more_digits digits signed ull_of
stoull s = elim (signed (drop_spaces s)) [ none ↦ err invalid_argument | some x ↦ ull_of x ]

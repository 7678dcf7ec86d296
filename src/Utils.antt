-- ===== src/Utils.antt =====
-- core/utils.h: the FNV hash, the random helpers, StrToBool and Trim.
pub mod Hash
pub mod Trim
use Prim.Native.Nat.{bit_xor, bit_and}
use mathlib.Core.List.{reverse}
use ycsb.Prelude.{ℕ, zero, suc, ◌+◌, ◌*◌, ◌/◌, ◌%◌, ◌^◌, Bool, true, false, ◌||◌, map, ◌++◌}
use ycsb.Prelude.Tests.{if◌then◌else◌}
use ycsb.Prelude.Outcome.{Outcome, ok, err, exception}
use ycsb.Prelude.Text.{Bytes, str, bytes_eq}
use ycsb.Prelude.Chars.{to_lower, is_space, drop_spaces}
use ycsb.Platform.{Platform}

abbrev pub fnv_offset_basis_64 : ℕ
fnv_offset_basis_64 = 0xCBF29CE484222325

abbrev pub fnv_prime_64 : ℕ
fnv_prime_64 = 1099511628211

-- One round: `octet = val & 0xff`, `hash ^= octet`, `hash *= prime` in uint64_t.
unfoldable pub fnv_round : ℕ → ℕ → ℕ
fnv_round hash val = bit_xor hash (bit_and val 0xff) * fnv_prime_64 % 2 ^ 64

-- The loop with the given number of rounds left; `val = val >> 8` in each.
unfoldable pub fnv_loop : ℕ → ℕ → ℕ → ℕ
fnv_loop zero hash val = hash
fnv_loop (suc n) hash val = fnv_loop n (fnv_round hash val) (val / 2 ^ 8)

unfoldable pub fnv_hash_64 : ℕ → ℕ
fnv_hash_64 val = fnv_loop 8 fnv_offset_basis_64 val

unfoldable pub hash : ℕ → ℕ
hash val = fnv_hash_64 val

module _ (P : Platform) where
  open P use {Double, Seed, of_u64, uniform_real, rand}

  -- RandomDouble() with its default arguments, the only ones that the program uses
  unfoldable pub random_double : Seed → Double × Seed
  random_double s = uniform_real (of_u64 0) (of_u64 1) s

  unfoldable pub random_print_char : Seed → ℕ × Seed
  random_print_char s = let (r, s') = rand s in (r % 94 + 33, s')

unfoldable pub str_to_bool : Bytes → Outcome Bool
unfolding to_lower bytes_eq
str_to_bool s =
    let lower = map to_lower s in
    if bytes_eq lower (str "true") || bytes_eq lower (str "1")
    then ok true
    else if bytes_eq lower (str "false") || bytes_eq lower (str "0")
    then ok false
    else err (exception (str "Invalid bool string: " ++ lower))

-- From the first character that is no space to the last one, searched from the back down to the
-- first.
unfoldable pub trim : Bytes → Bytes
trim s = let front = drop_spaces s in reverse (drop_spaces (reverse front))

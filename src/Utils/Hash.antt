-- ===== src/Utils/Hash.antt =====
-- The range of the hash.
use ycsb.Prelude.{ℕ, zero, suc, ◌<◌, ◌^◌, arith}
use ycsb.Utils.{fnv_round, fnv_loop, fnv_hash_64, fnv_offset_basis_64}

fnv_round-lt : (h v : ℕ) → fnv_round h v < 2 ^ 64
unfolding fnv_round
fnv_round-lt h v = omega arith

fnv_loop-lt : (n h v : ℕ) → h < 2 ^ 64 → fnv_loop n h v < 2 ^ 64
unfolding fnv_loop
fnv_loop-lt zero h v lt = lt
fnv_loop-lt (suc n) h v lt = fnv_loop-lt n _ _ (fnv_round-lt h v)

-- The hash of a number fits in 64 bits.
fnv_hash_64-lt : (v : ℕ) → fnv_hash_64 v < 2 ^ 64
unfolding fnv_hash_64
fnv_hash_64-lt v = fnv_loop-lt 8 fnv_offset_basis_64 v (omega arith)

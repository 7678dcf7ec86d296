-- ===== src/HashString.antt =====
-- lib/string.h: texts that carry their hash. A C string is the list of its bytes up to the null
-- character, so that Copy and Wrap make the same text; `Hashtables.Memory` has them in memory.
use ycsb.Prelude.{
  ℕ, ◌+◌, ◌-◌, ◌*◌, ◌%◌, ◌^◌, ◌<◌, ◌≡◌, refl, sym, ap, ◌∙◌, ◌↔◌, Bool, true, false, [], ◌∷◌, inl,
  inr, arith,
}
use ycsb.Prelude.Tests.{ltb, ◌==◌, ==_iff, Bool-cases, if◌then◌else◌}
use ycsb.Prelude.Lists.{length}
use ycsb.Prelude.Text.{Bytes, bytes_eq, bytes_eq_iff}

pub record HashString : Type 0 where
  pub hash : ℕ
  pub value : Bytes
  pub len : ℕ

-- the conversion of a char, which is signed, to uint64_t
unfoldable pub widen : ℕ → ℕ
widen c = if ltb c 128 then c else c + (2 ^ 64 - 256)

-- `hash = c + (hash << 6) + (hash << 16) - hash`
unfoldable pub sdbm_round : ℕ → ℕ → ℕ
sdbm_round hash c = (widen c + hash * 2 ^ 6 + hash * 2 ^ 16 + (2 ^ 64 - hash)) % 2 ^ 64

unfoldable pub sdbm_loop : ℕ → Bytes → ℕ
sdbm_loop hash [] = hash
sdbm_loop hash (c ∷ cstr) = sdbm_loop (sdbm_round hash c) cstr

-- SDBMHash
unfoldable pub sdbm_hash : Bytes → ℕ
sdbm_hash cstr = sdbm_loop 0 cstr

-- set_value on a new String, which is Wrap
unfoldable pub wrap : Bytes → HashString
wrap v = record { hash = sdbm_hash v; value = v; len = length v }

-- operator==
unfoldable pub equals : HashString → HashString → Bool
equals a b = if a.hash == b.hash then bytes_eq a.value b.value else false

-- The strings of two texts compare as equal just where the texts are equal: the comparison of the
-- hashes never decides otherwise.
pub equals-wrap_iff : (u v : Bytes) → (equals (wrap u) (wrap v) ≡ true) ↔ (u ≡ v)
unfolding equals wrap
equals-wrap_iff u v = (
  λ h. by_texts (sdbm_hash u == sdbm_hash v) h,
  λ e. rw ((==_iff (sdbm_hash u) (sdbm_hash v)).1 (ap sdbm_hash e)) ((bytes_eq_iff u v).1 e),
)
  where
    by_texts : (b : Bool) → (if b then bytes_eq u v else false) ≡ true → u ≡ v
    by_texts true h = (bytes_eq_iff u v).0 h
    by_texts false h = absurd (cc)

sdbm_loop-lt : (cstr : Bytes) (hash : ℕ) → hash < 2 ^ 64 → sdbm_loop hash cstr < 2 ^ 64
unfolding sdbm_loop sdbm_round
sdbm_loop-lt [] hash h = h
sdbm_loop-lt (c ∷ cstr) hash h = sdbm_loop-lt cstr _ (omega arith)

-- The hash of a text fits in 64 bits.
pub sdbm_hash-lt : (cstr : Bytes) → sdbm_hash cstr < 2 ^ 64
unfolding sdbm_hash
sdbm_hash-lt cstr = sdbm_loop-lt cstr 0 (omega arith)

pub equals-wrap : (u v : Bytes) → equals (wrap u) (wrap v) ≡ bytes_eq u v
equals-wrap u v = elim (Bool-cases (bytes_eq u v)) [
  | inl e ↦ (equals-wrap_iff u v).1 ((bytes_eq_iff u v).0 e) ∙ sym e
  | inr e ↦ elim (Bool-cases (equals (wrap u) (wrap v))) [
    | inl h ↦ h ∙ sym ((bytes_eq_iff u v).1 ((equals-wrap_iff u v).0 h))
    | inr h ↦ h ∙ sym e
  ]
]

-- A string that compares as equal to the string of a text has its hash and its value.
pub equals_parts :
    (u : Bytes) (e : HashString) → equals (wrap u) e ≡ true → (sdbm_hash u ≡ e.hash) × (u ≡ e.value)
unfolding equals wrap
equals_parts u e h = by_cases (sdbm_hash u == e.hash) (==_iff (sdbm_hash u) e.hash).0 h
  where
    by_cases :
        (b : Bool)
        → (b ≡ true → sdbm_hash u ≡ e.hash)
        → (if b then bytes_eq u e.value else false) ≡ true
        → (sdbm_hash u ≡ e.hash) × (u ≡ e.value)
    by_cases true same k = (same refl, (bytes_eq_iff u e.value).0 k)
    by_cases false same k = absurd (cc)

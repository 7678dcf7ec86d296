-- ===== src/Client/Requests.antt =====
-- The fields that reads and scans ask for.
use ycsb.Prelude.{
  ℕ, ◌≡◌, ◌≢◌, sym, ap, subst, Bool, false, Option, some, List, [], ◌∷◌, ◌++◌, arith,
}
use ycsb.Prelude.Lists.{drop}
use ycsb.Prelude.Outcome.{ok, >>=-eq-ok, else-eq-ok, ok-injective}
use ycsb.Prelude.Text.{Bytes, str, to_string, AllDigits, to_string-AllDigits}
use ycsb.Platform.{Platform}
use ycsb.Workload.{CoreWorkload, next_field_name}
use ycsb.Workload.Fields.{field_name, next_field_name_lem}
use ycsb.Client.{requested_fields, one_field}

-- A second "field" in front makes another name, whatever the numbers.
doubled-ne : (n i : ℕ) → str "field" ++ field_name n ≢ field_name i
doubled-ne n i h =
    let shifted : field_name n ≡ to_string i = ap (drop 5) h in
    let digits : AllDigits (field_name n) = subst AllDigits (sym shifted) (to_string-AllDigits i) in
    absurd (omega (arith, digits.0.1))

-- A read that does not ask for all fields asks for one field, and this has the name of no field
-- that BuildValues or BuildUpdate ever writes.
pub requested_fields-unwritten :
    (P : Platform) (ndebug : Bool) (w : CoreWorkload P) (s : P.Seed)
    (r : Option (List Bytes) × CoreWorkload P × P.Seed)
    → w.read_all_fields ≡ false
    → requested_fields P ndebug w s ≡ ok r
    → (f : Bytes) × (r.0 ≡ some (f ∷ [])) × ((i : ℕ) → f ≢ field_name i)
unfolding requested_fields one_field
requested_fields-unwritten P ndebug w s r one h =
    let single = else-eq-ok w.read_all_fields _ (one_field P ndebug w s) r one h in
    let (d, named, rest) = >>=-eq-ok (next_field_name P ndebug w s) _ single in
    let (n, name, _) = next_field_name_lem P ndebug w s d named in
    (str "field" ++ d.0, sym (ap (λ t. t.0) (ok-injective _ r rest)), λ i. rw name (doubled-ne n i))

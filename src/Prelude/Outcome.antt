-- ===== src/Prelude/Outcome.antt =====
-- What a call ends in: a value, or one of the ways in which the program stops short of one.
use Prim.Native.Nat.{ℕ}
use mathlib.Core.Path.{◌≡◌, refl, sym, ◌∙◌, subst}
use mathlib.Core.Bool.{Bool, true, false}
use mathlib.Core.List.{List}
use mathlib.Core.Logic.{◌⊎◌, inl, inr}
use ycsb.Prelude.Tests.{if◌then◌else◌}

-- `exception` is a utils::Exception with its message; the next three are exceptions of the
-- standard library; `assertion` is a failed assert; `undefined` is undefined behaviour; `no_fuel`
-- says that the loop has not ended within its fuel.
pub data Error : Type 0 where
  exception : List ℕ → Error
  invalid_argument : Error
  out_of_range : Error
  length_error : Error
  assertion : Error
  undefined : Error
  no_fuel : Error

pub data Outcome {ℓ} (A : Type ℓ) : Type ℓ where
  ok : A → Outcome A
  err : Error → Outcome A

infixl 5 ◌>>=◌ ◌>>◌
-- What is left of a program runs on the value of the call; a call that stops the program ends it.
abbrev pub ◌>>=◌ {ℓ κ} :
    {Value : Type ℓ} {Next : Type κ} → Outcome Value → (Value → Outcome Next) → Outcome Next
err reason >>= rest = err reason
ok value >>= rest = rest value

pub >>=_assoc {ℓ κ μ} :
    {A : Type ℓ} {B : Type κ} {C : Type μ} (o : Outcome A) (f : A → Outcome B) (g : B → Outcome C)
    → o >>= (λ a. f a >>= g) ≡ o >>= f >>= g
>>=_assoc (err e) f g = refl
>>=_assoc (ok a) f g = refl

-- For calls that are made for their effect.
abbrev pub ◌>>◌ {ℓ} : {Next : Type ℓ} → Outcome (Unit {0}) → Outcome Next → Outcome Next
call >> rest = call >>= λ _. rest

-- assert(b), in a build with NDEBUG (`ndebug` is true) or without
abbrev pub assert : Bool → Bool → Outcome (Unit {0})
assert ndebug true = ok tt
assert true false = ok tt
assert false false = err assertion

-- the call returns, and its value satisfies `P`
abbrev pub Returns {ℓ κ} : {A : Type ℓ} → Outcome A → (A → Type κ) → Type (ℓ ⊔ κ)
Returns {A} r P = (a : A) × (r ≡ ok a) × P a

-- Where a sequence returns, its first call has returned, and the rest has, on the value.
pub >>=-eq-ok {ℓ κ} :
    {Value : Type ℓ} {Next : Type κ} (call : Outcome Value) (rest : Value → Outcome Next) {r : Next}
    → call >>= rest ≡ ok r
    → Returns call (λ value. rest value ≡ ok r)
>>=-eq-ok (err reason) rest stopped = cc
>>=-eq-ok (ok value) rest returned = (value, refl, returned)

-- Where the first call of a sequence is known to return, so does the sequence if the rest does.
pub >>=-Returns {ℓ κ μ} :
    {Value : Type ℓ} {Next : Type κ} {P : Next → Type μ} {call : Outcome Value} {value : Value}
    (rest : Value → Outcome Next)
    → call ≡ ok value
    → Returns (rest value) P
    → Returns (call >>= rest) P
>>=-Returns rest returned (r, run, p) = (r, (λ i. returned i >>= rest) ∙ run, p)

pub ok-injective {ℓ} : {A : Type ℓ} (a b : A) → ok a ≡ ok b → a ≡ b
ok-injective a b h = cc

-- A property of a call's value carries over to the value that the call is known to return.
pub Returns-ok {ℓ κ} :
    {A : Type ℓ} (P : A → Type κ) (r : Outcome A) (b : A) → Returns r P → r ≡ ok b → P b
Returns-ok P r b (a, run, p) h = subst P (ok-injective a b (sym run ∙ h)) p

-- What comes after an assertion that passed, or that the build removed.
pub assert-eq-ok {ℓ} :
    {A : Type ℓ} (ndebug b : Bool) (a r : A) → (assert ndebug b >> ok a) ≡ ok r → a ≡ r
assert-eq-ok ndebug true a r h = ok-injective a r h
assert-eq-ok true false a r h = ok-injective a r h
assert-eq-ok false false a r h = absurd (cc)

-- A conditional that returns has returned by one of its branches.
pub if-eq-ok {ℓ} :
    {A : Type ℓ} (b : Bool) (m n : Outcome A) (r : A)
    → (if b then m else n) ≡ ok r
    → (m ≡ ok r) ⊎ (n ≡ ok r)
if-eq-ok true m n r h = inl h
if-eq-ok false m n r h = inr h

pub else-eq-ok {ℓ} :
    {A : Type ℓ} (b : Bool) (m n : Outcome A) (r : A)
    → b ≡ false
    → (if b then m else n) ≡ ok r
    → n ≡ ok r
else-eq-ok true m n r e h = absurd (cc)
else-eq-ok false m n r e h = h

pub then-eq-ok {ℓ} :
    {A : Type ℓ} (b : Bool) (m n : Outcome A) (r : A)
    → b ≡ true
    → (if b then m else n) ≡ ok r
    → m ≡ ok r
then-eq-ok true m n r e h = h
then-eq-ok false m n r e h = absurd (cc)

-- A build without assertions passes every one of them.
pub assert_ndebug : (b : Bool) → assert true b ≡ ok tt
assert_ndebug true = refl
assert_ndebug false = refl

-- ===== src/Base/Results.antt =====
-- A function that may raise returns a `Result`: the error, or its value.
use mathlib.Core.Path.{◌≡◌, refl}
use mathlib.Core.Bool.{Bool, true, false}
use mathlib.Core.Option.{Option, none, some}

pub data Result {ℓ κ} (E : Type ℓ) (A : Type κ) : Type (ℓ ⊔ κ) where
  ok : A → Result E A
  err : E → Result E A

-- `if not test: raise error`
abbrev pub guard {ℓ} : {E : Type ℓ} → Bool → E → Result E (Unit {0})
guard false error = err error
guard true error = ok tt

-- `raise error` where the value is None
abbrev pub or_raise {ℓ κ} : {E : Type ℓ} {A : Type κ} → E → Option A → Result E A
or_raise error none = err error
or_raise error (some a) = ok a

infixl 5 ◌>>=◌ ◌>>◌
-- What comes after a call that may raise.
abbrev pub ◌>>=◌ {ℓ κ μ} :
    {E : Type ℓ} {A : Type κ} {B : Type μ} → Result E A → (A → Result E B) → Result E B
err error >>= next = err error
ok value >>= next = next value

abbrev pub ◌>>◌ {ℓ κ} : {E : Type ℓ} {B : Type κ} → Result E (Unit {0}) → Result E B → Result E B
err error >> next = err error
ok done >> next = next

-- A chain that returns has a first call that returns, with a value from which the rest goes on.
pub >>=-eq-ok {ℓ κ μ} :
    {E : Type ℓ} {A : Type κ} {B : Type μ} (call : Result E A) (next : A → Result E B) {out : B}
    → (call >>= next) ≡ ok out
    → (value : A) × (call ≡ ok value) × (next value ≡ ok out)
>>=-eq-ok (err error) next returned = cc
>>=-eq-ok (ok value) next returned = (value, refl, returned)

-- A chain that returns has passed its guard.
pub guard-eq-ok {ℓ κ} :
    {E : Type ℓ} {B : Type κ} (test : Bool) (error : E) (next : Result E B) {out : B}
    → (guard test error >> next) ≡ ok out
    → (test ≡ true) × (next ≡ ok out)
guard-eq-ok true error next h = (refl, h)
guard-eq-ok false error next h = cc

pub or_raise-eq-ok {ℓ κ} :
    {E : Type ℓ} {A : Type κ} (error : E) (o : Option A) {a : A}
    → or_raise error o ≡ ok a
    → o ≡ some a
or_raise-eq-ok error none h = cc
or_raise-eq-ok error (some a) h = cc

pub ok-injective {ℓ κ} :
    {E : Type ℓ} {A : Type κ} {a b : A} → ◌≡◌ {A = Result E A} (ok a) (ok b) → a ≡ b
ok-injective h = cc

pub >>-eq-ok {ℓ κ} :
    {E : Type ℓ} {B : Type κ} (call : Result E (Unit {0})) (next : Result E B) {out : B}
    → (call >> next) ≡ ok out
    → (call ≡ ok tt) × (next ≡ ok out)
>>-eq-ok (ok tt) next h = (refl, h)
>>-eq-ok (err error) next h = cc

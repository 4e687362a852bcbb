-- ===== src/Common/Result.antt =====
-- What a Go function returns with its error, or the run-time panic that it ends in.
use elastos_ela_side_chain.Common.{◌≡◌, refl, ap, Option, none, some, Bool, true, false}

pub data Result {ℓ κ} (E : Type ℓ) (A : Type κ) : Type (ℓ ⊔ κ) where
  ok : A → Result E A
  err : E → Result E A
  panic : Result E A

infixl 5 ◌>>=◌ ◌>>◌
abbrev pub ◌>>=◌ {ℓ κ μ} :
    {E : Type ℓ} {A : Type κ} {B : Type μ} → Result E A → (A → Result E B) → Result E B
ok a >>= f = f a
err e >>= f = err e
panic >>= f = panic

abbrev pub ◌>>◌ {ℓ κ μ} :
    {E : Type ℓ} {A : Type κ} {B : Type μ} → Result E A → Result E B → Result E B
m >> k = m >>= λ _. k

-- An early return with an error.
abbrev pub fail_if {ℓ} : {E : Type ℓ} → Bool → E → Result E (Unit {0})
fail_if true e = err e
fail_if false e = ok tt

-- A read that panics where there is nothing to read.
abbrev pub or_panic {ℓ κ} : {E : Type ℓ} {A : Type κ} → Option A → Result E A
or_panic none = panic
or_panic (some a) = ok a

pub ok-injective {ℓ κ} :
    {E : Type ℓ} {A : Type κ} {a b : A} → ◌≡◌ {A = Result E A} (ok a) (ok b) → a ≡ b
ok-injective e = cc

pub >>=-ok {ℓ κ μ} :
    {E : Type ℓ} {A : Type κ} {B : Type μ} (m : Result E A) (f : A → Result E B) {b : B}
    → (m >>= f) ≡ ok b
    → (a : A) × (m ≡ ok a) × (f a ≡ ok b)
>>=-ok (ok a) f e = (a, refl, e)
>>=-ok (err x) f e = cc
>>=-ok panic f e = cc

pub fail_if-ok {ℓ} : {E : Type ℓ} (b : Bool) (e : E) {a : Unit {0}} → fail_if b e ≡ ok a → b ≡ false
fail_if-ok true e h = cc
fail_if-ok false e h = refl

pub or_panic-ok {ℓ κ} :
    {E : Type ℓ} {A : Type κ} (o : Option A) {a : A}
    → ◌≡◌ {A = Result E A} (or_panic o) (ok a)
    → o ≡ some a
or_panic-ok none e = cc
or_panic-ok (some b) e = ap some (ok-injective e)

-- No panic.
abbrev pub Returns {ℓ κ} : {E : Type ℓ} {A : Type κ} → Result E A → Type 0
Returns (ok a) = Unit
Returns (err e) = Unit
Returns panic = ⊥

pub >>=-Returns {ℓ κ μ} :
    {E : Type ℓ} {A : Type κ} {B : Type μ} (m : Result E A) (f : A → Result E B)
    → Returns m
    → ((a : A) → m ≡ ok a → Returns (f a))
    → Returns (m >>= f)
>>=-Returns (ok a) f r h = h a refl
>>=-Returns (err x) f r h = tt
>>=-Returns panic f r h = r

pub fail_if-Returns {ℓ} : {E : Type ℓ} (b : Bool) (e : E) → Returns (fail_if b e)
fail_if-Returns true e = tt
fail_if-Returns false e = tt

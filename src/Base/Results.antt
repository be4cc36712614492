-- ===== src/Base/Results.antt =====
-- What a Go function that returns `(A, error)` returns; the errors are a type of each component.
use mathlib.Core.Path.{◌≡◌, refl}
use mathlib.Core.Bool.{Bool, true, false}

pub data Result {ℓ κ} (E : Type ℓ) (A : Type κ) : Type (ℓ ⊔ κ) where
  ok : A → Result E A
  err : E → Result E A

infixr 5 ◌>>=◌ ◌>>◌
abbrev pub ◌>>=◌ {ℓ κ μ} :
    {E : Type ℓ} {A : Type κ} {B : Type μ} → Result E A → (A → Result E B) → Result E B
ok a >>= f = f a
err e >>= f = err e

abbrev pub ◌>>◌ {ℓ κ} : {E : Type ℓ} {B : Type κ} → Result E (Unit {0}) → Result E B → Result E B
m >> k = m >>= λ _. k

-- `if bad { return err }`
abbrev pub refuse_if {ℓ} : {E : Type ℓ} → Bool → E → Result E (Unit {0})
refuse_if true e = err e
refuse_if false e = ok tt

pub >>=-eq-ok {ℓ κ μ} :
    {E : Type ℓ} {A : Type κ} {B : Type μ} (first : Result E A) (next : A → Result E B) {y : B}
    → (first >>= next) ≡ ok y
    → (x : A) × (first ≡ ok x) × (next x ≡ ok y)
>>=-eq-ok (ok x) next p = (x, refl, p)
>>=-eq-ok (err e) next p = cc

pub ok_inj {ℓ κ} : {E : Type ℓ} {A : Type κ} {a b : A} → Path (Result E A) (ok a) (ok b) → a ≡ b
ok_inj h = cc h

-- What passed a test was not bad.
pub refuse_if-eq-ok {ℓ} :
    {E : Type ℓ} (bad : Bool) (e : E) (u : Unit {0}) → refuse_if bad e ≡ ok u → bad ≡ false
refuse_if-eq-ok true e u h = cc
refuse_if-eq-ok false e u h = refl

pub err_inj {ℓ κ} : {E : Type ℓ} {A : Type κ} {a b : E} → Path (Result E A) (err a) (err b) → a ≡ b
err_inj h = cc h

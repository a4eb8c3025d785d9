-- ===== src/Prelude/Results.antt =====
-- Results with an error of any type: Go's `(value, error)` pairs.
use mathlib.Core.Path.{◌≡◌, refl}
use mathlib.Core.Logic.{◌⊎◌, inl, inr}
use mathlib.Core.Bool.{Bool, true, false, false≢true}
use mathlib.Core.Option.{Option, none, some}

pub data Result {ℓ κ} (E : Type κ) (A : Type ℓ) : Type (ℓ ⊔ κ) where
  ok : A → Result E A
  err : E → Result E A

infixl 5 ◌>>=◌ ◌>>◌
abbrev pub ◌>>=◌ {ℓ κ μ} :
    {E : Type κ} {A : Type ℓ} {B : Type μ} → Result E A → (A → Result E B) → Result E B
err x >>= k = err x
ok v >>= k = k v

abbrev pub ◌>>◌ {κ μ} : {E : Type κ} {B : Type μ} → Result E (Unit {0}) → Result E B → Result E B
ok a >> k = k
err e >> k = err e

-- `if !test { return e }`.
abbrev pub guard {κ} : {E : Type κ} → Bool → E → Result E (Unit {0})
guard true e = ok tt
guard false e = err e

-- `if test { return e }`.
abbrev pub refuse {κ} : {E : Type κ} → Bool → E → Result E (Unit {0})
refuse true e = err e
refuse false e = ok tt

abbrev pub or_err {ℓ κ} : {E : Type κ} {A : Type ℓ} → Option A → E → Result E A
or_err none e = err e
or_err (some a) e = ok a

pub >>=-eq-ok {ℓ κ μ} :
    {E : Type κ} {A : Type ℓ} {B : Type μ} (r : Result E A) (k : A → Result E B) {b : B}
    → (r >>= k) ≡ ok b
    → (v : A) × (r ≡ ok v) × (k v ≡ ok b)
>>=-eq-ok (err x) k q = cc
>>=-eq-ok (ok v) k q = (v, refl, q)

module _ {κ μ} {E : Type κ} {B : Type μ} (e : E) {b : B} where
  -- What a chain that succeeds says of the test at its head.
  pub refuse->> : (t : Bool) (k : Result E B) → (refuse t e >> k) ≡ ok b → (t ≡ false) × (k ≡ ok b)
  refuse->> true k h = cc
  refuse->> false k h = (refl, h)

  pub guard->> : (t : Bool) (k : Result E B) → (guard t e >> k) ≡ ok b → (t ≡ true) × (k ≡ ok b)
  guard->> true k h = (refl, h)
  guard->> false k h = cc

  pub or_err-eq-ok : (o : Option B) → or_err o e ≡ ok b → o ≡ some b
  or_err-eq-ok none h = cc
  or_err-eq-ok (some a) h = cc

pub ok-eq-ok {ℓ κ} :
    {E : Type κ} {A : Type ℓ} {a b : A} → ◌≡◌ {A = Result E A} (ok a) (ok b) → a ≡ b
ok-eq-ok e = cc

abbrev pub is_ok {ℓ κ} : {E : Type κ} {A : Type ℓ} → Result E A → Bool
is_ok (ok a) = true
is_ok (err e) = false

-- The value of a result that is known to have one.
abbrev pub ok_value {ℓ κ} : {E : Type κ} {A : Type ℓ} (r : Result E A) → is_ok r ≡ true → A
ok_value (ok a) h = a
ok_value (err e) h = absurd (false≢true h)

pub ok_value-eq {ℓ κ μ} :
    {E : Type κ} {A : Type ℓ} {S : Type μ} (o : Result E A × S) (h : is_ok (o.0) ≡ true)
    → o ≡ (ok (ok_value o.0 h), o.1)
ok_value-eq (ok a, s) h = refl
ok_value-eq (err e, s) h = cc

pub err-eq-err {ℓ κ} :
    {E : Type κ} {A : Type ℓ} {a b : E} → ◌≡◌ {A = Result E A} (err a) (err b) → a ≡ b
err-eq-err e = cc

pub Result-cases {ℓ κ} :
    {E : Type κ} {A : Type ℓ} (r : Result E A) → ((a : A) × (r ≡ ok a)) ⊎ ((e : E) × (r ≡ err e))
Result-cases (ok a) = inl (a, refl)
Result-cases (err e) = inr (e, refl)

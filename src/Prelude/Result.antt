-- ===== src/Prelude/Result.antt =====
-- A computation that may raise.
use mathlib.Core.Bool.{Bool, true, false}
use mathlib.Core.Path.{◌≡◌, refl}
use mathlib.Core.Logic.{◌⊎◌, inl, inr}

pub data Result {ℓ} (E : Type 0) (A : Type ℓ) : Type ℓ where
  ok : A → Result E A
  err : E → Result E A

infixl 5 ◌>>=◌ ◌>>◌
abbrev pub ◌>>=◌ {ℓ κ} :
    {E : Type 0} {A : Type ℓ} {B : Type κ} → Result E A → (A → Result E B) → Result E B
ok a >>= f = f a
err e >>= f = err e

abbrev pub ◌>>◌ {ℓ} : {E : Type 0} {B : Type ℓ} → Result E (Unit {0}) → Result E B → Result E B
m >> k = m >>= λ _. k

-- `if bad: raise e`
abbrev pub raise_if : {E : Type 0} → Bool → E → Result E (Unit {0})
raise_if true e = err e
raise_if false e = ok tt

-- `P` holds of what is returned, if anything is.
abbrev pub OnOk {ℓ κ} : {E : Type 0} {A : Type ℓ} → (A → Type κ) → Result E A → Type κ
OnOk P (ok a) = P a
OnOk P (err e) = Unit

pub OnOk-ok {ℓ κ} :
    {E : Type 0} {A : Type ℓ} (P : A → Type κ) {r : Result E A} {a : A} → OnOk P r → r ≡ ok a → P a
OnOk-ok P h e = rw e at h

pub OnOk->>= {ℓ κ ι} :
    {E : Type 0} {A : Type ℓ} {B : Type κ} (P : B → Type ι) (m : Result E A) (f : A → Result E B)
    → ((a : A) → m ≡ ok a → OnOk P (f a))
    → OnOk P (m >>= f)
OnOk->>= P (ok a) f h = h a refl
OnOk->>= P (err e) f h = tt

pub OnOk-bind {ℓ κ ι ν} :
    {E : Type 0} {A : Type ℓ} {B : Type κ} (Q : A → Type ν) (P : B → Type ι) (m : Result E A)
    (f : A → Result E B)
    → OnOk Q m
    → ((a : A) → Q a → OnOk P (f a))
    → OnOk P (m >>= f)
OnOk-bind Q P (ok a) f q h = h a q
OnOk-bind Q P (err e) f q h = tt

-- A check that does not raise has passed.
pub raise_if-ok : {E : Type 0} (bad : Bool) (e : E) {u : Unit} → raise_if bad e ≡ ok u → bad ≡ false
raise_if-ok true e h = cc
raise_if-ok false e h = refl

pub OnOk-map {ℓ κ ι} :
    {E : Type 0} {A : Type ℓ} (P : A → Type κ) (Q : A → Type ι) (m : Result E A)
    → ((a : A) → P a → Q a)
    → OnOk P m
    → OnOk Q m
OnOk-map P Q (ok a) f h = f a h
OnOk-map P Q (err e) f h = tt

pub Result-cases {ℓ} :
    {E : Type 0} {A : Type ℓ} (r : Result E A) → ((e : E) × (r ≡ err e)) ⊎ ((a : A) × (r ≡ ok a))
Result-cases (err e) = inl (e, refl)
Result-cases (ok a) = inr (a, refl)

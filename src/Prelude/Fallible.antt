-- ===== src/Prelude/Fallible.antt =====
-- A Go function that returns a value and an `error` returns a `Result` here.
use mathlib.Core.Path.{◌≡◌, refl}
use mathlib.Core.Logic.{◌⊎◌, inl, inr}
use mathlib.Core.Bool.{Bool, true, false}
use mathlib.Core.Option.{Option, none, some}

pub data Result {ℓ κ} (E : Type κ) (A : Type ℓ) : Type (ℓ ⊔ κ) where
  err : E → Result E A
  ok : A → Result E A

infixl 5 ◌>>=◌ ◌>>◌
abbrev pub ◌>>=◌ {ℓ κ μ} :
    {E : Type μ} {A : Type ℓ} {B : Type κ} → Result E A → (A → Result E B) → Result E B
err e >>= next = err e
ok a >>= next = next a

abbrev pub ◌>>◌ {κ μ} : {E : Type μ} {B : Type κ} → Result E (Unit {0}) → Result E B → Result E B
first >> rest = first >>= λ _. rest

-- `if test { return e }`
abbrev pub fail_if {μ} : {E : Type μ} → Bool → E → Result E (Unit {0})
fail_if false e = ok tt
fail_if true e = err e

-- A value that is missing is the error `e`.
abbrev pub of_option {ℓ μ} : {E : Type μ} {A : Type ℓ} → Option A → E → Result E A
of_option none e = err e
of_option (some a) e = ok a

-- An error on the way is wrapped by `f`.
abbrev pub map_err {ℓ κ μ} :
    {E : Type μ} {F : Type κ} {A : Type ℓ} → (E → F) → Result E A → Result F A
map_err f (ok a) = ok a
map_err f (err e) = err (f e)

pub Result-cases {ℓ μ} :
    {E : Type μ} {A : Type ℓ} (r : Result E A) → ((a : A) × (r ≡ ok a)) ⊎ ((e : E) × (r ≡ err e))
Result-cases (ok a) = inl (a, refl)
Result-cases (err e) = inr (e, refl)

-- The answer of an operation on a state.
pub Answer-cases {ℓ μ ν} :
    {E : Type ℓ} {A : Type μ} {S : Type ν} (c : Result E A × S)
    → ((a : A) × (s : S) × (c ≡ (ok a, s))) ⊎ ((e : E) × (s : S) × (c ≡ (err e, s)))
Answer-cases (ok a, s) = inl (a, s, refl)
Answer-cases (err e, s) = inr (e, s, refl)

-- The first step of a chain that ends well, and the rest of it.
pub step_ok {ℓ κ μ} :
    {E : Type μ} {A : Type ℓ} {B : Type κ} (r : Result E A) (next : A → Result E B) {v : B}
    → (r >>= next) ≡ ok v
    → (a : A) × (r ≡ ok a) × (next a ≡ ok v)
step_ok (ok a) next h = (a, refl, h)
step_ok (err e) next h = cc

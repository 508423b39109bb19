-- ===== src/Common/Http.antt =====
-- What a handler returns: a value, or the exception that the framework turns into a status code.
-- The human-readable messages are left out; a code that clients read is a constructor of its own.
use mathlib.Core.Path.{◌≡◌, refl}
use mathlib.Core.Logic.{◌⊎◌, inl, inr}
use mathlib.Core.Bool.{Bool, true, false}
use native.Mathlib.Omega.{arith}

pub data HttpError : Type 0 where
  bad_request unauthorized forbidden password_change_required not_found conflict : HttpError
  internal : HttpError  -- any other exception

pub data Result {ℓ} (V : Type ℓ) : Type ℓ where
  err : HttpError → Result V
  ok : V → Result V

-- `if (test) throw e;`
abbrev pub throw_if : Bool → HttpError → Result (Unit {0})
throw_if false e = ok tt
throw_if true e = err e

infixl 5 ◌>>◌ ◌>>=◌
-- The rest of a handler runs only if no exception was thrown.
abbrev pub ◌>>=◌ {ℓ₁ ℓ₂} : {V : Type ℓ₁} {W : Type ℓ₂} → Result V → (V → Result W) → Result W
err e >>= rest = err e
ok v >>= rest = rest v

abbrev pub ◌>>◌ {ℓ₂} : {W : Type ℓ₂} → Result (Unit {0}) → Result W → Result W
first >> rest = first >>= λ _. rest

-- A handler that returns got past its first step.
pub >>=-eq-ok {ℓ₁ ℓ₂} :
    {V : Type ℓ₁} {W : Type ℓ₂} (first : Result V) (rest : V → Result W) {w : W}
    → (first >>= rest) ≡ ok w
    → (v : V) × (first ≡ ok v) × (rest v ≡ ok w)
>>=-eq-ok (err e) rest h = cc
>>=-eq-ok (ok v) rest h = (v, refl, h)

pub ok-inj {ℓ₁} : {V : Type ℓ₁} {v w : V} → Result.ok v ≡ ok w → v ≡ w
ok-inj h = ground arith

pub Result-cases {ℓ} :
    {V : Type ℓ} (r : Result V) → ((e : HttpError) × (r ≡ err e)) ⊎ ((v : V) × (r ≡ ok v))
Result-cases (err e) = inl (e, refl)
Result-cases (ok v) = inr (v, refl)

-- ===== src/Base/Results.antt =====
-- A request handler's outcome: a value, or the exception that it throws.
use mathlib.Core.Path.{◌≡◌, refl}
use mathlib.Core.Logic.{◌⊎◌, inl, inr}
use mathlib.Core.Bool.{Bool, true, false}
use mathlib.Core.Option.{Option, none, some}

-- The exception classes of the HTTP framework that the code throws.
pub data Error : Type 0 where
  bad_request conflict not_found forbidden unavailable too_many_requests payload_too_large : Error

pub data Result {ℓ} (T : Type ℓ) : Type ℓ where
  err : (thrown : Error) → Result T
  ok : (returned : T) → Result T

-- What follows a call that returns.
abbrev pub ◌>>=◌ {ℓ ℓ'} :
    {S : Type ℓ} {T : Type ℓ'} → (call : Result S) → (rest : S → Result T) → Result T
err thrown >>= rest = err thrown
ok s >>= rest = rest s

infixl 5 ◌>>=◌
-- What follows a check.
abbrev pub ◌>>◌ {ℓ} : {T : Type ℓ} → (check : Result (Unit {0})) → (rest : Result T) → Result T
check >> rest = check >>= (λ done. rest)

infixl 5 ◌>>◌
-- `if (test) throw error`
abbrev pub throw_if : Bool → Error → Result (Unit {0})
throw_if true e = err e
throw_if false e = ok tt

-- `if (!value) throw error`
abbrev pub require {ℓ} : {A : Type ℓ} → Option A → Error → Result A
require none e = err e
require (some a) e = ok a

abbrev pub is_ok {ℓ} : {A : Type ℓ} → Result A → Bool
is_ok (ok a) = true
is_ok (err e) = false

-- Where a call and what follows it return, the call has returned a value that the rest takes.
pub >>=-eq-ok {ℓ ℓ'} :
    {S : Type ℓ} {T : Type ℓ'} (call : Result S) (rest : S → Result T) {t : T}
    → (call >>= rest) ≡ ok t
    → (s : S) × (call ≡ ok s) × (rest s ≡ ok t)
>>=-eq-ok (err thrown) rest same = cc
>>=-eq-ok (ok s) rest same = (s, refl, same)

pub Result-cases {ℓ} :
    {A : Type ℓ} (m : Result A) → ((a : A) × (m ≡ ok a)) ⊎ ((e : Error) × (m ≡ err e))
Result-cases (ok a) = inl (a, refl)
Result-cases (err e) = inr (e, refl)

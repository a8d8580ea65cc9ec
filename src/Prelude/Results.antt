-- ===== src/Prelude/Results.antt =====
-- Exceptions as values. Each constructor is one `BOOST_THROW_EXCEPTION` site or a group of sites that
-- raise the same class with the same meaning.
use mathlib.Core.Path.{◌≡◌, refl}
use mathlib.Core.Bool.{Bool, true, false}
use f_copss.Prelude.Tests.{if◌then◌else◌}
use mathlib.Core.Logic.{◌⊎◌, inl, inr}

pub data Error : Type 0 where
  open_in_component close_in_component : Error
  many_opens many_closes : Error
  empty_component bad_last_component : Error
  index_out_of_range unexpected_type : Error
  bad_command bad_argument unknown_command : Error
  bad_cast same_endpoints : Error
  missing_element ill_formed : Error
  not_sent not_received : Error

-- A value, or the exception that ended the call.
pub data Result {ℓ} (A : Type ℓ) : Type ℓ where
  err : Error → Result A
  ok : A → Result A

infixl 5 ◌>>=◌
abbrev pub ◌>>=◌ {ℓ κ} : {A : Type ℓ} {B : Type κ} → Result A → (A → Result B) → Result B
call >>= next = elim call [ err raised ↦ err raised | ok result ↦ next result ]

-- A call that succeeded: both of its parts did.
pub bind-eq-ok {ℓ κ} :
    {A : Type ℓ} {B : Type κ} (call : Result A) (next : A → Result B) {b : B}
    → (call >>= next) ≡ ok b
    → (a : A) × (call ≡ ok a) × (next a ≡ ok b)
bind-eq-ok (err raised) next e = cc
bind-eq-ok (ok result) next e = (result, refl, e)

-- Code behind a guard that returned was not stopped by it.
pub if-eq-ok {ℓ} :
    {A : Type ℓ} (failed : Bool) (raised : Error) (rest : Result A) (a : A)
    → (if failed then err raised else rest) ≡ ok a
    → rest ≡ ok a
if-eq-ok true raised rest a e = cc
if-eq-ok false raised rest a e = e

pub Result-cases {ℓ} :
    {A : Type ℓ} (r : Result A) → ((error : Error) × (r ≡ err error)) ⊎ ((a : A) × (r ≡ ok a))
Result-cases (err error) = inl (error, refl)
Result-cases (ok a) = inr (a, refl)

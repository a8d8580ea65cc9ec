-- ===== src/Prelude/Outcome.antt =====
-- The ways in which a call of C++ code can go on, and their sequence.

-- What a call does: it returns, it reads past the end of a sequence, or it has not ended yet.
pub data Outcome {ℓ} (A : Type ℓ) : Type ℓ where
  value : A → Outcome A
  out_of_bounds : Outcome A
  runs_on : Outcome A

infixl 5 ◌>>=◌
abbrev pub ◌>>=◌ {ℓ κ} : {A : Type ℓ} {B : Type κ} → Outcome A → (A → Outcome B) → Outcome B
call >>= next = elim call [
  | value result ↦ next result
  | out_of_bounds ↦ out_of_bounds
  | runs_on ↦ runs_on
]

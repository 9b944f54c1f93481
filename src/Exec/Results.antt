-- ===== src/Exec/Results.antt =====
-- A chain of expressions that may raise.
use nonecorn.Prelude.{◌⊎◌, ◌≡◌, refl, inr, inl}
use nonecorn.Exec.{Result, Error, ok, raise}

infixl 5 ◌>>=◌
abbrev pub ◌>>=◌ {ℓ κ} : {A : Type ℓ} {B : Type κ} → Result A → (A → Result B) → Result B
ok a >>= f = f a
raise e >>= f = raise e

pub Result-cases {ℓ} :
    {A : Type ℓ} (r : Result A) → ((a : A) × (r ≡ ok a)) ⊎ ((e : Error) × (r ≡ raise e))
Result-cases (ok a) = inl (a, refl)
Result-cases (raise e) = inr (e, refl)

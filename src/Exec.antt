-- ===== src/Exec.antt =====
-- Methods that mutate an object and may raise. What was done before a raise stays done, so the state
-- comes back beside the exception too.
pub mod Keeps
pub mod Results
use nonecorn.Prelude.{Bool, List, true, false, if◌then◌else◌}
use nonecorn.Bytes.{Text}

-- The exceptions that the modelled code raises, by class. `exception` is a plain `Exception`.
pub data Error : Type 0 where
  unexpected_message value_error type_error attribute_error index_error key_error : Error
  unicode_error frame_too_large invalid_path exception runtime_error name_error no_app : Error
  lifespan_failure : Text → Text → Error
  lifespan_timeout : Text → Error
  shutdown closed_resource buffer_complete local_protocol_error connection_error socket_type_error :
      Error
  protocol_error missing_stream duplicate_stream cancelled : Error
  h2_protocol_assumed module_not_found : Text → Error
  h2c_protocol_required : Text → List (Text × Text) → Text → Error

pub data Result {ℓ} (A : Type ℓ) : Type ℓ where
  ok : A → Result A
  raise : Error → Result A

abbrev pub Exec : Type 0 → Type 0 → Type 0
Exec S A = S → Result A × S

abbrev pub Action : Type 0 → Type 0
Action S = Exec S (Unit {0})

module _ {S A : Type 0} where
  abbrev pub pure : A → Exec S A
  pure a s = (ok a, s)

  abbrev pub throw : Error → Exec S A
  throw e s = (raise e, s)

  abbrev pub lift : Result A → Exec S A
  lift r s = (r, s)

  abbrev pub gets : (S → A) → Exec S A
  gets f s = (ok (f s), s)

abbrev pub modify : {S : Type 0} → (S → S) → Action S
modify f s = (ok tt, f s)

abbrev pub pass : {S : Type 0} → Action S
pass s = (ok tt, s)

module _ {S A B : Type 0} where
  abbrev pub continue : Result A → (A → Exec S B) → Exec S B
  continue (ok a) f s = f a s
  continue (raise e) f s = (raise e, s)

  infixl 5 ◌>>=◌ ◌>>◌
  abbrev pub ◌>>=◌ : Exec S A → (A → Exec S B) → Exec S B
  ◌>>=◌ m f s = continue (m s).0 f (m s).1

  abbrev pub ◌>>◌ : Exec S A → Exec S B → Exec S B
  m >> n = m >>= λ _. n

-- `if b: m`
abbrev pub when : {S : Type 0} → Bool → Action S → Action S
when true m = m
when false m = pass

-- `try: m`, and `except` of what is caught
abbrev pub caught : {S : Type 0} → (Error → Bool) → Action S → Result (Unit {0}) → Action S
caught test handler (ok x) = pass
caught test handler (raise e) = if test e then handler else throw e

abbrev pub attempt : {S : Type 0} → (Error → Bool) → Action S → Action S → Action S
attempt test m handler s = caught test handler (m s).0 (m s).1

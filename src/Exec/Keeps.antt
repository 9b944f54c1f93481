-- ===== src/Exec/Keeps.antt =====
-- Invariants of actions, with one rule for each way to build an action.
use nonecorn.Prelude.{Bool, true, false, if◌then◌else◌}
use nonecorn.Exec.{
  Exec, Action, Error, Result, ok, raise, pure, throw, lift, gets, pass, when, continue, ◌>>=◌,
}

-- `m` keeps `P`, whether it returns or raises
pub record Keeps {S A : Type 0} (P : S → Type 0) (m : Exec S A) : Type 0 where
  pub at : (s : S) → P s → P (m s).1

module _ {S A : Type 0} {P : S → Type 0} where
  pub Keeps-pure : (a : A) → Keeps P (pure a)
  Keeps-pure a = record { at = λ s h. h }

  pub Keeps-throw : (e : Error) → Keeps P (throw {A = A} e)
  Keeps-throw e = record { at = λ s h. h }

  pub Keeps-lift : (r : Result A) → Keeps P (lift r)
  Keeps-lift r = record { at = λ s h. h }

  pub Keeps-gets : (f : S → A) → Keeps P (gets f)
  Keeps-gets f = record { at = λ s h. h }

  pub Keeps-if : (b : Bool) (m n : Exec S A) → Keeps P m → Keeps P n → Keeps P (if b then m else n)
  Keeps-if true m n km kn = km
  Keeps-if false m n km kn = kn

  -- a branch on the state, under the branches or above them
  pub Keeps-test :
      (test : S → Bool) (m n : Exec S A)
      → Keeps P m
      → Keeps P n
      → Keeps P (λ s. if test s then m s else n s)
  Keeps-test test m n km kn = record {
    at = λ s h. elim (test s) as (λ b. P (if b then m s else n s).1) [
      | true ↦ km.at s h
      | false ↦ kn.at s h
    ];
  }

  pub Keeps-choose :
      (test : S → Bool) (m n : Exec S A)
      → Keeps P m
      → Keeps P n
      → Keeps P (λ s. (if test s then m else n) s)
  Keeps-choose test m n km kn = record {
    at = λ s h. elim (test s) as (λ b. P ((if b then m else n) s).1) [
      | true ↦ km.at s h
      | false ↦ kn.at s h
    ];
  }

module _ {S : Type 0} {P : S → Type 0} where
  pub Keeps-pass : Keeps P pass
  Keeps-pass = record { at = λ s h. h }

  pub Keeps-when : (b : Bool) (m : Action S) → Keeps P m → Keeps P (when b m)
  Keeps-when true m km = km
  Keeps-when false m km = Keeps-pass

  pub Keeps-when_test :
      (test : S → Bool) (m : Action S) → Keeps P m → Keeps P (λ s. when (test s) m s)
  Keeps-when_test test m km = record { at = λ s. (Keeps-when (test s) m km).at s }

module _ {S A B : Type 0} (P : S → Type 0) where
  -- what holds when an action ends, and after what follows it
  pub continue-leads :
      (r : Result A) (f : A → Exec S B) (s : S)
      → P s
      → ((a : A) → P (f a s).1)
      → P (continue r f s).1
  continue-leads (ok a) f s h k = k a
  continue-leads (raise e) f s h k = h

module _ {S A B : Type 0} {P : S → Type 0} where
  Keeps-continue :
      (r : Result A) (f : A → Exec S B) (s : S)
      → P s
      → ((a : A) → Keeps P (f a))
      → P (continue r f s).1
  Keeps-continue (ok a) f s h k = (k a).at s h
  Keeps-continue (raise e) f s h k = h

  pub Keeps-bind :
      (m : Exec S A) (f : A → Exec S B) → Keeps P m → ((a : A) → Keeps P (f a)) → Keeps P (m >>= f)
  Keeps-bind m f km kf = record { at = λ s h. Keeps-continue (m s).0 f (m s).1 (km.at s h) kf }

pub ruleset keeps_rules =
    (Keeps-pure, Keeps-throw, Keeps-lift, Keeps-gets, Keeps-pass, Keeps-if, Keeps-when, Keeps-bind)

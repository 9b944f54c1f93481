-- ===== src/Prelude/Dicts.antt =====
-- Python's dicts with numbers as keys, in the order of insertion.
use Prim.Native.Nat.{ℕ}
use mathlib.Core.Bool.{Bool, false, ◌||◌}
use mathlib.Core.Option.{Option, none, some}
use mathlib.Core.List.{List, [], ◌∷◌}
use nonecorn.Prelude.Tests.{◌==◌, if◌then◌else◌}

module _ {ℓ} {A : Type ℓ} where
  abbrev pub at_key : ℕ → List (ℕ × A) → Option A
  at_key k [] = none
  at_key k ((j, a) ∷ d) = if j == k then some a else at_key k d

  -- `d[k] = a`
  abbrev pub set_key : ℕ → A → List (ℕ × A) → List (ℕ × A)
  set_key k a [] = (k, a) ∷ []
  set_key k a ((j, b) ∷ d) = if j == k then (k, a) ∷ d else (j, b) ∷ set_key k a d

  -- `del d[k]`, where the key is there
  abbrev pub delete : ℕ → List (ℕ × A) → List (ℕ × A)
  delete k [] = []
  delete k ((j, b) ∷ d) = if j == k then d else (j, b) ∷ delete k d

  abbrev pub keys : List (ℕ × A) → List ℕ
  keys [] = []
  keys ((k, a) ∷ d) = k ∷ keys d

-- keys alone
abbrev pub has : ℕ → List ℕ → Bool
has k [] = false
has k (j ∷ ks) = j == k || has k ks

abbrev pub add : ℕ → List ℕ → List ℕ
add k [] = k ∷ []
add k (j ∷ ks) = if j == k then j ∷ ks else j ∷ add k ks

abbrev pub discard : ℕ → List ℕ → List ℕ
discard k [] = []
discard k (j ∷ ks) = if j == k then ks else j ∷ discard k ks

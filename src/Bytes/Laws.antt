-- ===== src/Bytes/Laws.antt =====
-- Laws of the operations on bytes.
use nonecorn.Prelude.{ℕ, ◌≡◌, refl, ◌↔◌, Bool, true, false, inl, inr, [], ◌∷◌, arith, Bool-cases}
use nonecorn.Bytes.{Bytes, same, lstrip_by}

pub same_refl : (a : Bytes) → same a a ≡ true
unfolding same
same_refl [] = refl
same_refl (c ∷ cs) = ground (arith, same_refl cs)

eq_of_same : (a b : Bytes) → same a b ≡ true → a ≡ b
unfolding same
eq_of_same [] [] h = refl
eq_of_same [] (d ∷ ds) h = cc
eq_of_same (c ∷ cs) [] h = cc
eq_of_same (c ∷ cs) (d ∷ ds) h = ground (arith, eq_of_same cs ds)

same_of_eq : (a b : Bytes) → a ≡ b → same a b ≡ true
same_of_eq a b h = rw (← h) (same_refl a)

pub same_iff : (a b : Bytes) → (same a b ≡ true) ↔ (a ≡ b)
same_iff a b = (eq_of_same a b, same_of_eq a b)

-- no byte at the front that `p` accepts
abbrev pub HeadFails : (ℕ → Bool) → Bytes → Type 0
HeadFails p [] = Unit
HeadFails p (c ∷ cs) = p c ≡ false

pub lstrip_by-HeadFails : (p : ℕ → Bool) (s : Bytes) → HeadFails p (lstrip_by p s)
unfolding lstrip_by
lstrip_by-HeadFails p [] = tt
lstrip_by-HeadFails p (c ∷ cs) = elim (Bool-cases (p c)) [
  | inl e ↦ rw e (lstrip_by-HeadFails p cs)
  | inr e ↦ rw e e
]

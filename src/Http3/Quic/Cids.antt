-- ===== src/Http3/Quic/Cids.antt =====
-- Tables and sets of connection ids (protocol/quic.py), by what is found in them.
use nonecorn.Prelude.{
  ◌∙◌, sym, ==_iff, ◌≡◌, ◌∷◌, ◌==◌, ◌&&◌, ◌||◌, ℕ, Option, none, some, List, [], Bool, true, false,
  not, inl, inr, refl, arith, at_key, set_key, Bool-cases, if◌then◌else◌,
}
use nonecorn.Bytes.{Bytes, same}
use nonecorn.Bytes.Laws.{same_iff, same_refl}
use nonecorn.Http3.Quic.{add_cid, by_cid, del_cid, has_cid, put_cid, remove_cid}

same_left : (e c c' : Bytes) → same e c ≡ true → same e c' ≡ same c c'
same_left e c c' h = rw ((same_iff e c).0 h) refl

same_right : (e c c' : Bytes) → same c c' ≡ true → same e c ≡ same e c'
same_right e c c' h = rw ((same_iff c c').0 h) refl

same_swap : (c c' : Bytes) → same c c' ≡ same c' c
same_swap c c' = elim (Bool-cases (same c c')) [
  | inl h ↦ rw ((same_iff c c').0 h) refl
  | inr h ↦ elim (Bool-cases (same c' c)) [
    | inl h' ↦ rw ((same_iff c' c).0 h') refl
    | inr h' ↦ h ∙ sym h'
  ]
]

abbrev pub leads : Option ℕ → ℕ → Bool
leads none k = false
leads (some j) k = j == k

-- the tables of ids and the sets of ids, by what is found in them
pub by_cid-put_cid :
    (c c' : Bytes) (k : ℕ) (d : List (Bytes × ℕ))
    → by_cid c' (put_cid c k d) ≡ (if same c c' then some k else by_cid c' d)
by_cid-put_cid c c' k [] = refl
by_cid-put_cid c c' k ((e, j) ∷ d) =
    ground (arith, by_cid-put_cid c c' k d, same_left e c c', same_right e c c')

pub leads-del_cid :
    (c c' : Bytes) (k : ℕ) (d : List (Bytes × ℕ))
    → leads (by_cid c' (del_cid c d)) k ≡ (not (same c c') && leads (by_cid c' d) k)
leads-del_cid c c' k [] = ground arith
leads-del_cid c c' k ((e, j) ∷ d) =
    ground (arith, leads-del_cid c c' k d, same_left e c c', same_right e c c')

-- a set lists nothing twice
abbrev pub IsUnique : List Bytes → Type 0
IsUnique [] = Unit
IsUnique (c ∷ cids) = (has_cid c cids ≡ false) × IsUnique cids

pub has_cid-same :
    (c c' : Bytes) (cids : List Bytes) → same c c' ≡ true → has_cid c' cids ≡ has_cid c cids
has_cid-same c c' cids h = rw ((same_iff c c').0 h) refl

pub by_cid-same :
    (c c' : Bytes) (d : List (Bytes × ℕ)) → same c c' ≡ true → by_cid c' d ≡ by_cid c d
by_cid-same c c' d h = rw ((same_iff c c').0 h) refl

pub at_key-same :
    {A : Type 0} (k j : ℕ) (d : List (ℕ × A)) → (k == j) ≡ true → at_key j d ≡ at_key k d
at_key-same k j d h = rw ((==_iff k j).0 h) refl

pub has_cid-add_cid :
    (c c' : Bytes) (cids : List Bytes)
    → has_cid c' (add_cid c cids) ≡ (same c c' || has_cid c' cids)
has_cid-add_cid c c' [] = ground arith
has_cid-add_cid c c' (e ∷ cids) =
    ground (arith, has_cid-add_cid c c' cids, same_left e c c', same_right e c c')

pub has_cid-remove_cid :
    (c c' : Bytes) (cids : List Bytes)
    → has_cid c' (remove_cid c cids) ≡ (not (same c c') && has_cid c' cids)
has_cid-remove_cid c c' [] = ground arith
has_cid-remove_cid c c' (e ∷ cids) =
    ground (arith, has_cid-remove_cid c c' cids, same_left e c c', same_right e c c')

pub add_cid-IsUnique : (c : Bytes) (cids : List Bytes) → IsUnique cids → IsUnique (add_cid c cids)
add_cid-IsUnique c [] u = (refl, tt)
add_cid-IsUnique c (e ∷ cids) u = elim (Bool-cases (same e c)) [
  | inl h ↦ rw h u
  | inr h ↦ rw h (
    ground (arith, has_cid-add_cid c e cids, u, h, same_right c e c, same_refl c, same_swap e c),
    add_cid-IsUnique c cids u.1,
  )
]

pub remove_cid-IsUnique :
    (c : Bytes) (cids : List Bytes) → IsUnique cids → IsUnique (remove_cid c cids)
remove_cid-IsUnique c [] u = tt
remove_cid-IsUnique c (e ∷ cids) u = elim (Bool-cases (same e c)) [
  | inl h ↦ rw h (remove_cid-IsUnique c cids u.1)
  | inr h ↦ rw h (ground (arith, has_cid-remove_cid c e cids, u), remove_cid-IsUnique c cids u.1)
]

pub at_key-set_key {ℓ} :
    {A : Type ℓ} (k j : ℕ) (a : A) (d : List (ℕ × A))
    → at_key j (set_key k a d) ≡ (if k == j then some a else at_key j d)
at_key-set_key k j a [] = refl
at_key-set_key k j a ((i, b) ∷ d) = ground (arith, at_key-set_key k j a d)

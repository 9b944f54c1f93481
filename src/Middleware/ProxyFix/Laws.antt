-- ===== src/Middleware/ProxyFix/Laws.antt =====
-- What a proxy can tell the application, and what a client cannot.
use mathlib.Core.List.{head?}
use nonecorn.Prelude.{
  ◌==◌, false, leb, map, true, ◌≡◌, ◌∷◌, ◌++◌, ◌-◌, ℕ, suc, refl, arith, length, length-append,
  append_assoc, [], List, if◌then◌else◌,
}
use nonecorn.Bytes.{split, strip_latin1, Bytes, codes, same, lower}
use nonecorn.Asgi.{Header}
use nonecorn.Middleware.ProxyFix.{values_of, trusted_value, get_elem?}

values_of-append :
    (name : Bytes) (xs ys : List Header)
    → values_of name (xs ++ ys) ≡ values_of name xs ++ values_of name ys
unfolding values_of
values_of-append name [] ys = refl
values_of-append name ((n, v) ∷ xs) ys = ground (
  arith,
  values_of-append name xs ys,
  append_assoc (map strip_latin1 (split b',' v)) (values_of name xs) (values_of name ys),
)

get_elem?-append : {A : Type 0} (xs ys : List A) → get_elem? (xs ++ ys) (length xs) ≡ head? ys
get_elem?-append [] [] = refl
get_elem?-append [] (y ∷ ys) = refl
get_elem?-append (x ∷ xs) ys = get_elem?-append xs ys

-- Where the headers of trusted proxies come after those of the client, and hold as many values of a
-- name as there are trusted hops, the trusted value is the first of the proxies' values, whatever
-- headers the client has sent.
pub trusted_value-append :
    (name : Bytes) (untrusted trusted : List Header) (hops : ℕ)
    → length (values_of name trusted) ≡ suc hops
    → trusted_value name (untrusted ++ trusted) (suc hops) ≡ head? (values_of name trusted)
unfolding trusted_value
trusted_value-append name untrusted trusted hops h =
    let us = values_of name untrusted in
    let ts = values_of name trusted in
    let fits : leb (suc hops) (length (us ++ ts)) ≡ true = ground (arith, length-append us ts) in
    let positive : (suc hops == 0) ≡ false = ground arith in
    let index : length (us ++ ts) - suc hops ≡ length us = omega (arith, length-append us ts) in
    rw (values_of-append name untrusted trusted, positive, fits, index) (get_elem?-append us ts)

-- the values of the host headers
abbrev pub hosts : List Header → List Bytes
hosts [] = []
hosts ((name, value) ∷ headers) =
    let rest = hosts headers in if same (lower name) (codes "host") then value ∷ rest else rest

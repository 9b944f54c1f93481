-- ===== src/Wsgi/Environ/Laws.antt =====
-- What the environ says of the path and of the headers.
use nonecorn.Prelude.{
  ap, ◌≡◌, ◌∷◌, ◌++◌, some, none, refl, if◌then◌else◌, arith, [], Option, List, length, inl, inr,
  Bool-cases, true,
}
use nonecorn.Bytes.{Text, codes, same, starts_with}
use nonecorn.Bytes.Laws.{same_iff}
use nonecorn.Exec.{ok}
use nonecorn.Asgi.{Header}
use nonecorn.Wsgi.Environ.{
  drop, path_info_of, corrected_name, lookup, assign, add_header, add_headers,
}

starts_with-append : (s t : Text) → starts_with s (s ++ t) ≡ true
unfolding starts_with
starts_with-append [] t = refl
starts_with-append (c ∷ s) t = ground (arith, starts_with-append s t)

drop-append : (s t : Text) → drop (length s) (s ++ t) ≡ t
drop-append [] t = refl
drop-append (c ∷ s) t = drop-append s t

-- The path info of a path that starts with the mount point is what follows it, and "/" where nothing
-- follows it. What follows need not start with a slash.
pub path_info_of-append :
    (script_name rest : Text)
    → path_info_of script_name (script_name ++ rest) ≡ ok (if same rest [] then codes "/" else rest)
unfolding path_info_of
path_info_of-append script_name rest =
    rw (starts_with-append script_name rest, drop-append script_name rest) refl

lookup-assign :
    (key name : Text) (value : Text) (entries : List (Text × Text))
    → lookup key (assign name value entries)
      ≡ (if same name key then some value else lookup key entries)
lookup-assign key name value [] = refl
lookup-assign key name value ((k, old) ∷ entries) = elim (Bool-cases (same k name)) [
  | inl e ↦ ground (arith, e, ap (λ x. same x key) ((same_iff k name).0 e))
  | inr e ↦ elim (Bool-cases (same name key)) [
    | inl f ↦ ground (
      arith,
      e,
      f,
      ap (λ x. same k x) ((same_iff name key).0 f),
      lookup-assign key name value entries,
    )
    | inr f ↦ ground (arith, e, f, lookup-assign key name value entries)
  ]
]

-- the values of the headers that are known to the application by the key
abbrev pub values_of : (Text → Text) → Text → List Header → List Text
values_of upper key [] = []
values_of upper key ((name, value) ∷ headers) =
    let rest = values_of upper key headers in
    if same (corrected_name upper name) key then value ∷ rest else rest

-- values joined by commas, behind one that may be there already
abbrev pub join_onto : Option Text → List Text → Option Text
join_onto before [] = before
join_onto none (value ∷ values) = join_onto (some value) values
join_onto (some before) (value ∷ values) = join_onto (some (before ++ codes "," ++ value)) values

add_headers_lem :
    (upper : Text → Text) (key : Text) (entries : List (Text × Text)) (headers : List Header)
    → lookup key (add_headers upper entries headers)
      ≡ join_onto (lookup key entries) (values_of upper key headers)
unfolding add_headers add_header
add_headers_lem upper key entries [] = refl
add_headers_lem upper key entries ((name, value) ∷ headers) =
    let k = corrected_name upper name in
    let added : Text = elim (lookup k entries) [
      | none ↦ value
      | some before ↦ before ++ codes "," ++ value
    ] in
    let rest = add_headers_lem upper key (add_header upper entries (name, value)) headers in
    elim (Bool-cases (same k key)) [
      | inl e ↦ ground (
        arith,
        e,
        rest,
        lookup-assign key k added entries,
        ap (λ x. lookup x entries) ((same_iff k key).0 e),
      )
      | inr e ↦ ground (arith, e, rest, lookup-assign key k added entries)
    ]

-- The environ has for each key the values of all headers that have the key as their corrected name,
-- joined by commas in the order of the request, and no entry where there are none.
pub lookup-add_headers :
    (upper : Text → Text) (key : Text) (headers : List Header)
    → lookup key (add_headers upper [] headers) ≡ join_onto none (values_of upper key headers)
lookup-add_headers upper key headers = add_headers_lem upper key [] headers

-- ===== src/Utils/Headers/Laws.antt =====
-- What the header functions of utils.py return.
use nonecorn.Prelude.{
  ℕ, true, Bool-cases, ◌≢◌, ◌||◌, ◌==◌, some, refl, none, inr, inl, get_or, arith, Option, Bool,
  ◌≡◌, ◌∷◌, ◌↔◌, map, if◌then◌else◌, false, [], List, All,
}
use nonecorn.Bytes.{Bytes, codes, same, strip}
use nonecorn.Exec.{ok}
use nonecorn.Exec.Results.{Result-cases}
use nonecorn.Asgi.{Header}
use nonecorn.Utils.Headers.{
  is_pseudo, build_and_validate_headers, filter_loop, filter_pseudo_headers,
}

abbrev pub strip_pair : Header → Header
strip_pair (name, value) = (strip name, strip value)

-- A name that the validation lets through: not empty, and its first byte is no colon.
abbrev pub IsPlain : Header → Type 0
IsPlain (name, value) = is_pseudo name ≡ ok false

validated :
    (headers out : List Header)
    → build_and_validate_headers headers ≡ ok out
    → All IsPlain headers × (out ≡ map strip_pair headers)
unfolding build_and_validate_headers
validated [] out h = ground arith
validated ((name, value) ∷ headers) out h =
    elim (Result-cases (build_and_validate_headers headers)) [
      | inl (rest, e) ↦ ground (arith, validated headers rest e)
      | inr (x, e) ↦ ground arith
    ]

validates :
    (headers : List Header)
    → All IsPlain headers
    → build_and_validate_headers headers ≡ ok (map strip_pair headers)
unfolding build_and_validate_headers
validates [] h = refl
validates ((name, value) ∷ headers) h = rw (h.0, validates headers h.1)

-- The validation succeeds exactly when every name is plain, and then returns each pair stripped, in
-- order.
pub build_and_validate_headers_iff :
    (headers out : List Header)
    → (build_and_validate_headers headers ≡ ok out)
      ↔ (All IsPlain headers × (out ≡ map strip_pair headers))
build_and_validate_headers_iff headers out =
    (validated headers out, λ h. rw h.1 (validates headers h.0))

-- the value of the last header of that name
abbrev pub last_value : Bytes → List Header → Option Bytes → Option Bytes
last_value key [] d = d
last_value key ((name, value) ∷ headers) d =
    last_value key headers (if same name key then some value else d)

abbrev starts_with_colon : Bytes → Bool
starts_with_colon [] = false
starts_with_colon (c ∷ cs) = c == b':'

-- the headers that are no pseudo headers and not "host"
abbrev pub regular : List Header → List Header
regular [] = []
regular ((name, value) ∷ headers) =
    let rest = regular headers in
    if same name (codes "host") || starts_with_colon name then rest else (name, value) ∷ rest

abbrev pub IsNamed : Header → Type 0
IsNamed (name, value) = name ≢ []

is_authority :
    (c : ℕ) (name : Bytes)
    → same (c ∷ name) (codes ":authority") ≡ true
    → (same (c ∷ name) (codes "host") ≡ false) × ((c == b':') ≡ true)
unfolding same
is_authority c name h = ground arith

filter_loop_lem :
    (headers : List Header) (authority : Option Bytes) (host : Bytes)
    → All IsNamed headers
    → filter_loop headers authority host
      ≡ ok (
        last_value (codes ":authority") headers authority,
        get_or (last_value (codes "host") headers (some host)) [],
        regular headers,
      )
unfolding filter_loop
filter_loop_lem [] authority host h = refl
filter_loop_lem (([], value) ∷ headers) authority host h = absurd (h.0 refl)
filter_loop_lem ((c ∷ name, value) ∷ headers) authority host h =
    elim (Bool-cases (same (c ∷ name) (codes ":authority"))) [
      | inl e ↦
          let (other, colon) = is_authority c name e in
          rw (e, other, colon) (filter_loop_lem headers (some value) host h.1)
      | inr e ↦ elim (Bool-cases (same (c ∷ name) (codes "host"))) [
        | inl e' ↦ rw (e, e') (filter_loop_lem headers authority value h.1)
        | inr e' ↦ rw (e, e', filter_loop_lem headers authority host h.1)
      ]
    ]

last_value_default :
    (key : Bytes) (headers : List Header) (d d' : Option Bytes)
    → get_or d [] ≡ get_or d' []
    → get_or (last_value key headers d) [] ≡ get_or (last_value key headers d') []
last_value_default key [] d d' h = h
last_value_default key ((name, value) ∷ headers) d d' h =
    last_value_default key headers _ _ (ground arith)

-- When every header has a name, the result starts with one "host", whose value is the last
-- ":authority" or else the last "host" or else empty, and goes on with the headers that are neither
-- pseudo headers nor "host", in order.
pub filter_pseudo_headers_lem :
    (headers : List Header)
    → All IsNamed headers
    → filter_pseudo_headers headers
      ≡ ok (
          (
            codes "host",
            get_or
                (last_value (codes ":authority") headers none)
                (get_or (last_value (codes "host") headers none) []),
          )
          ∷ regular headers)
unfolding filter_pseudo_headers
filter_pseudo_headers_lem headers h =
    rw (filter_loop_lem headers none [] h)
      (rw (last_value_default (codes "host") headers (some []) none refl))

-- ===== src/Middleware/ProxyFix.antt =====
-- middleware/proxy_fix.py: the client, the scheme and the host that a trusted proxy tells of.
pub mod Laws
use nonecorn.Prelude.{
  ◌∷◌, ◌++◌, ◌-◌, ◌==◌, ℕ, zero, suc, some, none, not, if◌then◌else◌, get_or, leb, [], List, Option,
  Bool, length, map,
}
use nonecorn.Bytes.{drop, Bytes, Text, codes, same, lower, split, starts_with, strip_latin1}
use nonecorn.Asgi.{Header, Scope, ScopeType}
use nonecorn.Utils.Utf8.{encode_utf8}

-- the loop of `_get_trusted_value`
unfoldable pub values_of : Bytes → List Header → List Text
values_of name [] = []
values_of name ((header_name, value) ∷ headers) =
    let rest = values_of name headers in
    if same (lower header_name) name then map strip_latin1 (split b',' value) ++ rest else rest

-- `values[i]` for an index that is in range
abbrev pub get_elem? : {A : Type 0} → List A → ℕ → Option A
get_elem? [] i = none
get_elem? (x ∷ xs) zero = some x
get_elem? (x ∷ xs) (suc i) = get_elem? xs i

-- `_get_trusted_value`
unfoldable pub trusted_value : Bytes → List Header → ℕ → Option Text
trusted_value name headers trusted_hops =
    let values = values_of name headers in
    if trusted_hops == 0
    then none
    else if leb trusted_hops (length values)
    then get_elem? values (length values - trusted_hops)
    else none

-- `client`, `scheme` and `host` of `__call__`
pub record Forwarded : Type 0 where
  pub client : Option Text
  pub scheme : Option Text
  pub host : Option Text

-- one round of the loop over the parts of a Forwarded header
unfoldable pub read_part : Forwarded → Text → Forwarded
read_part f part =
    if starts_with (codes "for=") part
    then record f { client = some (strip_latin1 (drop 4 part)) }
    else if starts_with (codes "host=") part
    then record f { host = some (strip_latin1 (drop 5 part)) }
    else if starts_with (codes "proto=") part
    then record f { scheme = some (strip_latin1 (drop 6 part)) }
    else f

abbrev pub read_parts : Forwarded → List Text → Forwarded
read_parts f [] = f
read_parts f (part ∷ parts) = read_parts (read_part f part) parts

abbrev pub legacy_values : List Header → ℕ → Forwarded
legacy_values headers trusted_hops = record {
  client = trusted_value (codes "x-forwarded-for") headers trusted_hops;
  scheme = trusted_value (codes "x-forwarded-proto") headers trusted_hops;
  host = trusted_value (codes "x-forwarded-host") headers trusted_hops;
}

-- the mode is "modern" or "legacy"
unfoldable pub forwarded : Bool → List Header → ℕ → Forwarded
forwarded modern headers trusted_hops =
    if modern
    then elim (trusted_value (codes "forwarded") headers trusted_hops) [
      | some value ↦
          read_parts (record { client = none; scheme = none; host = none }) (split b';' value)
      | none ↦ legacy_values headers trusted_hops
    ]
    else legacy_values headers trusted_hops

-- the comprehension that leaves out the host headers
unfoldable pub without_host : List Header → List Header
without_host [] = []
without_host ((name, value) ∷ headers) =
    let rest = without_host headers in
    if not (same (lower name) (codes "host")) then (name, value) ∷ rest else rest

abbrev pub set_client : Option Text → Scope → Scope
set_client none scope = scope
set_client (some client) scope = record scope { client = some (client, 0) }

abbrev pub set_scheme : Option Text → Scope → Scope
set_scheme none scope = scope
set_scheme (some scheme) scope = record scope { scheme = scheme }

abbrev pub set_host : Option Text → Scope → Scope
set_host none scope = scope
set_host (some host) scope = record scope {
  headers = without_host scope.headers ++ (codes "host", encode_utf8 host) ∷ [];
}

-- `__call__`: the scope that the application is called with
unfoldable pub proxy_fix : Bool → ℕ → Scope → Scope
unfolding forwarded
proxy_fix modern trusted_hops scope =
    let f = forwarded modern scope.headers trusted_hops in
    let fixed = set_host f.host (set_scheme f.scheme (set_client f.client scope)) in
    elim scope.type [ ScopeType.lifespan ↦ scope | _ ↦ fixed ]

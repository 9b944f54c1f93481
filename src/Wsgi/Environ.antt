-- ===== src/Wsgi/Environ.antt =====
-- `_build_environ` of src/hypercorn/app_wrappers.py: the environ of a WSGI application.
pub mod Laws
use nonecorn.Prelude.{
  ◌/◌, zero, suc, ◌∷◌, ◌++◌, ◌==◌, ℕ, some, none, not, if◌then◌else◌, get_or, is_empty, all, ltb,
  map, [], Option, List, Bool, length,
}
use nonecorn.Bytes.{drop, Bytes, Text, codes, same, starts_with}
use nonecorn.Exec.{Result, ok, raise, invalid_path, unicode_error}
use nonecorn.Exec.Results.{◌>>=◌}
use nonecorn.Asgi.{Address, Header, Scope}
use nonecorn.Utils.Utf8.{encode_utf8}

-- the entries of the dict; the constant ones, "wsgi.version", "wsgi.errors" and the flags, are left
-- out, and `headers` are the entries of the request's headers, in the order of their insertion
pub record Environ : Type 0 where
  pub request_method : Text
  pub script_name : Text
  pub path_info : Text
  pub query_string : Text
  pub server : Address
  pub server_protocol : Text
  pub url_scheme : Text
  pub input : Bytes
  pub remote_addr : Option Text
  pub headers : List (Text × Text)

-- `path` without the prefix `script_name`, which a path outside of the mount point lacks
unfoldable pub path_info_of : Text → Text → Result Text
path_info_of script_name path =
    if starts_with script_name path
    then ok (let rest = drop (length script_name) path in if same rest [] then codes "/" else rest)
    else raise invalid_path

-- `%x.upper().replace("-", "_")`, where `str.upper` is a parameter
unfoldable pub corrected_name : (Text → Text) → Text → Text
corrected_name upper name =
    if same name (codes "content-length")
    then codes "CONTENT_LENGTH"
    else if same name (codes "content-type")
    then codes "CONTENT_TYPE"
    else codes "HTTP_" ++ map (λ c. if c == b'-' then b'_' else c) (upper name)

-- `environ[name]`
abbrev pub lookup : Text → List (Text × Text) → Option Text
lookup name [] = none
lookup name ((key, value) ∷ entries) =
    let rest = lookup name entries in if same key name then some value else rest

-- `environ[name] = value`, which keeps the place of a key that is there
abbrev pub assign : Text → Text → List (Text × Text) → List (Text × Text)
assign name value [] = (name, value) ∷ []
assign name value ((key, old) ∷ entries) =
    let rest = assign name value entries in
    if same key name then (key, value) ∷ entries else (key, old) ∷ rest

-- one round of the loop over the headers
unfoldable pub add_header : (Text → Text) → List (Text × Text) → Header → List (Text × Text)
add_header upper entries (raw_name, raw_value) =
    let name = corrected_name upper raw_name in
    let value : Text = elim (lookup name entries) [
      | none ↦ raw_value
      | some before ↦ before ++ codes "," ++ raw_value
    ] in
    assign name value entries

unfoldable pub add_headers : (Text → Text) → List (Text × Text) → List Header → List (Text × Text)
add_headers upper entries [] = entries
add_headers upper entries (header ∷ headers) =
    add_headers upper (add_header upper entries header) headers

-- `_build_environ`
unfoldable pub build_environ : (Text → Text) → Scope → Bytes → Result Environ
unfolding path_info_of
build_environ upper scope body = do
  path ← path_info_of scope.root_path scope.path
  query_string ←
      if all (λ c. ltb c 128) scope.query_string then ok scope.query_string else raise unicode_error
  ok (record {
    request_method = scope.method;
    script_name = encode_utf8 scope.root_path;
    path_info = encode_utf8 path;
    query_string = query_string;
    server = get_or scope.server (codes "localhost", 80);
    server_protocol = codes "HTTP/" ++ scope.http_version;
    url_scheme = scope.scheme;
    input = body;
    remote_addr = elim scope.client [ none ↦ none | some address ↦ some (address.0) ];
    headers = add_headers upper [] scope.headers;
  })

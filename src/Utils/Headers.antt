-- ===== src/Utils/Headers.antt =====
-- The header functions of src/hypercorn/utils.py: suppress_body, build_and_validate_headers,
-- filter_pseudo_headers and valid_server_name.
pub mod Laws
pub mod Smuggling
use nonecorn.Prelude.{
  ℕ, Bool, true, false, not, ◌&&◌, ◌||◌, Option, none, some, List, [], ◌∷◌, ltb, leb, ◌==◌, any,
  is_empty, get_or, if◌then◌else◌,
}
use nonecorn.Bytes.{Bytes, Text, codes, same, strip, lower}
use nonecorn.Exec.{Error, Result, ok, raise, index_error, value_error, unicode_error}
use nonecorn.Exec.Results.{◌>>=◌}
use nonecorn.Asgi.{Header, RequestEvent, Config}
use nonecorn.Utils.Utf8.{decode_utf8}

unfoldable pub suppress_body : Text → ℕ → Bool
suppress_body method status_code =
    same method (codes "HEAD")
    || (leb 100 status_code && ltb status_code 200)
    || (status_code == 204 || status_code == 304)

-- `name[0] == b":"[0]`, which raises on an empty name
unfoldable pub is_pseudo : Bytes → Result Bool
is_pseudo [] = raise index_error
is_pseudo (c ∷ cs) = ok (c == b':')

unfoldable pub build_and_validate_headers : List Header → Result (List Header)
unfolding is_pseudo
build_and_validate_headers [] = ok []
build_and_validate_headers ((name, value) ∷ headers) = do
  pseudo ← is_pseudo name
  if pseudo
      then raise value_error
      else do rest ← build_and_validate_headers headers; ok ((strip name, strip value) ∷ rest)

-- The loop of `filter_pseudo_headers`: the last ":authority", the last "host", and the headers
-- kept, in order.
unfoldable pub filter_loop :
    List Header → Option Bytes → Bytes → Result (Option Bytes × Bytes × List Header)
unfolding is_pseudo
filter_loop [] authority host = ok (authority, host, [])
filter_loop ((name, value) ∷ headers) authority host =
    if same name (codes ":authority")
    then filter_loop headers (some value) host
    else if same name (codes "host")
    then filter_loop headers authority value
    else do
      pseudo ← is_pseudo name
      (authority', host', rest) ← filter_loop headers authority host
      ok (authority', host', (if pseudo then rest else (name, value) ∷ rest))

unfoldable pub filter_pseudo_headers : List Header → Result (List Header)
unfolding filter_loop
filter_pseudo_headers headers = do
  (authority, host, rest) ← filter_loop headers none []
  ok ((codes "host", get_or authority host) ∷ rest)

-- the first header whose lower-case name is "host"
unfoldable pub find_host : List Header → Option Bytes
find_host [] = none
find_host ((name, value) ∷ headers) =
    if same (lower name) (codes "host") then some value else find_host headers

unfoldable pub valid_server_name : Config → RequestEvent → Result Bool
unfolding find_host
valid_server_name config event = if is_empty config.server_names then ok true else do
  host ← elim (find_host event.headers) [
    | none ↦ ok []
    | some value ↦ elim (decode_utf8 value) [ none ↦ raise unicode_error | some t ↦ ok t ]
  ]
  ok (any (same host) config.server_names)

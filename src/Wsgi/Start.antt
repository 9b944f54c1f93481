-- ===== src/Wsgi/Start.antt =====
-- The status and the headers that a WSGI application passes to `start_response`, in `run_app` of
-- src/hypercorn/app_wrappers.py.
use nonecorn.Prelude.{◌==◌, ◌∷◌, ℕ, some, none, if◌then◌else◌, [], Option, List, all, any, ltb}
use nonecorn.Bytes.{Bytes, Text, partition}
use nonecorn.Exec.{Result, ok, raise, value_error, unicode_error}
use nonecorn.Exec.Results.{◌>>=◌}
use nonecorn.Asgi.{Header}

-- What is asked of the interpreter's strings.
pub record Strings : Type 0 where
  pub int : Text → Option ℕ
  pub lower : Text → Text
  pub upper : Text → Text

-- `text.encode("latin-1")`
unfoldable pub encode_latin1 : Text → Result Bytes
encode_latin1 text = if all (λ c. ltb c 256) text then ok text else raise unicode_error

-- `raw, _ = status.split(" ", 1)`, and `int(raw)`
unfoldable pub status_of : Strings → Text → Result ℕ
status_of strings status =
    if any (λ c. c == b' ') status
    then elim (strings.int (partition b' ' status).0) [
      | none ↦ raise value_error
      | some code ↦ ok code
    ]
    else raise value_error

unfoldable pub encode_headers : Strings → List (Text × Text) → Result (List Header)
unfolding encode_latin1
encode_headers strings [] = ok []
encode_headers strings ((name, value) ∷ headers) = do
  name ← encode_latin1 (strings.lower name)
  value ← encode_latin1 value
  rest ← encode_headers strings headers
  ok ((name, value) ∷ rest)

-- ===== src/Wsgi/Response.antt =====
-- WSGIWrapper of src/hypercorn/app_wrappers.py: the body that it collects, the application that it
-- runs, and the messages that it sends.
pub mod Laws
use nonecorn.Prelude.{
  ◌==◌, all, any, ◌∷◌, ◌++◌, ℕ, some, none, not, if◌then◌else◌, get_or, is_empty, ltb, [], Option,
  List, Bool, length, true, false,
}
use mathlib.Core.List.{reverse}
use nonecorn.Bytes.{partition, Bytes, Text, codes}
use nonecorn.Exec.{
  Error, Result, Exec, Action, ok, raise, pass, throw, when, ◌>>=◌, ◌>>◌, gets, modify, lift,
  invalid_path, runtime_error, value_error, unicode_error,
}
use nonecorn.Asgi.{ScopeType, Header, Scope, Receive, AppMessage, ResponseStart, ResponseBody}
use nonecorn.Wsgi.Start.{Strings, status_of, encode_headers}
use nonecorn.Wsgi.Environ.{Environ, build_environ}

-- `bytearray.extend(message.get("body", b""))` and `message.get("more_body")`
abbrev pub body_of : Receive → Bytes
body_of (Receive.http_request body more_body) = body
body_of _ = []

abbrev pub more_of : Receive → Bool
more_of (Receive.http_request body more_body) = more_body
more_of _ = false

-- How the loop over `receive()` ends: in a body, in one that is too large, or never, as it waits for
-- a message that does not come.
pub data Reading : Type 0 where
  complete : Bytes → Reading
  too_large waiting : Reading

unfoldable pub read_body : ℕ → Bytes → List Receive → Reading
read_body max body [] = Reading.waiting
read_body max body (message ∷ messages) =
    let body' = body ++ body_of message in
    let rest = read_body max body' messages in
    if ltb max (length body')
    then Reading.too_large
    else if more_of message
    then rest
    else Reading.complete body'

-- What an application does, in the order in which it does it: it calls `start_response`, or hands
-- out a chunk of the body, or raises.
pub data Step : Type 0 where
  start_response : Text → List (Text × Text) → Step
  chunk : Bytes → Step
  fail : Error → Step

-- the variables of `run_app`, and the messages that it has sent, newest first
pub record Running : Type 0 where
  pub status_code : ℕ
  pub headers : List Header
  pub response_started : Bool
  pub first_chunk : Bool
  pub sent : List AppMessage

abbrev pub idle : List AppMessage → Running
idle sent = record {
  status_code = 0;
  headers = [];
  response_started = false;
  first_chunk = true;
  sent = sent;
}

abbrev pub start_of : ℕ → List Header → AppMessage
start_of status headers =
    AppMessage.http_start
      (record { status = status; headers = some headers; trailers = none; reason = none })

abbrev pub body_message : Bytes → Bool → AppMessage
body_message body more_body =
    AppMessage.http_body
      (record { content = some body; more_body = some more_body; flush = none; headers = none })

-- An exception of `start_response` ends the application here.
module _ (strings : Strings) where
  unfoldable pub run_step : Step → Action Running
  run_step (start_response status headers) = do
    code ← lift (status_of strings status)
    encoded ← lift (encode_headers strings headers)
    modify (λ r. record r { status_code = code; headers = encoded; response_started = true })
  run_step (chunk output) = do
    r ← gets (λ r. r)
    when r.first_chunk (
        if r.response_started
        then modify (λ r. record r {
          sent = start_of r.status_code r.headers ∷ r.sent;
          first_chunk = false;
        })
        else throw runtime_error)
    modify (λ r. record r { sent = body_message output true ∷ r.sent })
  run_step (fail error) = throw error

  -- `run_app`
  unfoldable pub run_app : List Step → Action Running
  run_app [] = pass
  run_app (step ∷ steps) = do run_step step; run_app steps

  -- What a call did: its result, or none where it waits for ever, and what it sent, oldest first.
  abbrev pub Handled : Type 0
  Handled = Option (Result (Unit {0})) × List AppMessage

  -- the end of `handle_http`, after the application has run
  unfoldable pub end_app : Result (Unit {0}) × Running → Handled
  end_app (raise error, r) = (some (raise error), reverse r.sent)
  end_app (ok done, r) = (some (ok tt), reverse (body_message [] false ∷ r.sent))

  unfoldable pub serve : (Environ → List Step) → Result Environ → Handled
  serve app (ok environ) = end_app (run_app (app environ) (idle []))
  serve app (raise invalid_path) = (some (ok tt), start_of 404 [] ∷ body_message [] false ∷ [])
  serve app (raise error) = (some (raise error), [])

  unfoldable pub handle_read : (Environ → List Step) → Scope → Reading → Handled
  unfolding serve
  handle_read app scope Reading.waiting = (none, [])
  handle_read app scope Reading.too_large =
      (some (ok tt), start_of 400 [] ∷ body_message [] false ∷ [])
  handle_read app scope (Reading.complete body) = serve app (build_environ strings.upper scope body)

  -- `handle_http`, with the messages that it receives
  unfoldable pub handle_http : ℕ → (Environ → List Step) → Scope → List Receive → Handled
  unfolding handle_read
  handle_http max app scope messages = handle_read app scope (read_body max [] messages)

  -- `WSGIWrapper.__call__`
  unfoldable pub wsgi_wrapper : ℕ → (Environ → List Step) → Scope → List Receive → Handled
  wsgi_wrapper max app scope messages = elim scope.type [
    | ScopeType.http ↦ handle_http max app scope messages
    | ScopeType.websocket ↦
        (some (ok tt), AppMessage.ws_close (record { code = none; reason = none }) ∷ [])
    | ScopeType.lifespan ↦ (some (ok tt), [])
  ]

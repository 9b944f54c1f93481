-- ===== src/Middleware/Redirect.antt =====
-- middleware/http_to_https.py: insecure requests are redirected.
use nonecorn.Prelude.{
  ◌≡◌, false, any, Bool, inl, inr, ◌↔◌, arith, ◌∷◌, ◌++◌, some, none, if◌then◌else◌, [], List,
  Option,
}
use nonecorn.Bytes.{Bytes, Text, codes, same}
use nonecorn.Exec.{Result, ok, raise, value_error, unicode_error}
use nonecorn.Exec.Results.{Result-cases, ◌>>=◌}
use nonecorn.Asgi.{AppMessage, Header, ResponseStart, ResponseBody, Scope, ScopeType}
use nonecorn.Utils.Utf8.{encode_utf8, decode_utf8}

-- `urlunsplit` of the standard library, for a scheme, a host, a path and a query
abbrev pub UrlUnsplit : Type 0
UrlUnsplit = Text → Text → Text → Text → Text

unfoldable pub host_of : List Header → Option Text
host_of [] = none
host_of ((key, value) ∷ headers) =
    let rest = host_of headers in if same key (codes "host") then some value else rest

abbrev pub decoded : Bytes → Result Text
decoded bytes = elim (decode_utf8 bytes) [ none ↦ raise unicode_error | some text ↦ ok text ]

-- `_new_url`; the host is the configured one, or that of the request
unfoldable pub new_url : UrlUnsplit → Option Text → Text → Scope → Result Text
new_url urlunsplit configured scheme scope =
    let host : Option Text = elim configured [
      | some host ↦ some host
      | none ↦ host_of scope.headers
    ] in
    elim host [
      | none ↦ raise value_error
      | some host ↦ do
        raw_path ← decoded scope.raw_path
        query_string ← decoded scope.query_string
        ok (urlunsplit scheme host (scope.root_path ++ raw_path) query_string)
    ]

-- What the middleware does: it calls the application, or it sends messages.
pub data Outcome : Type 0 where
  call_app : Outcome
  answer : List AppMessage → Outcome

abbrev pub moved : Text → ResponseStart
moved url = record {
  status = 307;
  headers = some ((codes "location", encode_utf8 url) ∷ []);
  trailers = none;
  reason = none;
}

abbrev pub no_body : ResponseBody
no_body = record { content = none; more_body = none; flush = none; headers = none }

unfoldable pub send_http_redirect : UrlUnsplit → Option Text → Scope → Result Outcome
send_http_redirect urlunsplit host scope = do
  url ← new_url urlunsplit host (codes "https") scope
  ok (Outcome.answer (AppMessage.http_start (moved url) ∷ AppMessage.http_body no_body ∷ []))

unfoldable pub send_websocket_redirect : UrlUnsplit → Option Text → Scope → Result Outcome
send_websocket_redirect urlunsplit host scope = do
  url ←
      new_url urlunsplit host
        (if same scope.http_version (codes "2") then codes "https" else codes "wss") scope
  ok (Outcome.answer (AppMessage.ws_start (moved url) ∷ AppMessage.ws_body no_body ∷ []))

-- `__call__`
unfoldable pub redirect : UrlUnsplit → Option Text → Scope → Result Outcome
redirect urlunsplit host scope = elim scope.type [
  | ScopeType.http ↦
      if same scope.scheme (codes "http")
      then send_http_redirect urlunsplit host scope
      else ok Outcome.call_app
  | ScopeType.websocket ↦
      if same scope.scheme (codes "ws")
      then (if any (same (codes "websocket.http.response")) scope.extensions
          then send_websocket_redirect urlunsplit host scope
          else ok
              (Outcome.answer (AppMessage.ws_close (record { code = none; reason = none }) ∷ [])))
      else ok Outcome.call_app
  | ScopeType.lifespan ↦ ok Outcome.call_app
]

abbrev pub is_insecure : Scope → Bool
is_insecure scope = elim scope.type [
  | ScopeType.http ↦ same scope.scheme (codes "http")
  | ScopeType.websocket ↦ same scope.scheme (codes "ws")
  | ScopeType.lifespan ↦ false
]

-- The application is called just with the scopes that are not insecure: a lifespan, an HTTP request
-- whose scheme is not "http", and a websocket whose scheme is not "ws".
pub redirect_iff :
    (urlunsplit : UrlUnsplit) (host : Option Text) (scope : Scope)
    → (redirect urlunsplit host scope ≡ ok Outcome.call_app) ↔ (is_insecure scope ≡ false)
unfolding redirect send_http_redirect send_websocket_redirect
redirect_iff urlunsplit host scope =
    elim (Result-cases (new_url urlunsplit host (codes "https") scope)) [
      | inl (u, e) ↦ elim (Result-cases (new_url urlunsplit host (codes "wss") scope)) [
        | inl (v, f) ↦ ground (arith, e, f)
        | inr (x, f) ↦ ground (arith, e, f)
      ]
      | inr (x, e) ↦ elim (Result-cases (new_url urlunsplit host (codes "wss") scope)) [
        | inl (v, f) ↦ ground (arith, e, f)
        | inr (y, f) ↦ ground (arith, e, f)
      ]
    ]

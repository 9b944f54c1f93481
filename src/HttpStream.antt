-- ===== src/HttpStream.antt =====
-- HTTPStream of src/hypercorn/protocol/http_stream.py: the state of the stream of one HTTP request,
-- and `handle`, which takes the protocol's events. Its `app_send` is in HttpStream/AppSend.antt.
-- What the stream does outside itself (`self.send`, `self.app_put`, `spawn_app`, `log.access`) is one
-- parameter `emit`: the protocol, which may call the stream back, puts its own action there.
pub mod Keeps
pub mod AppKeeps
pub mod AppSend
pub mod Refusals
pub mod Recorder
use nonecorn.Prelude.{
  ◌∷◌, ◌||◌, ◌&&◌, ℕ, true, some, not, none, ltb, is_empty, if◌then◌else◌, false, all, [], Option,
  List, Bool,
}
use nonecorn.Bytes.{Bytes, Text, codes, same, partition}
use nonecorn.Exec.{
  ok, Error, Exec, Action, modify, pass, throw, gets, lift, pure, when, ◌>>=◌, ◌>>◌,
  attribute_error, unicode_error,
}
use nonecorn.Asgi.{
  Header, Address, RequestEvent, StreamEvent, ResponseStart, Receive, Scope, ScopeType, Summary,
  Config,
}
use nonecorn.Stream.{Output, send, put, spawn_app, access, World, update, attribute}
use nonecorn.Platform.{Platform, can_sendfile}
use nonecorn.Utils.Headers.{valid_server_name}

-- ASGIHTTPState
pub data HttpState : Type 0 where
  request response closed : HttpState

-- `scope`, `response` and `app_put` are attributes that `__init__` does not set: `none` and `false`
-- until they are. Times are left out: `start_time` is set with `scope`.
pub record HttpStream : Type 0 where
  pub closed : Bool
  pub scheme : Text
  pub client : Option Address
  pub server : Option Address
  pub state : HttpState
  pub stream_id : ℕ
  pub has_tls : Bool
  pub trailers_expected : Bool
  pub scope : Option Scope
  pub response : Option ResponseStart
  pub app_put : Bool

unfoldable pub init : Bool → Option Address → Option Address → ℕ → Bool → HttpStream
init ssl client server stream_id has_tls = record {
  closed = false;
  scheme = if ssl then codes "https" else codes "http";
  client = client;
  server = server;
  state = HttpState.request;
  stream_id = stream_id;
  has_tls = has_tls;
  trailers_expected = false;
  scope = none;
  response = none;
  app_put = false;
}

abbrev pub is_request : HttpState → Bool
is_request HttpState.request = true
is_request _ = false

abbrev pub is_response : HttpState → Bool
is_response HttpState.response = true
is_response _ = false

abbrev pub is_closed : HttpState → Bool
is_closed HttpState.closed = true
is_closed _ = false

-- membership in PUSH_VERSIONS, which is EARLY_HINTS_VERSIONS too
unfoldable pub is_push_version : Text → Bool
is_push_version version = same version (codes "2") || same version (codes "3")

abbrev pub key_if : Bool → Text → List Text → List Text
key_if b key keys = if b then key ∷ keys else keys

-- the keys of `scope["extensions"]`, in order of insertion
unfoldable pub extensions_of : Platform → HttpStream → Text → List Text
unfolding is_push_version can_sendfile
extensions_of env s version =
    let https = same s.scheme (codes "https") in
    codes "http.response.trailers"
    ∷ codes "http.response.pathsend"
    ∷ key_if (is_push_version version) (codes "http.response.push") (
        key_if (can_sendfile env.loop https && not (is_push_version version))
          (codes "http.response.zerocopysend")
          (key_if (https && s.has_tls) (codes "tls")
            (key_if (is_push_version version) (codes "http.response.early_hint") [])))

abbrev pub is_ascii : Bytes → Bool
is_ascii path = all (λ c. ltb c 128) path

unfoldable pub scope_of : Platform → Config → HttpStream → RequestEvent → Scope
unfolding extensions_of
scope_of env config s event =
    let (path, query_string) = partition b'?' event.raw_path in
    record {
      type = ScopeType.http;
      spec_version = codes "2.1";
      http_version = event.http_version;
      method = event.method;
      scheme = s.scheme;
      path = env.unquote path;
      raw_path = path;
      query_string = query_string;
      root_path = config.root_path;
      headers = event.headers;
      client = s.client;
      server = s.server;
      state = event.state;
      subprotocols = [];
      extensions = extensions_of env s event.http_version;
    }

abbrev pub set_state : {W : Type 0} → HttpState → Action (World HttpStream W)
set_state st = update (λ s. record s { state = st })

module _ {W : Type 0} (emit : Output → Action (World HttpStream W)) where
  unfoldable pub send_event : StreamEvent → Action (World HttpStream W)
  send_event event = emit (Output.send event)

  unfoldable pub put_app : Receive → Action (World HttpStream W)
  put_app message w = if w.stream.app_put then emit (put message) w else throw attribute_error w

  unfoldable pub log_access : Option Summary → Action (World HttpStream W)
  log_access summary = do
    scope ← gets (λ w. w.stream.scope) >>= attribute
    emit (access scope summary)

  -- `_send_error_response`
  unfoldable pub send_error_response : ℕ → Action (World HttpStream W)
  unfolding send_event log_access
  send_error_response status_code = do
    id ← gets (λ w. w.stream.stream_id)
    send_event (
        StreamEvent.response id
          ((codes "content-length", codes "0") ∷ (codes "connection", codes "close") ∷ [])
          status_code [])
    send_event (StreamEvent.end_body id [])
    set_state HttpState.closed
    log_access (some (record { status = status_code; headers = [] }))

  -- the branch of `handle` for a StreamClosed
  unfoldable pub handle_closed : Action (World HttpStream W)
  unfolding log_access put_app
  handle_closed = do
    update (λ s. record s { closed = true })
    st ← gets (λ w. w.stream.state)
    when (not (is_closed st)) (log_access none)
    put_app Receive.http_disconnect

module _ {W : Type 0} (env : Platform) (config : Config)
    (emit : Output → Action (World HttpStream W)) where
  -- the branch of `handle` for a Request
  unfoldable pub handle_request : RequestEvent → Action (World HttpStream W)
  unfolding scope_of send_error_response
  handle_request event = do
    when (not (is_ascii (partition b'?' event.raw_path).0)) (throw unicode_error)
    update (λ s. record s { scope = some (scope_of env config s event) })
    valid ← lift (valid_server_name config event)
    if valid
        then (do
          scope ← gets (λ w. w.stream.scope) >>= attribute
          emit (spawn_app scope)
          update (λ s. record s { app_put = true }))
        else (do send_error_response emit 404; update (λ s. record s { closed = true }))

  unfoldable pub handle_open : StreamEvent → Action (World HttpStream W)
  unfolding handle_request handle_closed put_app
  handle_open (StreamEvent.request id event) = handle_request event
  handle_open (StreamEvent.body id bytes flush) = put_app emit (Receive.http_request bytes true)
  handle_open (StreamEvent.end_body id headers) = do
    put_app emit (Receive.http_request [] false)
    when (not (is_empty headers)) (put_app emit (Receive.http_request_trailers headers))
  handle_open (StreamEvent.stream_closed id) = handle_closed emit
  handle_open (StreamEvent.trailer_headers_send id headers end_stream) =
      put_app emit (Receive.http_request_trailers headers)
  handle_open _ = pass

  unfoldable pub handle : StreamEvent → Action (World HttpStream W)
  unfolding handle_open
  handle event w = if w.stream.closed then pass w else handle_open event w

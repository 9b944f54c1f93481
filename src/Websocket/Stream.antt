-- ===== src/Websocket/Stream.antt =====
-- WSStream of src/hypercorn/protocol/ws_stream.py: the state of a websocket's stream, and what it
-- sends. As for the HTTP stream, all that it does outside itself is the parameter `emit`.
pub mod Handle
pub mod Keeps
pub mod AppKeeps
pub mod AppSend
pub mod Recorder
use nonecorn.Prelude.{
  ◌∷◌, ◌&&◌, ℕ, true, some, none, if◌then◌else◌, get_or, false, [], Option, List, Bool,
}
use nonecorn.Bytes.{Bytes, Text, codes, same, partition}
use nonecorn.Exec.{Exec, Action, pass, throw, gets, ◌>>=◌, ◌>>◌, type_error}
use nonecorn.Asgi.{
  Address, StreamEvent, RequestEvent, ResponseStart, Receive, Scope, ScopeType, Summary, Config,
}
use nonecorn.Stream.{Output, send, put, access, World, update, attribute}
use nonecorn.Platform.{Platform, can_sendfile}
use nonecorn.Websocket.Wsproto.{Wsproto, WsEvent}
use nonecorn.Websocket.Handshake.{Handshake}
use nonecorn.Websocket.Buffer.{Buffer, blank}

-- ASGIWebsocketState
pub data WsState : Type 0 where
  handshake connected response closed http_closed : WsState

-- `__init__` sets `app_put` to None, and leaves `scope`, `response`, `handshake` and `connection`
-- unset.
pub record WsStream (C : Type 0) : Type 0 where
  pub closed : Bool
  pub scheme : Text
  pub client : Option Address
  pub server : Option Address
  pub has_tls : Bool
  pub state : WsState
  pub stream_id : ℕ
  pub trailers_expected : Bool
  pub scope : Option Scope
  pub response : Option ResponseStart
  pub app_put : Bool
  pub shake : Option Handshake
  pub connection : Option C
  pub buffer : Buffer

unfoldable pub init :
    {C : Type 0} → Config → Bool → Option Address → Option Address → ℕ → Bool → WsStream C
init config ssl client server stream_id has_tls = record {
  closed = false;
  scheme = if ssl then codes "wss" else codes "ws";
  client = client;
  server = server;
  has_tls = has_tls;
  state = WsState.handshake;
  stream_id = stream_id;
  trailers_expected = false;
  scope = none;
  response = none;
  app_put = false;
  shake = none;
  connection = none;
  buffer = blank config.websocket_max_message_size;
}

abbrev pub is_handshake : WsState → Bool
is_handshake WsState.handshake = true
is_handshake _ = false

abbrev pub is_connected : WsState → Bool
is_connected WsState.connected = true
is_connected _ = false

-- `self.state in {HANDSHAKE, RESPONSE}`
abbrev pub is_answering : WsState → Bool
is_answering WsState.handshake = true
is_answering WsState.response = true
is_answering _ = false

-- the property `idle`
abbrev pub is_idle : WsState → Bool
is_idle WsState.closed = true
is_idle WsState.http_closed = true
is_idle _ = false

abbrev key_if : Bool → Text → List Text → List Text
key_if b key keys = if b then key ∷ keys else keys

unfoldable pub scope_of :
    {C : Type 0} → Platform → Config → WsStream C → Handshake → RequestEvent → Scope
unfolding can_sendfile
scope_of env config s shake event =
    let (path, query_string) = partition b'?' event.raw_path in
    let secure = same s.scheme (codes "wss") in
    record {
      type = ScopeType.websocket;
      spec_version = codes "2.3";
      http_version = event.http_version;
      method = event.method;
      scheme = s.scheme;
      path = env.unquote path;
      raw_path = path;
      query_string = query_string;
      root_path = config.root_path;
      headers = event.headers;
      client = s.client;
      server = s.server;
      state = event.state;
      subprotocols = get_or shake.subprotocols [];
      extensions =
          codes "websocket.http.response"
          ∷ codes "websocket.multiframe"
          ∷ codes "websocket.http.response.trailers"
          ∷ key_if (can_sendfile env.loop secure && same event.http_version (codes "1.1"))
              (codes "websocket.http.response.zerocopysend")
              (key_if (secure && s.has_tls) (codes "tls") []);
    }

module _ (ws : Wsproto) {W : Type 0}
    (emit : Output → Action (World (WsStream ws.Connection) W)) where
  abbrev pub Here : Type 0
  Here = World (WsStream ws.Connection) W

  abbrev pub set_state : WsState → Action Here
  set_state st = update (λ s. record s { state = st })

  -- `self.app_put(message)`; calling None is a TypeError
  unfoldable pub put_app : Receive → Action Here
  put_app message w = if w.stream.app_put then emit (put message) w else throw type_error w

  unfoldable pub log_access : Summary → Action Here
  log_access summary = do
    scope ← gets (λ w. w.stream.scope) >>= attribute
    emit (access scope (some summary))

  -- `_send_error_response`
  unfoldable pub send_error_response : ℕ → Action Here
  unfolding log_access
  send_error_response status_code = do
    id ← gets (λ w. w.stream.stream_id)
    emit (
        send (
          StreamEvent.response id
            ((codes "content-length", codes "0") ∷ (codes "connection", codes "close") ∷ [])
            status_code []))
    emit (send (StreamEvent.end_body id []))
    log_access (record { status = status_code; headers = [] })

  sent : Option Bytes → Action Here
  sent none = pass
  sent (some bytes) = do
    id ← gets (λ w. w.stream.stream_id)
    emit (send (StreamEvent.ws_data id bytes false))

  -- `_send_wsproto_event`: what wsproto refuses to send is dropped
  unfoldable pub send_wsproto_event : WsEvent → Action Here
  unfolding sent
  send_wsproto_event event = do
    connection ← gets (λ w. w.stream.connection) >>= attribute
    let (bytes, connection') = ws.send event connection
    update (λ s. record s { connection = some connection' })
    sent bytes

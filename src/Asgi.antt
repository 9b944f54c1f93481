-- ===== src/Asgi.antt =====
-- Data that the parts exchange: protocol/events.py, the messages and scopes of typing.py, the
-- fields of config.Config that the modelled code reads.
-- A message is a constructor for its "type", with a record of its other keys. A key that the code
-- reads by `message.get(key)` may be missing, and is an `Option`.
use nonecorn.Prelude.{ℕ, Bool, Option, List}
use nonecorn.Bytes.{Bytes, Text}

abbrev pub Header : Type 0
Header = Bytes × Bytes

-- A shallow dict of state: names, and handles of the objects stored under them.
abbrev pub ConnectionState : Type 0
ConnectionState = List (Text × ℕ)

abbrev pub Address : Type 0
Address = Text × ℕ

pub record RequestEvent : Type 0 where
  pub headers : List Header
  pub http_version : Text
  pub method : Text
  pub raw_path : Bytes
  pub state : ConnectionState

-- protocol/events.py; each event carries its `stream_id` first
pub data StreamEvent : Type 0 where
  request : ℕ → RequestEvent → StreamEvent
  body : ℕ → Bytes → Bool → StreamEvent
  zero_copy_send : ℕ → Option ℕ → Option ℕ → Option ℕ → StreamEvent
  trailer_headers_send : ℕ → List Header → Bool → StreamEvent
  end_body : ℕ → List Header → StreamEvent
  ws_data : ℕ → Bytes → Bool → StreamEvent
  end_data : ℕ → StreamEvent
  response : ℕ → List Header → ℕ → Text → StreamEvent
  informational_response : ℕ → List Header → ℕ → StreamEvent
  stream_closed : ℕ → StreamEvent

pub record ResponseStart : Type 0 where
  pub status : ℕ
  pub headers : Option (List Header)
  pub trailers : Option Bool
  pub reason : Option Text

pub record ResponseBody : Type 0 where
  pub content : Option Bytes
  pub more_body : Option Bool
  pub flush : Option Bool
  pub headers : Option (List Header)

pub record ResponseZeroCopy : Type 0 where
  pub file : Option ℕ
  pub offset : Option ℕ
  pub count : Option ℕ
  pub more_body : Option Bool
  pub headers : Option (List Header)

pub record ResponsePathSend : Type 0 where
  pub path : Text
  pub more_body : Option Bool

pub record ResponseTrailers : Type 0 where
  pub headers : Option (List Header)
  pub more_trailers : Option Bool

-- `path` of a push, and `text` of a send, may be a value that is no `str`
pub data StrValue : Type 0 where
  str : Text → StrValue
  not_str : StrValue

pub record ResponsePush : Type 0 where
  pub path : StrValue
  pub headers : List Header

pub record WsAccept : Type 0 where
  pub subprotocol : Option Text
  pub headers : Option (List Header)

pub record WsSend : Type 0 where
  pub bytes : Option Bytes
  pub text : StrValue
  pub message_finished : Option Bool

pub record WsClose : Type 0 where
  pub code : Option ℕ
  pub reason : Option Text

-- ASGISendEvent: what the application sends
pub data AppMessage : Type 0 where
  http_start : ResponseStart → AppMessage
  http_push : ResponsePush → AppMessage
  http_early_hint : List Bytes → AppMessage
  http_body : ResponseBody → AppMessage
  http_zerocopysend : ResponseZeroCopy → AppMessage
  http_pathsend : ResponsePathSend → AppMessage
  http_trailers : ResponseTrailers → AppMessage
  ws_accept : WsAccept → AppMessage
  ws_start : ResponseStart → AppMessage
  ws_body : ResponseBody → AppMessage
  ws_zerocopysend : ResponseZeroCopy → AppMessage
  ws_trailers : ResponseTrailers → AppMessage
  ws_send : WsSend → AppMessage
  ws_close : WsClose → AppMessage
  ws_ping ws_pong : Option Bytes → AppMessage
  startup_complete shutdown_complete : AppMessage
  startup_failed shutdown_failed : Option Text → AppMessage
  other : Text → AppMessage

-- ASGIReceiveEvent: what the server puts on the application's queue
pub data Receive : Type 0 where
  http_request : Bytes → Bool → Receive
  http_request_trailers : List Header → Receive
  http_disconnect : Receive
  ws_connect : Receive
  ws_receive : Option Bytes → Option Text → Receive
  ws_disconnect : ℕ → Receive
  ws_ping ws_pong : Bytes → Receive
  lifespan_startup lifespan_shutdown : Receive

pub data ScopeType : Type 0 where
  http websocket lifespan : ScopeType

-- HTTPScope and WebsocketScope. `extensions` lists the keys of that dict; each value is `{}`, but
-- for "tls", whose value is the stream's `tls`. `method` is not read for a websocket.
pub record Scope : Type 0 where
  pub type : ScopeType
  pub spec_version : Text
  pub http_version : Text
  pub method : Text
  pub scheme : Text
  pub path : Text
  pub raw_path : Bytes
  pub query_string : Bytes
  pub root_path : Text
  pub headers : List Header
  pub client : Option Address
  pub server : Option Address
  pub state : ConnectionState
  pub subprotocols : List Text
  pub extensions : List Text

-- ResponseSummary: what `log.access` is told of a response
pub record Summary : Type 0 where
  pub status : ℕ
  pub headers : List Header

pub record Config : Type 0 where
  pub root_path : Text
  pub server_names : List Text
  pub websocket_max_message_size : ℕ
  pub handle_ws_ping : Bool
  pub websocket_ping_interval : Option ℕ

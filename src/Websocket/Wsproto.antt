-- ===== src/Websocket/Wsproto.antt =====
-- The wsproto library, which is no part of the repository, as ws_stream.py calls it: its events, and
-- its connection as a parameter.
use nonecorn.Prelude.{ℕ, Option, List, Bool}
use nonecorn.Bytes.{Bytes, Text}

-- `wsproto.events`; the flag of a message is `message_finished`
pub data WsEvent : Type 0 where
  text_message : Text → Bool → WsEvent
  bytes_message : Bytes → Bool → WsEvent
  ping pong : Bytes → WsEvent
  close_connection : ℕ → Option Text → WsEvent

-- `send` and `receive_data` have none where wsproto raises LocalProtocolError. `events` lists what the generator of
-- that name would yield, and `yielded` is the change of the connection as it yields an event.
-- `split_comma_header` has none where it raises a UnicodeDecodeError, for a value that is not ASCII.
-- `connection` is made for the extensions that the client's offer was matched with.
pub record Wsproto : Type 1 where
  pub Connection : Type 0
  pub connection : Option (List Text) → Connection
  pub send : WsEvent → Connection → Option Bytes × Connection
  pub receive_data : Bytes → Connection → Option Connection
  pub events : Connection → List WsEvent
  pub yielded : WsEvent → Connection → Connection
  pub is_remote_closing : Connection → Bool
  pub response : WsEvent → WsEvent
  pub split_comma_header : Bytes → Option (List Text)
  pub server_extensions_handshake : List Text → Option Bytes
  pub generate_accept_token : Bytes → Bytes
  pub websocket_version : Bytes
  pub normal_closure : ℕ
  pub abnormal_closure : ℕ
  pub internal_error : ℕ
  pub message_too_big : ℕ

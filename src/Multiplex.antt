-- ===== src/Multiplex.antt =====
-- The streams of a connection that has several, as protocol/h2.py and protocol/h3.py keep them:
-- HTTPStream and WSStream with the `stream_send` that they were given.
pub mod Keeps
use nonecorn.Prelude.{ℕ, Option, none, some, List, at_key, set_key}
use nonecorn.Asgi.{AppMessage, Config, StreamEvent}
use nonecorn.Exec.{Action, pass, throw, key_error}
use nonecorn.Platform.{Platform}
use nonecorn.Stream.{Output, World}
use nonecorn.HttpStream.{HttpStream}
use nonecorn.HttpStream.{handle as handle_http}
use nonecorn.HttpStream.AppSend.{app_send as send_http}
use nonecorn.Websocket.Wsproto.{Wsproto}
use nonecorn.Websocket.Stream.{WsStream}
use nonecorn.Websocket.Stream.Handle.{handle as handle_ws}
use nonecorn.Websocket.Stream.AppSend.{app_send as send_ws}
use nonecorn.Http1.Streams.{Stream}

-- what the streams are made with
pub record Makers : Type 1 where
  pub ws : Wsproto
  pub env : Platform
  pub config : Config

-- Where a protocol keeps its streams: under their ids, where they stay for their applications, which
-- hold on to them. `note` records what a stream does besides sending.
pub record Kept (ws : Wsproto) (P : Type 0) : Type 0 where
  pub objects : P → List (ℕ × Stream ws)
  pub put_objects : List (ℕ × Stream ws) → P → P
  pub note : Output → Action P

abbrev pub http_of : {ws : Wsproto} → Option (Stream ws) → HttpStream → HttpStream
http_of (some (Stream.http s)) old = s
http_of _ old = old

abbrev pub ws_of :
    {ws : Wsproto} → Option (Stream ws) → WsStream ws.Connection → WsStream ws.Connection
ws_of (some (Stream.websocket s)) old = s
ws_of _ old = old

module _ (makers : Makers) {P : Type 0} (kept : Kept makers.ws P) where
  open makers use {ws, env, config}

  -- an object, before its method goes on, and after what it called
  abbrev pub store : ℕ → Stream ws → P → P
  store id s p = kept.put_objects (set_key id s (kept.objects p)) p

  module _ (send : StreamEvent → Action P) where
    -- A stream's outputs while one of its methods runs: `send` is the `stream_send` that it was given,
    -- which finds the stream as it is by then.
    unfoldable pub http_emit : ℕ → Output → Action (World HttpStream P)
    http_emit id (Output.send event) w =
        let (r, p) = send event (store id (Stream.http w.stream) w.rest) in
        (r, record { stream = http_of (at_key id (kept.objects p)) w.stream; rest = p })
    http_emit id output w = let (r, p) = kept.note output w.rest in (r, record w { rest = p })

    unfoldable pub ws_emit : ℕ → Output → Action (World (WsStream ws.Connection) P)
    ws_emit id (Output.send event) w =
        let (r, p) = send event (store id (Stream.websocket w.stream) w.rest) in
        (r, record { stream = ws_of (at_key id (kept.objects p)) w.stream; rest = p })
    ws_emit id output w = let (r, p) = kept.note output w.rest in (r, record w { rest = p })

    -- a method of a stream, on the connection
    abbrev pub as_http : ℕ → Action (World HttpStream P) → HttpStream → Action P
    as_http id m s p =
        let (r, w) = m (record { stream = s; rest = p }) in
        (r, store id (Stream.http w.stream) w.rest)

    abbrev pub as_ws :
        ℕ → Action (World (WsStream ws.Connection) P) → WsStream ws.Connection → Action P
    as_ws id m s p =
        let (r, w) = m (record { stream = s; rest = p }) in
        (r, store id (Stream.websocket w.stream) w.rest)

    unfoldable pub handle_by : ℕ → StreamEvent → Option (Stream ws) → Action P
    handle_by id event (some (Stream.http s)) =
        as_http id (handle_http env config (http_emit id) event) s
    handle_by id event (some (Stream.websocket s)) =
        as_ws id (handle_ws ws env config (ws_emit id) event) s
    handle_by id event _ = throw key_error

    -- `handle` of the stream with this id
    unfoldable pub handle_object : ℕ → StreamEvent → Action P
    handle_object id event p = handle_by id event (at_key id (kept.objects p)) p

    unfoldable pub send_by : ℕ → Option AppMessage → Option (Stream ws) → Action P
    send_by id message (some (Stream.http s)) = as_http id (send_http env (http_emit id) message) s
    send_by id message (some (Stream.websocket s)) =
        as_ws id (send_ws ws config (ws_emit id) message) s
    send_by id message _ = pass

    -- `app_send` of the stream with this id, by its application
    unfoldable pub app_send_by : ℕ → Option AppMessage → Action P
    app_send_by id message p = send_by id message (at_key id (kept.objects p)) p

-- ===== src/Http1/Streams.antt =====
-- An HTTP/1 connection with its stream: HTTPStream and WSStream (protocol/http_stream.py and
-- protocol/ws_stream.py) as H11Protocol (protocol/h11.py) makes them, with `stream_send` as the
-- `send` that they are given.
use nonecorn.Prelude.{Option}
use nonecorn.Exec.{Action, pass}
use nonecorn.Asgi.{AppMessage, Config, StreamEvent}
use nonecorn.Stream.{Output, World}
use nonecorn.Platform.{Platform}
use nonecorn.HttpStream.{HttpStream}
use nonecorn.HttpStream.{handle as handle_http}
use nonecorn.HttpStream.AppSend.{app_send as send_http}
use nonecorn.Websocket.Wsproto.{Wsproto}
use nonecorn.Websocket.Stream.{WsStream}
use nonecorn.Websocket.Stream.Handle.{handle as handle_ws}
use nonecorn.Websocket.Stream.AppSend.{app_send as send_ws}
use nonecorn.Http1.H11.{H11}
use nonecorn.Http1.State.{Http1, Settings, Files, record_stream}
use nonecorn.Http1.Send.{stream_send}

-- `self.stream`, or the stream that it was before it was set to None: its application has it still
pub data Stream (ws : Wsproto) : Type 0 where
  absent : Stream ws
  http : HttpStream → Stream ws
  websocket : WsStream ws.Connection → Stream ws

-- what a protocol is made for, and the libraries
pub record Site : Type 1 where
  pub h : H11
  pub ws : Wsproto
  pub env : Platform
  pub config : Config
  pub settings : Settings
  pub files : Files

abbrev pub Connected : Site → Type 0
Connected site = World (Stream site.ws) (Http1 site.h)

module _ (site : Site) where
  open site use {h, ws, env, config, settings, files}

  -- A StreamClosed that a stream sends while it handles one finds it closed, and its `handle`
  -- returns at once.
  unfoldable pub http_emit_closed : Output → Action (World HttpStream (Http1 h))
  http_emit_closed (Output.send event) = stream_send h settings files pass event
  http_emit_closed output = record_stream output

  unfoldable pub close_http : Action (World HttpStream (Http1 h))
  close_http = handle_http env config http_emit_closed (StreamEvent.stream_closed 1)

  unfoldable pub http_emit : Output → Action (World HttpStream (Http1 h))
  http_emit (Output.send event) = stream_send h settings files close_http event
  http_emit output = record_stream output

  unfoldable pub ws_emit_closed : Output → Action (World (WsStream ws.Connection) (Http1 h))
  ws_emit_closed (Output.send event) = stream_send h settings files pass event
  ws_emit_closed output = record_stream output

  unfoldable pub close_ws : Action (World (WsStream ws.Connection) (Http1 h))
  close_ws = handle_ws ws env config ws_emit_closed (StreamEvent.stream_closed 1)

  unfoldable pub ws_emit : Output → Action (World (WsStream ws.Connection) (Http1 h))
  ws_emit (Output.send event) = stream_send h settings files close_ws event
  ws_emit output = record_stream output

  -- a method of the stream, on the connection
  abbrev pub as_http : Action (World HttpStream (Http1 h)) → HttpStream → Action (Connected site)
  as_http m s w =
      let (r, w') = m (record { stream = s; rest = w.rest }) in
      (r, record { stream = Stream.http w'.stream; rest = w'.rest })

  abbrev pub as_ws :
      Action (World (WsStream ws.Connection) (Http1 h))
      → WsStream ws.Connection
      → Action (Connected site)
  as_ws m s w =
      let (r, w') = m (record { stream = s; rest = w.rest }) in
      (r, record { stream = Stream.websocket w'.stream; rest = w'.rest })

  unfoldable pub handle_by : Stream ws → StreamEvent → Action (Connected site)
  handle_by Stream.absent event = pass
  handle_by (Stream.http s) event = as_http (handle_http env config http_emit event) s
  handle_by (Stream.websocket s) event = as_ws (handle_ws ws env config ws_emit event) s

  -- `self.stream.handle(event)`
  unfoldable pub handle_stream : StreamEvent → Action (Connected site)
  handle_stream event w = handle_by w.stream event w

  unfoldable pub send_by : Stream ws → Option AppMessage → Action (Connected site)
  send_by Stream.absent message = pass
  send_by (Stream.http s) message = as_http (send_http env http_emit message) s
  send_by (Stream.websocket s) message = as_ws (send_ws ws config ws_emit message) s

  -- the stream's `app_send`, by its application
  unfoldable pub app_send : Option AppMessage → Action (Connected site)
  app_send message w = send_by w.stream message w

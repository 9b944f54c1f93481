-- ===== src/Http1/Steady/Streams.antt =====
-- A stream that handles an event keeps a steady predicate of its protocol (protocol/h11.py).
use nonecorn.Exec.Keeps.{Keeps-pass}
use nonecorn.Stream.{Output}
use nonecorn.Asgi.{StreamEvent}
use nonecorn.HttpStream.Keeps.{handle-Keeps as http-handle-Keeps}
use nonecorn.Websocket.Stream.Keeps.{handle-Keeps as ws-handle-Keeps}
use nonecorn.Http1.Streams.{
  Site, Stream, http_emit, http_emit_closed, close_http, ws_emit, ws_emit_closed, close_ws,
  handle_by, handle_stream,
}
use nonecorn.Http1.Steady.{Steady}
use nonecorn.Http1.State.{Http1}
use nonecorn.Http1.Steady.Closing.{Kept, record_stream-Keeps}
use nonecorn.Http1.Steady.Sending.{stream_send-Keeps}

module _ (site : Site) (P : Http1 site.h → Type 0) (steady : Steady site.h P) where
  open site use {h, ws, env, config, settings, files}

  http_emit_closed-Keeps : (output : Output) → Kept h P (http_emit_closed site output)
  unfolding http_emit_closed
  http_emit_closed-Keeps (Output.send event) =
      stream_send-Keeps h P steady settings files _ Keeps-pass event
  http_emit_closed-Keeps _ = record_stream-Keeps h P steady.sending _

  close_http-Keeps : Kept h P (close_http site)
  unfolding close_http
  close_http-Keeps = http-handle-Keeps P (http_emit_closed site) http_emit_closed-Keeps env config _

  pub http_emit-Keeps : (output : Output) → Kept h P (http_emit site output)
  unfolding http_emit
  http_emit-Keeps (Output.send event) =
      stream_send-Keeps h P steady settings files (close_http site) close_http-Keeps event
  http_emit-Keeps _ = record_stream-Keeps h P steady.sending _

  ws_emit_closed-Keeps : (output : Output) → Kept h P (ws_emit_closed site output)
  unfolding ws_emit_closed
  ws_emit_closed-Keeps (Output.send event) =
      stream_send-Keeps h P steady settings files _ Keeps-pass event
  ws_emit_closed-Keeps _ = record_stream-Keeps h P steady.sending _

  close_ws-Keeps : Kept h P (close_ws site)
  unfolding close_ws
  close_ws-Keeps = ws-handle-Keeps ws P (ws_emit_closed site) ws_emit_closed-Keeps env config _

  pub ws_emit-Keeps : (output : Output) → Kept h P (ws_emit site output)
  unfolding ws_emit
  ws_emit-Keeps (Output.send event) =
      stream_send-Keeps h P steady settings files (close_ws site) close_ws-Keeps event
  ws_emit-Keeps _ = record_stream-Keeps h P steady.sending _

  handle_by-Keeps : (s : Stream ws) (event : StreamEvent) → Kept h P (handle_by site s event)
  unfolding handle_by
  handle_by-Keeps Stream.absent event = Keeps-pass
  handle_by-Keeps (Stream.http s) event = record {
    at = λ w r. record {
      rest =
          (((http-handle-Keeps P (http_emit site) http_emit-Keeps env config event).at
            (record { stream = s; rest = w.rest }) (record { rest = r.rest })).rest);
    };
  }
  handle_by-Keeps (Stream.websocket s) event = record {
    at = λ w r. record {
      rest =
          (((ws-handle-Keeps ws P (ws_emit site) ws_emit-Keeps env config event).at
            (record { stream = s; rest = w.rest }) (record { rest = r.rest })).rest);
    };
  }

  pub handle_stream-Keeps : (event : StreamEvent) → Kept h P (handle_stream site event)
  unfolding handle_stream
  handle_stream-Keeps event = record { at = λ w r. (handle_by-Keeps w.stream event).at w r }

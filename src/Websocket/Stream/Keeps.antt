-- ===== src/Websocket/Stream/Keeps.antt =====
-- What the surroundings of a websocket stream keep at each output they keep over its `handle`.
use nonecorn.Prelude.{◌∷◌, [], List, Bool, ℕ, Option, some, none}
use nonecorn.Bytes.{Bytes}
use nonecorn.Exec.{Exec, Action, Result, ok, raise, frame_too_large, type_error}
use nonecorn.Exec.Keeps.{
  Keeps, Keeps-test, Keeps-choose, Keeps-throw, Keeps-pass, Keeps-bind, Keeps-when,
}
use nonecorn.Asgi.{Config, Receive, RequestEvent, StreamEvent, Summary}
use nonecorn.Stream.{Output, World}
use nonecorn.Stream.Keeps.{Around, stream_rules}
use nonecorn.Platform.{Platform}
use nonecorn.Websocket.Buffer.{Message}
use nonecorn.Websocket.Wsproto.{Wsproto, WsEvent}
use nonecorn.Websocket.Stream.{
  WsStream, put_app, log_access, send_error_response, send_wsproto_event, sent,
}
use nonecorn.Websocket.Stream.Handle.{
  extend_buffer, deliver, after_extend, handle_message, handle_ws_event, yield_event,
  handle_ws_events, handle_data, refuse, handle_content, start_app, handle_request, handle_closed,
  handle_open, handle,
}

module _ (ws : Wsproto) {W : Type 0} (P : W → Type 0)
    (emit : Output → Action (World (WsStream ws.Connection) W))
    (emits : (o : Output) → Keeps (Around P) (emit o)) where
  abbrev pub Kept : {A : Type 0} → Exec (World (WsStream ws.Connection) W) A → Type 0
  Kept m = Keeps (Around P) m

  put_app-Keeps : (message : Receive) → Kept (put_app ws emit message)
  unfolding put_app
  put_app-Keeps message =
      Keeps-test (λ w. w.stream.app_put) _ _ (emits (Output.put message)) (Keeps-throw type_error)

  pub log_access-Keeps : (summary : Summary) → Kept (log_access ws emit summary)
  unfolding log_access
  log_access-Keeps summary = search (stream_rules, emits)

  pub send_error_response-Keeps : (status : ℕ) → Kept (send_error_response ws emit status)
  unfolding send_error_response
  send_error_response-Keeps status = search (stream_rules, emits, log_access-Keeps)

  sent-Keeps : (bytes : Option Bytes) → Kept (sent ws emit bytes)
  unfolding sent
  sent-Keeps none = search stream_rules
  sent-Keeps (some bytes) = search (stream_rules, emits)

  pub send_wsproto_event-Keeps : (event : WsEvent) → Kept (send_wsproto_event ws emit event)
  unfolding send_wsproto_event
  send_wsproto_event-Keeps event = search (stream_rules, sent-Keeps) depth 12

  module _ (env : Platform) (config : Config) where
    extend_buffer-Keeps : (message : Message) → Kept (extend_buffer ws env config emit message)
    unfolding extend_buffer
    extend_buffer-Keeps message = record { at = λ w h. record { rest = h.rest } }

    deliver-Keeps : (finished : Bool) → Kept (deliver ws env config emit finished)
    unfolding deliver
    deliver-Keeps finished = search (stream_rules, put_app-Keeps) depth 12

    after_extend-Keeps :
        (finished : Bool) (r : Result (Unit {0}))
        → Kept (after_extend ws env config emit finished r)
    unfolding after_extend
    after_extend-Keeps finished (ok x) = search (stream_rules, deliver-Keeps)
    after_extend-Keeps finished (raise frame_too_large) =
        search (stream_rules, send_wsproto_event-Keeps)
    after_extend-Keeps finished (raise e) = Keeps-throw e

    handle_message-Keeps :
        (message : Message) (finished : Bool)
        → Kept (handle_message ws env config emit message finished)
    unfolding handle_message
    handle_message-Keeps message finished = record {
      at = λ w h.
          (after_extend-Keeps finished (extend_buffer ws env config emit message w).0).at _
            ((extend_buffer-Keeps message).at w h);
    }

    handle_ws_event-Keeps : (event : WsEvent) → Kept (handle_ws_event ws env config emit event)
    unfolding handle_ws_event
    handle_ws_event-Keeps (WsEvent.text_message t finished) = handle_message-Keeps _ _
    handle_ws_event-Keeps (WsEvent.bytes_message t finished) = handle_message-Keeps _ _
    handle_ws_event-Keeps (WsEvent.ping payload) =
        search (stream_rules, send_wsproto_event-Keeps, put_app-Keeps)
    handle_ws_event-Keeps (WsEvent.pong payload) = search (stream_rules, put_app-Keeps)
    handle_ws_event-Keeps (WsEvent.close_connection code reason) =
        search (stream_rules, send_wsproto_event-Keeps, emits) depth 14

    yield_event-Keeps : (event : WsEvent) → Kept (yield_event ws env config emit event)
    unfolding yield_event
    yield_event-Keeps event = search stream_rules depth 12

    handle_ws_events-Keeps :
        (events : List WsEvent) → Kept (handle_ws_events ws env config emit events)
    unfolding handle_ws_events
    handle_ws_events-Keeps [] = Keeps-pass
    handle_ws_events-Keeps (event ∷ events) = Keeps-bind _ _ (yield_event-Keeps event) (λ _.
        Keeps-bind _ _ (handle_ws_event-Keeps event)
          (λ more. Keeps-when more _ (handle_ws_events-Keeps events)))

    handle_data-Keeps : (bytes : Bytes) → Kept (handle_data ws env config emit bytes)
    unfolding handle_data
    handle_data-Keeps bytes = search (stream_rules, handle_ws_events-Keeps) depth 12

    refuse-Keeps : (status : ℕ) → Kept (refuse ws env config emit status)
    unfolding refuse
    refuse-Keeps status = search (stream_rules, send_error_response-Keeps)

    handle_content-Keeps : (bytes : Bytes) → Kept (handle_content ws env config emit bytes)
    unfolding handle_content
    handle_content-Keeps bytes = search (stream_rules, handle_data-Keeps, refuse-Keeps) depth 12

    start_app-Keeps : Kept (start_app ws env config emit)
    unfolding start_app
    start_app-Keeps = search (stream_rules, emits, put_app-Keeps) depth 14

    handle_request-Keeps : (event : RequestEvent) → Kept (handle_request ws env config emit event)
    unfolding handle_request
    handle_request-Keeps event = search (stream_rules, refuse-Keeps, start_app-Keeps) depth 20

    handle_closed-Keeps : Kept (handle_closed ws env config emit)
    unfolding handle_closed
    handle_closed-Keeps = search (stream_rules, put_app-Keeps) depth 12

    handle_open-Keeps : (event : StreamEvent) → Kept (handle_open ws env config emit event)
    unfolding handle_open
    handle_open-Keeps (StreamEvent.request id event) = handle_request-Keeps event
    handle_open-Keeps (StreamEvent.body id bytes flush) = handle_content-Keeps bytes
    handle_open-Keeps (StreamEvent.ws_data id bytes flush) = handle_content-Keeps bytes
    handle_open-Keeps (StreamEvent.stream_closed id) = handle_closed-Keeps
    handle_open-Keeps _ = Keeps-pass

    pub handle-Keeps : (event : StreamEvent) → Kept (handle ws env config emit event)
    unfolding handle
    handle-Keeps event =
        Keeps-choose (λ w. w.stream.closed) _ _ Keeps-pass (handle_open-Keeps event)

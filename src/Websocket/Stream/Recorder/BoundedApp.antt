-- ===== src/Websocket/Stream/Recorder/BoundedApp.antt =====
-- The bound on what the application is handed, over the application's own messages and whole runs.
use nonecorn.Prelude.{
  false, ◌≡◌, ◌∷◌, true, some, refl, none, get_or, all, [], List, ℕ, arith, Option, Bool,
}
use nonecorn.Exec.{◌>>◌, when, pass, Action, Result}
use nonecorn.Asgi.{
  StreamEvent, ResponseZeroCopy, ResponseBody, AppMessage, Address, Config, ResponseStart,
  ResponseTrailers, WsAccept, WsSend, WsClose,
}
use nonecorn.Stream.{update, send, record_output}
use nonecorn.Websocket.Buffer.Laws.{IsCounted}
use nonecorn.Websocket.Wsproto.{Wsproto}
use nonecorn.Websocket.Stream.{
  is_connected, is_answering, is_handshake, WsEvent, WsState, init, Platform, send_error_response,
  send_wsproto_event, log_access,
}
use nonecorn.Websocket.Stream.AppSend.{
  dispatch, send_rejection_zerocopy, send_rejection, send_ping, require, app_send, app_message,
  app_finished, accept_socket, send_rejection_trailer, close_socket, send_message, start_rejection,
  end_rejection,
}
use nonecorn.Websocket.Stream.Recorder.{Recorded, Call, app, protocol, ping_round, call, run}
use nonecorn.Websocket.Stream.Recorder.Bounded.{
  handle-IsBounded, fits, continue-IsBounded, if-IsBounded, attribute-IsBounded, send-IsBounded,
  IsBounded,
}

module _ (ws : Wsproto) (config : Config) (max : ℕ) where
  abbrev Keeps : (Recorded ws → Result (Unit {0}) × Recorded ws) → Type 0
  Keeps m = (w : Recorded ws) → IsBounded ws max w → IsBounded ws max (m w).1

  accept-IsBounded : (message : WsAccept) → Keeps (accept_socket ws config record_output message)
  unfolding accept_socket log_access
  accept-IsBounded message w h = ground arith

  start_rejection-IsBounded :
      (response : ResponseStart) → Keeps (start_rejection ws config record_output response)
  unfolding start_rejection
  start_rejection-IsBounded response w h = ground arith

  end_rejection-IsBounded :
      (response : ResponseStart) (more : Option Bool)
      → Keeps (end_rejection ws config record_output response more)
  unfolding end_rejection log_access
  end_rejection-IsBounded response more w h = ground arith

  trailer-IsBounded :
      (message : ResponseTrailers) → Keeps (send_rejection_trailer ws config record_output message)
  unfolding send_rejection_trailer log_access
  trailer-IsBounded message w h = ground arith

  close-IsBounded : (message : WsClose) → Keeps (close_socket ws config record_output message)
  unfolding close_socket send_error_response send_wsproto_event
  close-IsBounded message w h = ground arith

  send_message-IsBounded : (message : WsSend) → Keeps (send_message ws config record_output message)
  unfolding send_message send_wsproto_event
  send_message-IsBounded message w h = ground arith

  finished-IsBounded : Keeps (app_finished ws config record_output)
  unfolding app_finished send_error_response send_wsproto_event
  finished-IsBounded w h = ground arith

  emit_then-IsBounded :
      (b : Bool) (event : StreamEvent) (m : Action (Recorded ws))
      → Keeps m
      → Keeps (when b (record_output (send event)) >> m)
  emit_then-IsBounded true event m k w h =
      k (record w { rest = send event ∷ w.rest })
        (record { counted = h.counted; limit = h.limit; fitting = h.fitting })
  emit_then-IsBounded false event m k w h = k w h

  rejection-IsBounded :
      (message : ResponseBody) → Keeps (send_rejection ws config record_output message)
  unfolding send_rejection
  rejection-IsBounded message w h = attribute-IsBounded ws max w.stream.response _ w h (λ response.
      let h' = start_rejection-IsBounded response w h in
      let (r, w') = start_rejection ws config record_output response w in
      continue-IsBounded ws max r _ w' h' (λ _.
        emit_then-IsBounded _ _ (end_rejection ws config record_output response message.more_body)
          (end_rejection-IsBounded response message.more_body) w' h'))

  zerocopy-IsBounded :
      (message : ResponseZeroCopy) → Keeps (send_rejection_zerocopy ws config record_output message)
  unfolding send_rejection_zerocopy
  zerocopy-IsBounded message w h = attribute-IsBounded ws max w.stream.response _ w h (λ response.
      let h' = start_rejection-IsBounded response w h in
      let (r, w') = start_rejection ws config record_output response w in
      continue-IsBounded ws max r _ w' h' (λ _.
        emit_then-IsBounded _ _ (end_rejection ws config record_output response message.more_body)
          (end_rejection-IsBounded response message.more_body) w' h'))

  require-IsBounded :
      (test : WsState → Bool) (m : Action (Recorded ws))
      → Keeps m
      → Keeps (require ws config record_output test m)
  unfolding require
  require-IsBounded test m k w h = ground (arith, k w h)

  message-IsBounded : (message : AppMessage) → Keeps (app_message ws config record_output message)
  unfolding app_message
  message-IsBounded (AppMessage.ws_accept m) w h =
      require-IsBounded is_handshake (accept_socket ws config record_output m) (accept-IsBounded m)
        w h
  message-IsBounded (AppMessage.ws_start m) w h =
      require-IsBounded is_handshake
        (update (λ s. record s { response = some m; trailers_expected = get_or m.trailers false }))
        (λ w h. record { counted = h.counted; limit = h.limit; fitting = h.fitting }) w h
  message-IsBounded (AppMessage.ws_body m) w h =
      require-IsBounded is_answering (send_rejection ws config record_output m)
        (rejection-IsBounded m) w h
  message-IsBounded (AppMessage.ws_zerocopysend m) w h =
      require-IsBounded is_answering (send_rejection_zerocopy ws config record_output m)
        (zerocopy-IsBounded m) w h
  message-IsBounded (AppMessage.ws_trailers m) w h =
      require-IsBounded is_answering (send_rejection_trailer ws config record_output m)
        (trailer-IsBounded m) w h
  message-IsBounded (AppMessage.ws_send m) w h =
      require-IsBounded is_connected (send_message ws config record_output m)
        (send_message-IsBounded m) w h
  message-IsBounded (AppMessage.ws_ping m) w h =
      require-IsBounded is_connected
        (send_wsproto_event ws record_output (WsEvent.ping (get_or m [])))
        (λ w. send-IsBounded ws max w (WsEvent.ping (get_or m []))) w h
  message-IsBounded (AppMessage.ws_pong m) w h =
      require-IsBounded is_connected
        (send_wsproto_event ws record_output (WsEvent.pong (get_or m [])))
        (λ w. send-IsBounded ws max w (WsEvent.pong (get_or m []))) w h
  message-IsBounded (AppMessage.ws_close m) w h = close-IsBounded m w h
  message-IsBounded _ w h = h

  app_send-IsBounded :
      (message : Option AppMessage) → Keeps (app_send ws config record_output message)
  unfolding app_send dispatch
  app_send-IsBounded none w h =
      if-IsBounded ws max w.stream.closed pass (app_finished ws config record_output) w h
        (finished-IsBounded w h)
  app_send-IsBounded (some m) w h =
      if-IsBounded ws max w.stream.closed pass (app_message ws config record_output m) w h
        (message-IsBounded m w h)

  ping-IsBounded :
      (w : Recorded ws)
      → IsBounded ws max w
      → IsBounded ws max (send_ping ws config record_output w).1
  unfolding send_ping
  ping-IsBounded w h = ground (arith, send-IsBounded ws max w (WsEvent.ping []))

module _ (ws : Wsproto) (env : Platform) (config : Config) (max : ℕ) where
  call-IsBounded :
      (c : Call) (w : Recorded ws) → IsBounded ws max w → IsBounded ws max (call ws env config c w)
  unfolding call
  call-IsBounded (app m) w h = app_send-IsBounded ws config max m w h
  call-IsBounded (protocol event) w h = handle-IsBounded ws max env config w event h
  call-IsBounded ping_round w h = ping-IsBounded ws config max w h

  run-IsBounded :
      (cs : List Call) (w : Recorded ws)
      → IsBounded ws max w
      → IsBounded ws max (run ws env config cs w)
  unfolding run
  run-IsBounded [] w h = h
  run-IsBounded (c ∷ cs) w h = run-IsBounded cs (call ws env config c w) (call-IsBounded c w h)

-- From a new websocket stream, whatever sequence of events of the protocol, messages of the
-- application and rounds of pings it is called with, and whatever wsproto reports, no message with
-- more than `websocket_max_message_size` bytes or characters is put on the application's queue, and
-- the buffer's count is the length of what it holds.
pub run_bounded :
    (ws : Wsproto) (env : Platform) (config : Config) (ssl : Bool) (client server : Option Address)
    (id : ℕ) (has_tls : Bool) (cs : List Call)
    → let w =
        run ws env config cs
          (record { stream = init config ssl client server id has_tls; rest = [] }) in
      (all (fits config.websocket_max_message_size) w.rest ≡ true) × IsCounted w.stream.buffer
unfolding init
run_bounded ws env config ssl client server id has_tls cs =
    let h =
      run-IsBounded ws env config config.websocket_max_message_size cs
        (record { stream = init config ssl client server id has_tls; rest = [] })
        (record { counted = refl; limit = refl; fitting = refl }) in
    (h.fitting, h.counted)

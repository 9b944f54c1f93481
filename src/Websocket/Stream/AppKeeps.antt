-- ===== src/Websocket/Stream/AppKeeps.antt =====
-- What the surroundings of a websocket stream keep at each output they keep over its `app_send`.
use nonecorn.Prelude.{[], get_or, false, Option, some, none, Bool}
use nonecorn.Exec.{pass, gets, lift, ◌>>=◌, ◌>>◌, Action, key_error, unexpected_message}
use nonecorn.Exec.Keeps.{
  Keeps-when_test, Keeps, Keeps-test, Keeps-throw, Keeps-pass, Keeps-pure, Keeps-choose,
}
use nonecorn.Asgi.{
  StreamEvent, AppMessage, Config, ResponseStart, ResponseBody, ResponseZeroCopy, ResponseTrailers,
  WsAccept, WsClose, WsSend,
}
use nonecorn.Stream.Keeps.{Keeps-update, Around, stream_rules}
use nonecorn.Utils.Headers.{build_and_validate_headers}
use nonecorn.Stream.{send, update, Output, World}
use nonecorn.Websocket.Wsproto.{Wsproto, WsEvent}
use nonecorn.Websocket.Stream.{
  set_state, send_error_response, send_wsproto_event, WsStream, WsState, Here, is_handshake,
}
use nonecorn.Websocket.Stream.AppSend.{
  key, require, accept_socket, start_rejection, end_rejection, send_rejection,
  send_rejection_zerocopy, send_rejection_trailer, send_message, close_socket, app_message,
  app_finished, dispatch, app_send,
}
use nonecorn.Websocket.Stream.Keeps.{
  log_access-Keeps, send_error_response-Keeps, send_wsproto_event-Keeps,
}

key-Keeps : {A S : Type 0} {P : S → Type 0} (o : Option A) → Keeps P (key o)
key-Keeps none = Keeps-throw key_error
key-Keeps (some a) = Keeps-pure a

module _ (ws : Wsproto) (config : Config) {W : Type 0} (P : W → Type 0)
    (emit : Output → Action (World (WsStream ws.Connection) W))
    (emits : (o : Output) → Keeps (Around P) (emit o)) where
  require-Keeps :
      (test : WsState → Bool) (body : Action (Here ws emit))
      → Keeps (Around P) body
      → Keeps (Around P) (require ws config emit test body)
  unfolding require
  require-Keeps test body keeps =
      Keeps-test (λ w. test w.stream.state) body _ keeps (Keeps-throw unexpected_message)

  accept_socket-Keeps :
      (message : WsAccept) → Keeps (Around P) (accept_socket ws config emit message)
  unfolding accept_socket
  accept_socket-Keeps message =
      search (stream_rules, emits, log_access-Keeps ws P emit emits) depth 24

  abbrev opening : ResponseStart → Action (Here ws emit)
  opening response = do
    given ← key response.headers
    headers ← lift (build_and_validate_headers given)
    id ← gets (λ w. w.stream.stream_id)
    emit (send (StreamEvent.response id headers response.status (get_or response.reason [])))
    set_state ws emit WsState.response

  opening-Keeps : (response : ResponseStart) → Keeps (Around P) (opening response)
  opening-Keeps response = search (stream_rules, key-Keeps, emits) depth 20

  start_rejection-Keeps :
      (response : ResponseStart) → Keeps (Around P) (start_rejection ws config emit response)
  unfolding start_rejection
  start_rejection-Keeps response =
      Keeps-when_test (λ w. is_handshake w.stream.state) (opening response) (opening-Keeps response)

  end_rejection-Keeps :
      (response : ResponseStart) (more : Option Bool)
      → Keeps (Around P) (end_rejection ws config emit response more)
  unfolding end_rejection
  end_rejection-Keeps response more =
      search (stream_rules, emits, log_access-Keeps ws P emit emits) depth 20

  send_rejection-Keeps :
      (message : ResponseBody) → Keeps (Around P) (send_rejection ws config emit message)
  unfolding send_rejection
  send_rejection-Keeps message =
      search (stream_rules, emits, start_rejection-Keeps, end_rejection-Keeps) depth 20

  send_rejection_zerocopy-Keeps :
      (message : ResponseZeroCopy)
      → Keeps (Around P) (send_rejection_zerocopy ws config emit message)
  unfolding send_rejection_zerocopy
  send_rejection_zerocopy-Keeps message =
      search (stream_rules, emits, start_rejection-Keeps, end_rejection-Keeps) depth 20

  send_rejection_trailer-Keeps :
      (message : ResponseTrailers)
      → Keeps (Around P) (send_rejection_trailer ws config emit message)
  unfolding send_rejection_trailer
  send_rejection_trailer-Keeps message =
      search (stream_rules, emits, log_access-Keeps ws P emit emits) depth 24

  send_message-Keeps : (message : WsSend) → Keeps (Around P) (send_message ws config emit message)
  unfolding send_message
  send_message-Keeps message =
      search (stream_rules, send_wsproto_event-Keeps ws P emit emits) depth 12

  abbrev refusing : Action (Here ws emit)
  refusing = do set_state ws emit WsState.http_closed; send_error_response ws emit 403

  refusing-Keeps : Keeps (Around P) refusing
  refusing-Keeps = search (stream_rules, send_error_response-Keeps ws P emit emits) depth 12

  abbrev closing : WsClose → Action (Here ws emit)
  closing message = do
    set_state ws emit WsState.closed
    send_wsproto_event ws emit
        (WsEvent.close_connection (get_or message.code ws.normal_closure) message.reason)
    id ← gets (λ w. w.stream.stream_id)
    emit (send (StreamEvent.end_data id))

  closing-Keeps : (message : WsClose) → Keeps (Around P) (closing message)
  closing-Keeps message =
      search (stream_rules, emits, send_wsproto_event-Keeps ws P emit emits) depth 16

  close_socket-Keeps : (message : WsClose) → Keeps (Around P) (close_socket ws config emit message)
  unfolding close_socket
  close_socket-Keeps message =
      Keeps-test (λ w. is_handshake w.stream.state) refusing (closing message) refusing-Keeps
        (closing-Keeps message)

  app_message-Keeps : (message : AppMessage) → Keeps (Around P) (app_message ws config emit message)
  unfolding app_message
  app_message-Keeps (AppMessage.ws_accept message) = require-Keeps _ _ (accept_socket-Keeps message)
  app_message-Keeps (AppMessage.ws_start start) =
      require-Keeps is_handshake
        (update (λ s. record s {
          response = some start;
          trailers_expected = get_or start.trailers false;
        }))
        (Keeps-update _)
  app_message-Keeps (AppMessage.ws_body message) = require-Keeps _ _ (send_rejection-Keeps message)
  app_message-Keeps (AppMessage.ws_zerocopysend message) =
      require-Keeps _ _ (send_rejection_zerocopy-Keeps message)
  app_message-Keeps (AppMessage.ws_trailers message) =
      require-Keeps _ _ (send_rejection_trailer-Keeps message)
  app_message-Keeps (AppMessage.ws_send message) = require-Keeps _ _ (send_message-Keeps message)
  app_message-Keeps (AppMessage.ws_close message) = close_socket-Keeps message
  app_message-Keeps (AppMessage.ws_ping payload) =
      require-Keeps _ _ (send_wsproto_event-Keeps ws P emit emits _)
  app_message-Keeps (AppMessage.ws_pong payload) =
      require-Keeps _ _ (send_wsproto_event-Keeps ws P emit emits _)
  app_message-Keeps _ = Keeps-throw unexpected_message

  app_finished-Keeps : Keeps (Around P) (app_finished ws config emit)
  unfolding app_finished
  app_finished-Keeps =
      search
        (
          stream_rules,
          emits,
          send_error_response-Keeps ws P emit emits,
          log_access-Keeps ws P emit emits,
          send_wsproto_event-Keeps ws P emit emits,
        )
        depth 24

  dispatch-Keeps :
      (message : Option AppMessage) → Keeps (Around P) (dispatch ws config emit message)
  unfolding dispatch
  dispatch-Keeps none = app_finished-Keeps
  dispatch-Keeps (some message) = app_message-Keeps message

  pub app_send-Keeps :
      (message : Option AppMessage) → Keeps (Around P) (app_send ws config emit message)
  unfolding app_send
  app_send-Keeps message =
      Keeps-choose (λ w. w.stream.closed) pass (dispatch ws config emit message) Keeps-pass
        (dispatch-Keeps message)

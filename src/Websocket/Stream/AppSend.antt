-- ===== src/Websocket/Stream/AppSend.antt =====
-- WSStream.app_send and the methods that it calls: what the stream makes of the application's
-- messages. The tests of the chain of `elif`s on the state are `require`.
use nonecorn.Prelude.{
  ◌==◌, ◌&&◌, true, some, not, none, is_some, if◌then◌else◌, get_or, false, [], Option, Bool,
}
use nonecorn.Bytes.{codes, same}
use nonecorn.Exec.{
  pure, Exec, Action, Result, ok, raise, pass, throw, gets, lift, when, ◌>>=◌, ◌>>◌,
  unexpected_message, type_error, key_error,
}
use nonecorn.Asgi.{
  StreamEvent, ResponseStart, ResponseBody, ResponseZeroCopy, ResponseTrailers, AppMessage,
  StrValue, WsAccept, WsSend, WsClose, Summary, Config,
}
use nonecorn.Stream.{Output, send, spawn_pings, World, update, attribute}
use nonecorn.Utils.Headers.{suppress_body, build_and_validate_headers}
use nonecorn.Websocket.Wsproto.{Wsproto, WsEvent}
use nonecorn.Websocket.Handshake.{accept}
use nonecorn.Websocket.Stream.{
  WsStream, WsState, Here, is_handshake, is_connected, is_answering, set_state, log_access,
  send_error_response, send_wsproto_event,
}

-- `self.response["headers"]`
abbrev pub key : {A S : Type 0} → Option A → Exec S A
key none = throw key_error
key (some a) = pure a

abbrev summary_of : ResponseStart → Summary
summary_of start = record { status = start.status; headers = get_or start.headers [] }

module _ (ws : Wsproto) (config : Config) {W : Type 0}
    (emit : Output → Action (World (WsStream ws.Connection) W)) where
  unfoldable pub require : (WsState → Bool) → Action (Here ws emit) → Action (Here ws emit)
  require test body w = if test w.stream.state then body w else throw unexpected_message w

  abbrev response_now : Exec (Here ws emit) ResponseStart
  response_now = gets (λ w. w.stream.response) >>= attribute

  -- `_accept`: the state is CONNECTED before the handshake may raise
  unfoldable pub accept_socket : WsAccept → Action (Here ws emit)
  accept_socket message = do
    set_state ws emit WsState.connected
    shake ← gets (λ w. w.stream.shake) >>= attribute
    (status_code, headers) ← lift (accept ws shake message.subprotocol (get_or message.headers []))
    update (λ s. record s {
      shake = some (record shake { accepted = true });
      connection = some (ws.connection shake.extensions);
    })
    id ← gets (λ w. w.stream.stream_id)
    emit (
        send (
          StreamEvent.response id headers status_code
            (if status_code == 101 then codes "Switching Protocols" else [])))
    log_access ws emit (record { status = status_code; headers = [] })
    when (is_some config.websocket_ping_interval) (emit spawn_pings)

  -- The start of a rejection goes out with the first message of its body.
  unfoldable pub start_rejection : ResponseStart → Action (Here ws emit)
  start_rejection response w =
      when (is_handshake w.stream.state)
        (do
          given ← key response.headers
          headers ← lift (build_and_validate_headers given)
          id ← gets (λ w. w.stream.stream_id)
          emit (send (StreamEvent.response id headers response.status (get_or response.reason [])))
          set_state ws emit WsState.response)
        w

  unfoldable pub end_rejection : ResponseStart → Option Bool → Action (Here ws emit)
  end_rejection response more_body = do
    s ← gets (λ w. w.stream)
    when (not (get_or more_body false) && not s.trailers_expected) (do
      set_state ws emit WsState.http_closed
      emit (send (StreamEvent.end_body s.stream_id []))
      log_access ws emit (summary_of response))

  -- `_send_rejection`
  unfoldable pub send_rejection : ResponseBody → Action (Here ws emit)
  send_rejection message = do
    response ← response_now
    let hidden = suppress_body (codes "GET") response.status
    start_rejection response
    id ← gets (λ w. w.stream.stream_id)
    when (not hidden) (emit (send (StreamEvent.body id (get_or message.content []) false)))
    end_rejection response message.more_body

  -- `_send_rejection_zerocopy`
  unfoldable pub send_rejection_zerocopy : ResponseZeroCopy → Action (Here ws emit)
  send_rejection_zerocopy message = do
    response ← response_now
    let hidden = suppress_body (codes "GET") response.status
    start_rejection response
    id ← gets (λ w. w.stream.stream_id)
    when (not hidden)
        (emit (send (StreamEvent.zero_copy_send id message.file message.offset message.count)))
    end_rejection response message.more_body

  -- `_send_rejection_trailer`
  unfoldable pub send_rejection_trailer : ResponseTrailers → Action (Here ws emit)
  send_rejection_trailer message = do
    let more_trailers = get_or message.more_trailers false
    id ← gets (λ w. w.stream.stream_id)
    emit
        (send (StreamEvent.trailer_headers_send id (get_or message.headers []) (not more_trailers)))
    when (not more_trailers) (do
      set_state ws emit WsState.http_closed
      scope ← gets (λ w. w.stream.scope) >>= attribute
      when (same scope.http_version (codes "2")) (emit (send (StreamEvent.end_body id [])))
      response ← response_now
      log_access ws emit (summary_of response))

  -- the event that a "websocket.send" stands for
  abbrev message_event : WsSend → Result WsEvent
  message_event message = elim message.bytes [
    | some bytes ↦ ok (WsEvent.bytes_message bytes (get_or message.message_finished true))
    | none ↦ elim message.text [
      | StrValue.not_str ↦ raise type_error
      | StrValue.str text ↦ ok (WsEvent.text_message text (get_or message.message_finished true))
    ]
  ]

  unfoldable pub send_message : WsSend → Action (Here ws emit)
  send_message message = do event ← lift (message_event message); send_wsproto_event ws emit event

  -- "websocket.close": a refusal before the websocket is accepted, a closing frame after it
  unfoldable pub close_socket : WsClose → Action (Here ws emit)
  close_socket message w =
      if is_handshake w.stream.state
      then (do set_state ws emit WsState.http_closed; send_error_response ws emit 403) w
      else (do
        set_state ws emit WsState.closed
        send_wsproto_event ws emit
            (WsEvent.close_connection (get_or message.code ws.normal_closure) message.reason)
        id ← gets (λ w. w.stream.stream_id)
        emit (send (StreamEvent.end_data id)))
          w

  unfoldable pub app_message : AppMessage → Action (Here ws emit)
  unfolding require accept_socket send_rejection send_rejection_zerocopy send_rejection_trailer
      send_message close_socket
  app_message (AppMessage.ws_accept message) = require is_handshake (accept_socket message)
  app_message (AppMessage.ws_start start) = require is_handshake (
      update
        (λ s. record s { response = some start; trailers_expected = get_or start.trailers false }))
  app_message (AppMessage.ws_body message) = require is_answering (send_rejection message)
  app_message (AppMessage.ws_zerocopysend message) =
      require is_answering (send_rejection_zerocopy message)
  app_message (AppMessage.ws_trailers message) =
      require is_answering (send_rejection_trailer message)
  app_message (AppMessage.ws_send message) = require is_connected (send_message message)
  app_message (AppMessage.ws_close message) = close_socket message
  app_message (AppMessage.ws_ping payload) =
      require is_connected (send_wsproto_event ws emit (WsEvent.ping (get_or payload [])))
  app_message (AppMessage.ws_pong payload) =
      require is_connected (send_wsproto_event ws emit (WsEvent.pong (get_or payload [])))
  app_message _ = throw unexpected_message

  -- the branch for None: the application has returned
  unfoldable pub app_finished : Action (Here ws emit)
  app_finished = do
    st ← gets (λ w. w.stream.state)
    if is_handshake st
        then (do
          send_error_response ws emit 500
          log_access ws emit (record { status = 500; headers = [] }))
        else when (is_connected st)
            (send_wsproto_event ws emit (WsEvent.close_connection ws.internal_error none))
    id ← gets (λ w. w.stream.stream_id)
    emit (send (StreamEvent.stream_closed id))

  unfoldable pub dispatch : Option AppMessage → Action (Here ws emit)
  dispatch none = app_finished
  dispatch (some message) = app_message message

  unfoldable pub app_send : Option AppMessage → Action (Here ws emit)
  app_send message w = (if w.stream.closed then pass else dispatch message) w

  -- one round of the loop of `_send_pings`; its result says whether the loop sleeps and goes on
  unfoldable pub send_ping : Exec (Here ws emit) Bool
  send_ping w =
      if w.stream.closed
      then pure false w
      else (do send_wsproto_event ws emit (WsEvent.ping []); pure true) w

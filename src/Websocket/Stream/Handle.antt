-- ===== src/Websocket/Stream/Handle.antt =====
-- WSStream.handle and WSStream._handle_events: the events of the protocol and of wsproto.
use nonecorn.Prelude.{
  Option, ◌∷◌, ℕ, true, some, not, none, ltb, if◌then◌else◌, false, all, [], List, Bool,
}
use nonecorn.Bytes.{Bytes, partition}
use nonecorn.Exec.{
  local_protocol_error, Exec, Action, Result, ok, raise, pass, throw, pure, gets, lift, when, ◌>>=◌,
  ◌>>◌, unicode_error, frame_too_large,
}
use nonecorn.Asgi.{StreamEvent, RequestEvent, Receive, Config}
use nonecorn.Stream.{Output, send, spawn_app, World, update, attribute}
use nonecorn.Platform.{Platform}
use nonecorn.Utils.Headers.{valid_server_name}
use nonecorn.Websocket.Wsproto.{Wsproto, WsEvent}
use nonecorn.Websocket.Handshake.{handshake_of, is_valid}
use nonecorn.Websocket.Buffer.{Message, extend, clear, to_message}
use nonecorn.Websocket.Stream.{
  WsStream, Here, scope_of, is_idle, put_app, send_error_response, send_wsproto_event,
}

-- what `receive_data` returns, or a LocalProtocolError
abbrev pub received : {A : Type 0} → Option A → Result A
received none = raise local_protocol_error
received (some a) = ok a

abbrev is_ascii : Bytes → Bool
is_ascii path = all (λ c. ltb c 128) path

module _ (ws : Wsproto) (env : Platform) (config : Config) {W : Type 0}
    (emit : Output → Action (World (WsStream ws.Connection) W)) where
  -- `self.buffer.extend(event)`, on the buffer of the stream
  unfoldable pub extend_buffer : Message → Action (Here ws emit)
  extend_buffer message w =
      let (r, b) = extend message w.stream.buffer in
      (r, record w { stream = record (w.stream) { buffer = b } })

  -- a complete message goes to the application
  unfoldable pub deliver : Bool → Action (Here ws emit)
  deliver finished = when finished (do
    message ← gets (λ w. to_message w.stream.buffer)
    put_app ws emit message
    update (λ s. record s { buffer = clear s.buffer }))

  -- the `try` around `extend`: its result says whether the loop goes on
  unfoldable pub after_extend : Bool → Result (Unit {0}) → Exec (Here ws emit) Bool
  after_extend finished (ok _) = do deliver finished; pure true
  after_extend finished (raise frame_too_large) = do
    send_wsproto_event ws emit (WsEvent.close_connection ws.message_too_big none)
    pure false
  after_extend finished (raise e) = throw e

  unfoldable pub handle_message : Message → Bool → Exec (Here ws emit) Bool
  unfolding extend_buffer
  handle_message message finished w =
      let (r, w') = extend_buffer message w in after_extend finished r w'

  -- one round of the loop of `_handle_events`
  unfoldable pub handle_ws_event : WsEvent → Exec (Here ws emit) Bool
  handle_ws_event (WsEvent.text_message text finished) = handle_message (Message.text text) finished
  handle_ws_event (WsEvent.bytes_message bytes finished) =
      handle_message (Message.binary bytes) finished
  handle_ws_event (WsEvent.ping payload) = do
    if config.handle_ws_ping
        then send_wsproto_event ws emit (ws.response (WsEvent.ping payload))
        else put_app ws emit (Receive.ws_ping payload)
    pure true
  handle_ws_event (WsEvent.pong payload) = do
    when (not config.handle_ws_ping) (put_app ws emit (Receive.ws_pong payload))
    pure true
  handle_ws_event (WsEvent.close_connection code reason) = do
    connection ← gets (λ w. w.stream.connection) >>= attribute
    when (ws.is_remote_closing connection)
        (send_wsproto_event ws emit (ws.response (WsEvent.close_connection code reason)))
    id ← gets (λ w. w.stream.stream_id)
    emit (send (StreamEvent.stream_closed id))
    pure true

  -- what the generator does to the connection before it hands an event out
  unfoldable pub yield_event : WsEvent → Action (Here ws emit)
  yield_event event = do
    connection ← gets (λ w. w.stream.connection) >>= attribute
    update (λ s. record s { connection = some (ws.yielded event connection) })

  -- the loop of `_handle_events`
  unfoldable pub handle_ws_events : List WsEvent → Action (Here ws emit)
  handle_ws_events [] = pass
  handle_ws_events (event ∷ events) = do
    yield_event event
    more ← handle_ws_event event
    when more (handle_ws_events events)

  -- the branch of `handle` for data on an accepted websocket
  unfoldable pub handle_data : Bytes → Action (Here ws emit)
  handle_data bytes = do
    connection ← gets (λ w. w.stream.connection) >>= attribute
    connection' ← lift (received (ws.receive_data bytes connection))
    update (λ s. record s { connection = some connection' })
    handle_ws_events (ws.events connection')

  -- an error response, after which the stream is closed
  unfoldable pub refuse : ℕ → Action (Here ws emit)
  refuse status_code = do
    send_error_response ws emit status_code
    update (λ s. record s { closed = true })

  -- the branch of `handle` for a Body or Data
  unfoldable pub handle_content : Bytes → Action (Here ws emit)
  handle_content bytes = do
    shake ← gets (λ w. w.stream.shake) >>= attribute
    if shake.accepted then handle_data bytes else refuse 400

  -- the application's task, which is told of the connection
  unfoldable pub start_app : Action (Here ws emit)
  start_app = do
    scope ← gets (λ w. w.stream.scope) >>= attribute
    emit (spawn_app scope)
    update (λ s. record s { app_put = true })
    put_app ws emit Receive.ws_connect

  -- the branch of `handle` for a Request
  unfoldable pub handle_request : RequestEvent → Action (Here ws emit)
  handle_request event = do
    shake ← lift (handshake_of ws event.headers event.http_version)
    update (λ s. record s { shake = some shake })
    when (not (is_ascii (partition b'?' event.raw_path).0)) (throw unicode_error)
    update (λ s. record s { scope = some (scope_of env config s shake event) })
    known ← lift (valid_server_name config event)
    if not known
        then refuse 404
        else do valid ← lift (is_valid ws shake); if not valid then refuse 400 else start_app

  -- the branch of `handle` for a StreamClosed
  unfoldable pub handle_closed : Action (Here ws emit)
  unfolding put_app
  handle_closed = do
    update (λ s. record s { closed = true })
    s ← gets (λ w. w.stream)
    when s.app_put (
        put_app ws emit (
          Receive.ws_disconnect
            (if is_idle s.state then ws.normal_closure else ws.abnormal_closure)))

  unfoldable pub handle_open : StreamEvent → Action (Here ws emit)
  handle_open (StreamEvent.request id event) = handle_request event
  handle_open (StreamEvent.body id bytes flush) = handle_content bytes
  handle_open (StreamEvent.ws_data id bytes flush) = handle_content bytes
  handle_open (StreamEvent.stream_closed id) = handle_closed
  handle_open _ = pass

  unfoldable pub handle : StreamEvent → Action (Here ws emit)
  handle event w = (if w.stream.closed then pass else handle_open event) w

-- ===== src/Websocket/Stream/Recorder/Accepting.antt =====
-- What the application's calls leave behind when a handshake fails, and when the application or the
-- client is done.
use nonecorn.Prelude.{Bool, refl, ◌≡◌, ◌∷◌, true, some, none, false, arith, [], List, get_or}
use mathlib.Core.List.{head?}
use nonecorn.Exec.{Error, ok, raise, attribute_error}
use nonecorn.Asgi.{Receive, Config, AppMessage, WsAccept, Scope, StreamEvent}
use nonecorn.Stream.{Output, put, record_output, access_entries, responses, send}
use nonecorn.Platform.{Platform}
use nonecorn.Websocket.Wsproto.{Wsproto}
use nonecorn.Websocket.Handshake.{Handshake, accept}
use nonecorn.Websocket.Stream.{WsState, send_error_response, send_wsproto_event, log_access}
use nonecorn.Websocket.Stream.Handle.{handle, handle_open, handle_content, refuse}
use nonecorn.Websocket.Stream.AppSend.{
  app_send, dispatch, app_message, app_finished, require, accept_socket, send_ping,
}
use nonecorn.Websocket.Stream.Recorder.{Recorded, Call, app, protocol, ping_round, call, run}

call-closed :
    (ws : Wsproto) (env : Platform) (config : Config) (c : Call) (w : Recorded ws)
    → w.stream.closed ≡ true
    → call ws env config c w ≡ w
unfolding call handle app_send send_ping
call-closed ws env config (app m) w h = ground arith
call-closed ws env config (protocol event) w h = ground arith
call-closed ws env config ping_round w h = ground arith

-- Once a websocket stream is closed, nothing that it is called with changes it or makes it do
-- anything.
pub run_closed :
    (ws : Wsproto) (env : Platform) (config : Config) (cs : List Call) (w : Recorded ws)
    → w.stream.closed ≡ true
    → run ws env config cs w ≡ w
unfolding run
run_closed ws env config [] w h = refl
run_closed ws env config (c ∷ cs) w h =
    rw (call-closed ws env config c w h) (run_closed ws env config cs w h)

-- When the application accepts a websocket and the handshake raises, since the subprotocol was not
-- offered or a header is not allowed, then nothing is sent to the client. When the application then
-- returns, the stream raises an AttributeError, and neither a response nor the end of the stream is
-- sent.
pub accept-raises :
    (ws : Wsproto) (config : Config) (w : Recorded ws) (shake : Handshake) (message : WsAccept)
    (e : Error)
    → w.stream.closed ≡ false
    → w.stream.state ≡ WsState.handshake
    → w.stream.shake ≡ some shake
    → w.stream.connection ≡ none
    → accept ws shake message.subprotocol (get_or message.headers []) ≡ raise e
    → let (r, w1) = app_send ws config record_output (some (AppMessage.ws_accept message)) w in
      let (r', w2) = app_send ws config record_output none w1 in
      (r ≡ raise e) × (r' ≡ raise attribute_error) × (w2.rest ≡ w.rest)
unfolding app_send dispatch app_message require accept_socket app_finished send_wsproto_event
accept-raises ws config w shake message e c st sh cn a = ground arith

-- When the application returns before it has answered the handshake, the client gets a response with
-- status 500 and the stream is ended, but the request is in the access log twice.
pub finished-logs_twice :
    (ws : Wsproto) (config : Config) (w : Recorded ws) (scope : Scope)
    → w.stream.closed ≡ false
    → w.stream.state ≡ WsState.handshake
    → w.stream.scope ≡ some scope
    → let (r, w') = app_send ws config record_output none w in
      (r ≡ ok tt)
      × (head? w'.rest ≡ some (send (StreamEvent.stream_closed w.stream.stream_id)))
      × (access_entries w'.rest
          ≡ some (record { status = 500; headers = [] })
            ∷ some (record { status = 500; headers = [] })
            ∷ access_entries w.rest)
unfolding app_send dispatch app_finished send_error_response log_access
finished-logs_twice ws config w scope c st sc = ground arith

-- what the application was told, newest first
abbrev pub deliveries : List Output → List Receive
deliveries [] = []
deliveries (put message ∷ os) = message ∷ deliveries os
deliveries (_ ∷ os) = deliveries os

-- what a protocol hands on for a client's data
abbrev pub is_content : StreamEvent → Bool
is_content (StreamEvent.body _ _ _) = true
is_content (StreamEvent.ws_data _ _ _) = true
is_content _ = false

-- Data from the client, a Body or a Data, before the websocket is accepted makes the stream answer with
-- one response, of status 400, and close. From then on nothing more goes out, and the application is
-- told nothing, not even that the client has disconnected, whatever the stream is called with.
pub run-undelivered :
    (ws : Wsproto) (env : Platform) (config : Config) (cs : List Call) (w : Recorded ws)
    (shake : Handshake) (scope : Scope) (event : StreamEvent)
    → is_content event ≡ true
    → w.stream.closed ≡ false
    → w.stream.shake ≡ some shake
    → shake.accepted ≡ false
    → w.stream.scope ≡ some scope
    → let w' = run ws env config (protocol event ∷ cs) w in
      (deliveries w'.rest ≡ deliveries w.rest)
      × (responses w'.rest ≡ 400 ∷ responses w.rest)
      × (w'.rest ≡ (call ws env config (protocol event) w).rest)
      × (w'.stream.closed ≡ true)
unfolding run call handle handle_open handle_content refuse send_error_response log_access
run-undelivered ws env config cs w shake scope (StreamEvent.body id bytes flush) k c s a sc =
    let w' = call ws env config (protocol (StreamEvent.body id bytes flush)) w in
    rw (run_closed ws env config cs w' (ground arith)) (ground arith)
run-undelivered ws env config cs w shake scope (StreamEvent.ws_data id bytes flush) k c s a sc =
    let w' = call ws env config (protocol (StreamEvent.ws_data id bytes flush)) w in
    rw (run_closed ws env config cs w' (ground arith)) (ground arith)
run-undelivered ws env config cs w shake scope _ k c s a sc = ground (arith, k)

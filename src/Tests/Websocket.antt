-- ===== src/Tests/Websocket.antt =====
-- A websocket whose wire carries whole messages.
use nonecorn.Prelude.{
  ◌&&◌, ltb, if◌then◌else◌, arith, ◌≡◌, ◌∷◌, ◌↔◌, ◌++◌, some, refl, none, false, true, all, map, [],
  List, Option,
}
use mathlib.Core.List.{head?}
use nonecorn.Bytes.{Bytes, codes, same, less, lower, starts_with, partition}
use nonecorn.Exec.Results.{◌>>=◌}
use nonecorn.Exec.{Result, ok, raise, unicode_error, exception, attribute_error}
use nonecorn.Asgi.{StreamEvent, AppMessage, Header, WsAccept, Receive}
use nonecorn.Utils.Headers.{valid_server_name}
use nonecorn.Utils.Utf8.{decode_utf8, encode_utf8}
use nonecorn.Stream.{responses, record_output, put}
use nonecorn.Websocket.Wsproto.{Wsproto, WsEvent}
use nonecorn.Websocket.Handshake.{Handshake, handshake_of, is_valid, accept}
use nonecorn.Websocket.Handshake.{blank as blank_handshake}
use nonecorn.Websocket.Handshake.Laws.{asks_upgrade, is_readable, is_valid-handshake_of_iff}
use nonecorn.Websocket.Buffer.{Message, blank, to_message, extend, clear}
use nonecorn.Websocket.Buffer.Laws.{IsCounted, extend_all, to_message-extend_all}
use nonecorn.Websocket.Stream.{init, scope_of, put_app, log_access, send_wsproto_event}
use nonecorn.Websocket.Stream.Handle.{
  handle, handle_open, handle_request, start_app, handle_closed, handle_content, handle_data,
  handle_ws_events, yield_event, handle_ws_event, handle_message, deliver, after_extend,
}
use nonecorn.Websocket.Stream.AppSend.{app_send, dispatch, app_message}
use nonecorn.Websocket.Stream.Recorder.{Recorded, Call, app, protocol, call, run}
use nonecorn.Websocket.Stream.Recorder.Bounded.{fits}
use nonecorn.Websocket.Stream.Recorder.BoundedApp.{run_bounded}
use nonecorn.Websocket.Stream.Recorder.Accepting.{deliveries, run-undelivered, accept-raises}
use nonecorn.Tests.Data.{env, config, request_of, host_headers}

abbrev wire : WsEvent → Option Bytes
wire (WsEvent.bytes_message b finished) = some b
wire (WsEvent.text_message t finished) = some t
wire _ = some []

abbrev comma : Bytes → Option (List Bytes)
comma b = if all (λ c. ltb c 128) b then some (b ∷ []) else none

abbrev pub ws : Wsproto
ws = record {
  Connection = List WsEvent;
  connection = λ extensions. [];
  send = λ event c. (wire event, c);
  receive_data = λ b c. some (c ++ WsEvent.bytes_message b true ∷ []);
  events = λ c. c;
  yielded = λ event c. [];
  is_remote_closing = λ c. false;
  response = λ event. event;
  split_comma_header = comma;
  server_extensions_handshake = λ names. none;
  generate_accept_token = λ key. key;
  websocket_version = codes "13";
  normal_closure = 1000;
  abnormal_closure = 1006;
  internal_error = 1011;
  message_too_big = 1009;
}

abbrev pub upgrade_headers : List Header
upgrade_headers =
    (codes "Host", codes "example.org")
    ∷ (codes "Connection", codes "Upgrade")
    ∷ (codes "Upgrade", codes "WebSocket")
    ∷ (codes "Sec-WebSocket-Key", codes "abc")
    ∷ (codes "Sec-WebSocket-Version", codes "13")
    ∷ (codes "Sec-WebSocket-Protocol", codes "chat")
    ∷ []

abbrev shake_of : Result Handshake → Handshake
shake_of (ok h) = h
shake_of (raise e) = blank_handshake (codes "1.1")

abbrev shake : Handshake
shake = shake_of (handshake_of ws upgrade_headers (codes "1.1"))

abbrev opened : List Call
opened =
    protocol (StreamEvent.request 1 (request_of (codes "GET") (codes "1.1") upgrade_headers)) ∷ []

abbrev accept_as : WsAccept → Call
accept_as message = app (some (AppMessage.ws_accept message))

abbrev chat : WsAccept
chat = record { subprotocol = some (codes "chat"); headers = none }

abbrev talk : WsAccept
talk = record { subprotocol = some (codes "talk"); headers = none }

abbrev fresh : Recorded ws
fresh = record { stream = init config false none none 1 false; rest = [] }

-- an opened and accepted websocket that gets a message, and one that is too large
abbrev served : List Call
served = opened ++ accept_as chat ∷ protocol (StreamEvent.ws_data 1 (codes "01234567") false) ∷ []

abbrev too_large : List Call
too_large = served ++ protocol (StreamEvent.ws_data 1 (codes "0123456789") false) ∷ []

abbrev asked : Recorded ws
asked = run ws env config opened fresh

-- what a run computes with
socket : Unit {0}
unfolding init run call handle app_send valid_server_name decode_utf8 encode_utf8 same less lower
    starts_with partition handshake_of is_valid accept handle_open handle_request start_app put_app
    scope_of handle_closed dispatch app_message log_access handle_content handle_data
    handle_ws_events yield_event handle_ws_event handle_message deliver after_extend extend clear
    send_wsproto_event to_message
socket = tt

delivers :
    head? (run ws env config served fresh).rest
    ≡ some (put (Receive.ws_receive (some (codes "01234567")) none))
unfolding socket
delivers = refl

run_bounded_example :
    let w = run ws env config too_large fresh in
    (all (fits 8) w.rest ≡ true) × IsCounted w.stream.buffer
unfolding socket
run_bounded_example = run_bounded ws env config false none none 1 false too_large

abbrev gone : Recorded ws
gone = (handle ws env config record_output (StreamEvent.stream_closed 1) asked).1

accept-raises_example :
    let (r, w1) = app_send ws config record_output (some (AppMessage.ws_accept talk)) asked in
    let (r', w2) = app_send ws config record_output none w1 in
    (r ≡ raise exception) × (r' ≡ raise attribute_error) × (w2.rest ≡ asked.rest)
unfolding socket
accept-raises_example = accept-raises ws config asked shake talk exception refl refl refl refl refl

is_valid-handshake_of_iff_example :
    ((handshake_of ws upgrade_headers (codes "1.1") ≡ raise unicode_error)
      ↔ (all (is_readable ws) upgrade_headers ≡ false))
    × ((handshake_of ws upgrade_headers (codes "1.1") >>= is_valid ws ≡ ok true) ↔ (
        (all (is_readable ws) upgrade_headers && asks_upgrade ws upgrade_headers (codes "1.1"))
        ≡ true))
is_valid-handshake_of_iff_example = is_valid-handshake_of_iff ws upgrade_headers (codes "1.1")

abbrev response_headers : List Header
response_headers =
    (codes "sec-websocket-protocol", codes "chat")
    ∷ (codes "sec-websocket-accept", codes "abc")
    ∷ (codes "upgrade", codes "WebSocket")
    ∷ (codes "connection", codes "Upgrade")
    ∷ host_headers

to_message-extend_all_example :
    let (r, b) =
      extend_all (map Message.text (codes "ab" ∷ codes "" ∷ codes "cd" ∷ [])) (blank 8) in
    (r ≡ ok tt) × (to_message b ≡ Receive.ws_receive none (some (codes "abcd")))
to_message-extend_all_example =
    to_message-extend_all (codes "ab") (codes "" ∷ codes "cd" ∷ []) 8 (omega arith)

run-undelivered_example :
    let cs = protocol (StreamEvent.stream_closed 1) ∷ app none ∷ [] in
    let w = run ws env config (protocol (StreamEvent.body 1 (codes "x") false) ∷ cs) asked in
    (deliveries w.rest ≡ deliveries asked.rest)
    × (responses w.rest ≡ 400 ∷ responses asked.rest)
    × (w.rest ≡ (call ws env config (protocol (StreamEvent.body 1 (codes "x") false)) asked).rest)
    × (w.stream.closed ≡ true)
unfolding socket
run-undelivered_example =
    run-undelivered ws env config (protocol (StreamEvent.stream_closed 1) ∷ app none ∷ []) asked
      shake
      (scope_of env config asked.stream shake
        (request_of (codes "GET") (codes "1.1") upgrade_headers))
      (StreamEvent.body 1 (codes "x") false) refl refl refl refl refl

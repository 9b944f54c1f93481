-- ===== src/Tests/Http1.antt =====
-- An HTTP/1 connection over an h11 that finds a whole request in whatever it receives.
use nonecorn.Prelude.{
  ◌≤◌, ◌≡◌, ◌∷◌, ◌<◌, ◌++◌, true, some, refl, none, length, false, arith, [], List,
}
use nonecorn.Bytes.{strip_latin1, split, codes}
use nonecorn.Asgi.{StreamEvent}
use nonecorn.Exec.{ok, ◌>>◌}
use nonecorn.Http1.H11.{H11, H11Event, H11Request, Role, Chunk}
use nonecorn.Http1.State.{Settings, Files, init}
use nonecorn.Http1.Send.{
  stream_send, maybe_recycle, recycle, start_cycle, send_made, send_h11_event, send_response,
  close_stream,
}
use nonecorn.Http1.Streams.{
  Site, Stream, Connected, handle_stream, handle_by, close_http, http_emit, http_emit_closed,
  app_send, send_by,
}
use nonecorn.Http1.Receive.{
  Loop, handle_bytes, receive_bytes, handle_events, go_on, round, continue_100, next_event,
  next_from, handle_h11_event, handle_request, check_protocol, check_before, create_stream,
  make_stream, is_websocket, header_value, make_http, make_websocket, feed, handle_closed, close,
}
use nonecorn.Http1.Rounds.{Progress, goes_on}
use nonecorn.Http1.Rounds.Ends.{handle_bytes-ends}
use nonecorn.Http1.Idle.{told_idle}
use nonecorn.Http1.Counts.{run-IsCounted}
use nonecorn.Http1.Steady.Calls.{Call, run, call}
use nonecorn.Worker.{mark_requests}
use nonecorn.Worker.{init as init_worker}
use nonecorn.Tests.Http.{http}
use nonecorn.HttpStream.{HttpStream, HttpState, scope_of}
use nonecorn.HttpStream.{init as init_http}
use nonecorn.Http1.Passthrough.{handle_bytes-holding, holding}
use nonecorn.Websocket.Stream.{init as init_ws}
use nonecorn.Http1.Settles.{is_settled, app_send-settles}
use nonecorn.Tests.Data.{request_of, env, config, host_headers}
use nonecorn.Tests.Websocket.{ws}

abbrev simple_request : H11Request
simple_request = record {
  method = codes "GET";
  target = codes "/";
  http_version = codes "1.1";
  headers = host_headers;
  raw_headers = host_headers;
}

abbrev next : List H11Event → H11Event × List H11Event
next [] = (H11Event.need_data, [])
next (event ∷ events) = (event, events)

abbrev pub h11 : H11
h11 = record {
  Connection = List H11Event;
  connection = λ size. [];
  receive_data = λ bytes c. c ++ H11Event.request simple_request ∷ H11Event.end_of_message [] ∷ [];
  next_event = next;
  accepts = λ event. true;
  send = λ event c. (some (codes "wire"), c);
  send_file = λ n c. (some (Chunk.file ∷ []), c);
  start_next_cycle = λ c. some c;
  our_state = λ c. Role.done;
  their_state = λ c. Role.done;
  trailing_data = λ c. [];
  waits_for_100_continue = λ c. false;
}

abbrev settings : Settings
settings = record {
  ssl = false;
  client = none;
  server = none;
  has_tls = false;
  connection_state = [];
  max_incomplete_size = 16384;
  pass_raw_headers = false;
  keep_alive_max_requests = 1000;
  server_headers = [];
}

abbrev files : Files
files = record { position = λ fd. 0; size = λ fd. 100 }

abbrev pub site : Site
site = record { h = h11; ws = ws; env = env; config = config; settings = settings; files = files }

next-rank : (c : List H11Event) → goes_on (next c).0 ≡ true → length (next c).1 < length c
next-rank [] goes = ground arith
next-rank (event ∷ c) goes = ground arith

kept : (c : List H11Event) → length c ≤ length c
kept c = omega arith

same-rank : (c c' : List H11Event) → some c ≡ some c' → length c' ≤ length c
same-rank c c' e = ground (arith, e)

abbrev progress : Progress h11
progress = record {
  rank = length;
  send-rank = λ event c. kept c;
  send_file-rank = λ n c. kept c;
  start-rank = same-rank;
  next_event-rank = next-rank;
}

abbrev pub fresh : Connected site
fresh = record { stream = Stream.absent; rest = init h11 settings (init_worker none) }

unfoldable pub http1 : Unit {0}
unfolding init run call handle_bytes receive_bytes handle_events go_on round continue_100 next_event
    next_from handle_h11_event handle_request check_protocol check_before create_stream make_stream
    is_websocket header_value make_http make_websocket handle_stream handle_by feed handle_closed
    close_stream close close_http http_emit http_emit_closed stream_send maybe_recycle recycle
    strip_latin1 split start_cycle send_made send_h11_event send_response app_send send_by
http1 = tt

abbrev answered : HttpStream
answered = record (init_http false none none 1 false) {
  state = HttpState.response;
  app_put = true;
  scope = some (
      scope_of env config (init_http false none none 1 false)
        (request_of (codes "GET") (codes "1.1") host_headers));
}

app_send-settles_example :
    let w : Connected site = record { stream = Stream.http answered; rest = fresh.rest } in
    ((app_send site none w).0 ≡ ok tt)
    × (is_settled (app_send site none w).1.rest.effects ≡ true)
    × ((app_send site none w).1.rest.attached ≡ false)
unfolding init_http
app_send-settles_example = app_send-settles site answered fresh.rest refl refl refl refl

-- a request, and an application that answers it with nothing
abbrev pub unanswered : List Call
unanswered = Call.receives 9 (codes "GET") ∷ Call.answers_with none ∷ []

-- The server is told to idle again.
unanswered_idles : told_idle (run site unanswered fresh).rest.effects ≡ true
unfolding http1 http
unanswered_idles = refl

handle_bytes-ends_example : ¬ ((handle_bytes site 9 (codes "GET") fresh).0 ≡ ok Loop.unfinished)
unfolding http1
handle_bytes-ends_example = handle_bytes-ends site progress (codes "GET") 9 fresh (omega arith)

run-IsCounted_example :
    (run site (Call.receives 9 (codes "GET") ∷ Call.closes ∷ []) fresh).rest.context
    ≡ mark_requests
        (run site (Call.receives 9 (codes "GET") ∷ Call.closes ∷ []) fresh).rest.keep_alive_requests
        (init_worker none)
run-IsCounted_example =
    run-IsCounted site (init_worker none) Stream.absent
      (Call.receives 9 (codes "GET") ∷ Call.closes ∷ [])

abbrev socket : Stream ws
socket = Stream.websocket (init_ws config false none none 1 false)

handle_bytes-holding_example :
    handle_bytes site 3 (codes "lo") (holding site socket fresh.rest (codes "hel"))
    ≡ (do
      handle_stream site (StreamEvent.ws_data 1 (codes "hel" ++ codes "lo") false)
      handle_events site 2)
        (holding site socket fresh.rest [])
handle_bytes-holding_example =
    handle_bytes-holding site 2 socket fresh.rest (codes "hel") (codes "lo") b'h' (codes "ello")
      refl

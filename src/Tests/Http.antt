-- ===== src/Tests/Http.antt =====
-- A stream that answers requests.
use nonecorn.Prelude.{◌≡◌, ◌∷◌, ◌↔◌, some, refl, none, false, any, []}
use mathlib.Core.List.{List}
use nonecorn.Bytes.{codes, same, lower, partition, strip}
use nonecorn.Exec.{raise, unexpected_message}
use nonecorn.Asgi.{
  RequestEvent, StreamEvent, AppMessage, ResponseStart, ResponseBody, ResponseTrailers,
}
use nonecorn.Utils.Headers.{valid_server_name, suppress_body, build_and_validate_headers}
use nonecorn.Utils.Utf8.{decode_utf8}
use nonecorn.Stream.{record_output}
use nonecorn.HttpStream.{
  HttpStream, init, handle, scope_of, is_push_version, send_error_response, send_event,
}
use nonecorn.HttpStream.AppSend.{
  app_send, app_message, finish_response, send_path, send_chunks, send_trailers,
  close_after_trailers,
}
use nonecorn.HttpStream.Recorder.{Recorded, Phase, phase_of, Call, app, call, run, opened}
use nonecorn.HttpStream.Recorder.Grammar.{phase_for, run_ordered}
use nonecorn.HttpStream.Recorder.Content.{is_content, run_suppressed}
use nonecorn.HttpStream.Recorder.Outcomes.{takes, app_message-refused_iff}
use nonecorn.Tests.Data.{env, config, request_of, host_headers}

-- what a run computes with
unfoldable pub http : Unit {0}
unfolding init handle scope_of is_push_version send_error_response send_event app_send
    finish_response send_path send_chunks send_trailers close_after_trailers call run
    valid_server_name decode_utf8 suppress_body build_and_validate_headers same lower partition
    strip
http = tt

abbrev fresh : HttpStream
fresh = init false none none 1 false

abbrev get : RequestEvent
get = request_of (codes "GET") (codes "1.1") host_headers

abbrev head : RequestEvent
head = request_of (codes "HEAD") (codes "1.1") host_headers

abbrev started : ResponseStart
started = record {
  status = 200;
  headers = some ((codes "a", codes " b") ∷ []);
  trailers = none;
  reason = none;
}

abbrev whole : ResponseBody
whole = record { content = some (codes "hello"); more_body = none; flush = none; headers = none }

abbrev answer : List Call
answer = app (some (AppMessage.http_start started)) ∷ app (some (AppMessage.http_body whole)) ∷ []

abbrev served : RequestEvent → Recorded
served event = (opened env config fresh event).1

answer_ends : (phase_of (run env config answer (served get)).rest ≡ some Phase.ended)
unfolding http
answer_ends = refl

run_ordered_example :
    let w = run env config answer (served get) in phase_of w.rest ≡ some (phase_for w.stream.state)
unfolding http
run_ordered_example = run_ordered env config fresh get answer (refl, refl) refl (tt, (tt, tt))

run_suppressed_example : any is_content (run env config answer (served head)).rest ≡ false
unfolding http
run_suppressed_example =
    run_suppressed env config fresh head answer (refl, refl) refl refl (tt, (tt, tt)) refl

-- A body before the start of the response is refused.
app_message-refused_iff_example :
    let (r, w') = app_message env record_output (AppMessage.http_body whole) (served get) in
    ((r ≡ raise unexpected_message)
      ↔ (takes (served get).stream.state (codes "1.1") (AppMessage.http_body whole) ≡ false))
    × (r ≡ raise unexpected_message → w' ≡ served get)
unfolding http
app_message-refused_iff_example =
    app_message-refused_iff env (served get) (scope_of env config fresh get)
      (AppMessage.http_body whole) refl

abbrev gone : Recorded
gone = (handle env config record_output (StreamEvent.stream_closed 1) (served get)).1

abbrev sending : Recorded
sending = run env config (app (some (AppMessage.http_start started)) ∷ []) (served get)

abbrev last_trailers : ResponseTrailers
last_trailers = record { headers = some ((codes "x", codes "y") ∷ []); more_trailers = none }

-- ===== src/HttpStream/Recorder/Content.antt =====
-- A response that may have no content sends none.
use nonecorn.Prelude.{
  refl, ◌≡◌, ◌∷◌, true, some, none, is_some, inr, inl, get_or, false, arith, any, [], Option, List,
  Bool, All,
}
use nonecorn.Exec.{ok}
use nonecorn.Exec.Results.{Result-cases}
use nonecorn.Asgi.{StreamEvent, AppMessage, RequestEvent, Config, Scope, ResponseStart}
use nonecorn.Bytes.{Bytes, Text}
use nonecorn.Stream.{Output, record_output, send}
use nonecorn.Platform.{Platform}
use nonecorn.Utils.Headers.{suppress_body, valid_server_name, build_and_validate_headers}
use nonecorn.HttpStream.{
  HttpStream, handle, send_event, put_app, send_error_response, log_access, is_request, scope_of,
}
use nonecorn.HttpStream.AppSend.{
  send_path, send_trailers, close_after_trailers, app_send, app_message, finish_response,
  send_chunks,
}
use nonecorn.HttpStream.Recorder.{Recorded, Call, call, run, app, protocol, opened, IsFresh}

-- content of a response
abbrev pub is_content : Output → Bool
is_content (send (StreamEvent.body _ _ _)) = true
is_content (send (StreamEvent.zero_copy_send _ _ _ _)) = true
is_content _ = false

abbrev pub hides : Text → Option ResponseStart → Bool
hides method none = false
hides method (some response) = suppress_body method response.status

-- Nothing of the content goes out before the response is started, nor if its status or the method
-- allows none.
pub record IsQuiet (scope : Scope) (w : Recorded) : Type 0 where
  pub scoped : w.stream.scope ≡ some scope
  pub started :
      is_request w.stream.state ≡ false
      → any is_content w.rest ≡ true
      → is_some w.stream.response ≡ true
  pub unsent : is_request w.stream.state ≡ true → any is_content w.rest ≡ false
  pub hidden : hides scope.method w.stream.response ≡ true → any is_content w.rest ≡ false

-- a stream is given one request
abbrev pub IsLater : Call → Type 0
IsLater (protocol (StreamEvent.request _ _)) = ⊥
IsLater _ = Unit

pub send_chunks_ok :
    (env : Platform) (chunks : List Bytes) (w : Recorded)
    → (send_chunks env record_output chunks w).0 ≡ ok tt
unfolding send_chunks send_event
send_chunks_ok env [] w = refl
send_chunks_ok env (chunk ∷ chunks) w = send_chunks_ok env chunks _

module _ (env : Platform) (scope : Scope) where
  abbrev with_output : Output → Recorded → Recorded
  with_output o w = record w { rest = o ∷ w.rest }

  finish-IsQuiet :
      (w : Recorded) (more : Option Bool) (headers : _)
      → IsQuiet scope w
      → IsQuiet scope (finish_response env record_output more headers w).1
  unfolding finish_response send_event log_access
  finish-IsQuiet w more headers h = ground arith

  send_chunks-IsQuiet :
      (chunks : List Bytes) (w : Recorded)
      → IsQuiet scope w
      → is_request w.stream.state ≡ false
      → is_some w.stream.response ≡ true
      → hides scope.method w.stream.response ≡ false
      → IsQuiet scope (send_chunks env record_output chunks w).1
  unfolding send_chunks send_event
  send_chunks-IsQuiet [] w h a b c = h
  send_chunks-IsQuiet (chunk ∷ chunks) w h a b c =
      send_chunks-IsQuiet chunks
        (with_output (send (StreamEvent.body w.stream.stream_id chunk false)) w) (ground arith) a b
        c

  start-IsQuiet :
      (w : Recorded) (m : _)
      → IsQuiet scope w
      → IsQuiet scope (app_message env record_output (AppMessage.http_start m) w).1
  unfolding app_message send_event
  start-IsQuiet w m h = elim (Result-cases (build_and_validate_headers (get_or m.headers []))) [
    | inl (out, e) ↦ ground (arith, e)
    | inr (x, e) ↦ ground (arith, e)
  ]

  push-IsQuiet :
      (w : Recorded) (m : _)
      → IsQuiet scope w
      → IsQuiet scope (app_message env record_output (AppMessage.http_push m) w).1
  unfolding app_message send_event
  push-IsQuiet w m h = elim (Result-cases (build_and_validate_headers m.headers)) [
    | inl (out, e) ↦ ground (arith, e)
    | inr (x, e) ↦ ground (arith, e)
  ]

  early_hint-IsQuiet :
      (w : Recorded) (m : _)
      → IsQuiet scope w
      → IsQuiet scope (app_message env record_output (AppMessage.http_early_hint m) w).1
  unfolding app_message send_event
  early_hint-IsQuiet w m h = ground arith

  body-IsQuiet :
      (w : Recorded) (m : _)
      → IsQuiet scope w
      → IsQuiet scope (app_message env record_output (AppMessage.http_body m) w).1
  unfolding app_message send_event
  body-IsQuiet w m h =
      let sent =
        with_output
          (send (StreamEvent.body w.stream.stream_id (get_or m.content []) (get_or m.flush false)))
          w in
      ground (
        arith,
        finish-IsQuiet w m.more_body (get_or m.headers []),
        finish-IsQuiet sent m.more_body (get_or m.headers []),
      )

  zerocopysend-IsQuiet :
      (w : Recorded) (m : _)
      → IsQuiet scope w
      → IsQuiet scope (app_message env record_output (AppMessage.http_zerocopysend m) w).1
  unfolding app_message send_event
  zerocopysend-IsQuiet w m h =
      let sent =
        with_output (send (StreamEvent.zero_copy_send w.stream.stream_id m.file m.offset m.count))
          w in
      ground (
        arith,
        finish-IsQuiet w m.more_body (get_or m.headers []),
        finish-IsQuiet sent m.more_body (get_or m.headers []),
      )

  send_trailers-IsQuiet :
      (w : Recorded) (m : _)
      → IsQuiet scope w
      → IsQuiet scope (send_trailers env record_output scope m w).1
  unfolding send_trailers send_event
  send_trailers-IsQuiet w m h =
      elim (Result-cases (build_and_validate_headers (get_or m.headers []))) [
        | inl (out, e) ↦ ground (arith, e)
        | inr (x, e) ↦ ground (arith, e)
      ]

  close_after_trailers-IsQuiet :
      (w : Recorded)
      → IsQuiet scope w
      → IsQuiet scope (close_after_trailers env record_output scope w).1
  unfolding close_after_trailers send_event
  close_after_trailers-IsQuiet w h = ground arith

  trailers-IsQuiet :
      (w : Recorded) (m : _)
      → IsQuiet scope w
      → IsQuiet scope (app_message env record_output (AppMessage.http_trailers m) w).1
  unfolding app_message
  trailers-IsQuiet w m h =
      let sent = (send_trailers env record_output scope m w).1 in
      ground (arith, send_trailers-IsQuiet w m, close_after_trailers-IsQuiet sent)

  finished-IsQuiet :
      (w : Recorded) → IsQuiet scope w → IsQuiet scope (app_send env record_output none w).1
  unfolding app_send send_event send_error_response
  finished-IsQuiet w h = ground arith

  send_path-IsQuiet :
      (w : Recorded) (path : _)
      → IsQuiet scope w
      → is_request w.stream.state ≡ false
      → is_some w.stream.response ≡ true
      → hides scope.method w.stream.response ≡ false
      → let (r, w') = send_path env record_output scope path w in (r ≡ ok tt) × IsQuiet scope w'
  unfolding send_path send_event
  send_path-IsQuiet w path h a b c = ground (
    arith,
    send_chunks-IsQuiet (env.read_chunks path) w,
    send_chunks_ok env (env.read_chunks path) w,
  )

  pathsend-IsQuiet :
      (w : Recorded) (m : _)
      → IsQuiet scope w
      → IsQuiet scope (app_message env record_output (AppMessage.http_pathsend m) w).1
  unfolding app_message
  pathsend-IsQuiet w m h =
      let sent = (send_path env record_output scope m.path w).1 in
      ground (
        arith,
        finish-IsQuiet w m.more_body [],
        finish-IsQuiet sent m.more_body [],
        send_path-IsQuiet w m.path,
      )

  handle-IsQuiet :
      (config : Config) (w : Recorded) (event : StreamEvent)
      → IsLater (protocol event)
      → IsQuiet scope w
      → IsQuiet scope (handle env config record_output event w).1
  unfolding handle log_access put_app
  handle-IsQuiet config w (StreamEvent.request id event) c h = absurd c
  handle-IsQuiet config w _ c h = ground arith

  message-IsQuiet :
      (w : Recorded) (m : AppMessage)
      → IsQuiet scope w
      → IsQuiet scope (app_message env record_output m w).1
  message-IsQuiet w (AppMessage.http_start m) h = start-IsQuiet w m h
  message-IsQuiet w (AppMessage.http_push m) h = push-IsQuiet w m h
  message-IsQuiet w (AppMessage.http_early_hint m) h = early_hint-IsQuiet w m h
  message-IsQuiet w (AppMessage.http_body m) h = body-IsQuiet w m h
  message-IsQuiet w (AppMessage.http_zerocopysend m) h = zerocopysend-IsQuiet w m h
  message-IsQuiet w (AppMessage.http_pathsend m) h = pathsend-IsQuiet w m h
  message-IsQuiet w (AppMessage.http_trailers m) h = trailers-IsQuiet w m h
  message-IsQuiet w _ h = unfold app_message in h

  call-IsQuiet :
      (config : Config) (w : Recorded) (c : Call)
      → IsLater c
      → IsQuiet scope w
      → IsQuiet scope (call env config c w).1
  unfolding call
  call-IsQuiet config w (app none) k h = finished-IsQuiet w h
  call-IsQuiet config w (app (some m)) k h = unfold app_send in message-IsQuiet w m h
  call-IsQuiet config w (protocol event) k h = handle-IsQuiet config w event k h

run-IsQuiet :
    (env : Platform) (config : Config) (scope : Scope) (calls : List Call) (w : Recorded)
    → All IsLater calls
    → IsQuiet scope w
    → IsQuiet scope (run env config calls w)
unfolding run
run-IsQuiet env config scope [] w k h = h
run-IsQuiet env config scope (c ∷ cs) w k h =
    run-IsQuiet env config scope cs (call env config c w).1 k.1
      (call-IsQuiet env scope config w c k.0 h)

request-IsQuiet :
    (env : Platform) (config : Config) (s : HttpStream) (event : RequestEvent)
    → IsFresh s
    → s.response ≡ none
    → (opened env config s event).0 ≡ ok tt
    → IsQuiet (scope_of env config s event) (opened env config s event).1
unfolding handle send_error_response
request-IsQuiet env config s event f r h = elim (Result-cases (valid_server_name config event)) [
  | inl (valid, e) ↦ ground (arith, e)
  | inr (x, e) ↦ ground (arith, e)
]

-- Of a fresh stream that took its request, over every run: if the method or the status of the
-- response that the application started allows no content, none went out, in a body or as a file.
pub run_suppressed :
    (env : Platform) (config : Config) (s : HttpStream) (event : RequestEvent) (calls : List Call)
    → IsFresh s
    → s.response ≡ none
    → (opened env config s event).0 ≡ ok tt
    → All IsLater calls
    → let w = run env config calls (opened env config s event).1 in
      hides event.method w.stream.response ≡ true → any is_content w.rest ≡ false
unfolding scope_of
run_suppressed env config s event calls f r h k =
    (run-IsQuiet env config (scope_of env config s event) calls (opened env config s event).1 k
      (request-IsQuiet env config s event f r h)).hidden

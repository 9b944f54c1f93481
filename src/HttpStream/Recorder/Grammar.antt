-- ===== src/HttpStream/Recorder/Grammar.antt =====
-- The order of the events of a response, over every run of a stream.
use nonecorn.Prelude.{
  All, ◌∷◌, refl, none, List, ◌≡◌, true, some, is_some, inr, inl, get_or, false, arith, [], Option,
  Bool,
}
use nonecorn.Exec.{ok}
use nonecorn.Exec.Results.{Result-cases}
use nonecorn.Asgi.{RequestEvent, Config, StreamEvent, AppMessage, Scope}
use nonecorn.Bytes.{Bytes}
use nonecorn.Stream.{Output, record_output, send}
use nonecorn.Platform.{Platform}
use nonecorn.Utils.Headers.{valid_server_name, build_and_validate_headers}
use nonecorn.HttpStream.{
  HttpStream, scope_of, put_app, handle, HttpState, send_event, send_error_response, log_access,
}
use nonecorn.HttpStream.AppSend.{send_path, app_send, app_message, finish_response, send_chunks}
use nonecorn.HttpStream.Recorder.{
  opened, IsFresh, run, call, Recorded, Phase, phase_of, Call, app, protocol,
}

abbrev pub phase_for : HttpState → Phase
phase_for HttpState.request = Phase.waiting
phase_for HttpState.response = Phase.sending
phase_for HttpState.closed = Phase.ended

-- The stream has its scope, a started response is recorded, and what went out is in order up to the
-- phase that the state stands for.
pub record Inv (scope : Scope) (w : Recorded) : Type 0 where
  pub scoped : w.stream.scope ≡ some scope
  pub started : w.stream.state ≡ HttpState.response → is_some w.stream.response ≡ true
  pub ordered : phase_of w.rest ≡ some (phase_for w.stream.state)

-- The trailers of a response end its body, but leave the stream in its state; and a stream is given
-- one request.
abbrev pub IsCovered : Call → Type 0
IsCovered (app (some (AppMessage.http_trailers _))) = ⊥
IsCovered (protocol (StreamEvent.request _ _)) = ⊥
IsCovered _ = Unit

-- Chunks go out while the response is being sent, and change nothing else.
send_chunks_lem :
    (env : Platform) (chunks : List Bytes) (w : Recorded)
    → phase_of w.rest ≡ some Phase.sending
    → let (r, w') = send_chunks env record_output chunks w in
      (r ≡ ok tt) × (w'.stream ≡ w.stream) × (phase_of w'.rest ≡ some Phase.sending)
unfolding send_chunks send_event
send_chunks_lem env [] w h = (refl, refl, h)
send_chunks_lem env (chunk ∷ chunks) w h =
    send_chunks_lem env chunks
      (record w { rest = send (StreamEvent.body w.stream.stream_id chunk false) ∷ w.rest }) (rw h)

module _ (env : Platform) (scope : Scope) where
  finish-Inv :
      (w : Recorded) (more : Option Bool) (headers : _)
      → w.stream.state ≡ HttpState.response
      → Inv scope w
      → Inv scope (finish_response env record_output more headers w).1
  unfolding finish_response send_event log_access
  finish-Inv w more headers r h = ground arith

  start-Inv :
      (w : Recorded) (m : _)
      → Inv scope w
      → Inv scope (app_message env record_output (AppMessage.http_start m) w).1
  unfolding app_message send_event
  start-Inv w m h = elim (Result-cases (build_and_validate_headers (get_or m.headers []))) [
    | inl (out, e) ↦ ground (arith, e)
    | inr (x, e) ↦ ground (arith, e)
  ]

  push-Inv :
      (w : Recorded) (m : _)
      → Inv scope w
      → Inv scope (app_message env record_output (AppMessage.http_push m) w).1
  unfolding app_message send_event
  push-Inv w m h = elim (Result-cases (build_and_validate_headers m.headers)) [
    | inl (out, e) ↦ ground (arith, e)
    | inr (x, e) ↦ ground (arith, e)
  ]

  early_hint-Inv :
      (w : Recorded) (m : _)
      → Inv scope w
      → Inv scope (app_message env record_output (AppMessage.http_early_hint m) w).1
  unfolding app_message send_event
  early_hint-Inv w m h = ground arith

  abbrev with_output : Output → Recorded → Recorded
  with_output o w = record w { rest = o ∷ w.rest }

  body-Inv :
      (w : Recorded) (m : _)
      → Inv scope w
      → Inv scope (app_message env record_output (AppMessage.http_body m) w).1
  unfolding app_message send_event
  body-Inv w m h =
      let sent =
        with_output
          (send (StreamEvent.body w.stream.stream_id (get_or m.content []) (get_or m.flush false)))
          w in
      ground (
        arith,
        finish-Inv w m.more_body (get_or m.headers []),
        finish-Inv sent m.more_body (get_or m.headers []),
      )

  zerocopysend-Inv :
      (w : Recorded) (m : _)
      → Inv scope w
      → Inv scope (app_message env record_output (AppMessage.http_zerocopysend m) w).1
  unfolding app_message send_event
  zerocopysend-Inv w m h =
      let sent =
        with_output (send (StreamEvent.zero_copy_send w.stream.stream_id m.file m.offset m.count))
          w in
      ground (
        arith,
        finish-Inv w m.more_body (get_or m.headers []),
        finish-Inv sent m.more_body (get_or m.headers []),
      )

  finished-Inv : (w : Recorded) → Inv scope w → Inv scope (app_send env record_output none w).1
  unfolding app_send send_event send_error_response
  finished-Inv w h = ground arith

  send_path-Inv :
      (w : Recorded) (path : _)
      → w.stream.state ≡ HttpState.response
      → Inv scope w
      → let (r, w') = send_path env record_output scope path w in
        (r ≡ ok tt) × Inv scope w' × (w'.stream ≡ w.stream)
  unfolding send_path send_event
  send_path-Inv w path r h = ground (arith, send_chunks_lem env (env.read_chunks path) w)

  pathsend-Inv :
      (w : Recorded) (m : _)
      → Inv scope w
      → Inv scope (app_message env record_output (AppMessage.http_pathsend m) w).1
  unfolding app_message
  pathsend-Inv w m h =
      let sent = (send_path env record_output scope m.path w).1 in
      ground
        (arith, finish-Inv w m.more_body [], finish-Inv sent m.more_body [], send_path-Inv w m.path)

  handle-Inv :
      (config : Config) (w : Recorded) (event : StreamEvent)
      → IsCovered (protocol event)
      → Inv scope w
      → Inv scope (handle env config record_output event w).1
  unfolding handle log_access put_app
  handle-Inv config w (StreamEvent.request id event) c h = absurd c
  handle-Inv config w _ c h = ground arith

  message-Inv :
      (w : Recorded) (m : AppMessage)
      → IsCovered (app (some m))
      → Inv scope w
      → Inv scope (app_message env record_output m w).1
  message-Inv w (AppMessage.http_start m) c h = start-Inv w m h
  message-Inv w (AppMessage.http_push m) c h = push-Inv w m h
  message-Inv w (AppMessage.http_early_hint m) c h = early_hint-Inv w m h
  message-Inv w (AppMessage.http_body m) c h = body-Inv w m h
  message-Inv w (AppMessage.http_zerocopysend m) c h = zerocopysend-Inv w m h
  message-Inv w (AppMessage.http_pathsend m) c h = pathsend-Inv w m h
  message-Inv w (AppMessage.http_trailers m) c h = absurd c
  message-Inv w _ c h = unfold app_message in h

  call-Inv :
      (config : Config) (w : Recorded) (c : Call)
      → IsCovered c
      → Inv scope w
      → Inv scope (call env config c w).1
  unfolding call
  call-Inv config w (app none) k h = finished-Inv w h
  call-Inv config w (app (some m)) k h = unfold app_send in message-Inv w m k h
  call-Inv config w (protocol event) k h = handle-Inv config w event k h

pub run-Inv :
    (env : Platform) (config : Config) (scope : Scope) (calls : List Call) (w : Recorded)
    → All IsCovered calls
    → Inv scope w
    → Inv scope (run env config calls w)
unfolding run
run-Inv env config scope [] w k h = h
run-Inv env config scope (c ∷ cs) w k h =
    run-Inv env config scope cs (call env config c w).1 k.1 (call-Inv env scope config w c k.0 h)

pub request-Inv :
    (env : Platform) (config : Config) (s : HttpStream) (event : RequestEvent)
    → IsFresh s
    → (opened env config s event).0 ≡ ok tt
    → Inv (scope_of env config s event) (opened env config s event).1
unfolding handle send_error_response
request-Inv env config s event f h = elim (Result-cases (valid_server_name config event)) [
  | inl (valid, e) ↦ ground (arith, e)
  | inr (x, e) ↦ ground (arith, e)
]

-- Of a fresh stream that took its request, over every run of calls without trailers, calls that raise
-- included, the events go out in order, and what has gone out stands at the phase that the state
-- names. So there is one response at most, content only between it and the one end of its body, and
-- informational responses only before it.
pub run_ordered :
    (env : Platform) (config : Config) (s : HttpStream) (event : RequestEvent) (calls : List Call)
    → IsFresh s
    → (opened env config s event).0 ≡ ok tt
    → All IsCovered calls
    → let w = run env config calls (opened env config s event).1 in
      phase_of w.rest ≡ some (phase_for w.stream.state)
run_ordered env config s event calls f h k =
    (run-Inv env config (scope_of env config s event) calls (opened env config s event).1 k
      (request-Inv env config s event f h)).ordered

-- ===== src/HttpStream/Recorder/AccessLog.antt =====
-- What a response leaves in the access log, where the stream's flags and its state fall apart.
use nonecorn.Prelude.{inr, inl, ◌≡◌, ◌∷◌, ℕ, true, some, none, get_or, false, arith, ap, []}
use mathlib.Core.List.{head?}
use nonecorn.Exec.Results.{Result-cases}
use nonecorn.Utils.Headers.{build_and_validate_headers}
use nonecorn.Asgi.{
  StreamEvent, AppMessage, Config, Scope, ResponseStart, ResponseBody, ResponseTrailers,
}
use nonecorn.Stream.{access_entries, record_output}
use nonecorn.Platform.{Platform}
use nonecorn.HttpStream.{HttpState, handle, put_app, log_access, send_event}
use nonecorn.HttpStream.AppSend.{
  app_send, finish_response, send_trailers, close_after_trailers, summary_of,
}
use nonecorn.HttpStream.Recorder.{Recorded, call, run, app, protocol}

-- A stream that is sending its response to a client that is still there.
pub record IsSending (scope : Scope) (response : ResponseStart) (w : Recorded) : Type 0 where
  pub scoped : w.stream.scope ≡ some scope
  pub started : w.stream.response ≡ some response
  pub state : w.stream.state ≡ HttpState.response
  pub opened : w.stream.closed ≡ false
  pub attached : w.stream.app_put ≡ true

-- If the client goes away while a response is sent, and the application then sends the rest of its
-- body, the response is entered in the access log twice, first as if there were none.
pub run-logs_twice :
    (env : Platform) (config : Config) (scope : Scope) (response : ResponseStart) (w : Recorded)
    (id : ℕ) (m : ResponseBody)
    → IsSending scope response w
    → w.stream.trailers_expected ≡ false
    → get_or m.more_body false ≡ false
    → access_entries
        (run env config
          (protocol (StreamEvent.stream_closed id) ∷ app (some (AppMessage.http_body m)) ∷ [])
          w).rest
      ≡ some (summary_of response) ∷ none ∷ access_entries w.rest
unfolding run call handle put_app log_access app_send send_event finish_response
run-logs_twice env config scope response w id m h t e = ground arith

send_trailers-IsSending :
    (env : Platform) (scope : Scope) (response : ResponseStart) (w : Recorded)
    (m : ResponseTrailers)
    → IsSending scope response w
    → IsSending scope response (send_trailers env record_output scope m w).1
unfolding send_trailers send_event
send_trailers-IsSending env scope response w m h =
    elim (Result-cases (build_and_validate_headers (get_or m.headers []))) [
      | inl (out, e) ↦ ground (arith, e)
      | inr (x, e) ↦ ground (arith, e)
    ]

close_after_trailers-IsSending :
    (env : Platform) (scope : Scope) (response : ResponseStart) (w : Recorded)
    → IsSending scope response w
    → IsSending scope response (close_after_trailers env record_output scope w).1
unfolding close_after_trailers send_event
close_after_trailers-IsSending env scope response w h = ground arith

trailers_keep :
    (env : Platform) (scope : Scope) (response : ResponseStart) (w : Recorded)
    (m : ResponseTrailers)
    → IsSending scope response w
    → IsSending scope response (app_send env record_output (some (AppMessage.http_trailers m)) w).1
unfolding app_send
trailers_keep env scope response w m h =
    let sent = (send_trailers env record_output scope m w).1 in
    ground (
      arith,
      send_trailers-IsSending env scope response w m,
      close_after_trailers-IsSending env scope response sent,
    )

closed_entry :
    (env : Platform) (config : Config) (scope : Scope) (response : ResponseStart) (w : Recorded)
    (id : ℕ)
    → IsSending scope response w
    → access_entries (handle env config record_output (StreamEvent.stream_closed id) w).1.rest
      ≡ none ∷ access_entries w.rest
unfolding handle put_app log_access
closed_entry env config scope response w id h = ground arith

-- A response that ends with trailers is entered in the access log as if there were none, once its
-- stream is closed.
pub run-trailers_unlogged :
    (env : Platform) (config : Config) (scope : Scope) (response : ResponseStart) (w : Recorded)
    (id : ℕ) (m : ResponseTrailers)
    → IsSending scope response w
    → head? (
        access_entries
          (run env config
            (app (some (AppMessage.http_trailers m)) ∷ protocol (StreamEvent.stream_closed id) ∷ [])
            w).rest)
      ≡ some none
unfolding run call
run-trailers_unlogged env config scope response w id m h =
    ap head? (closed_entry env config scope response _ id (trailers_keep env scope response w m h))

-- ===== src/HttpStream/Refusals.antt =====
-- A request that HTTPStream (protocol/http_stream.py) refuses with a 404.
use nonecorn.Prelude.{
  sym, if◌then◌else◌, inr, inl, Bool-cases, refl, ◌≡◌, ℕ, true, false, arith, Option, List, some,
}
use mathlib.Core.Bool.{Bool, false≢true}
use nonecorn.Bytes.{Bytes, partition}
use nonecorn.Exec.{pass, Action, Result, ok, raise, continue}
use nonecorn.Exec.Keeps.{Keeps}
use nonecorn.Asgi.{Config, Header, RequestEvent, Scope, StreamEvent, Summary}
use nonecorn.Stream.{Output, World, access, send, update}
use nonecorn.Stream.Keeps.{Around, stream_rules}
use nonecorn.Platform.{Platform}
use nonecorn.Utils.Headers.{valid_server_name}
use nonecorn.HttpStream.{
  HttpStream, handle, handle_open, handle_request, is_ascii, log_access, scope_of,
  send_error_response, send_event,
}

module _ {W : Type 0} (P : W → Type 0) (emit : Output → Action (World HttpStream W))
    (responds : (id : ℕ) (headers : List Header) (status_code : ℕ) (reason : Bytes)
      → Keeps (Around P) (emit (send (StreamEvent.response id headers status_code reason))))
    (ends : (id : ℕ) (headers : List Header)
      → Keeps (Around P) (emit (send (StreamEvent.end_body id headers))))
    (logs : (scope : Scope) (summary : Option Summary)
      → Keeps (Around P) (emit (access scope summary))) where
  refusal-Keeps : (status_code : ℕ) → Keeps (Around P) (send_error_response emit status_code)
  unfolding send_error_response send_event log_access
  refusal-Keeps status_code = search (stream_rules, responds, ends, logs) depth 14

  -- what surrounds a stream keeps what it keeps at a response, its end and the access log, and a stream
  -- that returns is closed
  pub record IsRefused (r : Result (Unit {0})) (w : World HttpStream W) : Type 0 where
    pub rest : P w.rest
    pub closed : r ≡ ok tt → w.stream.closed ≡ true

  close_after :
      (r : Result (Unit {0})) (w : World HttpStream W)
      → Around P w
      → IsRefused
          (continue r (λ x. update (λ s. record s { closed = true })) w).0
          (continue r (λ x. update (λ s. record s { closed = true })) w).1
  close_after (ok x) w around = record { rest = around.rest; closed = λ e. refl }
  close_after (raise e) w around = record {
    rest = around.rest;
    closed = λ returns. ground (arith, returns);
  }

  handle_request-IsRefused :
      (env : Platform) (config : Config) (event : RequestEvent) (w : World HttpStream W)
      → valid_server_name config event ≡ ok false
      → P w.rest
      → IsRefused
          (handle_request env config emit event w).0
          (handle_request env config emit event w).1
  unfolding handle_request
  handle_request-IsRefused env config event w foreign around =
      let w' : World HttpStream W = record w {
        stream = record (w.stream) { scope = some (scope_of env config (w.stream) event) };
      } in
      elim (Bool-cases (is_ascii (partition b'?' event.raw_path).0)) [
        | inl ascii ↦
            rw (foreign, ascii)
              (close_after (send_error_response emit 404 w').0 (send_error_response emit 404 w').1
                ((refusal-Keeps 404).at w' (record { rest = around })))
        | inr other ↦
            rw other (record { rest = around; closed = λ returns. ground (arith, returns) })
      ]

  while_open :
      (b : Bool) (m : Action (World HttpStream W)) (w : World HttpStream W)
      → b ≡ false
      → IsRefused (m w).0 (m w).1
      → IsRefused (if b then pass w else m w).0 (if b then pass w else m w).1
  while_open true m w closed h = absurd (false≢true (sym closed))
  while_open false m w closed h = h

  pub handle-IsRefused :
      (env : Platform) (config : Config) (id : ℕ) (event : RequestEvent) (w : World HttpStream W)
      → w.stream.closed ≡ false
      → valid_server_name config event ≡ ok false
      → P w.rest
      → IsRefused
          (handle env config emit (StreamEvent.request id event) w).0
          (handle env config emit (StreamEvent.request id event) w).1
  unfolding handle handle_open
  handle-IsRefused env config id event w fresh foreign around =
      while_open w.stream.closed (handle_request env config emit event) w fresh
        (handle_request-IsRefused env config event w foreign around)

-- ===== src/HttpStream/Keeps.antt =====
-- What the surroundings of an HTTP stream keep at each output they keep over its `handle`.
use nonecorn.Prelude.{ℕ, Option}
use nonecorn.Exec.{Action, attribute_error}
use nonecorn.Exec.Keeps.{Keeps, Keeps-test, Keeps-throw, Keeps-pass}
use nonecorn.Asgi.{Config, Receive, RequestEvent, StreamEvent, Summary}
use nonecorn.Stream.Keeps.{Around, stream_rules}
use nonecorn.Stream.{Output, World}
use nonecorn.Platform.{Platform}
use nonecorn.HttpStream.{
  HttpStream, handle, handle_open, handle_request, handle_closed, put_app, log_access, send_event,
  send_error_response,
}

module _ {W : Type 0} (P : W → Type 0) (emit : Output → Action (World HttpStream W))
    (emits : (o : Output) → Keeps (Around P) (emit o)) where
  pub send_event-Keeps : (event : StreamEvent) → Keeps (Around P) (send_event emit event)
  unfolding send_event
  send_event-Keeps event = emits (Output.send event)

  put_app-Keeps : (message : Receive) → Keeps (Around P) (put_app emit message)
  unfolding put_app
  put_app-Keeps message =
      Keeps-test (λ w. w.stream.app_put) _ _ (emits (Output.put message))
        (Keeps-throw attribute_error)

  pub log_access-Keeps : (summary : Option Summary) → Keeps (Around P) (log_access emit summary)
  unfolding log_access
  log_access-Keeps summary = search (stream_rules, emits)

  pub send_error_response-Keeps : (status : ℕ) → Keeps (Around P) (send_error_response emit status)
  unfolding send_error_response
  send_error_response-Keeps status = search (stream_rules, emits, log_access-Keeps)

  handle_closed-Keeps : Keeps (Around P) (handle_closed emit)
  unfolding handle_closed
  handle_closed-Keeps = search (stream_rules, log_access-Keeps, put_app-Keeps)

  handle_request-Keeps :
      (env : Platform) (config : Config) (event : RequestEvent)
      → Keeps (Around P) (handle_request env config emit event)
  unfolding handle_request
  handle_request-Keeps env config event =
      search (stream_rules, emits, send_error_response-Keeps) depth 12

  handle_open-Keeps :
      (env : Platform) (config : Config) (event : StreamEvent)
      → Keeps (Around P) (handle_open env config emit event)
  unfolding handle_open
  handle_open-Keeps env config (StreamEvent.request id event) =
      handle_request-Keeps env config event
  handle_open-Keeps env config (StreamEvent.end_body id headers) =
      search (stream_rules, put_app-Keeps)
  handle_open-Keeps env config (StreamEvent.stream_closed id) = handle_closed-Keeps
  handle_open-Keeps env config (StreamEvent.body id bytes flush) = put_app-Keeps _
  handle_open-Keeps env config (StreamEvent.trailer_headers_send id headers end) = put_app-Keeps _
  handle_open-Keeps env config _ = Keeps-pass

  pub handle-Keeps :
      (env : Platform) (config : Config) (event : StreamEvent)
      → Keeps (Around P) (handle env config emit event)
  unfolding handle
  handle-Keeps env config event =
      Keeps-test (λ w. w.stream.closed) _ _ Keeps-pass (handle_open-Keeps env config event)

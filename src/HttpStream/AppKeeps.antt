-- ===== src/HttpStream/AppKeeps.antt =====
-- What the surroundings of an HTTP stream keep at each output they keep over its `app_send`.
use nonecorn.Prelude.{false, Option, some, none, List, [], Bool, ◌∷◌}
use nonecorn.Bytes.{Bytes, Text}
use nonecorn.Exec.{pass, gets, when, ◌>>=◌, ◌>>◌, Exec, Action, unexpected_message, type_error}
use nonecorn.Exec.Keeps.{Keeps-bind, Keeps, Keeps-test, Keeps-throw, Keeps-pass, Keeps-pure}
use nonecorn.Asgi.{
  StreamEvent, AppMessage, Header, ResponseStart, ResponsePush, ResponseBody, ResponseZeroCopy,
  ResponsePathSend, ResponseTrailers, Scope, StrValue,
}
use nonecorn.Stream.Keeps.{Around, stream_rules}
use nonecorn.Stream.{Output, World}
use nonecorn.Platform.{Platform}
use nonecorn.HttpStream.{is_request, send_event, send_error_response, HttpStream, HttpState}
use nonecorn.HttpStream.AppSend.{
  text_of, require, start_response, push_request, early_hint, finish_response, response_body,
  response_zerocopysend, send_chunks, send_path, response_pathsend, send_trailers,
  close_after_trailers, response_trailers, app_message, app_finished, app_send,
}
use nonecorn.HttpStream.Keeps.{send_event-Keeps, log_access-Keeps, send_error_response-Keeps}

module _ {W : Type 0} (P : W → Type 0) (env : Platform)
    (emit : Output → Action (World HttpStream W))
    (emits : (o : Output) → Keeps (Around P) (emit o)) where
  abbrev Kept : {A : Type 0} → Exec (World HttpStream W) A → Type 0
  Kept m = Keeps (Around P) m

  text_of-Keeps : (value : StrValue) → Kept (text_of value)
  text_of-Keeps StrValue.not_str = Keeps-throw type_error
  text_of-Keeps (StrValue.str text) = Keeps-pure text

  require-Keeps :
      (test : HttpState → Bool) (body : Action (World HttpStream W))
      → Kept body
      → Kept (require env emit test body)
  unfolding require
  require-Keeps test body keeps =
      Keeps-test (λ w. test w.stream.state) body _ keeps (Keeps-throw unexpected_message)

  start_response-Keeps : (start : ResponseStart) → Kept (start_response env emit start)
  unfolding start_response
  start_response-Keeps start = search (stream_rules, send_event-Keeps P emit emits) depth 16

  push_request-Keeps : (push : ResponsePush) → Kept (push_request env emit push)
  unfolding push_request
  push_request-Keeps push =
      search (stream_rules, send_event-Keeps P emit emits, text_of-Keeps) depth 20

  early_hint-Keeps : (links : List Bytes) → Kept (early_hint env emit links)
  unfolding early_hint
  early_hint-Keeps links =
      search (stream_rules, send_event-Keeps P emit emits, require-Keeps) depth 20

  finish_response-Keeps :
      (more : Option Bool) (headers : List Header) → Kept (finish_response env emit more headers)
  unfolding finish_response
  finish_response-Keeps more headers =
      search (stream_rules, send_event-Keeps P emit emits, log_access-Keeps P emit emits) depth 20

  response_body-Keeps : (message : ResponseBody) → Kept (response_body env emit message)
  unfolding response_body
  response_body-Keeps message =
      search (stream_rules, send_event-Keeps P emit emits, finish_response-Keeps) depth 20

  response_zerocopysend-Keeps :
      (message : ResponseZeroCopy) → Kept (response_zerocopysend env emit message)
  unfolding response_zerocopysend
  response_zerocopysend-Keeps message =
      search (stream_rules, send_event-Keeps P emit emits, finish_response-Keeps) depth 20

  send_chunks-Keeps : (chunks : List Bytes) → Kept (send_chunks env emit chunks)
  unfolding send_chunks
  send_chunks-Keeps [] = Keeps-pass
  send_chunks-Keeps (chunk ∷ chunks) = record {
    at = λ w.
        (Keeps-bind (send_event emit (StreamEvent.body w.stream.stream_id chunk false))
            (λ x. send_chunks env emit chunks) (send_event-Keeps P emit emits _)
            (λ x. send_chunks-Keeps chunks)).at
          w;
  }

  send_path-Keeps : (scope : Scope) (path : Text) → Kept (send_path env emit scope path)
  unfolding send_path
  send_path-Keeps scope path =
      search (stream_rules, send_event-Keeps P emit emits, send_chunks-Keeps) depth 12

  response_pathsend-Keeps : (message : ResponsePathSend) → Kept (response_pathsend env emit message)
  unfolding response_pathsend
  response_pathsend-Keeps message =
      search (stream_rules, send_path-Keeps, finish_response-Keeps) depth 20

  send_trailers-Keeps :
      (scope : Scope) (message : ResponseTrailers) → Kept (send_trailers env emit scope message)
  unfolding send_trailers
  send_trailers-Keeps scope message = search (stream_rules, send_event-Keeps P emit emits) depth 16

  close_after_trailers-Keeps : (scope : Scope) → Kept (close_after_trailers env emit scope)
  unfolding close_after_trailers
  close_after_trailers-Keeps scope = search (stream_rules, send_event-Keeps P emit emits) depth 16

  response_trailers-Keeps : (message : ResponseTrailers) → Kept (response_trailers env emit message)
  unfolding response_trailers
  response_trailers-Keeps message =
      search (stream_rules, send_trailers-Keeps, close_after_trailers-Keeps) depth 16

  app_message-Keeps : (message : AppMessage) → Kept (app_message env emit message)
  unfolding app_message
  app_message-Keeps (AppMessage.http_start start) = require-Keeps _ _ (start_response-Keeps start)
  app_message-Keeps (AppMessage.http_push push) = push_request-Keeps push
  app_message-Keeps (AppMessage.http_early_hint links) = early_hint-Keeps links
  app_message-Keeps (AppMessage.http_body message) = require-Keeps _ _ (response_body-Keeps message)
  app_message-Keeps (AppMessage.http_zerocopysend message) =
      require-Keeps _ _ (response_zerocopysend-Keeps message)
  app_message-Keeps (AppMessage.http_pathsend message) =
      require-Keeps _ _ (response_pathsend-Keeps message)
  app_message-Keeps (AppMessage.http_trailers message) =
      require-Keeps _ _ (response_trailers-Keeps message)
  app_message-Keeps _ = Keeps-throw unexpected_message

  abbrev ending : Action (World HttpStream W)
  ending = do
    st ← gets (λ w. w.stream.state)
    when (is_request st) (send_error_response emit 500)
    id ← gets (λ w. w.stream.stream_id)
    send_event emit (StreamEvent.stream_closed id)

  ending-Keeps : Kept ending
  ending-Keeps =
      search (stream_rules, send_event-Keeps P emit emits, send_error_response-Keeps P emit emits)
        depth 20

  app_finished-Keeps : Kept (app_finished env emit)
  unfolding app_finished
  app_finished-Keeps = Keeps-test (λ w. w.stream.closed) pass ending Keeps-pass ending-Keeps

  pub app_send-Keeps : (message : Option AppMessage) → Kept (app_send env emit message)
  unfolding app_send
  app_send-Keeps none = app_finished-Keeps
  app_send-Keeps (some message) = app_message-Keeps message

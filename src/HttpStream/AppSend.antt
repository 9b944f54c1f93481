-- ===== src/HttpStream/AppSend.antt =====
-- HTTPStream.app_send of src/hypercorn/protocol/http_stream.py: what the stream makes of the
-- application's messages. The tests of the chain of `elif`s on the state are `require`.
use nonecorn.Prelude.{
  is_some, is_empty, ◌∷◌, ◌++◌, ◌&&◌, some, not, none, map, if◌then◌else◌, get_or, false, any, [],
  Option, List, Bool,
}
use nonecorn.Bytes.{Text, Bytes, codes, same, strip}
use nonecorn.Exec.{
  pure, pass, Result, Exec, Action, throw, gets, lift, when, ◌>>=◌, ◌>>◌, unexpected_message,
  type_error,
}
use nonecorn.Asgi.{
  ResponseZeroCopy, ResponseTrailers, ResponsePathSend, ResponseBody, AppMessage, Header,
  StreamEvent, ResponseStart, ResponsePush, StrValue, Scope, Summary,
}
use nonecorn.Stream.{Output, World, attribute, update}
use nonecorn.Platform.{Platform}
use nonecorn.Utils.Utf8.{encode_utf8}
use nonecorn.Utils.Headers.{suppress_body, build_and_validate_headers}
use nonecorn.HttpStream.{
  HttpStream, send_error_response, is_response, HttpState, set_state, is_request, is_closed,
  is_push_version, send_event, log_access,
}

abbrev pub summary_of : ResponseStart → Summary
summary_of start = record { status = start.status; headers = get_or start.headers [] }

-- the headers of a pushed request that are taken from the scope
unfoldable pub authority_headers : List Header → List Header
authority_headers [] = []
authority_headers ((name, value) ∷ headers) =
    let rest = authority_headers headers in
    if same name (codes "host") then (codes ":authority", value) ∷ rest else rest

unfoldable pub accepts_trailers : List Header → Bool
accepts_trailers headers = any (λ h. same h.0 (codes "te") && same h.1 (codes "trailers")) headers

-- `if not isinstance(value, str): raise TypeError`
abbrev pub text_of : {S : Type 0} → StrValue → Exec S Text
text_of StrValue.not_str = throw type_error
text_of (StrValue.str text) = pure text

module _ {W : Type 0} (env : Platform) (emit : Output → Action (World HttpStream W)) where
  abbrev scope_now : Exec (World HttpStream W) Scope
  scope_now = gets (λ w. w.stream.scope) >>= attribute

  abbrev response_now : Exec (World HttpStream W) ResponseStart
  response_now = gets (λ w. w.stream.response) >>= attribute

  -- a branch that is taken if the stream's state passes the test, and else ends in the last `else`
  unfoldable pub require :
      (HttpState → Bool) → Action (World HttpStream W) → Action (World HttpStream W)
  require test body w = if test w.stream.state then body w else throw unexpected_message w

  unfoldable pub start_response : ResponseStart → Action (World HttpStream W)
  start_response start = do
    update
        (λ s. record s { response = some start; trailers_expected = get_or start.trailers false })
    headers ← lift (build_and_validate_headers (get_or start.headers []))
    id ← gets (λ w. w.stream.stream_id)
    send_event emit (StreamEvent.response id headers start.status [])
    set_state HttpState.response

  unfoldable pub push_request : ResponsePush → Action (World HttpStream W)
  unfolding authority_headers
  push_request push = do
    scope ← scope_now
    when (not (is_push_version scope.http_version)) (throw unexpected_message)
    path ← text_of push.path
    validated ← lift (build_and_validate_headers push.headers)
    id ← gets (λ w. w.stream.stream_id)
    send_event emit (
        StreamEvent.request id (record {
          headers =
              (codes ":scheme", encode_utf8 scope.scheme) ∷ authority_headers scope.headers
              ++ validated;
          http_version = scope.http_version;
          method = codes "GET";
          raw_path = encode_utf8 path;
          state = scope.state;
        }))

  unfoldable pub early_hint : List Bytes → Action (World HttpStream W)
  unfolding require
  early_hint links = do
    scope ← scope_now
    when (not (is_push_version scope.http_version)) (throw unexpected_message)
    require is_request (do
      id ← gets (λ w. w.stream.stream_id)
      send_event emit (
          StreamEvent.informational_response id (map (λ link. (codes "link", strip link)) links)
            103))

  -- `suppress_body(self.scope["method"], int(self.response["status"]))`
  abbrev suppressed : Exec (World HttpStream W) Bool
  suppressed = do
    scope ← scope_now
    response ← response_now
    lift (Result.ok (suppress_body scope.method response.status))

  -- The end of a response, unless more is to come.
  unfoldable pub finish_response : Option Bool → List Header → Action (World HttpStream W)
  finish_response more_body headers = do
    s ← gets (λ w. w.stream)
    when (not (get_or more_body false) && not s.trailers_expected && not (is_closed s.state)) (do
      set_state HttpState.closed
      response ← response_now
      log_access emit (some (summary_of response))
      send_event emit (StreamEvent.end_body s.stream_id headers)
      send_event emit (StreamEvent.stream_closed s.stream_id))

  unfoldable pub response_body : ResponseBody → Action (World HttpStream W)
  response_body message = do
    hidden ← suppressed
    id ← gets (λ w. w.stream.stream_id)
    when (not hidden && not (is_empty (get_or message.content []))) (
        send_event emit
          (StreamEvent.body id (get_or message.content []) (get_or message.flush false)))
    finish_response message.more_body (get_or message.headers [])

  unfoldable pub response_zerocopysend : ResponseZeroCopy → Action (World HttpStream W)
  response_zerocopysend message = do
    hidden ← suppressed
    id ← gets (λ w. w.stream.stream_id)
    when (not hidden && is_some message.file)
        (send_event emit (StreamEvent.zero_copy_send id message.file message.offset message.count))
    finish_response message.more_body (get_or message.headers [])

  unfoldable pub send_chunks : List Bytes → Action (World HttpStream W)
  send_chunks [] = pass
  send_chunks (chunk ∷ chunks) = do
    id ← gets (λ w. w.stream.stream_id)
    send_event emit (StreamEvent.body id chunk false)
    send_chunks chunks

  -- The file goes out by its descriptor, or chunk by chunk where the server has no sendfile.
  unfoldable pub send_path : Scope → Text → Action (World HttpStream W)
  send_path scope path =
      if any (same (codes "http.response.zerocopysend")) scope.extensions
      then (do
        id ← gets (λ w. w.stream.stream_id)
        send_event emit (StreamEvent.zero_copy_send id (some (env.open_fd path)) none none))
      else send_chunks (env.read_chunks path)

  unfoldable pub response_pathsend : ResponsePathSend → Action (World HttpStream W)
  response_pathsend message = do
    hidden ← suppressed
    scope ← scope_now
    when (not hidden && env.path_exists message.path) (send_path scope message.path)
    finish_response message.more_body []

  -- the loop over the request's headers, and its `else`
  unfoldable pub send_trailers : Scope → ResponseTrailers → Action (World HttpStream W)
  unfolding accepts_trailers
  send_trailers scope message = do
    id ← gets (λ w. w.stream.stream_id)
    if accepts_trailers scope.headers
        then (do
          headers ← lift (build_and_validate_headers (get_or message.headers []))
          send_event emit (
              StreamEvent.trailer_headers_send id headers
                (not (get_or message.more_trailers false))))
        else when (same scope.http_version (codes "1.1"))
            (send_event emit (StreamEvent.end_body id []))

  unfoldable pub close_after_trailers : Scope → Action (World HttpStream W)
  close_after_trailers scope = do
    id ← gets (λ w. w.stream.stream_id)
    when (is_push_version scope.http_version) (send_event emit (StreamEvent.end_body id []))
    send_event emit (StreamEvent.stream_closed id)

  unfoldable pub response_trailers : ResponseTrailers → Action (World HttpStream W)
  response_trailers message = do
    scope ← scope_now
    send_trailers scope message
    when (not (get_or message.more_trailers false)) (close_after_trailers scope)

  -- the branch of `app_send` for a message
  unfoldable pub app_message : AppMessage → Action (World HttpStream W)
  unfolding require start_response push_request early_hint response_body response_zerocopysend
      response_pathsend response_trailers
  app_message (AppMessage.http_start start) = require is_request (start_response start)
  app_message (AppMessage.http_push push) = push_request push
  app_message (AppMessage.http_early_hint links) = early_hint links
  app_message (AppMessage.http_body message) = require is_response (response_body message)
  app_message (AppMessage.http_zerocopysend message) =
      require is_response (response_zerocopysend message)
  app_message (AppMessage.http_pathsend message) = require is_response (response_pathsend message)
  app_message (AppMessage.http_trailers message) = require is_response (response_trailers message)
  app_message _ = throw unexpected_message

  -- the branch of `app_send` for None: the application has returned
  unfoldable pub app_finished : Action (World HttpStream W)
  app_finished w =
      if w.stream.closed
      then pass w
      else (do
        st ← gets (λ w. w.stream.state)
        when (is_request st) (send_error_response emit 500)
        id ← gets (λ w. w.stream.stream_id)
        send_event emit (StreamEvent.stream_closed id))
          w

  unfoldable pub app_send : Option AppMessage → Action (World HttpStream W)
  unfolding app_message app_finished
  app_send none = app_finished
  app_send (some message) = app_message message

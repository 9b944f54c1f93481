-- ===== src/Http1/Receive.antt =====
-- `handle` of H11Protocol (protocol/h11.py) and the methods that it calls: what the protocol makes
-- of the bytes that it receives.
use nonecorn.Prelude.{
  ◌∷◌, ◌++◌, ◌&&◌, ◌||◌, ◌+◌, ℕ, zero, suc, some, none, not, if◌then◌else◌, [], Option, List, Bool,
  true, false, any,
}
use nonecorn.Bytes.{Bytes, Text, codes, lower, same, split, strip_latin1, upper}
use nonecorn.Exec.{
  Exec, Action, ok, pass, pure, throw, when, ◌>>=◌, ◌>>◌, h2_protocol_assumed,
  h2c_protocol_required,
}
use nonecorn.Asgi.{Header, RequestEvent, StreamEvent}
use nonecorn.HttpStream.{init as init_http}
use nonecorn.Websocket.Stream.{init as init_ws}
use nonecorn.Worker.{mark_request}
use nonecorn.Http1.H11.{H11Event, H11Request, Role, Sendable}
use nonecorn.Http1.State.{Http1, IoEvent, send_io, update_rest}
use nonecorn.Http1.Send.{close_stream, is_passthrough, send_error_response, send_made}
use nonecorn.Http1.Streams.{Connected, Site, Stream, handle_stream}

-- `value.decode("latin1").strip()` of the last header whose name, stripped and in lower case, is the
-- given one; the empty text where there is none
unfoldable pub header_value : Text → Text → List Header → Text
header_value key found [] = found
header_value key found ((name, value) ∷ headers) =
    header_value key (if same (lower (strip_latin1 name)) key then strip_latin1 value else found)
      headers

-- the test of `_create_stream` for a websocket
unfoldable pub is_websocket : H11Request → Bool
is_websocket request =
    any (λ token. same (strip_latin1 token) (codes "upgrade"))
      (split b',' (lower (header_value (codes "connection") [] request.headers)))
    && same (lower (header_value (codes "upgrade") [] request.headers)) (codes "websocket")
    && same (upper request.method) (codes "GET")

-- `has_body` of `_check_protocol`
abbrev pub names_body : Header → Bool
names_body (name, value) =
    let name = lower (strip_latin1 name) in
    same name (codes "content-length") || same name (codes "transfer-encoding")

-- the headers and the settings of an H2CProtocolRequiredError
abbrev pub h2c_headers : List Header → List Header
h2c_headers [] = []
h2c_headers ((name, value) ∷ headers) =
    let rest = (name, value) ∷ h2c_headers headers in
    if not (same (lower name) (codes "http2-settings")) && same (lower name) (codes "host")
    then (codes ":authority", value) ∷ rest
    else rest

abbrev pub h2c_settings : Bytes → List Header → Bytes
h2c_settings found [] = found
h2c_settings found ((name, value) ∷ headers) =
    h2c_settings (if same (lower name) (codes "http2-settings") then value else found) headers

-- `our_state in {IDLE, SEND_RESPONSE}`
abbrev pub answers : Role → Bool
answers Role.idle = true
answers Role.send_response = true
answers _ = false

-- How a round of the loop of `_handle_events` ends, and how the loop does. A loop that waits goes on
-- from its top once `can_read` is set.
pub data Round : Type 0 where
  again stop wait : Round

pub data Loop : Type 0 where
  finished waiting unfinished : Loop

module _ (site : Site) where
  open site use {h, ws, env, config, settings, files}

  -- `_check_protocol`, for the bytes of `trailing_data`
  unfoldable pub check_before : Bytes → H11Request → Action (Connected site)
  check_before trailing request =
      if same (lower (header_value (codes "upgrade") [] request.headers)) (codes "h2c")
        && not (any names_body request.headers)
      then (do
        send_made h (
            Sendable.informational_response 101
              (settings.server_headers
                ++ (codes "connection", codes "upgrade") ∷ (codes "upgrade", codes "h2c") ∷ [])
              (codes "Switching Protocols"))
        throw (
            h2c_protocol_required trailing
              ((codes ":method", request.method)
                ∷ (codes ":path", request.target)
                ∷ h2c_headers request.headers)
              (h2c_settings [] request.headers)))
      else if same request.method (codes "PRI")
          && same request.target (codes "*")
          && same request.http_version (codes "2.0")
      then throw (h2_protocol_assumed (codes "PRI * HTTP/2.0\r\n\r\n" ++ trailing))
      else pass

  -- `_check_protocol`
  unfoldable pub check_protocol : H11Request → Action (Connected site)
  check_protocol request w = check_before (h.trailing_data w.rest.connection) request w

  -- the bytes that h11 holds go over to the H11WSConnection
  unfoldable pub make_websocket : Action (Connected site)
  make_websocket w = (
    ok tt,
    record {
      stream =
          Stream.websocket
            (init_ws config settings.ssl settings.client settings.server 1 settings.has_tls);
      rest = record w.rest {
        attached = true;
        passthrough = some (h.trailing_data w.rest.connection);
      };
    },
  )

  unfoldable pub make_http : Action (Connected site)
  make_http w = (
    ok tt,
    record {
      stream =
          Stream.http (init_http settings.ssl settings.client settings.server 1 settings.has_tls);
      rest = record w.rest { attached = true };
    },
  )

  -- the stream of a request
  unfoldable pub make_stream : H11Request → Action (Connected site)
  make_stream request = if is_websocket request then make_websocket else make_http

  abbrev pub request_event : H11Request → RequestEvent
  request_event request = record {
    headers = if settings.pass_raw_headers then request.raw_headers else request.headers;
    http_version = request.http_version;
    method = upper request.method;
    raw_path = request.target;
    state = settings.connection_state;
  }

  -- `_create_stream`
  unfoldable pub create_stream : H11Request → Action (Connected site)
  create_stream request = do
    make_stream request
    handle_stream site (StreamEvent.request 1 (request_event request))
    update_rest (λ p. record p {
      keep_alive_requests = p.keep_alive_requests + 1;
      context = mark_request p.context;
    })

  -- the branch for a Request
  unfoldable pub handle_request : H11Request → Action (Connected site)
  handle_request request = do
    send_io (IoEvent.updated false)
    check_protocol request
    create_stream request

  -- the branch for a RemoteProtocolError; `our_state` of an H11WSConnection is None, but its
  -- `next_event` does not raise
  unfoldable pub handle_error : ℕ → Action (Connected site)
  handle_error status_hint w =
      (do
        when (answers (h.our_state w.rest.connection))
            (send_error_response h settings.server_headers status_hint)
        send_io IoEvent.closed)
        w

  -- the branches for the events of a stream
  unfoldable pub feed : StreamEvent → Exec (Connected site) Round
  feed event w =
      if w.rest.attached
      then (do handle_stream site event; pure Round.again) w
      else pure Round.stop w

  unfoldable pub handle_h11_event : H11Event → Exec (Connected site) Round
  handle_h11_event (H11Event.request request) = do handle_request request; pure Round.again
  handle_h11_event (H11Event.content bytes) = feed (StreamEvent.body 1 bytes false)
  handle_h11_event (H11Event.end_of_message headers) = feed (StreamEvent.end_body 1 headers)
  handle_h11_event (H11Event.ws_bytes bytes) = feed (StreamEvent.ws_data 1 bytes false)
  handle_h11_event H11Event.paused = do
    update_rest (λ p. record p { can_read = false })
    pure Round.wait
  handle_h11_event H11Event.connection_closed = pure Round.stop
  handle_h11_event H11Event.need_data = pure Round.stop
  handle_h11_event (H11Event.remote_protocol_error status_hint) = do
    handle_error status_hint
    pure Round.stop

  -- `self.connection.next_event()`, of h11 or of H11WSConnection
  unfoldable pub next_from : Option Bytes → Http1 h → H11Event × Http1 h
  next_from none p =
      let (event, connection) = h.next_event p.connection in
      (event, record p { connection = connection })
  next_from (some []) p = (H11Event.need_data, p)
  next_from (some (b ∷ bs)) p = (H11Event.ws_bytes (b ∷ bs), record p { passthrough = some [] })

  unfoldable pub next_event : Exec (Connected site) H11Event
  next_event w =
      let (event, p) = next_from w.rest.passthrough w.rest in (ok event, record w { rest = p })

  -- the answer to a client that waits for it before it sends a body
  unfoldable pub continue_100 : Action (Connected site)
  continue_100 w =
      when (not (is_passthrough w.rest.passthrough) && h.waits_for_100_continue w.rest.connection)
        (send_made h (Sendable.informational_response 100 settings.server_headers [])) w

  -- one round of the loop of `_handle_events`
  unfoldable pub round : Exec (Connected site) Round
  round = do continue_100; event ← next_event; handle_h11_event event

  -- what follows a round, before `more` rounds
  unfoldable pub go_on : Exec (Connected site) Loop → Round → Exec (Connected site) Loop
  go_on more Round.again = more
  go_on more Round.stop = pure Loop.finished
  go_on more Round.wait = pure Loop.waiting

  -- `_handle_events`, for as many rounds as the fuel says
  unfoldable pub handle_events : ℕ → Exec (Connected site) Loop
  handle_events zero = pure Loop.unfinished
  handle_events (suc fuel) = do end ← round; go_on (handle_events fuel) end

  -- `self.connection.receive_data`
  unfoldable pub receive_bytes : Bytes → Action (Connected site)
  receive_bytes bytes = update_rest (λ p. elim p.passthrough [
    | none ↦ record p { connection = h.receive_data bytes p.connection }
    | some buffer ↦ record p { passthrough = some (buffer ++ bytes) }
  ])

  -- `handle` of RawData
  unfoldable pub handle_bytes : ℕ → Bytes → Exec (Connected site) Loop
  handle_bytes fuel bytes = do receive_bytes bytes; handle_events fuel

  -- `stream.handle` of a StreamClosed, by the protocol
  unfoldable pub close : Action (Connected site)
  close = handle_stream site (StreamEvent.stream_closed 1)

  -- `handle` of Closed
  unfoldable pub handle_closed : Action (Connected site)
  handle_closed = close_stream h close

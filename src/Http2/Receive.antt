-- ===== src/Http2/Receive.antt =====
-- `handle` of H2Protocol (protocol/h2.py) and the methods that it calls: what the protocol makes of
-- what it receives. `_create_server_push` and `stream_send` as the streams have it are here too.
use nonecorn.Multiplex.{app_send_by, handle_object}
use nonecorn.Prelude.{
  ◌∷◌, ◌==◌, ◌+◌, ◌++◌, ℕ, true, some, set_key, none, ltb, length, is_some, if◌then◌else◌, has,
  false, at_key, all, add, [], Option, List, Bool,
}
use nonecorn.Bytes.{Bytes, Text, codes, same, upper}
use nonecorn.Exec.{
  Action, Error, Exec, Result, ok, raise, attempt, pass, pure, throw, lift, gets, modify, when,
  ◌>>=◌, ◌>>◌, key_error, name_error, unicode_error, missing_stream, duplicate_stream,
}
use nonecorn.Asgi.{AppMessage, Header, StreamEvent}
use nonecorn.Http1.State.{IoEvent}
use nonecorn.Utils.Headers.{filter_pseudo_headers}
use nonecorn.HttpStream.{init as init_http}
use nonecorn.Websocket.Stream.{init as init_ws}
use nonecorn.Worker.{mark_request}
use nonecorn.Http2.Libraries.{H2Event, PriorityUpdate}
use nonecorn.Http2.StreamBuffer.{StreamBuffer, blank}
use nonecorn.Http1.Streams.{Stream}
use nonecorn.Http2.State.{
  kept, makers, H2Site, Http2, Others, flush, is_protocol_error, on_connection, on_priority,
  send_io, set_has_data,
}
use nonecorn.Http2.Send.{close_stream, stream_send}
use nonecorn.Prelude.{at_key, set_key, has, add, is_some, all}

-- `method` and `raw_path` once the loop over the headers has ended
abbrev pub is_ascii : Bytes → Bool
is_ascii bytes = all (λ c. ltb c 128) bytes

unfoldable pub read_request :
    Option Text → Option Bytes → List Header → Result (Option Text × Option Bytes)
read_request method raw_path [] = ok (method, raw_path)
read_request method raw_path ((name, value) ∷ headers) =
    let rest = read_request (some (upper value)) raw_path headers in
    let rest' = read_request method (some value) headers in
    let rest'' = read_request method raw_path headers in
    if same name (codes ":method")
    then (if is_ascii value then rest else raise unicode_error)
    else if same name (codes ":path")
    then rest'
    else rest''

-- a local variable that may not be bound yet
abbrev pub bound : {A S : Type 0} → Option A → Exec S A
bound none = throw name_error
bound (some a) = pure a

abbrev pub is_missing : Error → Bool
is_missing missing_stream = true
is_missing _ = false

abbrev pub is_lookup_error : Error → Bool
is_lookup_error key_error = true
is_lookup_error _ = false

-- `event.depends_on or None`
abbrev pub parent_of : PriorityUpdate → Option ℕ
parent_of update = if update.depends_on == 0 then none else some update.depends_on

module _ (site : H2Site) (others : Others site) where
  open site use {h, t, ws, env, config, settings}

  -- `self.streams[id].handle`
  unfoldable pub handle_stream :
      (StreamEvent → Action (Http2 site)) → ℕ → StreamEvent → Action (Http2 site)
  handle_stream send id event p =
      (if has id p.streams
          then handle_object (makers site) (kept site) send id event
          else throw key_error)
        p

  -- the stream of a request, and its buffer
  unfoldable pub make_stream : ℕ → Text → Action (Http2 site)
  make_stream id method = modify (λ p. record p {
    streams = add id p.streams;
    objects =
        set_key id
          (if same method (codes "CONNECT")
            then Stream.websocket
                (init_ws config settings.ssl settings.client settings.server id settings.has_tls)
            else Stream.http
                (init_http settings.ssl settings.client settings.server id settings.has_tls))
          p.objects;
    buffers = set_key id blank p.buffers;
  })

  -- what follows `priority.insert_stream`
  unfoldable pub after_insert : ℕ → Result (Unit {0}) → Action (Http2 site)
  after_insert id (raise duplicate_stream) = pass
  after_insert id (raise e) = throw e
  after_insert id (ok x) = on_priority site (t.block id)

  unfoldable pub insert_blocked : ℕ → Action (Http2 site)
  insert_blocked id p =
      let (r, tree) = t.insert_stream id p.priority in
      after_insert id r (record p { priority = tree })

  unfoldable pub count_request : Action (Http2 site)
  count_request = modify (λ p. record p {
    keep_alive_requests = p.keep_alive_requests + 1;
    context = mark_request p.context;
  })

  -- `_create_stream`, with the `stream_send` of the stream
  unfoldable pub create_stream :
      (StreamEvent → Action (Http2 site)) → ℕ → List Header → Action (Http2 site)
  create_stream send id headers = do
    (found, raw_path) ← lift (read_request none none headers)
    method ← bound found
    make_stream id method
    insert_blocked id
    kept ← lift (filter_pseudo_headers headers)
    path ← bound raw_path
    handle_stream send id (
        StreamEvent.request id (record {
          headers = kept;
          http_version = codes "2";
          method = method;
          raw_path = path;
          state = settings.connection_state;
        }))
    count_request

  abbrev pub push_headers : Bytes → List Header → List Header
  push_headers path headers =
      (codes ":method", codes "GET") ∷ (codes ":path", path) ∷ headers ++ settings.server_headers

  -- The `stream_send` of a stream that handles its request, or the end of its body: it is sent no
  -- Request by then.
  unfoldable pub send_nested : StreamEvent → Action (Http2 site)
  send_nested = stream_send site others (λ id path headers. pass)

  -- what follows `push_stream` and the flush, or their ProtocolError
  unfoldable pub after_push : ℕ → List Header → Result (Unit {0}) → Action (Http2 site)
  after_push id headers (raise e) = if is_protocol_error site e then pass else throw e
  after_push id headers (ok x) = do
    create_stream send_nested id headers
    handle_stream send_nested id (StreamEvent.end_body id [])
    modify (λ p. record p { keep_alive_requests = p.keep_alive_requests + 1 })

  -- `_create_server_push`
  unfoldable pub create_server_push : ℕ → Bytes → List Header → Action (Http2 site)
  create_server_push id path headers = do
    pushed ← on_connection site h.next_available_stream_id
    let all_headers = push_headers path headers
    r ← λ p.
        let (r, p') = (do on_connection site (h.push_stream id pushed all_headers); flush site) p in
        (ok r, p')
    after_push pushed all_headers r

  -- the `stream_send` that the streams have
  unfoldable pub send : StreamEvent → Action (Http2 site)
  send = stream_send site others create_server_push

  unfoldable pub unblock_all : List (ℕ × StreamBuffer) → Action (Http2 site)
  unblock_all [] = pass
  unblock_all ((id, b) ∷ buffers) = do on_priority site (t.unblock id); unblock_all buffers

  -- `_window_updated`
  unfoldable pub unblock_windows : Option ℕ → Action (Http2 site)
  unblock_windows none p = unblock_all p.buffers p
  unblock_windows (some id) p =
      (if id == 0
          then unblock_all p.buffers
          else when (is_some (at_key id p.buffers)) (on_priority site (t.unblock id)))
        p

  unfoldable pub window_updated : Option ℕ → Action (Http2 site)
  window_updated id = do unblock_windows id; set_has_data site

  -- `_priority_updated`
  unfoldable pub priority_updated : PriorityUpdate → Action (Http2 site)
  priority_updated update = do
    attempt is_missing
        (on_priority site
          (t.reprioritize update.stream_id (parent_of update) update.weight update.exclusive))
        (do
          on_priority site
              (t.insert_update update.stream_id (parent_of update) update.weight update.exclusive)
          on_priority site (t.block update.stream_id))
    set_has_data site

  -- a request once the worker was told to end
  unfoldable pub refuse_request : ℕ → Action (Http2 site)
  refuse_request id = do
    on_connection site (h.reset_stream id)
    on_connection site (h.max_concurrent_streams 0)

  unfoldable pub take_request : ℕ → List Header → Action (Http2 site)
  take_request id headers = do create_stream send id headers; send_io site (IoEvent.updated false)

  unfoldable pub limit_requests : Action (Http2 site)
  limit_requests p =
      when (ltb settings.keep_alive_max_requests p.keep_alive_requests)
        (on_connection site h.close_connection) p

  -- the branch for a RequestReceived
  unfoldable pub accept_request : ℕ → List Header → Action (Http2 site)
  accept_request id headers p =
      (do if p.terminated then refuse_request id else take_request id headers; limit_requests) p

  unfoldable pub handle_h2_event : H2Event → Action (Http2 site)
  handle_h2_event (H2Event.request_received id headers) = accept_request id headers
  handle_h2_event (H2Event.data_received id bytes length) = do
    handle_stream send id (StreamEvent.body id bytes false)
    on_connection site (h.acknowledge_received_data length id)
  handle_h2_event (H2Event.stream_ended id) =
      attempt is_lookup_error (handle_stream send id (StreamEvent.end_body id [])) pass
  handle_h2_event (H2Event.stream_reset id) = do close_stream site id; window_updated (some id)
  handle_h2_event (H2Event.window_updated id) = window_updated (some id)
  handle_h2_event (H2Event.priority_updated update) = priority_updated update
  handle_h2_event (H2Event.remote_settings_changed initial_window_size) =
      when initial_window_size (window_updated none)
  handle_h2_event H2Event.connection_terminated = send_io site IoEvent.closed
  handle_h2_event (H2Event.trailers_received id headers) =
      handle_stream send id (StreamEvent.trailer_headers_send id headers true)
  handle_h2_event H2Event.other = pass

  -- the loop of `_handle_events`
  unfoldable pub handle_each : List H2Event → Action (Http2 site)
  handle_each [] = pass
  handle_each (event ∷ events) = do handle_h2_event event; handle_each events

  -- `_handle_events`
  unfoldable pub handle_events : List H2Event → Action (Http2 site)
  handle_events events = do handle_each events; flush site

  -- what follows `receive_data`
  unfoldable pub after_receive : Result (List H2Event) → Action (Http2 site)
  after_receive (ok events) = handle_events events
  after_receive (raise e) =
      if is_protocol_error site e then (do flush site; send_io site IoEvent.closed) else throw e

  -- `handle` of RawData
  unfoldable pub handle_bytes : Bytes → Action (Http2 site)
  handle_bytes bytes p =
      let (r, connection) = h.receive_data bytes p.connection in
      after_receive r (record p { connection = connection })

  unfoldable pub close_streams : List ℕ → Action (Http2 site)
  close_streams [] = pass
  close_streams (id ∷ ids) = do close_stream site id; close_streams ids

  -- `handle` of Closed
  unfoldable pub handle_closed : Action (Http2 site)
  handle_closed = do
    modify (λ p. record p { closed = true })
    ids ← gets (λ p. p.streams)
    close_streams ids
    set_has_data site

  unfoldable pub initiate_connection : Option Bytes → Action (Http2 site)
  initiate_connection none = on_connection site h.initiate_connection
  initiate_connection (some upgrade) = on_connection site (h.initiate_upgrade_connection upgrade)

  -- the request that came over HTTP/1, with an upgrade
  unfoldable pub create_first : Option (List Header) → Action (Http2 site)
  create_first none = pass
  create_first (some headers) = do
    create_stream send 1 headers
    handle_stream send 1 (StreamEvent.end_body 1 [])

  -- `initiate`
  unfoldable pub initiate : Option (List Header) → Option Bytes → Action (Http2 site)
  initiate headers upgrade = do
    initiate_connection upgrade
    flush site
    create_first headers
    modify (λ p. record p { sending = true })

  -- `app_send` of the stream with this id, by its application
  unfoldable pub app_send : ℕ → Option AppMessage → Action (Http2 site)
  app_send id message = app_send_by (makers site) (kept site) send id message

-- ===== src/Tests/Http2Connection.antt =====
-- An HTTP/2 connection over an h2 that reads one event for each byte, and a tree that takes its active
-- streams in turn.
use nonecorn.Multiplex.{handle_by, handle_object, http_emit}
use nonecorn.Prelude.{
  ◌++◌, ◌∷◌, ◌≡◌, ◌≤◌, ◌<◌, ◌==◌, ℕ, Option, none, some, List, [], true, false, map, length, has,
  add, discard, at_key, refl, arith, if◌then◌else◌,
}
use nonecorn.Bytes.{Bytes, codes, upper}
use nonecorn.Asgi.{Header, StreamEvent}
use nonecorn.Exec.{ok, raise, key_error}
use nonecorn.Http2.Libraries.{H2, H2Event, PriorityTree, Window}
use nonecorn.Http2.StreamBuffer.{StreamBuffer, blank, pop}
use nonecorn.Http2.State.{
  H2Settings, H2Site, Http2, Others, buffer_of, flush, init, is_idle_protocol, wait_for,
}
use nonecorn.Http2.SendTask.{
  SendLoop, end_if_complete, forget, next_chunk, next_stream, pop_buffer, send_chunk, send_data,
  send_round, send_task, try_send,
}
use nonecorn.Http2.SendTask.Work.{Scheduler}
use nonecorn.Http2.SendTask.Ends.{send_task-ends}
use nonecorn.Http2.SendTask.Bounds.{next_chunk-fits}
use nonecorn.Http2.Send.{
  drain_buffer, finish_content, send_event, send_response, send_trailers, stream_send, wake,
}
use nonecorn.Http2.Receive.{
  accept_request, after_insert, after_receive, count_request, create_stream, handle_bytes,
  handle_closed, handle_each, handle_events, handle_h2_event, handle_stream, insert_blocked,
  limit_requests, make_stream, read_request, send, take_request,
}
use nonecorn.Http2.Flushed.{handle_bytes-flushes, is_flushed}
use nonecorn.Http2.Gone.{handle_bytes-gone, send_task-orphan}
use nonecorn.Http2.Trailers.{send_trailers-content}
use nonecorn.Http2.Busy.{accept_request-stuck}
use nonecorn.Http2.Closing.{handle_closed-ends}
use nonecorn.Http1.State.{IoEvent, Effect}
use nonecorn.Http1.Streams.{Stream}
use nonecorn.HttpStream.{init as init_http}
use nonecorn.Http1.Idle.{told_idle}
use nonecorn.Worker.{init as init_worker}
use nonecorn.Worker.{mark_request}
use nonecorn.Utils.Headers.{filter_loop, filter_pseudo_headers, is_pseudo}
use nonecorn.Tests.Data.{config, env}
use nonecorn.Tests.Http.{http}
use nonecorn.Tests.Websocket.{ws}

abbrev foreign_headers : List Header
foreign_headers =
    (codes ":method", codes "GET")
    ∷ (codes ":path", codes "/")
    ∷ (codes ":authority", codes "elsewhere")
    ∷ []

abbrev event_of : ℕ → H2Event
event_of c =
    if c == b'r'
    then H2Event.request_received 1 foreign_headers
    else if c == b'd'
    then H2Event.data_received 7 (codes "late") 4
    else H2Event.other

-- the connection is what it has to send
abbrev h2 : H2
h2 = record {
  Connection = Bytes;
  connection = [];
  initiate_connection = λ c. (ok tt, c);
  initiate_upgrade_connection = λ upgrade c. (ok tt, c);
  receive_data = λ bytes c. (ok (map event_of bytes), c);
  data_to_send = λ c. (c, []);
  send_headers = λ id headers end c. (ok tt, c ++ codes "headers");
  send_data = λ id bytes c. (ok tt, c ++ bytes);
  end_stream = λ id c. (ok tt, c);
  reset_stream = λ id c. (ok tt, c);
  max_concurrent_streams = λ n c. (ok tt, c);
  close_connection = λ c. (ok tt, c);
  acknowledge_received_data = λ n id c. (ok tt, c);
  local_flow_control_window = λ id c. (ok (Window.room 2), c);
  max_outbound_frame_size = λ c. 16384;
  next_available_stream_id = λ c. (ok 2, c);
  push_stream = λ id pushed headers c. (ok tt, c);
}

abbrev first : List ℕ → Option ℕ
first [] = none
first (id ∷ ids) = some id

-- the tree is its active streams
abbrev turns : PriorityTree
turns = record {
  Tree = List ℕ;
  tree = [];
  missing_is_key_error = true;
  next = λ ids. (first ids, ids);
  block = λ id ids. (ok tt, discard id ids);
  unblock = λ id ids. (ok tt, add id ids);
  remove_stream = λ id ids. (ok tt, discard id ids);
  insert_stream = λ id ids. (ok tt, add id ids);
  insert_update = λ id parent weight exclusive ids. (ok tt, add id ids);
  reprioritize = λ id parent weight exclusive ids. (ok tt, ids);
}

first-has : (ids : List ℕ) (id : ℕ) → first ids ≡ some id → has id ids ≡ true
first-has [] id e = ground (arith, e)
first-has (j ∷ ids) id e = ground (arith, e)

length-discard-le : (id : ℕ) (ids : List ℕ) → length (discard id ids) ≤ length ids
length-discard-le id [] = omega arith
length-discard-le id (j ∷ ids) = ground (arith, length-discard-le id ids)

length-discard-lt :
    (id : ℕ) (ids : List ℕ) → has id ids ≡ true → length (discard id ids) < length ids
length-discard-lt id [] e = ground (arith, e)
length-discard-lt id (j ∷ ids) e = ground (arith, e, length-discard-lt id ids)

kept : (ids : List ℕ) → length ids ≤ length ids
kept ids = omega arith

abbrev scheduler : Scheduler turns
scheduler = record {
  active = length;
  is_active = has;
  next-is_active = first-has;
  next-le = kept;
  block-ok = λ id ids active. refl;
  block-lt = length-discard-lt;
  remove-le = length-discard-le;
  remove-lt = length-discard-lt;
}

abbrev h2_settings : H2Settings
h2_settings = record {
  ssl = false;
  client = none;
  server = none;
  has_tls = false;
  connection_state = [];
  keep_alive_max_requests = 1000;
  server_headers = [];
  show = λ n. codes "404";
}

abbrev pub h2_site : H2Site
h2_site = record { h = h2; t = turns; ws = ws; env = env; config = config; settings = h2_settings }

-- while a task waits, the task that sends has five rounds
abbrev pub sending : Others h2_site
sending wait p = (send_task h2_site 5 p).1

abbrev start : Http2 h2_site
start = init h2_site (init_worker none)

abbrev filled : StreamBuffer
filled = record blank { buffer = codes "abc" }

-- stream 3 has something to send
abbrev loaded : Http2 h2_site
loaded = record start { priority = 3 ∷ []; buffers = (3, filled) ∷ [] }

send_task-ends_example : ¬ ((send_task h2_site 6 loaded).0 ≡ ok SendLoop.unfinished)
unfolding init
send_task-ends_example = send_task-ends h2_site scheduler 6 loaded (omega arith)

next_chunk-fits_example :
    (bytes : Bytes) × (rest : StreamBuffer) × ((next_chunk h2_site 3 loaded).0 ≡ ok bytes)
    × (at_key 3 (next_chunk h2_site 3 loaded).1.buffers ≡ some rest)
    × (bytes ++ rest.buffer ≡ codes "abc")
    × (length bytes ≤ 2)
    × (length bytes ≤ 16384)
    × (0 < 2 → 0 < 16384 → bytes ≡ [] → codes "abc" ≡ [])
unfolding init
next_chunk-fits_example = next_chunk-fits h2_site 3 2 filled loaded refl refl

-- what a connection computes with
unfoldable pub http2 : Unit {0}
unfolding init handle_bytes after_receive handle_events handle_each handle_h2_event flush
    handle_stream handle_object handle_by accept_request take_request limit_requests create_stream
    read_request make_stream insert_blocked after_insert count_request send stream_send send_event
    send_response finish_content wake drain_buffer wait_for buffer_of http_emit send_task send_round
    next_stream send_data try_send next_chunk pop_buffer pop send_chunk end_if_complete forget
    filter_pseudo_headers filter_loop is_pseudo upper mark_request
http2 = tt

abbrev to_flush : Http2 h2_site
to_flush = record start { connection = codes "settings" }

handle_bytes-flushes_example :
    ((handle_bytes h2_site sending (codes "x") to_flush).1.effects
      ≡ Effect.io (IoEvent.raw_bytes (codes "settings")) ∷ [])
    × (is_flushed h2_site (handle_bytes h2_site sending (codes "x") to_flush).1 ≡ true)
unfolding http2
handle_bytes-flushes_example =
    handle_bytes-flushes h2_site sending (codes "x") to_flush (λ c. refl) refl

handle_bytes-gone_example :
    (handle_bytes h2_site sending (codes "xdr") start ≡ (raise key_error, start))
    × (handle_h2_event h2_site sending (H2Event.stream_ended 7) start ≡ (ok tt, start))
unfolding init handle_each handle_h2_event
handle_bytes-gone_example =
    handle_bytes-gone h2_site sending (codes "xdr") 7 4 (codes "late") (H2Event.other ∷ [])
      (H2Event.request_received 1 foreign_headers ∷ []) start refl refl refl

-- stream 9 is in the tree of priorities, and has no buffer
abbrev orphaned : Http2 h2_site
orphaned = record start { priority = 9 ∷ [] }

send_task-orphan_example :
    ((send_task h2_site 5 orphaned).0 ≡ raise key_error)
    × ((send_task h2_site 5 orphaned).1.effects ≡ [])
unfolding init
send_task-orphan_example = send_task-orphan h2_site 4 9 orphaned refl refl refl tt

abbrev drained : StreamBuffer
drained = record blank { is_empty = true }

send_trailers-content_example :
    ((send_trailers h2_site sending 3 [] false (record loaded { buffers = (3, drained) ∷ [] })).0
      ≡ ok tt)
    × (at_key 3
          (send_trailers h2_site sending 3 [] false
            (record loaded { buffers = (3, drained) ∷ [] })).1.buffers
        ≡ some (record drained { buffer = codes "headers"; is_empty = false }))
unfolding init
send_trailers-content_example =
    send_trailers-content h2_site sending 3 [] drained
      (record loaded { buffers = (3, drained) ∷ [] }) b'h' (codes "eaders") refl refl refl refl refl
      refl refl refl

-- stream 3 is open, too
abbrev serving : Http2 h2_site
serving = record loaded {
  streams = 3 ∷ [];
  objects = (3, Stream.http (init_http false none none 3 false)) ∷ [];
}

handle_closed-ends_example :
    ((handle_closed h2_site sending serving).0 ≡ ok tt
      → (handle_closed h2_site sending serving).1.streams ≡ [])
    × ((send_task h2_site 1 (handle_closed h2_site sending serving).1).0 ≡ ok SendLoop.finished)
handle_closed-ends_example = handle_closed-ends h2_site sending 0 serving

-- the other tasks send what stream 1 has
abbrev draining : Others h2_site
draining wait p = record p { buffers = (1, record blank { is_empty = true; complete = true }) ∷ [] }

abbrev refused : Http2 h2_site
refused = (accept_request h2_site draining 1 foreign_headers start).1

accept_request-stuck_example :
    (told_idle refused.effects ≡ false)
    × (is_idle_protocol h2_site refused ≡ false)
    × ((event : StreamEvent)
        → handle_stream h2_site draining (send h2_site draining) 1 event refused ≡ (ok tt, refused))
unfolding http2 http
accept_request-stuck_example =
    accept_request-stuck h2_site draining 1 (λ wait p there. there) foreign_headers
      ((codes "host", codes "elsewhere") ∷ []) (codes "GET") (codes "/") start refl refl refl refl
      refl refl

-- ===== src/Http1/Send.antt =====
-- `stream_send` of H11Protocol (protocol/h11.py) and the methods that it calls: what the protocol
-- makes of a stream's events. It does not depend on the stream that sends them, but for `close`,
-- which is the stream's `handle` of a StreamClosed.
use nonecorn.Prelude.{
  ◌||◌, ◌∷◌, ◌++◌, ◌&&◌, ◌-◌, ℕ, some, none, not, if◌then◌else◌, leb, ltb, [], Option, List, Bool,
  true, false, all,
}
use nonecorn.Bytes.{Bytes, Text, codes}
use nonecorn.Exec.{
  Action, pass, throw, gets, when, ◌>>=◌, ◌>>◌, local_protocol_error, unicode_error, type_error,
  value_error,
}
use nonecorn.Asgi.{Header, StreamEvent}
use nonecorn.Stream.{World}
use nonecorn.Http1.H11.{H11, Sendable, Role, Chunk}
use nonecorn.Http1.State.{Http1, IoEvent, Settings, Files, update_rest, send_io}

abbrev pub is_done : Role → Bool
is_done Role.done = true
is_done _ = false

abbrev pub is_error : Role → Bool
is_error Role.error = true
is_error _ = false

abbrev pub is_passthrough : Option Bytes → Bool
is_passthrough none = false
is_passthrough (some buffer) = true

abbrev is_ascii : Text → Bool
is_ascii text = all (λ c. ltb c 128) text

-- `our_state` and `their_state` of an H11WSConnection are None
abbrev pub is_recyclable : (h : H11) → Http1 h → Bool
is_recyclable h p =
    not p.terminated
    && not (is_passthrough p.passthrough)
    && is_done (h.our_state p.connection)
    && is_done (h.their_state p.connection)

-- the headers of a Response that is no informational one
abbrev pub final_headers : Settings → ℕ → List Header → List Header
final_headers settings keep_alive_requests headers =
    headers
    ++ settings.server_headers
    ++ (if leb settings.keep_alive_max_requests keep_alive_requests
        then (codes "connection", codes "close") ∷ []
        else [])

module _ (h : H11) {S : Type 0} where
  -- `_send_h11_event`; `their_state` of an H11WSConnection is None
  unfoldable pub send_h11_event : Sendable → Action (World S (Http1 h))
  send_h11_event event w =
      let p = w.rest in
      let (bytes, connection) = h.send event p.connection in
      let w' : World S (Http1 h) = record w { rest = record p { connection = connection } } in
      elim bytes [
        | some bytes ↦ send_io (IoEvent.raw_bytes bytes) w'
        | none ↦
            when (is_passthrough p.passthrough || not (is_error (h.their_state connection)))
              (throw local_protocol_error) w'
      ]

  -- the constructor of the event, and `_send_h11_event`
  unfoldable pub send_made : Sendable → Action (World S (Http1 h))
  send_made event w =
      (if h.accepts event then send_h11_event event else throw local_protocol_error) w

  -- `_send_error_response`
  unfoldable pub send_error_response : List Header → ℕ → Action (World S (Http1 h))
  send_error_response server_headers status_code = do
    send_made (
        Sendable.response status_code
          ((codes "content-length", codes "0")
            ∷ (codes "connection", codes "close")
            ∷ server_headers)
          [])
    send_made (Sendable.end_of_message [])

  -- `_close_stream`
  unfoldable pub close_stream : Action (World S (Http1 h)) → Action (World S (Http1 h))
  close_stream close w =
      when w.rest.attached (do close; update_rest (λ p. record p { attached = false })) w

  -- `start_next_cycle`, or its LocalProtocolError, and what follows
  unfoldable pub start_cycle : Option h.Connection → Action (World S (Http1 h))
  start_cycle none = send_io IoEvent.closed
  start_cycle (some connection) = do
    update_rest (λ p. record p { connection = connection; can_read = true })
    send_io (IoEvent.updated true)

  -- the rest of `_maybe_recycle`
  unfoldable pub recycle : Action (World S (Http1 h))
  recycle w =
      if is_recyclable h w.rest
      then start_cycle (h.start_next_cycle w.rest.connection) w
      else (do update_rest (λ p. record p { can_read = true }); send_io IoEvent.closed) w

  -- `_maybe_recycle`
  unfoldable pub maybe_recycle : Action (World S (Http1 h)) → Action (World S (Http1 h))
  maybe_recycle close = do close_stream close; recycle

  -- the loop over what `send_with_data_passthrough` lists
  unfoldable pub send_chunks : ℕ → ℕ → ℕ → List Chunk → Action (World S (Http1 h))
  send_chunks file offset count [] = pass
  send_chunks file offset count (Chunk.bytes bytes ∷ chunks) = do
    send_io (IoEvent.raw_bytes bytes)
    send_chunks file offset count chunks
  send_chunks file offset count (Chunk.file ∷ chunks) = do
    send_io (IoEvent.zero_copy_send file offset count)
    send_chunks file offset count chunks

  -- a StreamZeroCopySend once its place in the file is known
  unfoldable pub send_file : ℕ → ℕ → ℕ → Action (World S (Http1 h))
  send_file file offset count w =
      let p = w.rest in
      let (chunks, connection) = h.send_file count p.connection in
      let w' : World S (Http1 h) = record w { rest = record p { connection = connection } } in
      elim chunks [
        | none ↦ throw local_protocol_error w'
        | some chunks ↦ send_chunks file offset count chunks w'
      ]

  -- A count that the file is too short for would be negative, and h11 cannot take its length.
  unfoldable pub zero_copy : Files → Option ℕ → Option ℕ → Option ℕ → Action (World S (Http1 h))
  zero_copy files none offset count = throw type_error
  zero_copy files (some file) offset count =
      let start : ℕ = elim offset [ none ↦ files.position file | some offset ↦ offset ] in
      elim count [
        | some count ↦ send_file file start count
        | none ↦
            if ltb (files.size file) start
            then throw value_error
            else send_file file start (files.size file - start)
      ]

  -- the branch of `stream_send` for a Response
  unfoldable pub send_response : Settings → List Header → ℕ → Text → Action (World S (Http1 h))
  send_response settings headers status_code reason = do
    requests ← gets (λ w. w.rest.keep_alive_requests)
    when (not (is_ascii reason)) (throw unicode_error)
    send_made (
        if leb 200 status_code
        then Sendable.response status_code (final_headers settings requests headers) reason
        else Sendable.informational_response status_code (headers ++ settings.server_headers)
            reason)

  unfoldable pub stream_send :
      Settings → Files → Action (World S (Http1 h)) → StreamEvent → Action (World S (Http1 h))
  stream_send settings files close (StreamEvent.response id headers status_code reason) =
      send_response settings headers status_code reason
  stream_send settings files close (StreamEvent.body id bytes flush) =
      send_h11_event (Sendable.content bytes)
  stream_send settings files close (StreamEvent.zero_copy_send id file offset count) =
      zero_copy files file offset count
  stream_send settings files close (StreamEvent.end_body id headers) =
      send_made (Sendable.end_of_message headers)
  stream_send settings files close (StreamEvent.trailer_headers_send id headers end_stream) =
      send_made (Sendable.end_of_message headers)
  stream_send settings files close (StreamEvent.ws_data id bytes flush) =
      send_io (IoEvent.raw_bytes bytes)
  stream_send settings files close (StreamEvent.stream_closed id) = maybe_recycle close
  stream_send settings files close _ = pass

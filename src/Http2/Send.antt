-- ===== src/Http2/Send.antt =====
-- `stream_send` of H2Protocol (protocol/h2.py) and the methods that it calls: what the protocol makes
-- of a stream's events.
use nonecorn.Multiplex.{handle_object}
use nonecorn.Bytes.{Bytes, codes}
use nonecorn.Exec.{Action, attempt, pass, pure, lift, gets, modify, when, ◌>>=◌, ◌>>◌}
use nonecorn.Asgi.{Header, StreamEvent}
use nonecorn.Http1.State.{IoEvent}
use nonecorn.Http2.StreamBuffer.{push, set_complete}
use nonecorn.Http2.State.{
  kept, makers, H2Site, Http2, Others, Wait, buffer_of, ends_streaming, flush, is_idle_protocol,
  on_connection, on_priority, put_buffer, send_io, set_has_data, unpause, wait_for,
}
use nonecorn.Prelude.{◌∷◌, ◌++◌, ◌&&◌, ℕ, true, not, false, [], List, Bool, has, discard, is_empty}

module _ (site : H2Site) where
  open site use {h, t, ws, env, config, settings}

  -- `_close_stream`; a stream that handles a StreamClosed sends nothing
  unfoldable pub close_stream : ℕ → Action (Http2 site)
  close_stream id p =
      when (has id p.streams)
        (do
          modify (λ p. record p { streams = discard id p.streams })
          handle_object (makers site) (kept site) (λ event. pass) id (StreamEvent.stream_closed id)
          set_has_data site)
        p

module _ (site : H2Site) (others : Others site) where
  open site use {h, t, ws, env, config, settings}

  -- a StreamBuffer's `push` and `drain`
  unfoldable pub push_buffer : ℕ → Bytes → Action (Http2 site)
  push_buffer id bytes = do
    b ← buffer_of site id
    waits ← lift (push bytes b).0
    put_buffer site id (push bytes b).1
    when waits (do
      wait_for site others (Wait.until_paused id)
      modify (λ p. record p { buffers = unpause id p.buffers }))

  unfoldable pub drain_buffer : ℕ → Action (Http2 site)
  drain_buffer id = do buffer_of site id; wait_for site others (Wait.until_empty id)

  -- `priority.unblock`, and `has_data.set`
  unfoldable pub wake : ℕ → Action (Http2 site)
  wake id = do on_priority site (t.unblock id); set_has_data site

  abbrev pub status_header : ℕ → Header
  status_header status_code = (codes ":status", settings.show status_code)

  -- the branch of `stream_send` for a response, an informational one too
  unfoldable pub send_response : ℕ → List Header → ℕ → Action (Http2 site)
  send_response id headers status_code = do
    on_connection site
        (h.send_headers id (status_header status_code ∷ headers ++ settings.server_headers) false)
    flush site

  -- the branch for a Body or a Data
  unfoldable pub send_content : ℕ → Bytes → Bool → Action (Http2 site)
  send_content id bytes true = do on_connection site (h.send_data id bytes); flush site
  send_content id bytes false = do wake id; push_buffer id bytes

  -- the branch for an EndBody or an EndData, which has no headers
  unfoldable pub finish_content : ℕ → List Header → Action (Http2 site)
  finish_content id [] = do
    b ← buffer_of site id
    put_buffer site id (set_complete b)
    wake id
    drain_buffer id
  finish_content id (header ∷ headers) = do
    on_connection site (h.send_headers id (header ∷ headers) true)
    flush site

  -- what the branch for a TrailerHeadersSend does once the headers are with h2
  unfoldable pub flush_trailers : ℕ → Bool → Action (Http2 site)
  flush_trailers id true = flush site
  flush_trailers id false = do
    bytes ← on_connection site (λ c. pure (h.data_to_send c).0 (h.data_to_send c).1)
    when (not (is_empty bytes)) (do wake id; push_buffer id bytes)

  -- the branch for a TrailerHeadersSend
  unfoldable pub send_trailers : ℕ → List Header → Bool → Action (Http2 site)
  send_trailers id headers end_stream = do
    wake id
    drain_buffer id
    on_connection site (h.send_headers id headers end_stream)
    flush_trailers id end_stream

  -- the branch for a StreamClosed
  unfoldable pub end_stream : ℕ → Action (Http2 site)
  end_stream id = do
    close_stream site id
    idle ← gets (is_idle_protocol site)
    terminated ← gets (λ p. p.terminated)
    when (idle && terminated) (do on_connection site h.close_connection; flush site)
    send_io site (IoEvent.updated idle)

  -- `push` is `_create_server_push`
  module _ (create_push : ℕ → Bytes → List Header → Action (Http2 site)) where
    unfoldable pub send_event : StreamEvent → Action (Http2 site)
    send_event (StreamEvent.response id headers status_code reason) =
        send_response id headers status_code
    send_event (StreamEvent.informational_response id headers status_code) =
        send_response id headers status_code
    send_event (StreamEvent.body id bytes flush) = send_content id bytes flush
    send_event (StreamEvent.ws_data id bytes flush) = send_content id bytes flush
    send_event (StreamEvent.zero_copy_send id file offset count) = pass
    send_event (StreamEvent.end_body id headers) = finish_content id headers
    send_event (StreamEvent.end_data id) = finish_content id []
    send_event (StreamEvent.trailer_headers_send id headers end_stream) =
        send_trailers id headers end_stream
    send_event (StreamEvent.stream_closed id) = end_stream id
    send_event (StreamEvent.request id event) = create_push id event.raw_path event.headers

    -- `stream_send`
    unfoldable pub stream_send : StreamEvent → Action (Http2 site)
    stream_send event = attempt (ends_streaming site) (send_event event) pass

-- ===== src/Protocols/PriorKnowledge.antt =====
-- A client that starts with HTTP/2 at once (protocol/__init__.py, and `_check_protocol` of
-- protocol/h11.py).
use nonecorn.Prelude.{◌≡◌, ◌++◌, ◌∷◌, ℕ, suc, List, [], false, none, refl}
use nonecorn.Bytes.{Bytes, codes, same, lower, strip_latin1}
use nonecorn.Asgi.{Header}
use nonecorn.Exec.{◌>>◌}
use nonecorn.Http1.H11.{H11Event, H11Request}
use nonecorn.Http1.State.{Effect, Http1, IoEvent}
use nonecorn.Http1.Streams.{Stream}
use nonecorn.Http1.Receive.{
  check_before, check_protocol, continue_100, handle_events, handle_h11_event, handle_request,
  header_value, next_event, next_from, receive_bytes, round, handle_bytes as handle_bytes_h1,
}
use nonecorn.Http2.State.{Others}
use nonecorn.Http2.Receive.{handle_bytes as handle_bytes_h2, initiate}
use nonecorn.Protocols.{
  Protocol, Sites, after_http1, done, handle_bytes, switch, take_over, within, without_tls,
}

abbrev pub preface : Bytes
preface = codes "PRI * HTTP/2.0\r\n\r\n"

-- the request that h11 makes of a preface
abbrev pub preface_request : List Header → H11Request
preface_request raw_headers = record {
  method = codes "PRI";
  target = codes "*";
  http_version = codes "2.0";
  headers = [];
  raw_headers = raw_headers;
}

module _ (sites : Sites) (others : Others sites.second)
    (others_after : Others (without_tls sites.second)) where
  open sites use {first, second}

  -- A client that starts an HTTP/1 connection with the preface of HTTP/2 gets an HTTP/2 protocol, which
  -- starts and is then given all the bytes that came, the preface included. h11 is taken to make the
  -- preface a request with no headers, and to keep what came behind it.
  pub handle_bytes-preface :
      (fuel : ℕ) (bytes : Bytes) (raw_headers : List Header) (s : Stream first.ws)
      (p : Http1 first.h) (c : first.h.Connection)
      → first.h.waits_for_100_continue (first.h.receive_data bytes p.connection) ≡ false
      → first.h.next_event (first.h.receive_data bytes p.connection)
        ≡ (H11Event.request (preface_request raw_headers), c)
      → preface ++ first.h.trailing_data c ≡ bytes
      → handle_bytes sites others others_after
          (suc fuel)
          bytes
          (Protocol.http1 (record { stream = s; rest = record p { passthrough = none } }))
        ≡ within
            (λ p. Protocol.switched p)
            (done
              (do
                initiate (without_tls second) others_after none none
                handle_bytes_h2 (without_tls second) others_after bytes)
              (take_over sites others others_after (record {
                stream = s;
                rest = record p { effects = Effect.io (IoEvent.updated false) ∷ p.effects };
              })))
  unfolding handle_bytes handle_bytes_h1 receive_bytes handle_events round continue_100 next_event
      next_from handle_h11_event handle_request check_protocol check_before header_value after_http1
      switch take_over same lower strip_latin1
  handle_bytes-preface fuel bytes raw_headers s p c waits next whole = rw (waits, next, whole) refl

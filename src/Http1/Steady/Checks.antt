-- ===== src/Http1/Steady/Checks.antt =====
-- `_check_protocol` (protocol/h11.py) does no more to a connection than to send.
use nonecorn.Bytes.{Bytes}
use nonecorn.Stream.Keeps.{stream_rules}
use nonecorn.Http1.H11.{H11Request}
use nonecorn.Http1.State.{Http1}
use nonecorn.Http1.Streams.{Site}
use nonecorn.Http1.Receive.{check_before, check_protocol}
use nonecorn.Http1.Steady.{Sends}
use nonecorn.Http1.Steady.Closing.{Kept}
use nonecorn.Http1.Steady.Sending.{send_made-Keeps}

module _ (site : Site) (P : Http1 site.h → Type 0) (sending : Sends site.h P) where
  open site use {h}

  check_before-Keeps :
      (trailing : Bytes) (request : H11Request) → Kept h P (check_before site trailing request)
  unfolding check_before
  check_before-Keeps trailing request = search (stream_rules, send_made-Keeps h P sending) depth 12

  pub check_protocol-Keeps : (request : H11Request) → Kept h P (check_protocol site request)
  unfolding check_protocol
  check_protocol-Keeps request = record {
    at = λ w r. (check_before-Keeps (h.trailing_data w.rest.connection) request).at w r;
  }

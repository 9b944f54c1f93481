-- ===== src/Http3/Quic/Unknown.antt =====
-- Packets of QUIC for connections that are not there (protocol/quic.py).
use nonecorn.Prelude.{◌≡◌, ◌<◌, ◌⊎◌, ℕ, some, none, true, false, length, arith}
use nonecorn.Bytes.{Bytes}
use nonecorn.Asgi.{Address}
use nonecorn.Exec.{ok}
use nonecorn.Http3.Aioquic.{PacketHeader}
use nonecorn.Http3.Protocol.{H3Site}
use nonecorn.Http3.Quic.{
  Quic, QuicLoop, by_cid, dispatch, handle_bytes, handle_packet, is_unsupported,
}

module _ (site : H3Site) where
  open site use {q}

  -- A packet for a connection that is not known, of a version that is supported, does nothing at all,
  -- and is not answered, if it is shorter than 1200 bytes, or no Initial packet, or comes when the worker
  -- was told to end. So a short packet, of which the source may be forged, makes the server keep nothing
  -- and send nothing.
  pub handle_bytes-unknown :
      (fuel : ℕ) (bytes : Bytes) (address : Address) (header : PacketHeader) (p : Quic site)
      → q.pull_header bytes ≡ some header
      → is_unsupported site header.version ≡ false
      → by_cid header.destination_cid p.connections ≡ none
      → (length bytes < 1200) ⊎ (header.is_initial ≡ false) ⊎ (p.terminated ≡ true)
      → handle_bytes site fuel bytes address p ≡ (ok QuicLoop.finished, p)
  unfolding handle_bytes handle_packet dispatch
  handle_bytes-unknown fuel bytes address header p read supported unknown small =
      ground (arith, read, supported, unknown, small)

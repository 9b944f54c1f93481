-- ===== src/Http2/Trailers.antt =====
-- What H2Protocol (protocol/h2.py) makes of trailers that more trailers follow.
use nonecorn.Prelude.{◌≡◌, ◌∷◌, ◌++◌, ℕ, true, some, length, leb, false, at_key, arith, List}
use nonecorn.Exec.{ok}
use nonecorn.Bytes.{Bytes}
use nonecorn.Asgi.{Header}
use nonecorn.Http2.StreamBuffer.{StreamBuffer, high_water, push}
use nonecorn.Http2.State.{H2Site, Http2, Others, buffer_of, wait_for}
use nonecorn.Http2.Send.{drain_buffer, flush_trailers, push_buffer, send_trailers, wake}
use nonecorn.Http2.SendTask.Bounds.{at_key-set_key}

module _ (site : H2Site) (others : Others site) where
  open site use {h, t}

  -- Trailers that are not the last come to the client as content: the frames that h2 made of them, and
  -- all else that it had to send, go into the stream's buffer, behind the response's body. This is so for
  -- a stream that the tree of priorities has, whose buffer is open and drained, where the trailers fit
  -- below the buffer's mark.
  pub send_trailers-content :
      (id : ℕ) (headers : List Header) (b : StreamBuffer) (p : Http2 site) (c : ℕ) (bytes : Bytes)
      → (t.unblock id p.priority).0 ≡ ok tt
      → (t.unblock id (t.unblock id p.priority).1).0 ≡ ok tt
      → at_key id p.buffers ≡ some b
      → b.is_empty ≡ true
      → b.complete ≡ false
      → (h.send_headers id headers false p.connection).0 ≡ ok tt
      → (h.data_to_send (h.send_headers id headers false p.connection).1).0 ≡ c ∷ bytes
      → leb high_water (length (b.buffer ++ c ∷ bytes)) ≡ false
      → ((send_trailers site others id headers false p).0 ≡ ok tt)
        × (at_key id (send_trailers site others id headers false p).1.buffers
            ≡ some (record b { buffer = b.buffer ++ c ∷ bytes; is_empty = false }))
  unfolding send_trailers wake drain_buffer buffer_of wait_for flush_trailers push_buffer push
  send_trailers-content id headers b p c bytes known known_still found drained opened sent frames
        fits =
      ground (
        arith,
        known,
        known_still,
        found,
        drained,
        opened,
        sent,
        frames,
        fits,
        at_key-set_key id (record b { buffer = b.buffer ++ c ∷ bytes; is_empty = false }) p.buffers,
      )

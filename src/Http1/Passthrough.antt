-- ===== src/Http1/Passthrough.antt =====
-- A connection that has become a websocket (protocol/h11.py, H11WSConnection).
use nonecorn.Prelude.{◌≡◌, ◌∷◌, ◌++◌, ℕ, true, suc, some, refl, false, []}
use nonecorn.Bytes.{Bytes}
use nonecorn.Exec.{Result, ok, raise, continue, ◌>>◌}
use nonecorn.Asgi.{StreamEvent}
use nonecorn.Http1.State.{Http1}
use nonecorn.Http1.Streams.{Connected, Site, Stream, handle_stream}
use nonecorn.Http1.Receive.{
  Round, continue_100, feed, go_on, handle_bytes, handle_events, handle_h11_event, next_event,
  next_from, receive_bytes, round,
}

module _ (site : Site) where
  open site use {h, ws}

  -- the connection of a websocket, with what it holds
  abbrev pub holding : Stream ws → Http1 h → Bytes → Connected site
  holding s p buffer = record {
    stream = s;
    rest = record p { attached = true; passthrough = some buffer };
  }

  after_data :
      (fuel : ℕ) (r : Result (Unit {0})) (w : Connected site)
      → continue
          (continue r (λ x s. (ok Round.again, s)) w).0
          (go_on site (handle_events site fuel))
          (continue r (λ x s. (ok Round.again, s)) w).1
        ≡ continue r (λ x. handle_events site fuel) w
  unfolding go_on
  after_data fuel (ok x) w = refl
  after_data fuel (raise e) w = refl

  -- Once a connection is a websocket, all that the client has sent reaches the stream, in order and
  -- once: the bytes that were held and the new ones are handed on together, as one event, and nothing
  -- is held while the stream handles it, after which the loop goes on. Where the stream raises, so
  -- does the call.
  pub handle_bytes-holding :
      (fuel : ℕ) (s : Stream ws) (p : Http1 h) (buffer bytes : Bytes) (b : ℕ) (rest : Bytes)
      → buffer ++ bytes ≡ b ∷ rest
      → handle_bytes site (suc fuel) bytes (holding s p buffer)
        ≡ (do
          handle_stream site (StreamEvent.ws_data 1 (buffer ++ bytes) false)
          handle_events site fuel)
            (holding s p [])
  unfolding handle_bytes receive_bytes handle_events round continue_100 next_event next_from
      handle_h11_event feed
  handle_bytes-holding fuel s p buffer bytes b rest e = rw e (after_data fuel _ _)

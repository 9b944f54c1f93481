-- ===== src/Http1/Rounds/Events.antt =====
-- An event that the loop of `_handle_events` (protocol/h11.py) goes on after leaves it fewer rounds.
use nonecorn.Prelude.{
  ◌&&◌, refl, not, ◌+◌, ◌≤◌, ◌≡◌, ◌∷◌, ℕ, true, suc, some, none, false, arith, [], Option, Bool,
}
use nonecorn.Exec.{Result, ok, raise, continue, pure, ◌>>◌}
use nonecorn.Exec.Keeps.{Keeps, Keeps-bind, Keeps-if, Keeps-test, Keeps-pure, Keeps-when}
use nonecorn.Stream.Keeps.{Around}
use nonecorn.Asgi.{StreamEvent}
use nonecorn.Http1.H11.{H11Event, H11Request, Sendable}
use nonecorn.Http1.State.{IoEvent, send_io, Http1}
use nonecorn.Http1.Send.{is_passthrough}
use nonecorn.Http1.Streams.{Site, Connected, handle_stream}
use nonecorn.Http1.Receive.{
  Round, check_protocol, make_stream, make_websocket, make_http, create_stream, handle_request,
  handle_error, feed, handle_h11_event, next_from, continue_100, request_event, is_websocket,
}
use nonecorn.Http1.Rounds.{Bytes, Progress, goes_on}
use nonecorn.Worker.{mark_request}
use nonecorn.Http1.Rounds.Bound.{Below, Below-Steady}
use nonecorn.Http1.Steady.Closing.{Kept, update_rest-Keeps}
use nonecorn.Http1.Steady.Checks.{check_protocol-Keeps}
use nonecorn.Http1.Steady.Sending.{send_made-Keeps}
use nonecorn.Http1.Steady.Streams.{handle_stream-Keeps}

abbrev is_request : H11Event → Bool
is_request (H11Event.request request) = true
is_request _ = false

module _ (site : Site) (progress : Progress site.h) where
  open site use {h, settings}

  -- the room for further rounds once an event is taken
  pub record Room (k : ℕ) (event : H11Event) (p : Http1 h) : Type 0 where
    goes : goes_on event ≡ true → Below progress k p
    starts : is_request event ≡ true → 2 ≤ k

  pub next_from-Room :
      (k : ℕ) (o : Option Bytes) (p : Http1 h)
      → p.passthrough ≡ o
      → Below progress (suc k) p
      → Room k (next_from site o p).0 (next_from site o p).1
  unfolding next_from
  next_from-Room k none p e below =
      let down : progress.rank p.connection + 3 ≤ suc k = ground (arith, e, below) in
      record {
        goes = λ g. ground (arith, e, down, progress.next_event-rank p.connection g);
        starts = λ i. omega arith;
      }
  next_from-Room k (some []) p e below = record {
    goes = λ g. ground arith;
    starts = λ g. ground arith;
  }
  next_from-Room k (some (b ∷ bs)) p e below = record {
    goes = λ g. let two : 2 ≤ suc k = ground (arith, e, below) in omega arith;
    starts = λ g. ground arith;
  }

  module _ (k : ℕ) where
    passing :
        (p : Http1 h) (buffer : Bytes)
        → 2 ≤ k
        → Below progress k (record p { attached = true; passthrough = some buffer })
    passing p [] two = omega arith
    passing p (b ∷ bs) two = two

    make_websocket-Keeps : 2 ≤ k → Kept h (Below progress k) (make_websocket site)
    unfolding make_websocket
    make_websocket-Keeps two = record {
      at = λ w r. record { rest = passing w.rest (h.trailing_data w.rest.connection) two };
    }

    make_http-Keeps : Kept h (Below progress k) (make_http site)
    unfolding make_http
    make_http-Keeps = record { at = λ w r. record { rest = r.rest } }

    make_stream-Keeps :
        2 ≤ k → (request : H11Request) → Kept h (Below progress k) (make_stream site request)
    unfolding make_stream
    make_stream-Keeps two request =
        Keeps-if (is_websocket request) (make_websocket site) (make_http site)
          (make_websocket-Keeps two) make_http-Keeps

    abbrev counted : Http1 h → Http1 h
    counted p = record p {
      keep_alive_requests = p.keep_alive_requests + 1;
      context = mark_request p.context;
    }

    create_stream-Keeps :
        2 ≤ k → (request : H11Request) → Kept h (Below progress k) (create_stream site request)
    unfolding create_stream
    create_stream-Keeps two request =
        Keeps-bind (make_stream site request) _ (make_stream-Keeps two request) (λ x.
          Keeps-bind (handle_stream site (StreamEvent.request 1 (request_event site request))) _
            (handle_stream-Keeps site (Below progress k) (Below-Steady h progress k) _)
            (λ y. update_rest-Keeps h (Below progress k) counted (λ p below. below)))

    handle_request-Keeps :
        2 ≤ k → (request : H11Request) → Kept h (Below progress k) (handle_request site request)
    unfolding handle_request
    handle_request-Keeps two request =
        Keeps-bind (send_io (IoEvent.updated false)) _
          (update_rest-Keeps h (Below progress k) _ (λ p below. below))
          (λ x.
            Keeps-bind (check_protocol site request) _
              (check_protocol-Keeps site (Below progress k) (Below-Steady h progress k).sending
                request)
              (λ y. create_stream-Keeps two request))

    feed-Keeps : (event : StreamEvent) → Keeps (Around (Below progress k)) (feed site event)
    unfolding feed
    feed-Keeps event =
        Keeps-test (λ w. w.rest.attached) (do handle_stream site event; pure Round.again)
          (pure Round.stop)
          (Keeps-bind _ _
            (handle_stream-Keeps site (Below progress k) (Below-Steady h progress k) event)
            (λ x. Keeps-pure Round.again))
          (Keeps-pure Round.stop)

    pub continue_100-Keeps : Kept h (Below progress k) (continue_100 site)
    unfolding continue_100
    continue_100-Keeps = record {
      at = λ w r.
          (Keeps-when
              (not (is_passthrough w.rest.passthrough)
                && h.waits_for_100_continue w.rest.connection)
              _
              (send_made-Keeps h (Below progress k) (Below-Steady h progress k).sending
                (Sendable.informational_response 100 settings.server_headers []))).at
            w r;
    }

    stops :
        (r : Result (Unit {0})) (w : Connected site)
        → ¬ ((continue r (λ x. pure Round.stop) w).0 ≡ ok Round.again)
    stops (ok x) w = ground arith
    stops (raise e) w = ground arith

    -- an event after which the loop goes on leaves room for fewer rounds
    pub handle_h11_event-again :
        (event : H11Event) (w : Connected site)
        → Room k event w.rest
        → (handle_h11_event site event w).0 ≡ ok Round.again
        → Below progress k (handle_h11_event site event w).1.rest
    unfolding handle_h11_event
    handle_h11_event-again (H11Event.request request) w room again =
        ((Keeps-bind _ _ (handle_request-Keeps (room.starts refl) request)
            (λ x. Keeps-pure Round.again)).at
          w (record { rest = room.goes refl })).rest
    handle_h11_event-again (H11Event.content bytes) w room again =
        ((feed-Keeps _).at w (record { rest = room.goes refl })).rest
    handle_h11_event-again (H11Event.end_of_message headers) w room again =
        ((feed-Keeps _).at w (record { rest = room.goes refl })).rest
    handle_h11_event-again (H11Event.ws_bytes bytes) w room again =
        ((feed-Keeps _).at w (record { rest = room.goes refl })).rest
    handle_h11_event-again H11Event.paused w room again = ground arith
    handle_h11_event-again H11Event.connection_closed w room again = ground arith
    handle_h11_event-again H11Event.need_data w room again = ground arith
    handle_h11_event-again (H11Event.remote_protocol_error status) w room again =
        absurd (stops (handle_error site status w).0 (handle_error site status w).1 again)

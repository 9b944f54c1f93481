-- ===== src/Http1/Steady/Calls.antt =====
-- What a connection (protocol/h11.py) is asked for from outside, and what every call keeps.
use nonecorn.Prelude.{
  true, if◌then◌else◌, ◌∷◌, ◌++◌, ◌&&◌, ℕ, zero, suc, some, refl, not, none, false, [], Option,
  List,
}
use nonecorn.Exec.{when, Exec, pure, ◌>>◌}
use nonecorn.Exec.Keeps.{
  Keeps, Keeps-pass, Keeps-bind, Keeps-when, Keeps-test, Keeps-pure, Keeps-when_test,
}
use nonecorn.Bytes.{Bytes}
use nonecorn.Asgi.{AppMessage, StreamEvent}
use nonecorn.Stream.Keeps.{Around}
use nonecorn.HttpStream.AppKeeps.{app_send-Keeps as http-app_send-Keeps}
use nonecorn.Websocket.Stream.AppKeeps.{app_send-Keeps as ws-app_send-Keeps}
use nonecorn.Http1.H11.{H11Event, H11Request, Sendable}
use nonecorn.Http1.State.{Http1, IoEvent, update_rest, send_io}
use nonecorn.Http1.Send.{is_passthrough, send_error_response}
use nonecorn.Http1.Streams.{
  Site, Stream, Connected, send_by, app_send, handle_stream, http_emit, ws_emit,
}
use nonecorn.Http1.Receive.{
  answers, Round, Loop, continue_100, feed, go_on, handle_bytes, handle_closed, close, handle_error,
  handle_events, handle_h11_event, handle_request, next_event, next_from, receive_bytes, round,
}
use nonecorn.Http1.Steady.{Steady}
use nonecorn.Http1.Steady.Closing.{Kept, update_rest-Keeps, send_io-Keeps, close_stream-Keeps}
use nonecorn.Http1.Steady.Sending.{send_made-Keeps, send_error_response-Keeps}
use nonecorn.Http1.Steady.Streams.{handle_stream-Keeps, http_emit-Keeps, ws_emit-Keeps}

-- RawData and Closed, which the server hands to `handle`, a message of the application, and a loop of
-- `_handle_events` that goes on where it waits for `can_read`
pub data Call : Type 0 where
  receives : ℕ → Bytes → Call
  closes : Call
  resumes : ℕ → Call
  answers_with : Option AppMessage → Call

-- an exception ends a call, and leaves what was done
unfoldable pub call : (site : Site) → Call → Connected site → Connected site
call site (Call.receives fuel bytes) w = (handle_bytes site fuel bytes w).1
call site (Call.resumes fuel) w = if w.rest.can_read then (handle_events site fuel w).1 else w
call site Call.closes w = (handle_closed site w).1
call site (Call.answers_with message) w = (app_send site message w).1

unfoldable pub run : (site : Site) → List Call → Connected site → Connected site
run site [] w = w
run site (c ∷ calls) w = run site calls (call site c w)

-- the steps of a connection that receives
pub record Receiving (site : Site) (P : Http1 site.h → Type 0) : Type 0 where
  pub connects : (p : Http1 site.h) (c : site.h.Connection) → P p → P (record p { connection = c })
  pub passes : (p : Http1 site.h) (o : Option Bytes) → P p → P (record p { passthrough = o })
  pub sleeps : (p : Http1 site.h) → P p → P (record p { can_read = false })
  pub requests : (request : H11Request) → Kept site.h P (handle_request site request)

module _ (site : Site) (P : Http1 site.h → Type 0) (steady : Steady site.h P)
    (receiving : Receiving site P) where
  open site use {h, ws, env, config, settings}

  send_by-Keeps : (s : Stream ws) (message : Option AppMessage) → Kept h P (send_by site s message)
  unfolding send_by
  send_by-Keeps Stream.absent message = Keeps-pass
  send_by-Keeps (Stream.http s) message = record {
    at = λ w r. record {
      rest =
          ((http-app_send-Keeps P env (http_emit site) (http_emit-Keeps site P steady) message).at
            (record { stream = s; rest = w.rest }) (record { rest = r.rest })).rest;
    };
  }
  send_by-Keeps (Stream.websocket s) message = record {
    at = λ w r. record {
      rest =
          ((ws-app_send-Keeps ws config P (ws_emit site) (ws_emit-Keeps site P steady) message).at
            (record { stream = s; rest = w.rest }) (record { rest = r.rest })).rest;
    };
  }

  app_send-Keeps : (message : Option AppMessage) → Kept h P (app_send site message)
  unfolding app_send
  app_send-Keeps message = record { at = λ w r. (send_by-Keeps w.stream message).at w r }

  close-Keeps : Kept h P (close site)
  unfolding close
  close-Keeps = handle_stream-Keeps site P steady _

  handle_closed-Keeps : Kept h P (handle_closed site)
  unfolding handle_closed
  handle_closed-Keeps = close_stream-Keeps h P steady (close site) close-Keeps

  next_from-keeps : (o : Option Bytes) (p : Http1 h) → P p → P (next_from site o p).1
  unfolding next_from
  next_from-keeps none p keeps = receiving.connects p _ keeps
  next_from-keeps (some []) p keeps = keeps
  next_from-keeps (some (b ∷ bs)) p keeps = receiving.passes p (some []) keeps

  next_event-Keeps : Keeps (Around P) (next_event site)
  unfolding next_event
  next_event-Keeps = record {
    at = λ w r. record { rest = next_from-keeps w.rest.passthrough w.rest r.rest };
  }

  feed-Keeps : (event : StreamEvent) → Keeps (Around P) (feed site event)
  unfolding feed
  feed-Keeps event =
      Keeps-test (λ w. w.rest.attached) (do handle_stream site event; pure Round.again)
        (pure Round.stop)
        (Keeps-bind _ _ (handle_stream-Keeps site P steady event) (λ x. Keeps-pure Round.again))
        (Keeps-pure Round.stop)

  continue_100-Keeps : Kept h P (continue_100 site)
  unfolding continue_100
  continue_100-Keeps =
      Keeps-when_test
        (λ w. not (is_passthrough w.rest.passthrough) && h.waits_for_100_continue w.rest.connection)
        _
        (send_made-Keeps h P steady.sending
          (Sendable.informational_response 100 settings.server_headers []))

  handle_error-Keeps : (status : ℕ) → Kept h P (handle_error site status)
  unfolding handle_error
  handle_error-Keeps status = record {
    at = λ w.
        (Keeps-bind
            (when (answers (h.our_state w.rest.connection))
              (send_error_response h settings.server_headers status))
            (λ x. send_io IoEvent.closed)
            (Keeps-when (answers (h.our_state w.rest.connection)) _
              (send_error_response-Keeps h P steady.sending settings.server_headers status))
            (λ x. send_io-Keeps h P steady.sending IoEvent.closed refl)).at
          w;
  }

  handle_h11_event-Keeps : (event : H11Event) → Keeps (Around P) (handle_h11_event site event)
  unfolding handle_h11_event
  handle_h11_event-Keeps (H11Event.request request) =
      Keeps-bind (handle_request site request) _ (receiving.requests request)
        (λ x. Keeps-pure Round.again)
  handle_h11_event-Keeps (H11Event.content bytes) = feed-Keeps _
  handle_h11_event-Keeps (H11Event.end_of_message headers) = feed-Keeps _
  handle_h11_event-Keeps (H11Event.ws_bytes bytes) = feed-Keeps _
  handle_h11_event-Keeps H11Event.paused =
      Keeps-bind (update_rest (λ p. record p { can_read = false })) _
        (update_rest-Keeps h P _ receiving.sleeps) (λ x. Keeps-pure Round.wait)
  handle_h11_event-Keeps H11Event.connection_closed = Keeps-pure Round.stop
  handle_h11_event-Keeps H11Event.need_data = Keeps-pure Round.stop
  handle_h11_event-Keeps (H11Event.remote_protocol_error status) =
      Keeps-bind (handle_error site status) _ (handle_error-Keeps status)
        (λ x. Keeps-pure Round.stop)

  round-Keeps : Keeps (Around P) (round site)
  unfolding round
  round-Keeps =
      Keeps-bind (continue_100 site) _ continue_100-Keeps
        (λ x. Keeps-bind (next_event site) _ next_event-Keeps handle_h11_event-Keeps)

  go_on-Keeps :
      (more : Exec (Connected site) Loop) (end : Round)
      → Keeps (Around P) more
      → Keeps (Around P) (go_on site more end)
  unfolding go_on
  go_on-Keeps more Round.again keeps = keeps
  go_on-Keeps more Round.stop keeps = Keeps-pure Loop.finished
  go_on-Keeps more Round.wait keeps = Keeps-pure Loop.waiting

  handle_events-Keeps : (fuel : ℕ) → Keeps (Around P) (handle_events site fuel)
  unfolding handle_events
  handle_events-Keeps zero = Keeps-pure Loop.unfinished
  handle_events-Keeps (suc fuel) =
      Keeps-bind (round site) _ round-Keeps (λ end. go_on-Keeps _ end (handle_events-Keeps fuel))

  received :
      (o : Option Bytes) (bytes : Bytes) (p : Http1 h)
      → P p
      → P (elim o [
        | none ↦ record p { connection = h.receive_data bytes p.connection }
        | some buffer ↦ record p { passthrough = some (buffer ++ bytes) }
      ])
  received none bytes p keeps = receiving.connects p _ keeps
  received (some buffer) bytes p keeps = receiving.passes p _ keeps

  receive_bytes-Keeps : (bytes : Bytes) → Kept h P (receive_bytes site bytes)
  unfolding receive_bytes
  receive_bytes-Keeps bytes =
      update_rest-Keeps h P _ (λ p keeps. received p.passthrough bytes p keeps)

  handle_bytes-Keeps : (fuel : ℕ) (bytes : Bytes) → Keeps (Around P) (handle_bytes site fuel bytes)
  unfolding handle_bytes
  handle_bytes-Keeps fuel bytes =
      Keeps-bind (receive_bytes site bytes) _ (receive_bytes-Keeps bytes)
        (λ x. handle_events-Keeps fuel)

  call-keeps : (c : Call) (w : Connected site) → P w.rest → P (call site c w).rest
  unfolding call
  call-keeps (Call.receives fuel bytes) w keeps =
      ((handle_bytes-Keeps fuel bytes).at w (record { rest = keeps })).rest
  call-keeps (Call.resumes fuel) w keeps =
      elim w.rest.can_read as (λ b. P (if b then (handle_events site fuel w).1 else w).rest) [
        | true ↦ ((handle_events-Keeps fuel).at w (record { rest = keeps })).rest
        | false ↦ keeps
      ]
  call-keeps Call.closes w keeps = (handle_closed-Keeps.at w (record { rest = keeps })).rest
  call-keeps (Call.answers_with message) w keeps =
      ((app_send-Keeps message).at w (record { rest = keeps })).rest

  pub run-keeps : (calls : List Call) (w : Connected site) → P w.rest → P (run site calls w).rest
  unfolding run
  run-keeps [] w keeps = keeps
  run-keeps (c ∷ calls) w keeps = run-keeps calls (call site c w) (call-keeps c w keeps)

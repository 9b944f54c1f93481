-- ===== src/Http2/Holds.antt =====
-- What keeps a stream among the streams of an H2Protocol (protocol/h2.py): the answer to a request that
-- the stream refuses.
use nonecorn.Prelude.{
  Option, Bool, ◌≡◌, ◌∷◌, ℕ, true, some, not, none, is_empty, has, false, at_key, arith, [], List,
}
use nonecorn.Bytes.{Bytes}
use nonecorn.Exec.{Action, Exec, Error, Result, ok, raise, attempt, caught, pass, throw, when}
use nonecorn.Exec.Keeps.{Keeps, Keeps-pass, Keeps-if, Keeps-throw, keeps_rules}
use nonecorn.Asgi.{Header, Scope, StreamEvent, Summary}
use nonecorn.Stream.{Output, World, access}
use nonecorn.Stream.Keeps.{Around}
use nonecorn.HttpStream.{HttpStream}
use nonecorn.Http1.State.{IoEvent}
use nonecorn.Http2.StreamBuffer.{StreamBuffer}
use nonecorn.Multiplex.{http_emit}
use nonecorn.Http2.State.{
  kept, makers, H2Site, Http2, Others, Wait, buffer_of, flush, on_connection, on_priority,
  set_has_data, put_buffer, send_io, wait_for, present,
}
use nonecorn.Http2.Send.{drain_buffer, finish_content, send_event, send_response, stream_send, wake}
use nonecorn.Http2.Receive.{send}

-- The stream `k` stays among the streams, where the other tasks leave it there while one waits.
module _ (site : H2Site) (others : Others site) (k : ℕ)
    (spares : (wait : Wait) (p : Http2 site)
      → has k p.streams ≡ true
      → has k (others wait p).streams ≡ true) where
  open site use {h, t}

  pub record Held (p : Http2 site) : Type 0 where
    pub there : has k p.streams ≡ true

  on_connection-Held : {A : Type 0} (m : Exec h.Connection A) → Keeps Held (on_connection site m)
  on_connection-Held m = record { at = λ p held. record { there = held.there } }

  flush-Held : Keeps Held (flush site)
  unfolding flush
  flush-Held = record {
    at = λ p held.
        elim (is_empty (h.data_to_send p.connection).0)
          as (λ b.
            Held
              (when (not b) (send_io site (IoEvent.raw_bytes (h.data_to_send p.connection).0))
                (record p { connection = (h.data_to_send p.connection).1 })).1) [
                  | true ↦ record { there = held.there }
                  | false ↦ record { there = held.there }
                ];
  }

  on_priority-Held : {A : Type 0} (m : Exec t.Tree A) → Keeps Held (on_priority site m)
  on_priority-Held m = record { at = λ p held. record { there = held.there } }

  set_has_data-Held : Keeps Held (set_has_data site)
  set_has_data-Held = record { at = λ p held. record { there = held.there } }

  wake-Held : (id : ℕ) → Keeps Held (wake site others id)
  unfolding wake
  wake-Held id = search (keeps_rules, on_priority-Held, set_has_data-Held)

  buffer_of-Held : (id : ℕ) → Keeps Held (buffer_of site id)
  unfolding buffer_of
  buffer_of-Held id = record {
    at = λ p held. elim (at_key id p.buffers) as (λ o. Held (present o p).1) [
      | none ↦ held
      | some b ↦ held
    ];
  }

  wait_for-Held : (wait : Wait) → Keeps Held (wait_for site others wait)
  unfolding wait_for
  wait_for-Held wait = record {
    at = λ p held. record { there = ground (arith, held.there, spares wait p) };
  }

  send_response-Held :
      (id : ℕ) (headers : List Header) (status_code : ℕ)
      → Keeps Held (send_response site others id headers status_code)
  unfolding send_response
  send_response-Held id headers status_code = search (keeps_rules, on_connection-Held, flush-Held)

  put_buffer-Held : (id : ℕ) (b : StreamBuffer) → Keeps Held (put_buffer site id b)
  put_buffer-Held id b = record { at = λ p held. record { there = held.there } }

  finish_content-Held :
      (id : ℕ) (headers : List Header) → Keeps Held (finish_content site others id headers)
  unfolding finish_content drain_buffer
  finish_content-Held id [] =
      search (keeps_rules, buffer_of-Held, put_buffer-Held, wake-Held, wait_for-Held) depth 10
  finish_content-Held id (header ∷ headers) = search (keeps_rules, on_connection-Held, flush-Held)

  caught-Held :
      (test : Error → Bool) (r : Result (Unit {0})) (p : Http2 site)
      → Held p
      → Held (caught test pass r p).1
  caught-Held test (ok x) p held = held
  caught-Held test (raise e) p held =
      (Keeps-if {P = Held} (test e) pass (throw e) Keeps-pass (Keeps-throw e)).at p held

  attempt-Held :
      (test : Error → Bool) (m : Action (Http2 site))
      → Keeps Held m
      → Keeps Held (attempt test m pass)
  attempt-Held test m km = record { at = λ p held. caught-Held test (m p).0 (m p).1 (km.at p held) }

  -- what a stream sends when it refuses its request, on the protocol
  abbrev pub stream_output : Output → Action (World HttpStream (Http2 site))
  stream_output = http_emit (makers site) (kept site) (send site others) k

  sends-Held :
      (event : StreamEvent)
      → Keeps Held (send site others event)
      → Keeps (Around Held) (stream_output (Output.send event))
  unfolding http_emit
  sends-Held event sends = record {
    at = λ w around. record { rest = sends.at _ (record { there = around.rest.there }) };
  }

  pub responds-Held :
      (id : ℕ) (headers : List Header) (status_code : ℕ) (reason : Bytes)
      → Keeps
          (Around Held)
          (stream_output (Output.send (StreamEvent.response id headers status_code reason)))
  unfolding send stream_send send_event
  responds-Held id headers status_code reason =
      sends-Held _ (attempt-Held _ _ (send_response-Held id headers status_code))

  pub ends-Held :
      (id : ℕ) (headers : List Header)
      → Keeps (Around Held) (stream_output (Output.send (StreamEvent.end_body id headers)))
  unfolding send stream_send send_event
  ends-Held id headers = sends-Held _ (attempt-Held _ _ (finish_content-Held id headers))

  pub logs-Held :
      (scope : Scope) (summary : Option Summary)
      → Keeps (Around Held) (stream_output (access scope summary))
  unfolding http_emit
  logs-Held scope summary = record {
    at = λ w around. record { rest = record { there = around.rest.there } };
  }

-- ===== src/Http1/Counts.antt =====
-- What the counters of an H11Protocol (protocol/h11.py) and of its worker (worker_context.py) count.
use nonecorn.Prelude.{◌∙◌, sym, arith, ap, ◌≡◌, ◌+◌, ℕ, zero, suc, refl, false, List}
use nonecorn.Exec.Keeps.{Keeps-if, Keeps-bind}
use nonecorn.Asgi.{StreamEvent}
use nonecorn.Worker.{WorkerContext, mark_request, mark_requests}
use nonecorn.Http1.H11.{H11Request}
use nonecorn.Http1.State.{Http1, IoEvent, send_io}
use nonecorn.Http1.State.{init as init_http1}
use nonecorn.Http1.Streams.{Site, Stream, handle_stream}
use nonecorn.Http1.Receive.{
  check_protocol, create_stream, handle_request, is_websocket, make_http, make_stream,
  make_websocket, request_event,
}
use nonecorn.Http1.Steady.{Steady}
use nonecorn.Http1.Steady.Calls.{Call, Receiving, run, run-keeps}
use nonecorn.Http1.Steady.Checks.{check_protocol-Keeps}
use nonecorn.Http1.Steady.Closing.{Kept, update_rest-Keeps}
use nonecorn.Http1.Steady.Streams.{handle_stream-Keeps}

add_one : (n : ℕ) → n + 1 ≡ suc n
add_one n = omega arith

mark_requests-suc :
    (n : ℕ) (c : WorkerContext) → mark_requests (suc n) c ≡ mark_request (mark_requests n c)
mark_requests-suc zero c = refl
mark_requests-suc (suc n) c = mark_requests-suc n (mark_request c)

module _ (site : Site) (context : WorkerContext) where
  open site use {h}

  abbrev IsCounted : Http1 h → Type 0
  IsCounted p = p.context ≡ mark_requests p.keep_alive_requests context

  IsCounted-Steady : Steady h IsCounted
  IsCounted-Steady = record {
    sending = record {
      sends = λ p event counted. counted;
      sends_file = λ p n counted. counted;
      emits = λ p effect plain counted. counted;
    };
    detaches = λ p counted. counted;
    wakes = λ p counted. counted;
    starts = λ p c detached next counted. counted;
  }

  make_stream-Keeps : (request : H11Request) → Kept h IsCounted (make_stream site request)
  unfolding make_stream make_websocket make_http
  make_stream-Keeps request =
      Keeps-if (is_websocket request) (make_websocket site) (make_http site)
        (record { at = λ w r. record { rest = r.rest } })
        (record { at = λ w r. record { rest = r.rest } })

  abbrev counted : Http1 h → Http1 h
  counted p = record p {
    keep_alive_requests = p.keep_alive_requests + 1;
    context = mark_request p.context;
  }

  counted-IsCounted : (p : Http1 h) → IsCounted p → IsCounted (counted p)
  counted-IsCounted p c =
      ap mark_request c
      ∙ sym (mark_requests-suc p.keep_alive_requests context)
      ∙ ap (λ m. mark_requests m context) (sym (add_one p.keep_alive_requests))

  handle_request-Keeps : (request : H11Request) → Kept h IsCounted (handle_request site request)
  unfolding handle_request create_stream
  handle_request-Keeps request =
      Keeps-bind (send_io (IoEvent.updated false)) _ (update_rest-Keeps h IsCounted _ (λ p c. c))
        (λ x.
          Keeps-bind (check_protocol site request) _
            (check_protocol-Keeps site IsCounted IsCounted-Steady.sending request)
            (λ y. Keeps-bind (make_stream site request) _ (make_stream-Keeps request) (λ z.
              Keeps-bind (handle_stream site (StreamEvent.request 1 (request_event site request))) _
                (handle_stream-Keeps site IsCounted IsCounted-Steady _)
                (λ u. update_rest-Keeps h IsCounted counted counted-IsCounted))))

  IsCounted-Receiving : Receiving site IsCounted
  IsCounted-Receiving = record {
    connects = λ p c counted. counted;
    passes = λ p o counted. counted;
    sleeps = λ p counted. counted;
    requests = handle_request-Keeps;
  }

  -- Whatever calls a connection has had, its worker has been told of just as many requests as the
  -- connection has counted against `keep_alive_max_requests`: the worker's context is the one that
  -- the connection began with, marked as often.
  pub run-IsCounted :
      (s : Stream site.ws) (calls : List Call)
      → let w = run site calls (record { stream = s; rest = init_http1 h site.settings context }) in
        w.rest.context ≡ mark_requests w.rest.keep_alive_requests context
  unfolding init_http1
  run-IsCounted s calls =
      run-keeps site IsCounted IsCounted-Steady IsCounted-Receiving calls
        (record { stream = s; rest = init_http1 h site.settings context }) refl

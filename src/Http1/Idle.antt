-- ===== src/Http1/Idle.antt =====
-- When an H11Protocol (protocol/h11.py) says that it idles, and what its counters count.
use nonecorn.Exec.{◌>>◌}
use nonecorn.Prelude.{
  ◌+◌, ◌≡◌, ◌∷◌, ◌∙◌, true, sym, refl, if◌then◌else◌, false, arith, [], List, Bool,
}
use nonecorn.Exec.Keeps.{continue-leads, Keeps-bind}
use nonecorn.Stream.Keeps.{Around}
use nonecorn.Asgi.{StreamEvent}
use nonecorn.Worker.{WorkerContext, mark_request}
use nonecorn.Http1.H11.{H11, H11Request}
use nonecorn.Http1.State.{update_rest, Http1, Effect, IoEvent, send_io}
use nonecorn.Http1.State.{init as init_http1}
use nonecorn.Http1.Streams.{Site, Stream, Connected, handle_stream}
use nonecorn.Http1.Receive.{
  check_protocol, create_stream, handle_request, is_websocket, make_http, make_stream,
  make_websocket, request_event,
}
use nonecorn.Http1.Steady.{is_plain, Sends, Steady}
use nonecorn.Http1.Steady.Calls.{Call, Receiving, run, run-keeps}
use nonecorn.Http1.Steady.Checks.{check_protocol-Keeps}
use nonecorn.Http1.Steady.Closing.{Kept, update_rest-Keeps}
use nonecorn.Http1.Steady.Streams.{handle_stream-Keeps}

-- what the server was told last: it starts the idle timeout of a connection by itself
abbrev pub told_idle : List Effect → Bool
told_idle [] = true
told_idle (Effect.io (IoEvent.updated idle) ∷ effects) = idle
told_idle (effect ∷ effects) = told_idle effects

abbrev pub IsFree : {h : H11} → Http1 h → Type 0
IsFree p = told_idle p.effects ≡ true → p.attached ≡ false

abbrev pub IsBusy : {h : H11} → Http1 h → Type 0
IsBusy p = told_idle p.effects ≡ false

told_idle-plain :
    (effect : Effect) (effects : List Effect)
    → is_plain effect ≡ true
    → told_idle (effect ∷ effects) ≡ told_idle effects
told_idle-plain (Effect.stream output) effects plain = refl
told_idle-plain (Effect.io (IoEvent.raw_bytes bytes)) effects plain = refl
told_idle-plain (Effect.io (IoEvent.zero_copy_send file offset count)) effects plain = refl
told_idle-plain (Effect.io IoEvent.closed) effects plain = refl
told_idle-plain (Effect.io (IoEvent.updated idle)) effects plain = ground arith

module _ (h : H11) where
  IsBusy-Sends : Sends h IsBusy
  IsBusy-Sends = record {
    sends = λ p event busy. busy;
    sends_file = λ p n busy. busy;
    emits = λ p effect plain busy. told_idle-plain effect p.effects plain ∙ busy;
  }

  IsFree-Steady : Steady h IsFree
  IsFree-Steady = record {
    sending = record {
      sends = λ p event free. free;
      sends_file = λ p n free. free;
      emits =
          λ p effect plain free idle. free (sym (told_idle-plain effect p.effects plain) ∙ idle);
    };
    detaches = λ p free idle. refl;
    wakes = λ p free. free;
    starts = λ p c detached next free idle. detached;
  }

module _ (site : Site) where
  open site use {h}

  -- a request is announced before its stream is there
  busy-Keeps :
      (request : H11Request) (w : Connected site)
      → Around IsBusy w
      → Around IsFree (make_stream site request w).1
  unfolding make_stream make_websocket make_http
  busy-Keeps request w busy =
      elim (is_websocket request)
        as (λ b. Around IsFree ((if b then make_websocket site else make_http site) w).1) [
          | true ↦ record { rest = λ idle. ground (arith, busy.rest) }
          | false ↦ record { rest = λ idle. ground (arith, busy.rest) }
        ]

  abbrev counted : Http1 h → Http1 h
  counted p = record p {
    keep_alive_requests = p.keep_alive_requests + 1;
    context = mark_request p.context;
  }

  create_stream-frees :
      (request : H11Request) (w : Connected site)
      → Around IsBusy w
      → Around IsFree (create_stream site request w).1
  unfolding create_stream
  create_stream-frees request w busy =
      continue-leads (Around IsFree) (make_stream site request w).0
        (λ x. do
          handle_stream site (StreamEvent.request 1 (request_event site request))
          update_rest counted)
        (make_stream site request w).1 (busy-Keeps request w busy)
        (λ x.
          (Keeps-bind (handle_stream site (StreamEvent.request 1 (request_event site request)))
              (λ y. update_rest counted) (handle_stream-Keeps site IsFree (IsFree-Steady h) _)
              (λ y. update_rest-Keeps h IsFree counted (λ p free. free))).at
            (make_stream site request w).1 (busy-Keeps request w busy))

  handle_request-Keeps : (request : H11Request) → Kept h IsFree (handle_request site request)
  unfolding handle_request
  handle_request-Keeps request = record {
    at = λ w r.
        let told : Connected site = (send_io (IoEvent.updated false) w).1 in
        let busy : Around IsBusy (check_protocol site request told).1 =
          (check_protocol-Keeps site IsBusy (IsBusy-Sends h) request).at told
            (record { rest = refl }) in
        continue-leads (Around IsFree) (check_protocol site request told).0
          (λ x. create_stream site request) (check_protocol site request told).1
          (record { rest = λ idle. ground (arith, busy.rest) })
          (λ x. create_stream-frees request _ busy);
  }

  IsFree-Receiving : Receiving site IsFree
  IsFree-Receiving = record {
    connects = λ p c free. free;
    passes = λ p o free. free;
    sleeps = λ p free. free;
    requests = handle_request-Keeps;
  }

  -- A connection that is told to the server to idle has no stream: however the server, the client and
  -- the application take turns from the start of a connection on, and whichever calls raise, when the
  -- last `Updated` said that it idles, `self.stream` is None, so that the idle timeout never ends a
  -- request that is being answered.
  pub run-IsFree :
      (context : WorkerContext) (s : Stream site.ws) (calls : List Call)
      → told_idle
          (run site calls
            (record { stream = s; rest = init_http1 h site.settings context })).rest.effects
        ≡ true
      → (run site calls
          (record { stream = s; rest = init_http1 h site.settings context })).rest.attached
        ≡ false
  unfolding init_http1
  run-IsFree context s calls =
      run-keeps site IsFree (IsFree-Steady h) IsFree-Receiving calls
        (record { stream = s; rest = init_http1 h site.settings context }) (λ idle. refl)

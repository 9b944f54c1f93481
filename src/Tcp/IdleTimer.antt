-- ===== src/Tcp/IdleTimer.antt =====
-- The idle timeout of a connection (asyncio/tcp_server.py) below an H11Protocol (protocol/h11.py).
use nonecorn.Prelude.{◌≡◌, ◌∷◌, true, refl, false, arith, [], List, Bool}
use nonecorn.Exec.{Action}
use nonecorn.Worker.{WorkerContext}
use nonecorn.Http1.State.{Effect, IoEvent}
use nonecorn.Http1.State.{init as init_http1}
use nonecorn.Http1.Streams.{Connected, Site, Stream}
use nonecorn.Http1.Idle.{told_idle, run-IsFree}
use nonecorn.Http1.Steady.Calls.{Call, run}
use nonecorn.Tcp.{Served, close, protocol_send, restart_idle, stop_idle, write}

module _ {W : Type 0} (handle_closed : Action (Served W)) (broken : Served W → Bool) where
  -- the server once it has been sent a protocol's effects, the newest first
  abbrev pub serve : List Effect → Served W → Served W
  serve [] w = (restart_idle w).1
  serve (Effect.io event ∷ effects) w =
      let w' = serve effects w in (protocol_send handle_closed broken event w').1
  serve (Effect.stream output ∷ effects) w = serve effects w

  serve-told_idle :
      ((w : Served W) → (handle_closed w).1.server.idles ≡ w.server.idles)
      → (effects : List Effect) (w : Served W) → (serve effects w).server.idles ≡ true
      → told_idle effects ≡ true
  unfolding protocol_send restart_idle stop_idle write close
  serve-told_idle calm [] w idles = refl
  serve-told_idle calm (Effect.stream output ∷ effects) w idles =
      serve-told_idle calm effects w idles
  serve-told_idle calm (Effect.io (IoEvent.raw_bytes bytes) ∷ effects) w idles =
      ground (arith, idles, calm (serve effects w), serve-told_idle calm effects w)
  serve-told_idle calm (Effect.io (IoEvent.zero_copy_send fd offset count) ∷ effects) w idles =
      ground (arith, idles, serve-told_idle calm effects w)
  serve-told_idle calm (Effect.io IoEvent.closed ∷ effects) w idles = ground (arith, idles)
  serve-told_idle calm (Effect.io (IoEvent.updated true) ∷ effects) w idles = refl
  serve-told_idle calm (Effect.io (IoEvent.updated false) ∷ effects) w idles = ground (arith, idles)

  -- The idle timeout of a connection runs only while no stream is attached: whatever calls the
  -- protocol has had from its start, and whichever writes broke, if the server that was sent what the
  -- protocol sent has its idle timeout running, then the protocol has no stream. The protocol's
  -- `handle` of Closed, to which a broken write leads, is taken to leave the timeout as it is.
  pub serve-attached :
      (site : Site) (context : WorkerContext) (s : Stream site.ws) (calls : List Call)
      (w : Served W)
      → ((w : Served W) → (handle_closed w).1.server.idles ≡ w.server.idles)
      → (serve
          (run site calls
            (record { stream = s; rest = init_http1 site.h site.settings context })).rest.effects
          w).server.idles
        ≡ true
      → (run site calls
          (record { stream = s; rest = init_http1 site.h site.settings context })).rest.attached
        ≡ false
  serve-attached site context s calls w calm idles =
      let start : Connected site = record {
        stream = s;
        rest = init_http1 site.h site.settings context;
      } in
      run-IsFree site context s calls
        (serve-told_idle calm (run site calls start).rest.effects w idles)

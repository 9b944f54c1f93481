-- ===== src/Protocols.antt =====
-- The class ProtocolWrapper of protocol/__init__.py: the protocol of a connection, which may change
-- from HTTP/1 to HTTP/2 while it runs.
pub mod PriorKnowledge
use nonecorn.Prelude.{List, if◌then◌else◌, ℕ, Option, Bool, none, some, true, false, not, is_empty}
use nonecorn.Bytes.{Bytes, Text, codes, same}
use nonecorn.Asgi.{Header}
use nonecorn.Exec.{
  Action, Error, Exec, Result, ok, raise, pass, pure, throw, when, ◌>>=◌, ◌>>◌, h2_protocol_assumed,
  h2c_protocol_required,
}
use nonecorn.Worker.{WorkerContext}
use nonecorn.Http1.State.{init as init_http1}
use nonecorn.Http1.Streams.{Connected, Site, Stream}
use nonecorn.Http1.Receive.{
  Loop, handle_bytes as handle_bytes_h1, handle_closed as handle_closed_h1,
  handle_events as handle_events_h1,
}
use nonecorn.Http2.State.{H2Site, Http2, Others}
use nonecorn.Http2.State.{init as init_http2}
use nonecorn.Http2.Receive.{
  handle_bytes as handle_bytes_h2, handle_closed as handle_closed_h2, initiate,
}

-- The arguments of the wrapper. A protocol that follows HTTP/1 is not told of TLS.
pub record Sites : Type 1 where
  pub first : Site
  pub second : H2Site

abbrev pub without_tls : H2Site → H2Site
without_tls site = record site { settings = record site.settings { has_tls = false } }

-- `self.protocol`
pub data Protocol (sites : Sites) : Type 0 where
  http1 : Connected sites.first → Protocol sites
  http2 : Http2 sites.second → Protocol sites
  switched : Http2 (without_tls sites.second) → Protocol sites

abbrev pub is_h2 : Option Text → Bool
is_h2 none = false
is_h2 (some protocol) = same protocol (codes "h2")

-- how a call of the protocol ends, in the state of the wrapper
abbrev pub within : {A S T : Type 0} → (S → T) → Result A × S → Result A × T
within wrap (r, s) = (r, wrap s)

-- what follows a call of HTTP/2, which has no loop that waits
abbrev pub done : {S : Type 0} → Action S → Exec S Loop
done m = do m; pure Loop.finished

module _ (sites : Sites) (others : Others sites.second)
    (others_after : Others (without_tls sites.second)) where
  open sites use {first, second}

  -- `__init__`
  unfoldable pub choose : Option Text → WorkerContext → Protocol sites
  choose alpn context =
      if is_h2 alpn
      then Protocol.http2 (init_http2 second context)
      else Protocol.http1
          (record { stream = Stream.absent; rest = init_http1 first.h first.settings context })

  -- `initiate`
  unfoldable pub start : Action (Protocol sites)
  start (Protocol.http1 w) = (ok tt, Protocol.http1 w)
  start (Protocol.http2 p) = within (λ p. Protocol.http2 p) (initiate second others none none p)
  start (Protocol.switched p) =
      within (λ p. Protocol.switched p) (initiate (without_tls second) others_after none none p)

  -- the new protocol, with the worker and the server of the old one
  unfoldable pub take_over : Connected first → Http2 (without_tls second)
  take_over w = record (init_http2 (without_tls second) w.rest.context) {
    terminated = w.rest.terminated;
    effects = w.rest.effects;
  }

  -- the end of both handlers
  unfoldable pub switch :
      Option (List Header) → Option Bytes → Bytes → Connected first → Result Loop × Protocol sites
  switch headers upgrade bytes w =
      within (λ p. Protocol.switched p)
        (done
          (do
            initiate (without_tls second) others_after headers upgrade
            when (not (is_empty bytes)) (handle_bytes_h2 (without_tls second) others_after bytes))
          (take_over w))

  -- what follows a call of HTTP/1
  unfoldable pub after_http1 : Result Loop → Connected first → Result Loop × Protocol sites
  after_http1 (raise (h2_protocol_assumed bytes)) w = switch none none bytes w
  after_http1 (raise (h2c_protocol_required bytes headers upgrade)) w =
      switch (some headers) (some upgrade) bytes w
  after_http1 r w = (r, Protocol.http1 w)

  -- `handle` of RawData
  unfoldable pub handle_bytes : ℕ → Bytes → Exec (Protocol sites) Loop
  handle_bytes fuel bytes (Protocol.http1 w) =
      let (r, w') = handle_bytes_h1 first fuel bytes w in after_http1 r w'
  handle_bytes fuel bytes (Protocol.http2 p) =
      within (λ p. Protocol.http2 p) (done (handle_bytes_h2 second others bytes) p)
  handle_bytes fuel bytes (Protocol.switched p) =
      within (λ p. Protocol.switched p)
        (done (handle_bytes_h2 (without_tls second) others_after bytes) p)

  -- a `handle` that waited in the loop of HTTP/1, and goes on
  unfoldable pub resume : ℕ → Exec (Protocol sites) Loop
  resume fuel (Protocol.http1 w) = let (r, w') = handle_events_h1 first fuel w in after_http1 r w'
  resume fuel protocol = (ok Loop.finished, protocol)

  -- `handle` of Closed
  unfoldable pub handle_closed : Action (Protocol sites)
  handle_closed (Protocol.http1 w) = within (λ w. Protocol.http1 w) (handle_closed_h1 first w)
  handle_closed (Protocol.http2 p) =
      within (λ p. Protocol.http2 p) (handle_closed_h2 second others p)
  handle_closed (Protocol.switched p) =
      within (λ p. Protocol.switched p) (handle_closed_h2 (without_tls second) others_after p)

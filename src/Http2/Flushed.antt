-- ===== src/Http2/Flushed.antt =====
-- What H2Protocol's `handle` (protocol/h2.py) leaves in h2.
use nonecorn.Prelude.{
  ◌∷◌, ◌∙◌, ap, ◌≡◌, true, is_empty, if◌then◌else◌, false, arith, [], List, Bool,
}
use nonecorn.Exec.{Error, Result, ok, raise, continue, throw, ◌>>◌}
use nonecorn.Bytes.{Bytes}
use nonecorn.Http1.State.{Effect, IoEvent}
use nonecorn.Http2.Libraries.{H2Event}
use nonecorn.Http2.State.{H2Site, Http2, Others, flush, is_protocol_error, send_io}
use nonecorn.Http2.Receive.{after_receive, handle_bytes, handle_each, handle_events}

abbrev pub is_flushed : (site : H2Site) → Http2 site → Bool
is_flushed site p = is_empty (site.h.data_to_send p.connection).0

-- the effects with these bytes written to the server, newest first
abbrev pub written : Bytes → List Effect → List Effect
written [] effects = effects
written (b ∷ bytes) effects = Effect.io (IoEvent.raw_bytes (b ∷ bytes)) ∷ effects

module _ (site : H2Site) (others : Others site) where
  open site use {h}

  -- what stands before the last flush: all events of the bytes handled, or, after a protocol error of the
  -- client, none
  abbrev pub before_flush : Result (List H2Event) → Http2 site → Http2 site
  before_flush (ok events) p = (handle_each site others events p).1
  before_flush (raise e) p = p

  abbrev pub told_closed : Result (List H2Event) → List Effect → List Effect
  told_closed (ok events) effects = effects
  told_closed (raise e) effects = Effect.io IoEvent.closed ∷ effects

  flush_lem :
      (p : Http2 site)
      → ((flush site p).0 ≡ ok tt)
        × ((flush site p).1.connection ≡ (h.data_to_send p.connection).1)
        × ((flush site p).1.effects ≡ written (h.data_to_send p.connection).0 p.effects)
  unfolding flush
  flush_lem p = ground arith

  -- after the last flush, h2's connection and what went to the server
  IsFlushed : Result (List H2Event) → Http2 site → Http2 site → Type 0
  IsFlushed r p p' =
      (p'.connection ≡ (h.data_to_send p.connection).1)
      × (p'.effects ≡ told_closed r (written (h.data_to_send p.connection).0 p.effects))

  after_each :
      (events : List H2Event) (r : Result (Unit {0})) (p : Http2 site)
      → (continue r (λ x. flush site) p).0 ≡ ok tt
      → IsFlushed (ok events) p (continue r (λ x. flush site) p).1
  unfolding IsFlushed
  after_each events (ok x) p returns = ((flush_lem p).1, (flush_lem p).2)
  after_each events (raise e) p returns = ground (arith, returns)

  refused :
      (b : Bool) (e : Error) (p : Http2 site)
      → ((if b then (do flush site; send_io site IoEvent.closed) else throw e) p).0 ≡ ok tt
      → IsFlushed
          (raise e)
          p
          ((if b then (do flush site; send_io site IoEvent.closed) else throw e) p).1
  unfolding IsFlushed
  refused true e p returns = ground (arith, flush_lem p)
  refused false e p returns = ground (arith, returns)

  after_receive-IsFlushed :
      (r : Result (List H2Event)) (p : Http2 site)
      → (after_receive site others r p).0 ≡ ok tt
      → IsFlushed r (before_flush r p) (after_receive site others r p).1
  unfolding after_receive handle_events
  after_receive-IsFlushed (ok events) p returns =
      after_each events (handle_each site others events p).0 (handle_each site others events p).1
        returns
  after_receive-IsFlushed (raise e) p returns = refused (is_protocol_error site e) e p returns

  -- When `handle` of RawData returns, be it with events handled or with a protocol error of the client,
  -- what h2 had left to send once its events were handled has gone to the server, as one RawData with
  -- just those bytes, unless there were none; after a protocol error a Closed followed it. h2 then has
  -- nothing left to send, where its `data_to_send` hands out all that it has.
  pub handle_bytes-flushes :
      (bytes : Bytes) (p : Http2 site)
      → ((c : h.Connection) → (h.data_to_send (h.data_to_send c).1).0 ≡ [])
      → (handle_bytes site others bytes p).0 ≡ ok tt
      → let r = (h.receive_data bytes p.connection).0 in
        let q = before_flush r (record p { connection = (h.receive_data bytes p.connection).1 }) in
        ((handle_bytes site others bytes p).1.effects
          ≡ told_closed r (written (h.data_to_send q.connection).0 q.effects))
        × (is_flushed site (handle_bytes site others bytes p).1 ≡ true)
  unfolding handle_bytes IsFlushed
  handle_bytes-flushes bytes p emptied returns =
      let r = (h.receive_data bytes p.connection).0 in
      let q : Http2 site = record p { connection = (h.receive_data bytes p.connection).1 } in
      let (same_connection, same_effects) = after_receive-IsFlushed r q returns in
      (
        same_effects,
        ap (λ c. is_empty (h.data_to_send c).0) same_connection ∙ ap is_empty (emptied _),
      )

-- ===== src/Http1/Settles.antt =====
-- How a connection (protocol/h11.py, `_maybe_recycle`) goes on once its stream has closed.
use nonecorn.Prelude.{
  is_some, not, ◌≡◌, ◌∷◌, true, some, refl, none, false, arith, Option, List, Bool,
}
use nonecorn.Exec.{Action, Result, ok, raise, continue, when, ◌>>◌}
use nonecorn.Asgi.{Receive}
use nonecorn.Stream.{World}
use nonecorn.HttpStream.{
  put_app, log_access, is_closed, handle_open, handle_closed, HttpStream, is_request, handle,
  send_event,
}
use nonecorn.HttpStream.AppSend.{app_finished}
use nonecorn.HttpStream.AppSend.{app_send as send_http}
use nonecorn.Http1.H11.{H11}
use nonecorn.Http1.State.{Http1, Effect, IoEvent}
use nonecorn.Http1.Send.{maybe_recycle, recycle, start_cycle, stream_send, close_stream}
use nonecorn.Http1.Streams.{
  Site, Stream, Connected, app_send, send_by, http_emit, http_emit_closed, close_http,
}
use nonecorn.Http1.Steady.Closing.{close_stream-detaches}

-- the server was told at last that the connection ends, or that it idles
abbrev pub is_settled : List Effect → Bool
is_settled (Effect.io IoEvent.closed ∷ effects) = true
is_settled (Effect.io (IoEvent.updated idle) ∷ effects) = idle
is_settled _ = false

-- how a method ends that settles
abbrev IsSettled : {h : H11} {S : Type 0} → Result (Unit {0}) × World S (Http1 h) → Type 0
IsSettled end =
    (end.0 ≡ ok tt) × (is_settled end.1.rest.effects ≡ true) × (end.1.rest.attached ≡ false)

module _ (h : H11) {S : Type 0} where
  start_cycle-IsSettled :
      (next : Option h.Connection) (w : World S (Http1 h))
      → w.rest.attached ≡ false
      → IsSettled (start_cycle h next w)
  unfolding start_cycle
  start_cycle-IsSettled none w e = (refl, refl, e)
  start_cycle-IsSettled (some c) w e = (refl, refl, e)

  recycle-IsSettled : (w : World S (Http1 h)) → w.rest.attached ≡ false → IsSettled (recycle h w)
  unfolding recycle
  recycle-IsSettled w free =
      ground (arith, start_cycle-IsSettled (h.start_next_cycle w.rest.connection) w free)

  after_close :
      (r : Result (Unit {0})) (w : World S (Http1 h))
      → r ≡ ok tt
      → w.rest.attached ≡ false
      → IsSettled (continue r (λ x. recycle h) w)
  after_close (ok x) w returns free = recycle-IsSettled w free
  after_close (raise e) w returns free = ground arith

  maybe_recycle-IsSettled :
      (close : Action (World S (Http1 h))) (w : World S (Http1 h))
      → (close_stream h close w).0 ≡ ok tt
      → IsSettled (maybe_recycle h close w)
  unfolding maybe_recycle
  maybe_recycle-IsSettled close w returns =
      after_close (close_stream h close w).0 (close_stream h close w).1 returns
        (close_stream-detaches h close w returns)

module _ (site : Site) where
  open site use {h, ws, env, config, settings, files}

  put_app-returns :
      (w : World HttpStream (Http1 h))
      → w.stream.app_put ≡ true
      → (put_app (http_emit_closed site) Receive.http_disconnect w).0 ≡ ok tt
  unfolding put_app http_emit_closed
  put_app-returns w put = ground (arith, put)

  told-returns :
      (b : Bool) (w : World HttpStream (Http1 h))
      → is_some w.stream.scope ≡ true
      → w.stream.app_put ≡ true
      → ((do
        when b (log_access (http_emit_closed site) none)
        put_app (http_emit_closed site) Receive.http_disconnect)
          w).0
        ≡ ok tt
  unfolding log_access http_emit_closed put_app
  told-returns true w scoped put = ground (arith, scoped, put)
  told-returns false w scoped put = put_app-returns w put

  handle_closed-returns :
      (w : World HttpStream (Http1 h))
      → is_some w.stream.scope ≡ true
      → w.stream.app_put ≡ true
      → (handle_closed (http_emit_closed site) w).0 ≡ ok tt
  unfolding handle_closed
  handle_closed-returns w scoped put =
      told-returns (not (is_closed w.stream.state))
        (record w { stream = record w.stream { closed = true } }) scoped put

  close_http-returns :
      (w : World HttpStream (Http1 h))
      → w.stream.closed ≡ false
      → is_some w.stream.scope ≡ true
      → w.stream.app_put ≡ true
      → (close_http site w).0 ≡ ok tt
  unfolding close_http handle handle_open
  close_http-returns w opened scoped put =
      ground (arith, opened, handle_closed-returns w scoped put)

  close_stream-returns :
      (w : World HttpStream (Http1 h))
      → w.stream.closed ≡ false
      → is_some w.stream.scope ≡ true
      → w.stream.app_put ≡ true
      → (close_stream h (close_http site) w).0 ≡ ok tt
  unfolding close_stream
  close_stream-returns w opened scoped put =
      ground (arith, opened, close_http-returns w opened scoped put)

  app_finished-recycles :
      (w : World HttpStream (Http1 h))
      → w.stream.closed ≡ false
      → is_request w.stream.state ≡ false
      → app_finished env (http_emit site) w ≡ maybe_recycle h (close_http site) w
  unfolding app_finished http_emit stream_send send_event
  app_finished-recycles w opened answered = ground (arith, opened, answered)

  -- When the application of an open HTTP stream that it was started for returns, with a response
  -- begun, the call raises nothing, the connection has let go of the stream, and the last that it
  -- tells the server is that it idles or that it is closed: it is not left with nobody to answer.
  pub app_send-settles :
      (s : HttpStream) (p : Http1 h)
      → s.closed ≡ false
      → is_some s.scope ≡ true
      → s.app_put ≡ true
      → is_request s.state ≡ false
      → let w : Connected site = record { stream = Stream.http s; rest = p } in
        ((app_send site none w).0 ≡ ok tt)
        × (is_settled (app_send site none w).1.rest.effects ≡ true)
        × ((app_send site none w).1.rest.attached ≡ false)
  unfolding app_send send_by send_http
  app_send-settles s p opened scoped put answered =
      let w : World HttpStream (Http1 h) = record { stream = s; rest = p } in
      ground (
        arith,
        app_finished-recycles w opened answered,
        maybe_recycle-IsSettled h (close_http site) w (close_stream-returns w opened scoped put),
      )

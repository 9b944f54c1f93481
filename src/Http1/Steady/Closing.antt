-- ===== src/Http1/Steady/Closing.antt =====
-- A stream that closes keeps a steady predicate of the protocol (protocol/h11.py, `_maybe_recycle`).
use nonecorn.Prelude.{◌≡◌, true, some, refl, none, if◌then◌else◌, false, arith, Option, Bool}
use nonecorn.Http1.Steady.{Sends, Steady, is_plain}
use nonecorn.Exec.{◌>>◌, when, Action, Result, ok, raise, continue}
use nonecorn.Exec.Keeps.{Keeps, Keeps-bind, Keeps-when}
use nonecorn.Stream.{Output, World}
use nonecorn.Stream.Keeps.{Around}
use nonecorn.Http1.H11.{H11}
use nonecorn.Http1.State.{Http1, IoEvent, Effect, send_io, record_stream, update_rest}
use nonecorn.Http1.Send.{start_cycle, close_stream, recycle, maybe_recycle, is_recyclable}

abbrev readable : {h : H11} → Http1 h → Http1 h
readable p = record p { can_read = true }

abbrev detached : {h : H11} → Http1 h → Http1 h
detached p = record p { attached = false }

module _ (h : H11) {S : Type 0} where
  after_close :
      (r : Result (Unit {0})) (w : World S (Http1 h))
      → ((continue r (λ x. update_rest detached) w).0 ≡ ok tt)
      → (continue r (λ x. update_rest detached) w).1.rest.attached ≡ false
  after_close (ok x) w e = refl
  after_close (raise e) w e' = ground arith

  when_attached :
      (b : Bool) (close : Action (World S (Http1 h))) (w : World S (Http1 h))
      → w.rest.attached ≡ b
      → (when b (do close; update_rest detached) w).0 ≡ ok tt
      → (when b (do close; update_rest detached) w).1.rest.attached ≡ false
  when_attached true close w e returns = after_close (close w).0 (close w).1 returns
  when_attached false close w e returns = e

  pub close_stream-detaches :
      (close : Action (World S (Http1 h))) (w : World S (Http1 h))
      → (close_stream h close w).0 ≡ ok tt
      → (close_stream h close w).1.rest.attached ≡ false
  unfolding close_stream
  close_stream-detaches close w returns = when_attached w.rest.attached close w refl returns

module _ (h : H11) (P : Http1 h → Type 0) where
  module _ {S : Type 0} where
    abbrev pub Kept : Action (World S (Http1 h)) → Type 0
    Kept m = Keeps (Around P) m

    pub update_rest-Keeps :
        (f : Http1 h → Http1 h) → ((p : Http1 h) → P p → P (f p)) → Kept (update_rest f)
    update_rest-Keeps f keeps = record { at = λ w r. record { rest = keeps w.rest r.rest } }

module _ (h : H11) (P : Http1 h → Type 0) (sending : Sends h P) where
  module _ {S : Type 0} where
    pub send_io-Keeps :
        (event : IoEvent) → is_plain (Effect.io event) ≡ true → Kept h P {S = S} (send_io event)
    send_io-Keeps event plain =
        update_rest-Keeps h P _ (λ p keeps. sending.emits p (Effect.io event) plain keeps)

    pub record_stream-Keeps : (output : Output) → Kept h P {S = S} (record_stream output)
    record_stream-Keeps output =
        update_rest-Keeps h P _ (λ p keeps. sending.emits p (Effect.stream output) refl keeps)

module _ (h : H11) (P : Http1 h → Type 0) (steady : Steady h P) where
  module _ {S : Type 0} where
    closing-Keeps :
        (close : Action (World S (Http1 h)))
        → Kept h P close
        → Kept h P (do close; update_rest detached)
    closing-Keeps close keeps =
        Keeps-bind close _ keeps (λ x. update_rest-Keeps h P detached steady.detaches)

    pub close_stream-Keeps :
        (close : Action (World S (Http1 h))) → Kept h P close → Kept h P (close_stream h close)
    unfolding close_stream
    close_stream-Keeps close keeps = record {
      at = λ w r.
          (Keeps-when w.rest.attached (do close; update_rest detached)
              (closing-Keeps close keeps)).at
            w r;
    }

    readable-Keeps : Kept h P {S = S} (do update_rest readable; send_io IoEvent.closed)
    readable-Keeps =
        Keeps-bind (update_rest readable) (λ x. send_io IoEvent.closed)
          (update_rest-Keeps h P readable steady.wakes)
          (λ x. send_io-Keeps h P steady.sending IoEvent.closed refl)

    start-keeps :
        (w : World S (Http1 h)) (next : Option h.Connection)
        → w.rest.attached ≡ false
        → h.start_next_cycle w.rest.connection ≡ next
        → Around P w
        → Around P (start_cycle h next w).1
    unfolding start_cycle
    start-keeps w none free e r = (send_io-Keeps h P steady.sending IoEvent.closed refl).at w r
    start-keeps w (some c) free e r = record { rest = steady.starts w.rest c free e r.rest }

    recycle-keeps :
        (w : World S (Http1 h)) → w.rest.attached ≡ false → Around P w → Around P (recycle h w).1
    unfolding recycle
    recycle-keeps w free r =
        elim (is_recyclable h w.rest)
          as (λ b.
            Around P
              (if b
                then start_cycle h (h.start_next_cycle w.rest.connection) w
                else (do update_rest readable; send_io IoEvent.closed) w).1) [
                  | true ↦ start-keeps w (h.start_next_cycle w.rest.connection) free refl r
                  | false ↦ readable-Keeps.at w r
                ]

    after_closed :
        (r : Result (Unit {0})) (w : World S (Http1 h))
        → (r ≡ ok tt → w.rest.attached ≡ false)
        → Around P w
        → Around P (continue r (λ x. recycle h) w).1
    after_closed (ok x) w free keeps = recycle-keeps w (free refl) keeps
    after_closed (raise e) w free keeps = keeps

    pub maybe_recycle-Keeps :
        (close : Action (World S (Http1 h))) → Kept h P close → Kept h P (maybe_recycle h close)
    unfolding maybe_recycle
    maybe_recycle-Keeps close keeps = record {
      at = λ w r.
          after_closed (close_stream h close w).0 (close_stream h close w).1
            (close_stream-detaches h close w) ((close_stream-Keeps close keeps).at w r);
    }

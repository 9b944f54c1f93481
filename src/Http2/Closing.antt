-- ===== src/Http2/Closing.antt =====
-- The end of a connection for H2Protocol (protocol/h2.py).
use nonecorn.Prelude.{suc, refl, has, false, discard, arith, all, [], Bool, ◌≡◌, ◌∷◌, ℕ, true, List}
use nonecorn.Exec.{Result, ok, raise, continue, when, pass, modify, ◌>>◌}
use nonecorn.Exec.Keeps.{Keeps, Keeps-pass, continue-leads}
use nonecorn.Asgi.{StreamEvent}
use nonecorn.Http2.State.{kept, makers, H2Site, Http2, Others, set_has_data}
use nonecorn.Http2.Send.{close_stream}
use nonecorn.Multiplex.{handle_object}
use nonecorn.Multiplex.Keeps.{handle_object-Keeps}
use nonecorn.Http2.Receive.{close_streams, handle_closed}
use nonecorn.Http2.SendTask.{SendLoop, send_task}

module _ (site : H2Site) where
  -- a closed protocol with these streams
  record Closed (ids : List ℕ) (p : Http2 site) : Type 0 where
    pub streams : p.streams ≡ ids
    pub closed : p.closed ≡ true

  object-Closed :
      (ids : List ℕ) (id : ℕ) (event : StreamEvent)
      → Keeps (Closed ids) (handle_object (makers site) (kept site) (λ event. pass) id event)
  object-Closed ids =
      handle_object-Keeps (makers site) (kept site) (Closed ids)
        (λ id s p c. record { streams = c.streams; closed = c.closed })
        (λ output. record { at = λ p c. record { streams = c.streams; closed = c.closed } })
        (λ event. pass) (λ event. Keeps-pass)

  detached :
      (id : ℕ) (ids : List ℕ) (p : Http2 site)
      → Closed (id ∷ ids) p
      → Closed ids (record p { streams = discard id p.streams })
  detached id ids p c = record { streams = ground (arith, c.streams); closed = c.closed }

  closing :
      (b : Bool) (id : ℕ) (ids : List ℕ) (p : Http2 site)
      → b ≡ true
      → Closed (id ∷ ids) p
      → Closed ids
          (when b
            (do
              modify (λ p. record p { streams = discard id p.streams })
              handle_object
                  (makers site)
                  (kept site)
                  (λ event. pass)
                  id
                  (StreamEvent.stream_closed id)
              set_has_data site)
            p).1
  closing false id ids p there c = ground (arith, there)
  closing true id ids p there c =
      let c' = (object-Closed ids id (StreamEvent.stream_closed id)).at _ (detached id ids p c) in
      continue-leads (Closed ids) _ (λ x. set_has_data site) _ c'
        (λ x. record { streams = c'.streams; closed = c'.closed })

  close_next :
      (id : ℕ) (ids : List ℕ) (p : Http2 site)
      → Closed (id ∷ ids) p
      → Closed ids (close_stream site id p).1
  unfolding close_stream
  close_next id ids p c = closing (has id p.streams) id ids p (ground (arith, c.streams)) c

module _ (site : H2Site) (others : Others site) where
  -- all were closed, or one of them raised
  abbrev AllClosed : Result (Unit {0}) × Http2 site → Type 0
  AllClosed end = (end.1.closed ≡ true) × (end.0 ≡ ok tt → end.1.streams ≡ [])

  then_close :
      (ids : List ℕ) (r : Result (Unit {0})) (p : Http2 site)
      → Closed site ids p
      → (Closed site ids p → AllClosed (close_streams site others ids p))
      → AllClosed (continue r (λ x. close_streams site others ids) p)
  then_close ids (ok x) p c all = all c
  then_close ids (raise e) p c all = (c.closed, λ returns. ground (arith, returns))

  close_streams-AllClosed :
      (ids : List ℕ) (p : Http2 site)
      → Closed site ids p
      → AllClosed (close_streams site others ids p)
  unfolding close_streams
  close_streams-AllClosed [] p c = (c.closed, λ returns. c.streams)
  close_streams-AllClosed (id ∷ ids) p c =
      then_close ids (close_stream site id p).0 (close_stream site id p).1
        (close_next site id ids p c) (close_streams-AllClosed ids (close_stream site id p).1)

  woken :
      (r : Result (Unit {0})) (p : Http2 site)
      → AllClosed (r, p)
      → AllClosed (continue r (λ x. set_has_data site) p)
  woken (ok x) p all = (all.0, all.1)
  woken (raise e) p all = all

  handle_closed-AllClosed : (p : Http2 site) → AllClosed (handle_closed site others p)
  unfolding handle_closed
  handle_closed-AllClosed p = woken _ _ (
      close_streams-AllClosed p.streams (record p { closed = true })
        (record { streams = refl; closed = refl }))

  -- Given Closed, a protocol that returns has no streams left. Even if one of the streams raised, the
  -- task that sends ends at its next round, whatever the tree of priorities has.
  pub handle_closed-ends :
      (fuel : ℕ) (p : Http2 site)
      → ((handle_closed site others p).0 ≡ ok tt → (handle_closed site others p).1.streams ≡ [])
        × ((send_task site (suc fuel) (handle_closed site others p).1).0 ≡ ok SendLoop.finished)
  unfolding send_task
  handle_closed-ends fuel p = ((handle_closed-AllClosed p).1, rw (handle_closed-AllClosed p).0 refl)

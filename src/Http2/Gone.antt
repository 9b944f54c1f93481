-- ===== src/Http2/Gone.antt =====
-- What H2Protocol (protocol/h2.py) makes of a stream that is gone.
use nonecorn.Prelude.{
  ◌∙◌, ◌++◌, true, suc, some, [], arith, ◌≡◌, ◌∷◌, ℕ, refl, none, length, has, false, at_key, List,
}
use nonecorn.Exec.{continue, Action, Result, ok, raise, key_error}
use nonecorn.Bytes.{Bytes}
use nonecorn.Http2.Libraries.{H2Event}
use nonecorn.Http2.State.{ends_sending, buffer_of, H2Site, Http2, Others}
use nonecorn.Http2.SendTask.{
  next_stream, send_round, send_task, send_data, try_send, next_chunk, pop_buffer, force_close,
}
use nonecorn.Http2.Receive.{
  after_receive, handle_bytes, handle_each, handle_events, handle_h2_event, handle_stream,
}

-- a step that follows a result, by what the step does
continue-returns :
    {S A : Type 0} (r : Result A) (m n k : Action S) (s : S)
    → ((s : S) → (m s).0 ≡ ok tt → n s ≡ k (m s).1)
    → (continue r (λ a. m) s).0 ≡ ok tt
    → continue r (λ a. n) s ≡ k (continue r (λ a. m) s).1
continue-returns (ok a) m n k s h returns = h s returns
continue-returns (raise e) m n k s h returns = ground (arith, returns)

module _ (site : H2Site) (others : Others site) where
  open site use {h, t}

  -- what is behind an event that raises is not handled
  handle_each-append :
      (before after : List H2Event) (p : Http2 site)
      → (handle_each site others before p).0 ≡ ok tt
      → handle_each site others (before ++ after) p
        ≡ handle_each site others after (handle_each site others before p).1
  unfolding handle_each
  handle_each-append [] after p returns = refl
  handle_each-append (event ∷ before) after p returns =
      continue-returns (handle_h2_event site others event p).0 (handle_each site others before)
        (handle_each site others (before ++ after)) (handle_each site others after)
        (handle_h2_event site others event p).1 (handle_each-append before after) returns

  data_received-gone :
      (id length : ℕ) (content : Bytes) (after : List H2Event) (p : Http2 site)
      → has id p.streams ≡ false
      → handle_each site others (H2Event.data_received id content length ∷ after) p
        ≡ (raise key_error, p)
  unfolding handle_each handle_h2_event handle_stream
  data_received-gone id length content after p gone = rw gone refl

  -- Data of a client for a stream that is no longer there, as after a response that went out before the
  -- whole request was in, makes `handle` raise a KeyError, wherever the data stands among the events of
  -- the bytes: what the events before it did stays done, and of the events behind it none is handled.
  -- The data is not acknowledged, and the flush that would send what h2 has written is not reached. The
  -- end of such a request is taken without harm.
  pub handle_bytes-gone :
      (bytes : Bytes) (id length : ℕ) (content : Bytes) (before after : List H2Event)
      (p : Http2 site)
      → (h.receive_data bytes p.connection).0
        ≡ ok (before ++ H2Event.data_received id content length ∷ after)
      → let q = record p { connection = (h.receive_data bytes p.connection).1 } in
        (handle_each site others before q).0 ≡ ok tt
        → has id (handle_each site others before q).1.streams ≡ false
        → (handle_bytes site others bytes p
            ≡ (raise key_error, (handle_each site others before q).1))
          × (handle_h2_event site others
                (H2Event.stream_ended id)
                (handle_each site others before q).1
              ≡ (ok tt, (handle_each site others before q).1))
  unfolding handle_bytes after_receive handle_events handle_h2_event handle_stream
  handle_bytes-gone bytes id length content before after p received returns gone =
      let q : Http2 site = record p { connection = (h.receive_data bytes p.connection).1 } in
      let each =
        handle_each-append before (H2Event.data_received id content length ∷ after) q returns
        ∙ data_received-gone id length content after (handle_each site others before q).1 gone in
      (rw (received, each) refl, rw gone refl)

-- an exception that `_send_data` catches, if one
abbrev pub IsCaught : (site : H2Site) {A : Type 0} → Result A → Type 0
IsCaught site (ok a) = Unit
IsCaught site (raise e) = ends_sending site e ≡ true

module _ (site : H2Site) where
  open site use {h, t}

  -- The handler of `_send_data`'s KeyError raises one itself.
  send_data-raises :
      (id : ℕ) (p : Http2 site)
      → at_key id p.buffers ≡ none
      → IsCaught site (h.local_flow_control_window id p.connection).0
      → ((send_data site id p).0 ≡ raise key_error) × ((send_data site id p).1.effects ≡ p.effects)
  unfolding send_data try_send next_chunk pop_buffer force_close buffer_of
  send_data-raises id p missing caught = ground (arith, missing, caught)

  -- Where the tree of priorities names a stream that has no buffer, `send_task` ends with a KeyError
  -- before it sends anything more: the handler in `_send_data` reads the buffer again, and so raises a
  -- KeyError of its own. What h2 raises when it is asked for the window of such a stream is taken to be
  -- one of the exceptions that `_send_data` catches.
  pub send_task-orphan :
      (fuel id : ℕ) (p : Http2 site)
      → p.closed ≡ false
      → (t.next p.priority).0 ≡ some id
      → at_key id p.buffers ≡ none
      → IsCaught site (h.local_flow_control_window id p.connection).0
      → ((send_task site (suc fuel) p).0 ≡ raise key_error)
        × ((send_task site (suc fuel) p).1.effects ≡ p.effects)
  unfolding send_task send_round next_stream
  send_task-orphan fuel id p open_ next missing caught = ground (
    arith,
    open_,
    next,
    send_data-raises id (record p { priority = (t.next p.priority).1 }) missing caught,
  )

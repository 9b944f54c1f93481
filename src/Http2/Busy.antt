-- ===== src/Http2/Busy.antt =====
-- When an H2Protocol (protocol/h2.py) says that it is busy.
use nonecorn.Multiplex.{handle_by, handle_object}
use nonecorn.Prelude.{
  ltb, sym, none, ◌∷◌, ◌==◌, some, set_key, inr, inl, has, at_key, all, Bool-cases, ==_iff,
  if◌then◌else◌, Bool, ◌≡◌, ℕ, true, refl, false, arith, [], List,
}
use mathlib.Core.Bool.{false≢true}
use nonecorn.Exec.Keeps.{Keeps-when}
use nonecorn.Exec.{Result, ok, raise, continue, ◌>>◌}
use nonecorn.Asgi.{Header, StreamEvent}
use nonecorn.HttpStream.{HttpStream, handle}
use nonecorn.Http1.Streams.{Stream}
use nonecorn.Http1.State.{IoEvent}
use nonecorn.Http1.Idle.{told_idle}
use nonecorn.Http2.State.{H2Site, Http2, Others, Wait, on_connection, is_idle_protocol, send_io}
use nonecorn.Http2.Refused.{IsStuck, continue-Leads, create_stream-IsStuck, request_of}
use nonecorn.Bytes.{Bytes, Text, codes, same}
use nonecorn.Utils.Headers.{filter_pseudo_headers, valid_server_name}
use nonecorn.Http2.Receive.{
  read_request, accept_request, create_stream, handle_stream, limit_requests, refuse_request, send,
  take_request,
}

all-false : (f : ℕ → Bool) (k : ℕ) (ks : List ℕ) → has k ks ≡ true → f k ≡ false → all f ks ≡ false
all-false f k [] there busy = ground (arith, there)
all-false f k (j ∷ ks) there busy = elim (Bool-cases (j == k)) [
  | inl e ↦ rw ((==_iff j k).0 e) (rw busy refl)
  | inr e ↦ ground (arith, all-false f k ks (ground (arith, there, e)) busy)
]

set_key-at_key {ℓ} :
    {A : Type ℓ} (k : ℕ) (a : A) (d : List (ℕ × A)) → at_key k d ≡ some a → set_key k a d ≡ d
set_key-at_key k a [] e = ground (arith, e)
set_key-at_key k a ((j, b) ∷ d) e = ground (arith, e, set_key-at_key k a d)

module _ (site : H2Site) (others : Others site) where
  open site use {h, settings}

  handle_stream-closed :
      (id : ℕ) (s : HttpStream) (event : StreamEvent) (p : Http2 site)
      → has id p.streams ≡ true
      → at_key id p.objects ≡ some (Stream.http s)
      → s.closed ≡ true
      → handle_stream site others (send site others) id event p ≡ (ok tt, p)
  unfolding handle_stream handle_object handle_by handle
  handle_stream-closed id s event p there found closed =
      ground (arith, there, found, closed, set_key-at_key id (Stream.http s) p.objects found)

  limit_requests-effects : (p : Http2 site) → (limit_requests site others p).1.effects ≡ p.effects
  unfolding limit_requests
  limit_requests-effects p = ground arith

  after_create :
      (r : Result (Unit {0})) (p : Http2 site)
      → (continue r (λ x. send_io site (IoEvent.updated false)) p).0 ≡ ok tt
      → told_idle (continue r (λ x. send_io site (IoEvent.updated false)) p).1.effects ≡ false
  after_create (ok x) p returns = refl
  after_create (raise e) p returns = ground (arith, returns)

  after_take :
      (r : Result (Unit {0})) (p : Http2 site)
      → (r ≡ ok tt → told_idle p.effects ≡ false)
      → (continue r (λ x. limit_requests site others) p).0 ≡ ok tt
      → told_idle (continue r (λ x. limit_requests site others) p).1.effects ≡ false
  after_take (ok x) p busy returns = rw (limit_requests-effects p) (busy refl)
  after_take (raise e) p busy returns = ground (arith, returns)

  take_request-busy :
      (id : ℕ) (headers : List Header) (p : Http2 site)
      → (take_request site others id headers p).0 ≡ ok tt
      → told_idle (take_request site others id headers p).1.effects ≡ false
  unfolding take_request
  take_request-busy id headers p returns =
      after_create (create_stream site others (send site others) id headers p).0
        (create_stream site others (send site others) id headers p).1 returns

  accept_request-busy :
      (b : Bool) (id : ℕ) (headers : List Header) (p : Http2 site)
      → b ≡ false
      → ((do
        if b then refuse_request site others id else take_request site others id headers
        limit_requests site others)
          p).0
        ≡ ok tt
      → told_idle
          ((do
            if b then refuse_request site others id else take_request site others id headers
            limit_requests site others)
            p).1.effects
        ≡ false
  accept_request-busy true id headers p on returns = ground (arith, on)
  accept_request-busy false id headers p on returns =
      after_take (take_request site others id headers p).0 (take_request site others id headers p).1
        (take_request-busy id headers p) returns

-- The stream `id` stays among the streams, where the other tasks leave it there while one waits.
module _ (site : H2Site) (others : Others site) (id : ℕ)
    (spares : (wait : Wait) (p : Http2 site)
      → has id p.streams ≡ true
      → has id (others wait p).streams ≡ true) where
  open site use {settings}

  -- what the stream with this id makes of an event, from now on nothing
  abbrev pub IgnoresAll : Http2 site → Type 0
  IgnoresAll p =
      (event : StreamEvent) → handle_stream site others (send site others) id event p ≡ (ok tt, p)

  ignores : (p : Http2 site) → IsStuck site others id spares p → IgnoresAll p
  ignores p s event = handle_stream-closed site others id s.stream event p s.there s.found s.closed

  limited-IsStuck :
      (p : Http2 site)
      → IsStuck site others id spares p
      → IsStuck site others id spares (limit_requests site others p).1
  unfolding limit_requests
  limited-IsStuck p s =
      (Keeps-when {P = IsStuck site others id spares}
          (ltb settings.keep_alive_max_requests p.keep_alive_requests)
          (on_connection site site.h.close_connection)
          (record {
            at = λ q s. record {
              there = s.there;
              stream = s.stream;
              found = s.found;
              closed = s.closed;
            };
          })).at
        p s

  take_request-IsStuck :
      (headers fields : List Header) (method : Text) (path : Bytes) (p : Http2 site)
      → read_request none none headers ≡ ok (some method, some path)
      → same method (codes "CONNECT") ≡ false
      → filter_pseudo_headers headers ≡ ok fields
      → valid_server_name site.config (request_of site fields method path) ≡ ok false
      → (take_request site others id headers p).0 ≡ ok tt
      → IsStuck site others id spares (take_request site others id headers p).1
  unfolding take_request
  take_request-IsStuck headers fields method path p reads plain filtered foreign =
      continue-Leads (IsStuck site others id spares)
        (create_stream site others (send site others) id headers p).0
        (λ x. send_io site (IoEvent.updated false)) _
        (λ a created b told.
          let s =
            create_stream-IsStuck site others id spares headers fields method path p reads plain
              filtered foreign a created in
          record { there = s.there; stream = s.stream; found = s.found; closed = s.closed })
        tt

  accept_request-IsStuck :
      (b : Bool) (headers : List Header) (p : Http2 site)
      → b ≡ false
      → ((take_request site others id headers p).0 ≡ ok tt
          → IsStuck site others id spares (take_request site others id headers p).1)
      → ((do
        if b then refuse_request site others id else take_request site others id headers
        limit_requests site others)
          p).0
        ≡ ok tt
      → IsStuck site others id spares
          ((do
            if b then refuse_request site others id else take_request site others id headers
            limit_requests site others)
            p).1
  accept_request-IsStuck true headers p on taken = absurd (false≢true (sym on))
  accept_request-IsStuck false headers p on taken =
      continue-Leads (IsStuck site others id spares) (take_request site others id headers p).0
        (λ x. limit_requests site others) _
        (λ a returned b limited. limited-IsStuck _ (taken returned)) tt

  -- A request over HTTP/2, but for a CONNECT, that names another server than the configured ones leaves
  -- the connection busy, once it was handled: the stream, which has sent its 404 and is closed, stays
  -- among the streams, and takes no event of the request's that would take it from there; the protocol
  -- does not idle for as long, and the last that the server was told is that it does not, so that its
  -- idle timeout does not run. What the other tasks do, while a task waits for a buffer, is taken to
  -- leave the stream where it is.
  pub accept_request-stuck :
      (headers fields : List Header) (method : Text) (path : Bytes) (p : Http2 site)
      → p.terminated ≡ false
      → read_request none none headers ≡ ok (some method, some path)
      → same method (codes "CONNECT") ≡ false
      → filter_pseudo_headers headers ≡ ok fields
      → valid_server_name site.config (request_of site fields method path) ≡ ok false
      → (accept_request site others id headers p).0 ≡ ok tt
      → (told_idle (accept_request site others id headers p).1.effects ≡ false)
        × (is_idle_protocol site (accept_request site others id headers p).1 ≡ false)
        × IgnoresAll (accept_request site others id headers p).1
  unfolding accept_request
  accept_request-stuck headers fields method path p on reads plain filtered foreign returns =
      let s =
        accept_request-IsStuck p.terminated headers p on
          (take_request-IsStuck headers fields method path p reads plain filtered foreign)
          returns in
      (
        accept_request-busy site others p.terminated id headers p on returns,
        all-false _ id _ s.there (ground (arith, s.found)),
        ignores _ s,
      )

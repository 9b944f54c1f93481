-- ===== src/Http2/Refused.antt =====
-- A request that H2Protocol (protocol/h2.py) takes and whose stream refuses it with a 404.
use nonecorn.Prelude.{refl, ◌≡◌, ◌∷◌, ℕ, true, some, none, has, false, at_key, arith, add, [], List}
use nonecorn.Bytes.{codes, same, Text, Bytes}
use nonecorn.Utils.Headers.{filter_pseudo_headers, valid_server_name}
use nonecorn.Http2.SendTask.Bounds.{at_key-set_key}
use nonecorn.Exec.{duplicate_stream, continue, Exec, Result, ok, raise}
use nonecorn.Asgi.{Header, RequestEvent, StreamEvent}
use nonecorn.HttpStream.{init, HttpStream}
use nonecorn.HttpStream.Refusals.{handle-IsRefused}
use nonecorn.Http1.Streams.{Stream}
use nonecorn.Multiplex.{handle_object, handle_by}
use nonecorn.Http2.Holds.{Held, stream_output, responds-Held, ends-Held, logs-Held}
use nonecorn.Http2.State.{kept, makers, H2Site, Http2, Others, Wait}
use nonecorn.Http2.Receive.{
  count_request, create_stream, handle_stream, insert_blocked, after_insert, make_stream,
  read_request, send,
}

-- what an action leads to where it returns
abbrev pub Leads : {S B : Type 0} → (S → Type 0) → Exec S B → S → Type 0
Leads Q m s = (b : _) → (m s).0 ≡ ok b → Q (m s).1

pub continue-Leads :
    {S A B : Type 0} (Q : S → Type 0) (r : Result A) (f : A → Exec S B) (s : S)
    → ((a : A) → r ≡ ok a → Leads Q (f a) s)
    → (b : B) → (continue r f s).0 ≡ ok b
    → Q (continue r f s).1
continue-Leads Q (ok a) f s h b returns = h a refl b returns
continue-Leads Q (raise e) f s h b returns = ground (arith, returns)

has-add : (k : ℕ) (ks : List ℕ) → has k (add k ks) ≡ true
has-add k [] = ground arith
has-add k (j ∷ ks) = ground (arith, has-add k ks)

-- the event for the stream of a request with these lines
abbrev pub request_of : H2Site → List Header → Text → Bytes → RequestEvent
request_of site fields method path = record {
  headers = fields;
  http_version = codes "2";
  method = method;
  raw_path = path;
  state = site.settings.connection_state;
}

-- The stream `k` stays among the streams, where the other tasks leave it there while one waits.
module _ (site : H2Site) (others : Others site) (k : ℕ)
    (spares : (wait : Wait) (p : Http2 site)
      → has k p.streams ≡ true
      → has k (others wait p).streams ≡ true) where
  open site use {h, t}

  -- the stream is among the streams, and has closed itself
  pub record IsStuck (p : Http2 site) : Type 0 where
    pub there : has k p.streams ≡ true
    pub stream : HttpStream
    pub found : at_key k p.objects ≡ some (Stream.http stream)
    pub closed : stream.closed ≡ true

  handle_by-IsStuck :
      (event : RequestEvent) (s : HttpStream) (p : Http2 site)
      → s.closed ≡ false
      → valid_server_name site.config event ≡ ok false
      → Held site others k spares p
      → let m =
          handle_by
            (makers site)
            (kept site)
            (send site others)
            k
            (StreamEvent.request k event)
            (some (Stream.http s)) in
        (m p).0 ≡ ok tt → IsStuck (m p).1
  unfolding handle_by
  handle_by-IsStuck event s p fresh foreign held returns =
      let refused =
        handle-IsRefused (Held site others k spares) (stream_output site others k spares)
          (responds-Held site others k spares) (ends-Held site others k spares)
          (logs-Held site others k spares) site.env site.config k event
          (record { stream = s; rest = p }) fresh foreign held in
      record {
        there = refused.rest.there;
        stream = _;
        found = at_key-set_key k _ _;
        closed = refused.closed returns;
      }

  -- the stream before it handles its request
  record IsOpened (p : Http2 site) : Type 0 where
    pub there : has k p.streams ≡ true
    pub stream : HttpStream
    pub found : at_key k p.objects ≡ some (Stream.http stream)
    pub fresh : stream.closed ≡ false

  handle_stream-IsStuck :
      (event : RequestEvent) (p : Http2 site)
      → valid_server_name site.config event ≡ ok false
      → IsOpened p
      → let m = handle_stream site others (send site others) k (StreamEvent.request k event) in
        (m p).0 ≡ ok tt → IsStuck (m p).1
  unfolding handle_stream handle_object
  handle_stream-IsStuck event p foreign opened =
      rw (opened.there, opened.found)
        (handle_by-IsStuck event opened.stream p opened.fresh foreign
          (record { there = opened.there }))

  after_insert-IsOpened :
      (r : Result (Unit {0})) (p : Http2 site)
      → IsOpened p
      → IsOpened (after_insert site others k r p).1
  unfolding after_insert
  after_insert-IsOpened (ok x) p o = record {
    there = o.there;
    stream = o.stream;
    found = o.found;
    fresh = o.fresh;
  }
  after_insert-IsOpened (raise duplicate_stream) p o = o
  after_insert-IsOpened (raise _) p o = o

  insert_blocked-IsOpened :
      (p : Http2 site) → IsOpened p → IsOpened (insert_blocked site others k p).1
  unfolding insert_blocked
  insert_blocked-IsOpened p o =
      after_insert-IsOpened (t.insert_stream k p.priority).0 _
        (record { there = o.there; stream = o.stream; found = o.found; fresh = o.fresh })

  make_stream-IsOpened :
      (method : Text) (p : Http2 site)
      → same method (codes "CONNECT") ≡ false
      → IsOpened (make_stream site others k method p).1
  unfolding make_stream init
  make_stream-IsOpened method p plain = record {
    there = has-add k p.streams;
    stream =
        init site.settings.ssl site.settings.client site.settings.server k site.settings.has_tls;
    found = rw plain (at_key-set_key k _ p.objects);
    fresh = refl;
  }

  counted-IsStuck : (p : Http2 site) → IsStuck p → IsStuck (count_request site others p).1
  unfolding count_request
  counted-IsStuck p s = record {
    there = s.there;
    stream = s.stream;
    found = s.found;
    closed = s.closed;
  }

  -- the request's own lines
  pub create_stream-IsStuck :
      (headers fields : List Header) (method : Text) (path : Bytes) (p : Http2 site)
      → read_request none none headers ≡ ok (some method, some path)
      → same method (codes "CONNECT") ≡ false
      → filter_pseudo_headers headers ≡ ok fields
      → valid_server_name site.config (request_of site fields method path) ≡ ok false
      → Leads IsStuck (create_stream site others (send site others) k headers) p
  unfolding create_stream make_stream count_request
  create_stream-IsStuck headers fields method path p reads plain filtered foreign =
      let made = make_stream-IsOpened method p plain in
      let inserted = insert_blocked-IsOpened _ made in
      rw (reads, filtered)
        (continue-Leads {B = Unit {0}} IsStuck
          (insert_blocked site others k (make_stream site others k method p).1).0 _ _
          (λ a returned. continue-Leads {B = Unit {0}} IsStuck _ _ _ (λ a' handled b counted.
            counted-IsStuck _ (handle_stream-IsStuck _ _ foreign inserted handled))))

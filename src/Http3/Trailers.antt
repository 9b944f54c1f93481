-- ===== src/Http3/Trailers.antt =====
-- What H3Protocol (protocol/h3.py) makes of the headers behind a request.
use nonecorn.Prelude.{
  not, ap, ◌∙◌, if◌then◌else◌, Bool, ◌≡◌, ◌∷◌, ℕ, Option, some, none, true, false, has, at_key,
  List, [], All, refl, arith,
}
use nonecorn.Bytes.{Bytes, codes, same}
use nonecorn.Exec.{Action, Result, ok, raise, continue, when, ◌>>◌, name_error}
use nonecorn.Asgi.{Header, Receive, StreamEvent}
use nonecorn.Stream.{put}
use nonecorn.HttpStream.{HttpStream}
use nonecorn.HttpStream.{handle as handle_http, handle_open, put_app}
use nonecorn.Http1.Streams.{Stream}
use nonecorn.Http2.Receive.{read_request}
use nonecorn.Multiplex.{handle_by, handle_object, http_emit}
use nonecorn.Http3.Aioquic.{H3Event}
use nonecorn.Http3.Protocol.{
  H3Site, Http3, QuicEffect, create_stream, handle_h3_event, handle_stream, send,
}

-- no header has the name ":method"
abbrev pub IsMethodless : List Header → Type 0
IsMethodless headers = All (λ header. same header.0 (codes ":method") ≡ false) headers

-- the last ":path"
abbrev last_path : Option Bytes → List Header → Option Bytes
last_path path [] = path
last_path path ((name, value) ∷ headers) =
    last_path (if same name (codes ":path") then some value else path) headers

read_request-methodless :
    (path : Option Bytes) (headers : List Header)
    → IsMethodless headers
    → read_request none path headers ≡ ok (none, last_path path headers)
unfolding read_request
read_request-methodless path [] methodless = refl
read_request-methodless path ((name, value) ∷ headers) methodless = ground (
  arith,
  methodless,
  read_request-methodless path headers,
  read_request-methodless (some value) headers,
)

module _ (site : H3Site) where
  -- Trailers of a client over HTTP/3 make `handle` raise: they are taken for a new request, which has no
  -- method. This is so for every list of headers without a ":method", unless the worker was told to end.
  pub handle_h3_event-trailers :
      (id : ℕ) (headers : List Header) (ended : Bool) (p : Http3 site)
      → p.terminated ≡ false
      → IsMethodless headers
      → handle_h3_event site (H3Event.headers_received id headers ended) p ≡ (raise name_error, p)
  unfolding handle_h3_event create_stream
  handle_h3_event-trailers id headers ended p on methodless =
      rw (on, read_request-methodless none headers methodless) refl

  end_body-told :
      (id : ℕ) (header : Header) (headers : List Header) (s : HttpStream) (p : Http3 site)
      → has id p.streams ≡ true
      → at_key id p.objects ≡ some (Stream.http s)
      → s.closed ≡ false
      → s.app_put ≡ true
      → (handle_stream site (send site) id (StreamEvent.end_body id (header ∷ headers)) p).1.effects
        ≡ QuicEffect.stream (put (Receive.http_request_trailers (header ∷ headers)))
          ∷ QuicEffect.stream (put (Receive.http_request [] false))
          ∷ p.effects
  unfolding handle_stream handle_object handle_by handle_http handle_open put_app http_emit
  end_body-told id header headers s p there found opened told =
      rw (there, found) (rw (opened, told) refl)

  while_on :
      (b : Bool) (m : Action (Http3 site)) (p : Http3 site) → b ≡ false → when (not b) m p ≡ m p
  while_on true m p on = ground (arith, on)
  while_on false m p on = refl

  after_create :
      (r : Result (Unit {0})) (m : Action (Http3 site)) (p : Http3 site)
      → r ≡ ok tt
      → (continue r (λ x. m) p).1.effects ≡ (m p).1.effects
  after_create (ok x) m p e = refl
  after_create (raise e') m p e = ground (arith, e)

  -- A request over HTTP/3 that comes without a body has the application told of trailers, which are the
  -- request's own headers, the pseudo headers among them: this is what follows on the creation of the
  -- stream, where that leaves an open HTTP stream that has its application.
  pub handle_h3_event-repeats :
      (id : ℕ) (header : Header) (headers : List Header) (s : HttpStream) (p : Http3 site)
      → p.terminated ≡ false
      → (create_stream site (send site) id (header ∷ headers) p).0 ≡ ok tt
      → has id (create_stream site (send site) id (header ∷ headers) p).1.streams ≡ true
      → at_key id (create_stream site (send site) id (header ∷ headers) p).1.objects
        ≡ some (Stream.http s)
      → s.closed ≡ false
      → s.app_put ≡ true
      → (handle_h3_event site (H3Event.headers_received id (header ∷ headers) true) p).1.effects
        ≡ QuicEffect.stream (put (Receive.http_request_trailers (header ∷ headers)))
          ∷ QuicEffect.stream (put (Receive.http_request [] false))
          ∷ (create_stream site (send site) id (header ∷ headers) p).1.effects
  unfolding handle_h3_event
  handle_h3_event-repeats id header headers s p on created there found opened told =
      let p' : Http3 site = (create_stream site (send site) id (header ∷ headers) p).1 in
      let ending : Action (Http3 site) =
        handle_stream site (send site) id (StreamEvent.end_body id (header ∷ headers)) in
      ap (λ (end : Result (Unit {0}) × Http3 site). end.1.effects)
        (while_on p.terminated (do create_stream site (send site) id (header ∷ headers); ending) p
          on)
      ∙ after_create (create_stream site (send site) id (header ∷ headers) p).0 ending p' created
      ∙ end_body-told id header headers s p' there found opened told

-- ===== src/Tests/Protocols.antt =====
-- A connection that starts with the preface of HTTP/2.
use nonecorn.Prelude.{◌≡◌, ◌∷◌, [], false, none, refl}
use nonecorn.Bytes.{codes}
use nonecorn.Exec.{◌>>◌}
use nonecorn.Http1.H11.{H11, H11Event}
use nonecorn.Http1.State.{Effect, Http1, IoEvent, init}
use nonecorn.Http1.Streams.{Stream}
use nonecorn.Http2.Receive.{handle_bytes as handle_bytes_h2, initiate}
use nonecorn.Protocols.{Protocol, Sites, done, handle_bytes, take_over, within, without_tls}
use nonecorn.Protocols.PriorKnowledge.{handle_bytes-preface, preface_request}
use nonecorn.Worker.{init as init_worker}
use nonecorn.Tests.Http1.{h11, site}
use nonecorn.Tests.Http2Connection.{h2_site, sending}

-- an h11 that knows the preface alone
abbrev h11_of_prefaces : H11
h11_of_prefaces = record h11 {
  receive_data = λ bytes c. H11Event.request (preface_request []) ∷ [];
  trailing_data = λ c. codes "x";
}

abbrev sites : Sites
sites = record { first = record site { h = h11_of_prefaces }; second = h2_site }

abbrev blank : Http1 h11_of_prefaces
blank = init h11_of_prefaces site.settings (init_worker none)

handle_bytes-preface_example :
    handle_bytes sites sending sending 3 (codes "PRI * HTTP/2.0\r\n\r\nx") (
      Protocol.http1
        (record { stream = Stream.absent; rest = record blank { passthrough = none } }))
    ≡ within
        (λ p. Protocol.switched p)
        (done
          (do
            initiate (without_tls h2_site) sending none none
            handle_bytes_h2 (without_tls h2_site) sending (codes "PRI * HTTP/2.0\r\n\r\nx"))
          (take_over sites sending sending (record {
            stream = Stream.absent;
            rest = record blank { effects = Effect.io (IoEvent.updated false) ∷ blank.effects };
          })))
handle_bytes-preface_example =
    handle_bytes-preface sites sending sending 2 (codes "PRI * HTTP/2.0\r\n\r\nx") [] Stream.absent
      blank [] refl refl refl

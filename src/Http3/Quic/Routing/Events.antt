-- ===== src/Http3/Quic/Routing/Events.antt =====
-- What each event of QUIC makes of the table of connections (protocol/quic.py).
use nonecorn.Prelude.{◌≡◌, ◌∷◌, ◌==◌, ℕ, Option, none, some, [], true, false, refl, arith, at_key}
use nonecorn.Bytes.{Bytes}
use nonecorn.Bytes.Laws.{same_refl}
use nonecorn.Http3.Protocol.{H3Site}
use nonecorn.Exec.{◌>>◌}
use nonecorn.Exec.Keeps.{continue-leads}
use nonecorn.Asgi.{Address}
use nonecorn.Http3.Aioquic.{QuicEvent}
use nonecorn.Http3.Quic.{
  handle_quic_event, start_h3, pass_to_h3, make_link, Link, Quic, add_cid, by_cid, put_cid,
}
use nonecorn.Http3.Quic.Cids.{
  leads, by_cid-put_cid, by_cid-same, at_key-same, has_cid-add_cid, add_cid-IsUnique,
}
use nonecorn.Http3.Quic.Routing.{
  IsRouted, set_link-ids, update_link-IsRouted, on_link-IsRouted, if_IsUnique, issue_cid-IsRouted,
  retire_cid-IsRouted,
}
use nonecorn.Http3.Quic.Routing.Ends.{end_link-Forgets}

module _ (site : H3Site) where
  -- an id that aioquic issues leads nowhere yet
  abbrev pub IsFresh : QuicEvent → Quic site → Type 0
  IsFresh (QuicEvent.connection_id_issued cid) p = by_cid cid p.connections ≡ none
  IsFresh event p = Unit

  handle_quic_event-IsRouted :
      (k : ℕ) (client : Option Address) (event : QuicEvent) (link : Link site) (p : Quic site)
      → at_key k p.links ≡ some link
      → IsFresh event p
      → IsRouted site p
      → IsRouted site (handle_quic_event site k client event p).1
  unfolding handle_quic_event start_h3
  handle_quic_event-IsRouted k client QuicEvent.connection_terminated link p found fresh r =
      (end_link-Forgets site k link p found r).1
  handle_quic_event-IsRouted k client QuicEvent.protocol_negotiated link p found fresh r =
      update_link-IsRouted site k _ p (λ link. refl) r
  handle_quic_event-IsRouted k client (QuicEvent.connection_id_issued cid) link p found fresh r =
      issue_cid-IsRouted site k cid link p found fresh r
  handle_quic_event-IsRouted k client (QuicEvent.connection_id_retired cid) link p found fresh r =
      retire_cid-IsRouted site k cid link p found r
  handle_quic_event-IsRouted k client (QuicEvent.other n) link p found fresh r = r

  -- After each event of a connection of QUIC, and what its HTTP/3 protocol and its streams make of it, each
  -- id leads to the one connection that lists it, and no connection lists an id twice, if this was so
  -- before. An id that aioquic issues is taken to be in no use yet.
  pub events-IsRouted :
      (k : ℕ) (client : Option Address) (event : QuicEvent) (link : Link site) (p : Quic site)
      → at_key k p.links ≡ some link
      → IsFresh event p
      → IsRouted site p
      → IsRouted site ((do handle_quic_event site k client event; pass_to_h3 site k event) p).1
  unfolding pass_to_h3
  events-IsRouted k client event link p found fresh r =
      let r' = handle_quic_event-IsRouted k client event link p found fresh r in
      continue-leads (IsRouted site) (handle_quic_event site k client event p).0
        (λ x. pass_to_h3 site k event) _ r'
        (λ x. on_link-IsRouted site k _ (handle_quic_event site k client event p).1 r')

  -- A client's first packet makes a connection to which its id and the server's lead, and each id still
  -- leads to the one connection that lists it.
  pub make_link-IsRouted :
      (cid : Bytes) (p : Quic site)
      → at_key p.made p.links ≡ none
      → by_cid cid p.connections ≡ none
      → by_cid (site.q.host_cid (site.q.connection p.made cid)) p.connections ≡ none
      → IsRouted site p
      → IsRouted site (make_link site cid p)
        × (leads (by_cid cid (make_link site cid p).connections) p.made ≡ true)
  unfolding make_link
  make_link-IsRouted cid p unmade unknown fresh r =
      let host : Bytes = site.q.host_cid (site.q.connection p.made cid) in
      let link : Link site = record {
        cids = add_cid host (cid ∷ []);
        quic = site.q.connection p.made cid;
        timer = false;
        has_h3 = false;
        client = none;
        streams = [];
        objects = [];
      } in
      (
        record {
          routed = λ c j. ground (
            arith,
            unmade,
            unknown,
            fresh,
            r.routed c j,
            by_cid-put_cid host c p.made (put_cid cid p.made p.connections),
            by_cid-put_cid cid c p.made p.connections,
            by_cid-same host c p.connections,
            by_cid-same cid c p.connections,
            at_key-same p.made j p.links,
            set_link-ids site p.made j link p.links,
            has_cid-add_cid host c (cid ∷ []),
          );
          unique = λ j. rw (set_link-ids site p.made j link p.links) (
              if_IsUnique site (p.made == j) _ _ (add_cid-IsUnique host (cid ∷ []) (refl, tt))
                (r.unique j));
        },
        ground (
          arith,
          by_cid-put_cid host cid p.made (put_cid cid p.made p.connections),
          by_cid-put_cid cid cid p.made p.connections,
          same_refl cid,
        ),
      )

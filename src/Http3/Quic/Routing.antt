-- ===== src/Http3/Quic/Routing.antt =====
-- The table of connections of QuicProtocol (protocol/quic.py): which ids lead to which connection.
pub mod Ends
pub mod Events
use nonecorn.Prelude.{
  ◌∙◌, sym, ap, Option-cases, ==_iff, ◌≡◌, ◌∷◌, ◌==◌, ◌&&◌, ◌||◌, ℕ, Option, none, some, List, [],
  Bool, true, false, not, inl, inr, refl, arith, at_key, set_key, Bool-cases, if◌then◌else◌,
}
use nonecorn.Bytes.{Bytes, same}
use nonecorn.Bytes.Laws.{same_iff, same_refl}
use nonecorn.Worker.{WorkerContext}
use nonecorn.Http3.Protocol.{H3Site, Http3}
use mathlib.Core.Path.{subst}
use nonecorn.Exec.{Action, Result, ok, raise, continue, ◌>>◌}
use nonecorn.Exec.Keeps.{continue-leads}
use nonecorn.Asgi.{Address}
use nonecorn.Http3.Aioquic.{QuicEvent}
use nonecorn.Http3.Quic.{
  handle_quic_event, start_h3, pass_to_h3, make_link, put_link, delete_cids, end_link, delete_cid,
  retire_cid, opened, update_link, on_link, issue_cid, Link, Quic, init, add_cid, by_cid, cids_of,
  del_cid, has_cid, put_cid, remove_cid,
}
use nonecorn.Http3.Quic.Cids.{
  leads, by_cid-put_cid, leads-del_cid, IsUnique, has_cid-same, by_cid-same, at_key-same,
  has_cid-add_cid, has_cid-remove_cid, add_cid-IsUnique, remove_cid-IsUnique, at_key-set_key,
}

module _ (site : H3Site) where
  -- the ids of a connection
  abbrev pub ids_of : ℕ → Quic site → List Bytes
  ids_of k p = cids_of site (at_key k p.links)

  -- each id leads to the one connection that lists it
  pub record IsRouted (p : Quic site) : Type 0 where
    pub routed :
        (cid : Bytes) (k : ℕ) → leads (by_cid cid p.connections) k ≡ has_cid cid (ids_of k p)
    pub unique : (k : ℕ) → IsUnique (ids_of k p)

  pub init-IsRouted : (context : WorkerContext) → IsRouted (init site context)
  init-IsRouted context = record { routed = λ cid k. refl; unique = λ k. tt }

  -- an update that leaves the ids of the connections alone
  same_ids :
      (p p' : Quic site)
      → p'.connections ≡ p.connections
      → ((k : ℕ) → ids_of k p' ≡ ids_of k p)
      → IsRouted p
      → IsRouted p'
  same_ids p p' e ids r = record {
    routed = λ cid k. rw (e, ids k) (r.routed cid k);
    unique = λ k. rw (ids k) (r.unique k);
  }

  pub set_link-ids :
      (k j : ℕ) (link : Link site) (links : List (ℕ × Link site))
      → cids_of site (at_key j (set_key k link links))
        ≡ (if k == j then link.cids else cids_of site (at_key j links))
  set_link-ids k j link links = ground (arith, at_key-set_key k j link links)

  pub put_link-ids :
      (k j : ℕ) (link link' : Link site) (links : List (ℕ × Link site))
      → at_key k links ≡ some link
      → link'.cids ≡ link.cids
      → cids_of site (at_key j (set_key k link' links)) ≡ cids_of site (at_key j links)
  put_link-ids k j link link' links found e = elim (Bool-cases (k == j)) [
    | inl same ↦
        set_link-ids k j link' links
        ∙ (rw same (
            e
            ∙ ap (cids_of site) (sym found)
            ∙ ap (λ (i : ℕ). cids_of site (at_key i links)) ((==_iff k j).0 same)))
    | inr other ↦ set_link-ids k j link' links ∙ rw other refl
  ]

  pub update_link-IsRouted :
      (k : ℕ) (f : Link site → Link site) (p : Quic site)
      → ((link : Link site) → (f link).cids ≡ link.cids)
      → IsRouted p
      → IsRouted (update_link site k f p).1
  update_link-IsRouted k f p keeps r =
      same_ids p _ (ground arith)
        (λ j. elim (Option-cases (at_key k p.links)) [
          | inl e ↦ ground (arith, e)
          | inr (link, e) ↦ ground (arith, e, put_link-ids k j link (f link) p.links e (keeps link))
        ])
        r

  abbrev after : Link site → Http3 site → Link site
  after link p3 = record link {
    quic = p3.connection;
    timer = p3.timer;
    streams = p3.streams;
    objects = p3.objects;
  }

  pub on_link-IsRouted :
      (k : ℕ) (m : Link site → Action (Http3 site)) (p : Quic site)
      → IsRouted p
      → IsRouted (on_link site k m p).1
  unfolding on_link
  on_link-IsRouted k m p r =
      same_ids p _ (ground arith)
        (λ j. elim (Option-cases (at_key k p.links)) [
          | inl e ↦ ground (arith, e)
          | inr (link, e) ↦ ground (
            arith,
            e,
            put_link-ids k j link (after link (m link (opened site p link)).1) p.links e refl,
          )
        ])
        r

  pub if_IsUnique :
      (b : Bool) (cids cids' : List Bytes)
      → IsUnique cids
      → IsUnique cids'
      → IsUnique (if b then cids else cids')
  if_IsUnique true cids cids' u u' = u
  if_IsUnique false cids cids' u u' = u'

  found_IsUnique :
      (k : ℕ) (link : Link site) (p : Quic site)
      → at_key k p.links ≡ some link
      → IsRouted p
      → IsUnique link.cids
  found_IsUnique k link p found r =
      subst (λ (o : Option (Link site)). IsUnique (cids_of site o)) found (r.unique k)

  issue_cid-ids :
      (k j : ℕ) (cid : Bytes) (link : Link site) (p : Quic site)
      → at_key k p.links ≡ some link
      → ids_of j (issue_cid site k cid p).1 ≡ (if k == j then add_cid cid link.cids else ids_of j p)
  unfolding issue_cid
  issue_cid-ids k j cid link p found =
      ground (arith, found, set_link-ids k j (record link { cids = add_cid cid link.cids }) p.links)

  retire_cid-ids :
      (k j : ℕ) (cid : Bytes) (link : Link site) (p : Quic site)
      → at_key k p.links ≡ some link
      → ids_of j (retire_cid site k cid p).1
        ≡ (if has_cid cid link.cids && k == j then remove_cid cid link.cids else ids_of j p)
  unfolding retire_cid delete_cid
  retire_cid-ids k j cid link p found =
      ground
        (arith, found, set_link-ids k j (record link { cids = remove_cid cid link.cids }) p.links)

  -- `issue_cid`
  pub issue_cid-IsRouted :
      (k : ℕ) (cid : Bytes) (link : Link site) (p : Quic site)
      → at_key k p.links ≡ some link
      → by_cid cid p.connections ≡ none
      → IsRouted p
      → IsRouted (issue_cid site k cid p).1
  unfolding issue_cid
  issue_cid-IsRouted k cid link p found fresh r = record {
    routed = λ c j. ground (
      arith,
      found,
      fresh,
      r.routed c j,
      by_cid-put_cid cid c k p.connections,
      set_link-ids k j (record link { cids = add_cid cid link.cids }) p.links,
      has_cid-add_cid cid c link.cids,
      by_cid-same cid c p.connections,
      at_key-same k j p.links,
    );
    unique = λ j. rw (issue_cid-ids k j cid link p found) (
        if_IsUnique (k == j) _ _ (add_cid-IsUnique cid link.cids (found_IsUnique k link p found r))
          (r.unique j));
  }

  -- `retire_cid`
  pub retire_cid-IsRouted :
      (k : ℕ) (cid : Bytes) (link : Link site) (p : Quic site)
      → at_key k p.links ≡ some link
      → IsRouted p
      → IsRouted (retire_cid site k cid p).1
  unfolding retire_cid delete_cid
  retire_cid-IsRouted k cid link p found r = record {
    routed = λ c j. ground (
      arith,
      found,
      r.routed c j,
      r.routed cid k,
      leads-del_cid cid c j p.connections,
      set_link-ids k j (record link { cids = remove_cid cid link.cids }) p.links,
      has_cid-remove_cid cid c link.cids,
      by_cid-same cid c p.connections,
      at_key-same k j p.links,
    );
    unique = λ j. rw (retire_cid-ids k j cid link p found) (
        if_IsUnique (has_cid cid link.cids && k == j) _ _
          (remove_cid-IsUnique cid link.cids (found_IsUnique k link p found r)) (r.unique j));
  }

-- ===== src/Http3/Quic/Routing/Ends.antt =====
-- How the table of connections (protocol/quic.py) forgets one that has ended.
use nonecorn.Prelude.{
  ◌∙◌, sym, Option-cases, ◌≡◌, ◌∷◌, ◌==◌, ℕ, some, List, [], true, false, inl, inr, refl, arith,
  at_key, Bool-cases, if◌then◌else◌,
}
use nonecorn.Bytes.{Bytes}
use nonecorn.Bytes.Laws.{same_refl}
use nonecorn.Http3.Protocol.{H3Site}
use nonecorn.Exec.{Result, ok, raise, continue}
use nonecorn.Http3.Quic.{
  put_link, delete_cids, end_link, delete_cid, update_link, Link, Quic, by_cid, del_cid, has_cid,
}
use nonecorn.Http3.Quic.Cids.{leads, leads-del_cid, IsUnique, has_cid-same, at_key-same}
use nonecorn.Http3.Quic.Routing.{ids_of, IsRouted, set_link-ids, put_link-ids, if_IsUnique}

module _ (site : H3Site) where
  -- the ids of a connection go out of the table one by one
  record Leaving (k : ℕ) (ids : ℕ → List Bytes) (left : List Bytes) (p : Quic site) : Type 0 where
    pub kept : (j : ℕ) → ids_of site j p ≡ ids j
    pub others :
        (cid : Bytes) (j : ℕ)
        → (j == k) ≡ false
        → leads (by_cid cid p.connections) j ≡ has_cid cid (ids j)
    pub rest : (cid : Bytes) → leads (by_cid cid p.connections) k ≡ has_cid cid left
    pub unique : IsUnique left

  delete_cid-eq :
      (k : ℕ) (cid : Bytes) (p : Quic site)
      → leads (by_cid cid p.connections) k ≡ true
      → delete_cid site cid p ≡ (ok tt, record p { connections = del_cid cid p.connections })
  unfolding delete_cid
  delete_cid-eq k cid p found = ground (arith, found)

  del_cid-Leaving :
      (k : ℕ) (ids : ℕ → List Bytes) (left : List Bytes) (cid : Bytes) (p : Quic site)
      → Leaving k ids (cid ∷ left) p
      → Leaving k ids left (record p { connections = del_cid cid p.connections })
  del_cid-Leaving k ids left cid p l = record {
    kept = l.kept;
    others = λ c j other.
        ground (arith, other, l.others c j other, l.rest c, leads-del_cid cid c j p.connections);
    rest = λ c.
        ground
          (arith, l.rest c, l.unique, leads-del_cid cid c k p.connections, has_cid-same cid c left);
    unique = l.unique.1;
  }

  delete_cids-Leaving :
      (k : ℕ) (ids : ℕ → List Bytes) (left : List Bytes) (p : Quic site)
      → Leaving k ids left p
      → ((delete_cids site left p).0 ≡ ok tt) × Leaving k ids [] (delete_cids site left p).1
  unfolding delete_cids
  delete_cids-Leaving k ids [] p l = (refl, l)
  delete_cids-Leaving k ids (cid ∷ left) p l =
      rw (delete_cid-eq k cid p (ground (arith, l.rest cid, same_refl cid))) (
        delete_cids-Leaving k ids left (record p { connections = del_cid cid p.connections })
          (del_cid-Leaving k ids left cid p l))

  abbrev cleared : Link site → Link site
  cleared link = record link { cids = [] }

  cleared-ids :
      (k j : ℕ) (p : Quic site)
      → ids_of site j (update_link site k cleared p).1 ≡ (if k == j then [] else ids_of site j p)
  cleared-ids k j p = elim (Option-cases (at_key k p.links)) [
    | inl e ↦ ground (arith, e, at_key-same k j p.links)
    | inr (link, e) ↦ ground (arith, e, set_link-ids site k j (cleared link) p.links)
  ]

  cleared-connections :
      (k : ℕ) (p : Quic site) → (update_link site k cleared p).1.connections ≡ p.connections
  cleared-connections k p = ground arith

  cleared-routed :
      (k : ℕ) (ids : ℕ → List Bytes) (p : Quic site) (cid : Bytes) (j : ℕ)
      → Leaving k ids [] p
      → leads (by_cid cid p.connections) j ≡ has_cid cid (if k == j then [] else ids_of site j p)
  cleared-routed k ids p cid j l = elim (Bool-cases (j == k)) [
    | inl e ↦ ground (arith, e, l.rest cid)
    | inr e ↦ ground (arith, e, l.others cid j e, l.kept j)
  ]

  cleared-IsRouted :
      (k : ℕ) (ids : ℕ → List Bytes) (p : Quic site)
      → ((j : ℕ) → IsUnique (ids j))
      → Leaving k ids [] p
      → IsRouted site (update_link site k cleared p).1
  cleared-IsRouted k ids p unique l = record {
    routed = λ c j. rw (cleared-connections k p, cleared-ids k j p) (cleared-routed k ids p c j l);
    unique =
        λ j. rw (cleared-ids k j p) (if_IsUnique site (k == j) [] _ tt (rw (l.kept j) (unique j)));
  }

  -- how the end of a connection leaves the table
  abbrev pub Forgets : ℕ → Quic site → Result (Unit {0}) × Quic site → Type 0
  Forgets k p end =
      (end.0 ≡ ok tt)
      × IsRouted site end.1
      × ((cid : Bytes) → leads (by_cid cid end.1.connections) k ≡ false)
      × ((cid : Bytes) (j : ℕ)
          → (j == k) ≡ false
          → leads (by_cid cid end.1.connections) j ≡ leads (by_cid cid p.connections) j)

  after_delete :
      (k : ℕ) (p : Quic site) (res : Result (Unit {0})) (q : Quic site)
      → IsRouted site p
      → res ≡ ok tt
      → Leaving k (λ j. ids_of site j p) [] q
      → Forgets k p (continue res (λ x. update_link site k cleared) q)
  after_delete k p (raise e) q r returns l = ground (arith, returns)
  after_delete k p (ok x) q r returns l = (
    ground arith,
    cleared-IsRouted k _ q r.unique l,
    λ cid. rw (cleared-connections k q) (l.rest cid),
    λ cid j other. rw (cleared-connections k q) (l.others cid j other ∙ sym (r.routed cid j)),
  )

  started-Leaving :
      (k : ℕ) (link link' : Link site) (p : Quic site)
      → at_key k p.links ≡ some link
      → link'.cids ≡ link.cids
      → IsRouted site p
      → Leaving k
          (λ j. ids_of site j p)
          (ids_of site k (put_link site k link' p))
          (put_link site k link' p)
  started-Leaving k link link' p found e r = record {
    kept = λ j. put_link-ids site k j link link' p.links found e;
    others = λ cid j other. r.routed cid j;
    rest = λ cid. rw (put_link-ids site k k link link' p.links found e) (r.routed cid k);
    unique = rw (put_link-ids site k k link link' p.links found e) (r.unique k);
  }

  update_link-eq :
      (k : ℕ) (f : Link site → Link site) (link : Link site) (p : Quic site)
      → at_key k p.links ≡ some link
      → update_link site k f p ≡ (ok tt, put_link site k (f link) p)
  update_link-eq k f link p found = ground (arith, found)

  -- When a connection of QUIC ends, and each id leads to the one connection that lists it, then nothing
  -- is raised, no id leads to the connection any more, each other connection is found by the same ids as
  -- before, and each id still leads to the one connection that lists it.
  pub end_link-Forgets :
      (k : ℕ) (link : Link site) (p : Quic site)
      → at_key k p.links ≡ some link
      → IsRouted site p
      → Forgets k p (end_link site k p)
  unfolding end_link
  end_link-Forgets k link p found r =
      let link' : Link site = record link { timer = false } in
      let p' : Quic site = put_link site k link' p in
      let gone =
        delete_cids-Leaving k (λ j. ids_of site j p) (ids_of site k p') p'
          (started-Leaving k link link' p found refl r) in
      rw (update_link-eq k (λ link. record link { timer = false }) link p found) (
        after_delete k p (delete_cids site (ids_of site k p') p').0
          (delete_cids site (ids_of site k p') p').1 r gone.0 gone.1)

-- ===== src/Http3/Quic.antt =====
-- The class QuicProtocol of protocol/quic.py: the connections of a socket, found by the ids in their
-- packets.
pub mod Unknown
pub mod Cids
pub mod Routing
use nonecorn.Prelude.{
  ◌∷◌, ◌&&◌, ◌||◌, ℕ, zero, suc, some, none, not, [], Option, List, Bool, true, false, leb, length,
  if◌then◌else◌, at_key, set_key, is_empty, any,
}
use nonecorn.Bytes.{Bytes, same}
use nonecorn.Exec.{
  Action, Exec, Result, ok, raise, pass, pure, throw, modify, when, ◌>>=◌, ◌>>◌, key_error,
}
use nonecorn.Asgi.{Address}
use nonecorn.Http1.Streams.{Stream}
use nonecorn.Worker.{WorkerContext}
use nonecorn.Http3.Aioquic.{PacketHeader, QuicEvent}
use nonecorn.Http3.Protocol.{H3Site, Http3, QuicEffect, send_all}
use nonecorn.Http3.Protocol.{handle as handle_h3}

-- a dict whose keys are connection ids, and a set of them
abbrev pub by_cid : {A : Type 0} → Bytes → List (Bytes × A) → Option A
by_cid cid [] = none
by_cid cid ((c, a) ∷ d) = if same c cid then some a else by_cid cid d

abbrev pub put_cid : {A : Type 0} → Bytes → A → List (Bytes × A) → List (Bytes × A)
put_cid cid a [] = (cid, a) ∷ []
put_cid cid a ((c, b) ∷ d) = if same c cid then (c, a) ∷ d else (c, b) ∷ put_cid cid a d

abbrev pub del_cid : {A : Type 0} → Bytes → List (Bytes × A) → List (Bytes × A)
del_cid cid [] = []
del_cid cid ((c, b) ∷ d) = let rest = del_cid cid d in if same c cid then rest else (c, b) ∷ rest

abbrev pub add_cid : Bytes → List Bytes → List Bytes
add_cid cid [] = cid ∷ []
add_cid cid (c ∷ cids) = if same c cid then c ∷ cids else c ∷ add_cid cid cids

abbrev pub remove_cid : Bytes → List Bytes → List Bytes
remove_cid cid [] = []
remove_cid cid (c ∷ cids) = let rest = remove_cid cid cids in if same c cid then rest else c ∷ rest

abbrev pub has_cid : Bytes → List Bytes → Bool
has_cid cid [] = false
has_cid cid (c ∷ cids) = same c cid || has_cid cid cids

-- _Connection, with what its H3Protocol has when `has_h3`
pub record Link (site : H3Site) : Type 0 where
  pub cids : List Bytes
  pub quic : site.q.Connection
  pub timer : Bool
  pub has_h3 : Bool
  pub client : Option Address
  pub streams : List ℕ
  pub objects : List (ℕ × Stream site.ws)

-- `connections` has the keys of that dict, with the number of the connection, which stands in `links`.
-- `made` is how many there have been.
pub record Quic (site : H3Site) : Type 0 where
  pub connections : List (Bytes × ℕ)
  pub links : List (ℕ × Link site)
  pub made : ℕ
  pub context : WorkerContext
  pub terminated : Bool
  pub effects : List QuicEffect

-- how the loop of `_handle_events` ends
pub data QuicLoop : Type 0 where
  finished unfinished : QuicLoop

module _ (site : H3Site) where
  open site use {q}

  -- `__init__`
  abbrev pub init : WorkerContext → Quic site
  init context = record {
    connections = [];
    links = [];
    made = 0;
    context = context;
    terminated = false;
    effects = [];
  }

  -- the property `idle`
  abbrev pub is_idle : Quic site → Bool
  is_idle p = is_empty p.connections

  -- a connection with what it shares with the others, and back
  abbrev pub opened : Quic site → Link site → Http3 site
  opened p link = record {
    connection = link.quic;
    client = link.client;
    streams = link.streams;
    objects = link.objects;
    timer = link.timer;
    context = p.context;
    terminated = p.terminated;
    effects = p.effects;
  }

  abbrev pub put_link : ℕ → Link site → Quic site → Quic site
  put_link k link p = record p { links = set_key k link p.links }

  abbrev pub closed : ℕ → Link site → Http3 site → Quic site → Quic site
  closed k link p3 p = record p {
    links =
        set_key k
          (record link {
            quic = p3.connection;
            timer = p3.timer;
            streams = p3.streams;
            objects = p3.objects;
          })
          p.links;
    context = p3.context;
    effects = p3.effects;
  }

  -- what the connection's H3Protocol does, or its QuicConnection
  unfoldable pub on_link : ℕ → (Link site → Action (Http3 site)) → Action (Quic site)
  on_link k m p = elim (at_key k p.links) [
    | none ↦ pass p
    | some link ↦ let (r, p3) = m link (opened p link) in (r, closed k link p3 p)
  ]

  abbrev pub update_link : ℕ → (Link site → Link site) → Action (Quic site)
  update_link k f p = elim (at_key k p.links) [
    | none ↦ pass p
    | some link ↦ (ok tt, put_link k (f link) p)
  ]

  -- `del self.connections[cid]`
  unfoldable pub delete_cid : Bytes → Action (Quic site)
  delete_cid cid p = elim (by_cid cid p.connections) [
    | none ↦ throw key_error p
    | some k ↦ (ok tt, record p { connections = del_cid cid p.connections })
  ]

  unfoldable pub delete_cids : List Bytes → Action (Quic site)
  delete_cids [] = pass
  delete_cids (cid ∷ cids) = do delete_cid cid; delete_cids cids

  abbrev pub cids_of : Option (Link site) → List Bytes
  cids_of none = []
  cids_of (some link) = link.cids

  -- the branch for a ConnectionTerminated
  unfoldable pub end_link : ℕ → Action (Quic site)
  end_link k = do
    update_link k (λ link. record link { timer = false })
    λ p. delete_cids (cids_of (at_key k p.links)) p
    update_link k (λ link. record link { cids = [] })

  -- the branch for a ProtocolNegotiated
  unfoldable pub start_h3 : ℕ → Option Address → Action (Quic site)
  start_h3 k client = update_link k (λ link. record link {
    has_h3 = true;
    client = client;
    quic = q.with_h3 link.quic;
    streams = [];
    objects = [];
  })

  -- the branch for a ConnectionIdIssued
  unfoldable pub issue_cid : ℕ → Bytes → Action (Quic site)
  issue_cid k cid = do
    update_link k (λ link. record link { cids = add_cid cid link.cids })
    modify (λ p. record p { connections = put_cid cid k p.connections })

  -- the branch for a ConnectionIdRetired; `remove` of a set raises a KeyError too
  unfoldable pub retire_cid : ℕ → Bytes → Action (Quic site)
  retire_cid k cid p =
      if has_cid cid (cids_of (at_key k p.links))
      then (do
        update_link k (λ link. record link { cids = remove_cid cid link.cids })
        delete_cid cid)
          p
      else throw key_error p

  unfoldable pub handle_quic_event : ℕ → Option Address → QuicEvent → Action (Quic site)
  handle_quic_event k client QuicEvent.connection_terminated = end_link k
  handle_quic_event k client QuicEvent.protocol_negotiated = start_h3 k client
  handle_quic_event k client (QuicEvent.connection_id_issued cid) = issue_cid k cid
  handle_quic_event k client (QuicEvent.connection_id_retired cid) = retire_cid k cid
  handle_quic_event k client (QuicEvent.other n) = pass

  -- `connection.h3.handle`, where there is one
  unfoldable pub pass_to_h3 : ℕ → QuicEvent → Action (Quic site)
  pass_to_h3 k event = on_link k (λ link. when link.has_h3 (handle_h3 site event))

  -- `connection.quic.next_event()`
  unfoldable pub next_event : ℕ → Quic site → Option QuicEvent × Quic site
  next_event k p = elim (at_key k p.links) [
    | none ↦ (none, p)
    | some link ↦
        let (event, quic) = q.next_event link.quic in
        (event, put_link k (record link { quic = quic }) p)
  ]

  -- what follows `next_event`, before `more` rounds
  unfoldable pub after_next :
      Exec (Quic site) QuicLoop → ℕ → Option Address → Option QuicEvent → Exec (Quic site) QuicLoop
  after_next more k client none = do on_link k (λ link. send_all site); pure QuicLoop.finished
  after_next more k client (some event) = do
    handle_quic_event k client event
    pass_to_h3 k event
    more

  -- `_handle_events`, for as many rounds as the fuel says
  unfoldable pub handle_events : ℕ → ℕ → Option Address → Exec (Quic site) QuicLoop
  handle_events zero k client p = pure QuicLoop.unfinished p
  handle_events (suc fuel) k client p =
      let (event, p') = next_event k p in after_next (handle_events fuel k client) k client event p'

  -- a connection for a client's first packet
  unfoldable pub make_link : Bytes → Quic site → Quic site
  make_link cid p =
      let quic = q.connection p.made cid in
      record p {
        made = suc p.made;
        links =
            set_key p.made
              (record {
                cids = add_cid (q.host_cid quic) (cid ∷ []);
                quic = quic;
                timer = false;
                has_h3 = false;
                client = none;
                streams = [];
                objects = [];
              })
              p.links;
        connections = put_cid (q.host_cid quic) p.made (put_cid cid p.made p.connections);
      }

  -- whether a packet for an id that is not known makes a connection
  abbrev pub opens : Quic site → Bytes → PacketHeader → Bool
  opens p bytes header = leb 1200 (length bytes) && header.is_initial && not p.terminated

  -- a packet for a connection that is there
  unfoldable pub receive : ℕ → ℕ → Bytes → Address → Exec (Quic site) QuicLoop
  receive fuel k bytes address = do
    update_link k (λ link. record link { quic = q.receive_datagram bytes address link.quic })
    handle_events fuel k (some address)

  -- what follows the lookup of the connection
  unfoldable pub dispatch :
      ℕ → Bytes → Address → PacketHeader → Option ℕ → Exec (Quic site) QuicLoop
  dispatch fuel bytes address header (some k) p = receive fuel k bytes address p
  dispatch fuel bytes address header none p =
      if opens p bytes header
      then receive fuel p.made bytes address (make_link header.destination_cid p)
      else pure QuicLoop.finished p

  abbrev pub is_unsupported : Option ℕ → Bool
  is_unsupported none = false
  is_unsupported (some version) = not (q.supports version)

  unfoldable pub handle_packet :
      ℕ → Bytes → Address → Option PacketHeader → Exec (Quic site) QuicLoop
  handle_packet fuel bytes address none p = pure QuicLoop.finished p
  handle_packet fuel bytes address (some header) p =
      if is_unsupported header.version
      then (
        ok QuicLoop.finished,
        record p {
          effects =
              QuicEffect.datagram (q.version_negotiation header.destination_cid header.source_cid)
                address
              ∷ p.effects;
        },
      )
      else dispatch fuel bytes address header (by_cid header.destination_cid p.connections) p

  -- `handle` of RawData; of Closed it does nothing
  unfoldable pub handle_bytes : ℕ → Bytes → Address → Exec (Quic site) QuicLoop
  handle_bytes fuel bytes address = handle_packet fuel bytes address (q.pull_header bytes)

  -- `_handle_timer`, after its sleep
  unfoldable pub handle_timer : ℕ → ℕ → Exec (Quic site) QuicLoop
  handle_timer fuel k = do
    update_link k (λ link. record link { quic = q.handle_timer link.quic })
    handle_events fuel k none

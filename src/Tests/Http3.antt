-- ===== src/Tests/Http3.antt =====
-- An HTTP/3 connection over an aioquic that finds nothing in what it receives.
use nonecorn.Http1.Streams.{Stream}
use nonecorn.HttpStream.{HttpStream, init as init_http}
use nonecorn.Prelude.{
  arith, Option, Bool, ◌∷◌, ◌≡◌, none, some, List, [], true, false, at_key, refl,
}
use nonecorn.Bytes.{Bytes, codes, same, upper}
use nonecorn.Asgi.{Header, Receive}
use nonecorn.Exec.{ok, raise, name_error}
use nonecorn.Stream.{put}
use nonecorn.Worker.{init as init_worker, mark_request}
use nonecorn.Utils.Headers.{filter_loop, filter_pseudo_headers, is_pseudo}
use nonecorn.Multiplex.{handle_by, handle_object, http_emit}
use nonecorn.Http2.Receive.{read_request}
use nonecorn.Http3.Aioquic.{QuicEvent, Aioquic, H3Event, PacketHeader}
use nonecorn.Http3.Protocol.{
  H3Settings, H3Site, Http3, QuicEffect, create_stream, handle_h3_event, handle_stream, make_stream,
  send,
}
use nonecorn.Exec.{◌>>◌}
use nonecorn.Http3.Quic.Routing.{IsRouted, init-IsRouted}
use nonecorn.Http3.Quic.Routing.Ends.{Forgets, end_link-Forgets}
use nonecorn.Http3.Quic.Routing.Events.{events-IsRouted, make_link-IsRouted}
use nonecorn.Http3.Quic.{Quic, Link, end_link, handle_quic_event, make_link, pass_to_h3, init}
use nonecorn.Http3.Trailers.{handle_h3_event-repeats, handle_h3_event-trailers}
use nonecorn.Tests.Data.{config, env}
use nonecorn.Tests.Http.{http}
use nonecorn.Tests.Websocket.{ws}

abbrev stream_at : Option (Stream ws) → HttpStream
stream_at (some (Stream.http s)) = s
stream_at _ = init_http false none none 1 false

abbrev is_http : Option (Stream ws) → Bool
is_http (some (Stream.http s)) = true
is_http _ = false

stream_at-is_http :
    (o : Option (Stream ws)) → is_http o ≡ true → o ≡ some (Stream.http (stream_at o))
stream_at-is_http none e = ground (arith, e)
stream_at-is_http (some Stream.absent) e = ground (arith, e)
stream_at-is_http (some (Stream.http s)) e = refl
stream_at-is_http (some (Stream.websocket s)) e = ground (arith, e)

abbrev first_packet : Bytes → PacketHeader
first_packet bytes = record {
  version = none;
  is_initial = true;
  destination_cid = bytes;
  source_cid = [];
}

abbrev aioquic : Aioquic
aioquic = record {
  Connection = Bytes;
  pull_header = λ bytes. some (first_packet bytes);
  supports = λ version. true;
  version_negotiation = λ source destination. [];
  connection = λ made cid. cid;
  host_cid = λ c. codes "host";
  receive_datagram = λ bytes address c. bytes;
  next_event = λ c. (none, c);
  datagrams_to_send = λ c. ([], c);
  has_timer = λ c. false;
  handle_timer = λ c. c;
  with_h3 = λ c. c;
  handle_event = λ event c. ([], c);
  send_headers = λ id headers end c. (ok tt, c);
  send_data = λ id bytes end c. (ok tt, c);
  send_push_promise = λ id headers c. (ok none, c);
}

abbrev h3_settings : H3Settings
h3_settings = record {
  server = none;
  connection_state = [];
  server_headers = [];
  show = λ n. codes "200";
}

abbrev h3_site : H3Site
h3_site = record { q = aioquic; ws = ws; env = env; config = config; settings = h3_settings }

abbrev start : Http3 h3_site
start = record {
  connection = [];
  client = none;
  streams = [];
  objects = [];
  timer = false;
  context = init_worker none;
  terminated = false;
  effects = [];
}

handle_h3_event-trailers_example :
    handle_h3_event h3_site (H3Event.headers_received 4 ((codes "x", codes "y") ∷ []) true) start
    ≡ (raise name_error, start)
unfolding same
handle_h3_event-trailers_example =
    handle_h3_event-trailers h3_site 4 ((codes "x", codes "y") ∷ []) true start refl (refl, tt)

abbrev get_headers : List Header
get_headers = (codes ":path", codes "/") ∷ (codes ":authority", codes "example.org") ∷ []

abbrev created : Http3 h3_site
created =
    (create_stream h3_site (send h3_site) 0 ((codes ":method", codes "GET") ∷ get_headers) start).1

handle_h3_event-repeats_example :
    (handle_h3_event h3_site
      (H3Event.headers_received 0 ((codes ":method", codes "GET") ∷ get_headers) true)
      start).1.effects
    ≡ QuicEffect.stream
        (put (Receive.http_request_trailers ((codes ":method", codes "GET") ∷ get_headers)))
      ∷ QuicEffect.stream (put (Receive.http_request [] false))
      ∷ created.effects
unfolding http create_stream read_request make_stream handle_stream handle_object handle_by
    http_emit send filter_pseudo_headers filter_loop is_pseudo upper mark_request
handle_h3_event-repeats_example =
    handle_h3_event-repeats h3_site 0 (codes ":method", codes "GET") get_headers
      (stream_at (at_key 0 created.objects)) start refl refl refl
      (stream_at-is_http (at_key 0 created.objects) refl) refl refl

-- one connection, by its first packet
abbrev table : Quic h3_site
table = make_link h3_site (codes "client") (init h3_site (init_worker none))

abbrev first_link : Link h3_site
first_link = record {
  cids = codes "client" ∷ codes "host" ∷ [];
  quic = codes "client";
  timer = false;
  has_h3 = false;
  client = none;
  streams = [];
  objects = [];
}

table-IsRouted : IsRouted h3_site table
table-IsRouted =
    (make_link-IsRouted h3_site (codes "client") (init h3_site (init_worker none)) refl refl refl
      (init-IsRouted h3_site (init_worker none))).0

end_link-Forgets_example : Forgets h3_site 0 table (end_link h3_site 0 table)
unfolding make_link same
end_link-Forgets_example = end_link-Forgets h3_site 0 first_link table refl table-IsRouted

events-IsRouted_example :
    IsRouted h3_site
      ((do
        handle_quic_event h3_site 0 none (QuicEvent.connection_id_issued (codes "new"))
        pass_to_h3 h3_site 0 (QuicEvent.connection_id_issued (codes "new")))
        table).1
unfolding make_link same
events-IsRouted_example =
    events-IsRouted h3_site 0 none (QuicEvent.connection_id_issued (codes "new")) first_link table
      refl refl table-IsRouted

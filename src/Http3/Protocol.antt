-- ===== src/Http3/Protocol.antt =====
-- The class H3Protocol of protocol/h3.py, and `send_all` of protocol/quic.py, which is its `send`.
use nonecorn.Prelude.{
  not, ◌∷◌, ◌++◌, ℕ, some, none, [], Option, List, Bool, true, false, add, discard, has, set_key,
  if◌then◌else◌,
}
use nonecorn.Bytes.{Bytes, Text, codes, same}
use nonecorn.Exec.{Action, Exec, pass, throw, lift, modify, when, ◌>>=◌, ◌>>◌, key_error}
use nonecorn.Asgi.{Address, AppMessage, Config, ConnectionState, Header, StreamEvent}
use nonecorn.Platform.{Platform}
use nonecorn.Stream.{Output}
use nonecorn.HttpStream.{init as init_http}
use nonecorn.Utils.Headers.{filter_pseudo_headers}
use nonecorn.Websocket.Wsproto.{Wsproto}
use nonecorn.Websocket.Stream.{init as init_ws}
use nonecorn.Worker.{WorkerContext, mark_request}
use nonecorn.Http1.Streams.{Stream}
use nonecorn.Http2.Receive.{bound, read_request}
use nonecorn.Multiplex.{Kept, Makers, app_send_by, handle_object}
use nonecorn.Http3.Aioquic.{Aioquic, H3Event, QuicEvent}

-- what the protocols are made with; `server_headers` is what `response_headers("h3")` returns
pub record H3Settings : Type 0 where
  pub server : Option Address
  pub connection_state : ConnectionState
  pub server_headers : List Header
  pub show : ℕ → Bytes

pub record H3Site : Type 1 where
  pub q : Aioquic
  pub ws : Wsproto
  pub env : Platform
  pub config : Config
  pub settings : H3Settings

-- `self.send(RawData(...))` of QUIC, and what the streams do besides sending
pub data QuicEffect : Type 0 where
  datagram : Bytes → Address → QuicEffect
  stream : Output → QuicEffect

-- One connection of QUIC with its H3Protocol. `streams` has the keys of that dict, the streams stand in
-- `objects`; `timer` is whether the task of the connection's timer runs. The effects are the newest
-- first.
pub record Http3 (site : H3Site) : Type 0 where
  pub connection : site.q.Connection
  pub client : Option Address
  pub streams : List ℕ
  pub objects : List (ℕ × Stream site.ws)
  pub timer : Bool
  pub context : WorkerContext
  pub terminated : Bool
  pub effects : List QuicEffect

module _ (site : H3Site) where
  open site use {q, ws, env, config, settings}

  abbrev pub on_connection : {A : Type 0} → Exec q.Connection A → Exec (Http3 site) A
  on_connection m p = ((m p.connection).0, record p { connection = (m p.connection).1 })

  abbrev pub send_datagrams : List (Bytes × Address) → Http3 site → Http3 site
  send_datagrams [] p = p
  send_datagrams ((bytes, address) ∷ datagrams) p =
      send_datagrams datagrams
        (record p { effects = QuicEffect.datagram bytes address ∷ p.effects })

  -- `send_all`
  unfoldable pub send_all : Action (Http3 site)
  send_all p =
      let (datagrams, connection) = q.datagrams_to_send p.connection in
      modify (λ p. record p { timer = if q.has_timer p.connection then true else p.timer })
        (send_datagrams datagrams (record p { connection = connection }))

  abbrev pub makers : Makers
  makers = record { ws = ws; env = env; config = config }

  abbrev pub kept : Kept ws (Http3 site)
  kept = record {
    objects = λ p. p.objects;
    put_objects = λ objects p. record p { objects = objects };
    note = λ output. modify (λ p. record p { effects = QuicEffect.stream output ∷ p.effects });
  }

  -- `self.streams[id].handle`
  unfoldable pub handle_stream :
      (StreamEvent → Action (Http3 site)) → ℕ → StreamEvent → Action (Http3 site)
  handle_stream send id event p =
      (if has id p.streams then handle_object makers kept send id event else throw key_error) p

  -- the branch of `stream_send` for a response, an informational one too
  unfoldable pub send_response : ℕ → List Header → ℕ → Action (Http3 site)
  send_response id headers status_code = do
    on_connection (
        q.send_headers id
          ((codes ":status", settings.show status_code) ∷ headers ++ settings.server_headers) false)
    send_all

  -- the branch for an EndBody; its `headers` are never None
  unfoldable pub end_body : ℕ → List Header → Action (Http3 site)
  end_body id headers = do
    on_connection (q.send_headers id headers false)
    on_connection (q.send_data id [] true)
    send_all

  -- `stream_send`
  unfoldable pub stream_send :
      (ℕ → Bytes → List Header → Action (Http3 site)) → StreamEvent → Action (Http3 site)
  stream_send create_push (StreamEvent.response id headers status_code reason) =
      send_response id headers status_code
  stream_send create_push (StreamEvent.informational_response id headers status_code) =
      send_response id headers status_code
  stream_send create_push (StreamEvent.body id bytes flush) = do
    on_connection (q.send_data id bytes false)
    send_all
  stream_send create_push (StreamEvent.ws_data id bytes flush) = do
    on_connection (q.send_data id bytes false)
    send_all
  stream_send create_push (StreamEvent.zero_copy_send id file offset count) = pass
  stream_send create_push (StreamEvent.end_body id headers) = end_body id headers
  stream_send create_push (StreamEvent.end_data id) = do
    on_connection (q.send_data id [] true)
    send_all
  stream_send create_push (StreamEvent.trailer_headers_send id headers end_stream) = do
    on_connection (q.send_headers id headers end_stream)
    send_all
  stream_send create_push (StreamEvent.stream_closed id) =
      modify (λ p. record p { streams = discard id p.streams })
  stream_send create_push (StreamEvent.request id event) =
      create_push id event.raw_path event.headers

  unfoldable pub make_stream : ℕ → Text → Action (Http3 site)
  make_stream id method = modify (λ p. record p {
    streams = add id p.streams;
    objects =
        set_key id
          (if same method (codes "CONNECT")
            then Stream.websocket (init_ws config true p.client settings.server id false)
            else Stream.http (init_http true p.client settings.server id false))
          p.objects;
  })

  -- `_create_stream`, with the `stream_send` of the stream
  unfoldable pub create_stream :
      (StreamEvent → Action (Http3 site)) → ℕ → List Header → Action (Http3 site)
  create_stream send id headers = do
    (found, raw_path) ← lift (read_request none none headers)
    method ← bound found
    make_stream id method
    kept_headers ← lift (filter_pseudo_headers headers)
    path ← bound raw_path
    handle_stream send id (
        StreamEvent.request id (record {
          headers = kept_headers;
          http_version = codes "3";
          method = method;
          raw_path = path;
          state = settings.connection_state;
        }))
    modify (λ p. record p { context = mark_request p.context })

  -- the `stream_send` of a stream that handles its request, or the end of its body: it is sent no
  -- Request by then
  unfoldable pub send_nested : StreamEvent → Action (Http3 site)
  send_nested = stream_send (λ id path headers. pass)

  abbrev pub push_headers : Bytes → List Header → List Header
  push_headers path headers =
      (codes ":method", codes "GET") ∷ (codes ":path", path) ∷ headers ++ settings.server_headers

  -- what follows `send_push_promise`
  unfoldable pub after_promise : List Header → Option ℕ → Action (Http3 site)
  after_promise headers none = pass
  after_promise headers (some id) = do
    create_stream send_nested id headers
    handle_stream send_nested id (StreamEvent.end_body id [])

  -- `_create_server_push`
  unfoldable pub create_server_push : ℕ → Bytes → List Header → Action (Http3 site)
  create_server_push id path headers = do
    pushed ← on_connection (q.send_push_promise id (push_headers path headers))
    after_promise (push_headers path headers) pushed

  -- the `stream_send` that the streams have
  unfoldable pub send : StreamEvent → Action (Http3 site)
  send = stream_send create_server_push

  unfoldable pub handle_h3_event : H3Event → Action (Http3 site)
  handle_h3_event (H3Event.headers_received id headers ended) p =
      when (not p.terminated)
        (do
          create_stream send id headers
          when ended (handle_stream send id (StreamEvent.end_body id headers)))
        p
  handle_h3_event (H3Event.data_received id bytes ended) p =
      (do
        handle_stream send id (StreamEvent.body id bytes false)
        when ended (handle_stream send id (StreamEvent.end_body id [])))
        p
  handle_h3_event H3Event.other p = pass p

  unfoldable pub handle_each : List H3Event → Action (Http3 site)
  handle_each [] = pass
  handle_each (event ∷ events) = do handle_h3_event event; handle_each events

  -- `handle`
  unfoldable pub handle : QuicEvent → Action (Http3 site)
  handle event p =
      let (events, connection) = q.handle_event event p.connection in
      handle_each events (record p { connection = connection })

  -- `app_send` of the stream with this id, by its application
  unfoldable pub app_send : ℕ → Option AppMessage → Action (Http3 site)
  app_send id message = app_send_by makers kept send id message

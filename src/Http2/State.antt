-- ===== src/Http2/State.antt =====
-- The state of an H2Protocol (protocol/h2.py), and the steps on it that its methods share.
use nonecorn.Prelude.{
  ◌∷◌, ◌||◌, ℕ, some, none, not, if◌then◌else◌, [], Option, List, Bool, true, false, all, is_empty,
  at_key, set_key,
}
use nonecorn.Bytes.{Bytes}
use nonecorn.Exec.{
  Action, Error, Exec, pass, pure, throw, gets, modify, when, ◌>>=◌, ◌>>◌, key_error,
  missing_stream, protocol_error, cancelled, buffer_complete,
}
use nonecorn.Asgi.{Address, Config, ConnectionState, Header}
use nonecorn.Platform.{Platform}
use nonecorn.Stream.{Output}
use nonecorn.Worker.{WorkerContext}
use nonecorn.Websocket.Wsproto.{Wsproto}
use nonecorn.Websocket.Stream.{is_idle}
use nonecorn.Http1.State.{Effect, IoEvent}
use nonecorn.Http1.Streams.{Stream}
use nonecorn.Multiplex.{Kept, Makers}
use nonecorn.Http2.Libraries.{H2, PriorityTree}
use nonecorn.Http2.StreamBuffer.{StreamBuffer, resume}

-- the arguments of `__init__`, and what the protocol reads of the configuration; `server_headers` is
-- what `response_headers("h2")` returns, and `show` the decimal text of a number
pub record H2Settings : Type 0 where
  pub ssl : Bool
  pub client : Option Address
  pub server : Option Address
  pub has_tls : Bool
  pub connection_state : ConnectionState
  pub keep_alive_max_requests : ℕ
  pub server_headers : List Header
  pub show : ℕ → Bytes

pub record H2Site : Type 1 where
  pub h : H2
  pub t : PriorityTree
  pub ws : Wsproto
  pub env : Platform
  pub config : Config
  pub settings : H2Settings

-- `streams` has the keys of that dict. The streams themselves stand in `objects`, where they stay
-- for their applications, which hold on to them; h2 gives no two requests the same id. `sending` is
-- whether `send_task` was spawned. The effects are the newest first.
pub record Http2 (site : H2Site) : Type 0 where
  pub connection : site.h.Connection
  pub closed : Bool
  pub keep_alive_requests : ℕ
  pub streams : List ℕ
  pub objects : List (ℕ × Stream site.ws)
  pub has_data : Bool
  pub priority : site.t.Tree
  pub buffers : List (ℕ × StreamBuffer)
  pub sending : Bool
  pub context : WorkerContext
  pub terminated : Bool
  pub effects : List Effect

unfoldable pub init : (site : H2Site) → WorkerContext → Http2 site
init site context = record {
  connection = site.h.connection;
  closed = false;
  keep_alive_requests = 0;
  streams = [];
  objects = [];
  has_data = false;
  priority = site.t.tree;
  buffers = [];
  sending = false;
  context = context;
  terminated = false;
  effects = [];
}

-- what a task waits for: a buffer's `_is_empty` or its `_paused`
pub data Wait : Type 0 where
  until_empty until_paused : ℕ → Wait

-- the value under a key, or a KeyError
abbrev pub present : {A S : Type 0} → Option A → Exec S A
present none = throw key_error
present (some a) = pure a

module _ (site : H2Site) where
  open site use {h, t, ws}

  abbrev pub on_connection : {A : Type 0} → Exec h.Connection A → Exec (Http2 site) A
  on_connection m p = ((m p.connection).0, record p { connection = (m p.connection).1 })

  abbrev pub on_priority : {A : Type 0} → Exec t.Tree A → Exec (Http2 site) A
  on_priority m p = ((m p.priority).0, record p { priority = (m p.priority).1 })

  -- `self.send`
  abbrev pub send_io : IoEvent → Action (Http2 site)
  send_io event = modify (λ p. record p { effects = Effect.io event ∷ p.effects })

  abbrev pub record_stream : Output → Action (Http2 site)
  record_stream output = modify (λ p. record p { effects = Effect.stream output ∷ p.effects })

  abbrev pub set_has_data : Action (Http2 site)
  set_has_data = modify (λ p. record p { has_data = true })

  -- `_flush`
  unfoldable pub flush : Action (Http2 site)
  flush p =
      let (bytes, connection) = h.data_to_send p.connection in
      when (not (is_empty bytes)) (send_io (IoEvent.raw_bytes bytes))
        (record p { connection = connection })

  -- `self.stream_buffers[id]`
  unfoldable pub buffer_of : ℕ → Exec (Http2 site) StreamBuffer
  buffer_of id p = present (at_key id p.buffers) p

  abbrev pub put_buffer : ℕ → StreamBuffer → Action (Http2 site)
  put_buffer id b = modify (λ p. record p { buffers = set_key id b p.buffers })

  -- `_is_empty.wait()` and `_paused.wait()`, by what the other tasks do meanwhile. A buffer that is
  -- no longer in the dict was closed or is empty, and has its events set. A task that waits in vain is
  -- cancelled in the end.
  abbrev pub Others : Type 0
  Others = Wait → Http2 site → Http2 site

  abbrev pub is_set : Wait → StreamBuffer → Bool
  is_set (Wait.until_empty id) b = b.is_empty
  is_set (Wait.until_paused id) b = b.paused

  abbrev pub buffer_id : Wait → ℕ
  buffer_id (Wait.until_empty id) = id
  buffer_id (Wait.until_paused id) = id

  abbrev pub is_ready : Wait → Option StreamBuffer → Bool
  is_ready wait none = true
  is_ready wait (some b) = is_set wait b

  unfoldable pub wait_for : Others → Wait → Action (Http2 site)
  wait_for others wait p =
      if is_ready wait (at_key (buffer_id wait) p.buffers)
      then pass p
      else (do
        modify (others wait)
        waited ← gets (λ p. is_ready wait (at_key (buffer_id wait) p.buffers))
        when (not waited) (throw cancelled))
          p

  -- a stream's property `idle`, and that of the protocol
  abbrev pub stream_idle : Option (Stream ws) → Bool
  stream_idle (some (Stream.websocket s)) = is_idle s.state
  stream_idle _ = false

  abbrev pub is_idle_protocol : Http2 site → Bool
  is_idle_protocol p = all (λ id. stream_idle (at_key id p.objects)) p.streams

  -- the exceptions that `_send_data` and `stream_send` catch; h2's StreamClosedError is one of its
  -- ProtocolErrors
  abbrev pub is_key_error : Error → Bool
  is_key_error key_error = true
  is_key_error missing_stream = t.missing_is_key_error
  is_key_error _ = false

  abbrev pub is_protocol_error : Error → Bool
  is_protocol_error protocol_error = true
  is_protocol_error _ = false

  abbrev pub ends_sending : Error → Bool
  ends_sending e = is_key_error e || is_protocol_error e

  abbrev pub ends_streaming : Error → Bool
  ends_streaming buffer_complete = true
  ends_streaming missing_stream = true
  ends_streaming e = ends_sending e

  abbrev pub makers : Makers
  makers = record { ws = site.ws; env = site.env; config = site.config }

  abbrev pub kept : Kept site.ws (Http2 site)
  kept = record {
    objects = λ p. p.objects;
    put_objects = λ objects p. record p { objects = objects };
    note = record_stream;
  }

-- `_paused.clear()`, after a wait
abbrev pub unpause : ℕ → List (ℕ × StreamBuffer) → List (ℕ × StreamBuffer)
unpause id buffers = elim (at_key id buffers) [
  | none ↦ buffers
  | some b ↦ set_key id (resume b) buffers
]

-- ===== src/Http1/State.antt =====
-- The state of an H11Protocol (protocol/h11.py), and what it does outside itself.
use nonecorn.Prelude.{◌∷◌, ℕ, none, [], Option, List, Bool, false}
use nonecorn.Bytes.{Bytes}
use nonecorn.Exec.{Action, ok}
use nonecorn.Asgi.{Address, ConnectionState, Header}
use nonecorn.Stream.{Output, World}
use nonecorn.Worker.{WorkerContext}
use nonecorn.Http1.H11.{H11}

-- the events of src/hypercorn/events.py
pub data IoEvent : Type 0 where
  raw_bytes : Bytes → IoEvent
  zero_copy_send : ℕ → ℕ → ℕ → IoEvent
  closed : IoEvent
  updated : Bool → IoEvent

-- what `self.send` is given, and what the stream does besides sending
pub data Effect : Type 0 where
  io : IoEvent → Effect
  stream : Output → Effect

-- `self.connection` is an H11WSConnection around `connection` when `passthrough` is there, which is
-- its buffer. `attached` is `self.stream is not None`. The effects are the newest first.
pub record Http1 (h : H11) : Type 0 where
  pub connection : h.Connection
  pub passthrough : Option Bytes
  pub can_read : Bool
  pub keep_alive_requests : ℕ
  pub attached : Bool
  pub context : WorkerContext
  pub terminated : Bool
  pub effects : List Effect

-- the arguments of `__init__`, and the fields of the configuration that the protocol reads;
-- `server_headers` is what `response_headers("h11")` returns
pub record Settings : Type 0 where
  pub ssl : Bool
  pub client : Option Address
  pub server : Option Address
  pub has_tls : Bool
  pub connection_state : ConnectionState
  pub max_incomplete_size : ℕ
  pub pass_raw_headers : Bool
  pub keep_alive_max_requests : ℕ
  pub server_headers : List Header

-- of the operating system: where a descriptor stands, and the size of its file
pub record Files : Type 0 where
  pub position : ℕ → ℕ
  pub size : ℕ → ℕ

unfoldable pub init : (h : H11) → Settings → WorkerContext → Http1 h
init h settings context = record {
  connection = h.connection settings.max_incomplete_size;
  passthrough = none;
  can_read = false;
  keep_alive_requests = 0;
  attached = false;
  context = context;
  terminated = false;
  effects = [];
}

module _ {h : H11} {S : Type 0} where
  abbrev pub update_rest : (Http1 h → Http1 h) → Action (World S (Http1 h))
  update_rest f w = (ok tt, record w { rest = f w.rest })

  -- `self.send`
  abbrev pub send_io : IoEvent → Action (World S (Http1 h))
  send_io event = update_rest (λ p. record p { effects = Effect.io event ∷ p.effects })

  abbrev pub record_stream : Output → Action (World S (Http1 h))
  record_stream output = update_rest (λ p. record p { effects = Effect.stream output ∷ p.effects })

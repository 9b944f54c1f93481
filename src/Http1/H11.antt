-- ===== src/Http1/H11.antt =====
-- The h11 library, which is no part of the repository, as protocol/h11.py calls it: its events, and
-- its connection as a parameter.
use nonecorn.Prelude.{ℕ, Option, List, Bool}
use nonecorn.Bytes.{Bytes}
use nonecorn.Asgi.{Header}

-- h11.Request; `raw_headers` is what `headers.raw_items()` lists
pub record H11Request : Type 0 where
  pub method : Bytes
  pub target : Bytes
  pub http_version : Bytes
  pub headers : List Header
  pub raw_headers : List Header

-- What `next_event` returns. `remote_protocol_error` is the exception of that name, with its
-- `error_status_hint`, and `ws_bytes` the Data of an H11WSConnection.
pub data H11Event : Type 0 where
  request : H11Request → H11Event
  content : Bytes → H11Event
  end_of_message : List Header → H11Event
  connection_closed need_data paused : H11Event
  remote_protocol_error : ℕ → H11Event
  ws_bytes : Bytes → H11Event

-- h11's events that are sent
pub data Sendable : Type 0 where
  response : ℕ → List Header → Bytes → Sendable
  informational_response : ℕ → List Header → Bytes → Sendable
  content : Bytes → Sendable
  end_of_message : List Header → Sendable

-- the states that the code compares with, and the others
pub data Role : Type 0 where
  idle send_response done error other : Role

-- what `send_with_data_passthrough` lists: bytes, or the object that stands for a file
pub data Chunk : Type 0 where
  bytes : Bytes → Chunk
  file : Chunk

-- `accepts` says whether the constructor of an event takes its arguments: it raises a
-- LocalProtocolError otherwise, as `send`, `send_file` and `start_next_cycle` do for `none`.
pub record H11 : Type 1 where
  pub Connection : Type 0
  pub connection : ℕ → Connection
  pub receive_data : Bytes → Connection → Connection
  pub next_event : Connection → H11Event × Connection
  pub accepts : Sendable → Bool
  pub send : Sendable → Connection → Option Bytes × Connection
  pub send_file : ℕ → Connection → Option (List Chunk) × Connection
  pub start_next_cycle : Connection → Option Connection
  pub our_state : Connection → Role
  pub their_state : Connection → Role
  pub trailing_data : Connection → Bytes
  pub waits_for_100_continue : Connection → Bool

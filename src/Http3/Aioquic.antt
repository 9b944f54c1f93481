-- ===== src/Http3/Aioquic.antt =====
-- The library aioquic, which is no part of the repository, as protocol/h3.py and protocol/quic.py
-- call it: its events, and a connection of QUIC with that of HTTP/3 on it as a parameter.
use nonecorn.Prelude.{ℕ, Option, List, Bool}
use nonecorn.Bytes.{Bytes}
use nonecorn.Exec.{Action, Exec}
use nonecorn.Asgi.{Address, Header}

-- aioquic.h3.events; the Boolean is `stream_ended`
pub data H3Event : Type 0 where
  headers_received : ℕ → List Header → Bool → H3Event
  data_received : ℕ → Bytes → Bool → H3Event
  other : H3Event

-- aioquic.quic.events; the number tells the events apart that the code does not look at
pub data QuicEvent : Type 0 where
  connection_terminated protocol_negotiated : QuicEvent
  connection_id_issued connection_id_retired : Bytes → QuicEvent
  other : ℕ → QuicEvent

-- what `pull_quic_header` returns; `is_initial` is whether the packet's type is PACKET_TYPE_INITIAL
pub record PacketHeader : Type 0 where
  pub version : Option ℕ
  pub is_initial : Bool
  pub destination_cid : Bytes
  pub source_cid : Bytes

-- `pull_header` has none for a ValueError, and `send_push_promise` for a NoAvailablePushIDError.
-- `connection` takes what is drawn at random for a connection as a number. `has_timer` is whether
-- `get_timer` returns a time.
pub record Aioquic : Type 1 where
  pub Connection : Type 0
  pub pull_header : Bytes → Option PacketHeader
  pub supports : ℕ → Bool
  pub version_negotiation : Bytes → Bytes → Bytes
  pub connection : ℕ → Bytes → Connection
  pub host_cid : Connection → Bytes
  pub receive_datagram : Bytes → Address → Connection → Connection
  pub next_event : Connection → Option QuicEvent × Connection
  pub datagrams_to_send : Connection → List (Bytes × Address) × Connection
  pub has_timer : Connection → Bool
  pub handle_timer : Connection → Connection
  pub with_h3 : Connection → Connection
  pub handle_event : QuicEvent → Connection → List H3Event × Connection
  pub send_headers : ℕ → List Header → Bool → Action Connection
  pub send_data : ℕ → Bytes → Bool → Action Connection
  pub send_push_promise : ℕ → List Header → Exec Connection (Option ℕ)

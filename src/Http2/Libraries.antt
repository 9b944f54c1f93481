-- ===== src/Http2/Libraries.antt =====
-- The libraries h2 and priority, which are no part of the repository, as protocol/h2.py calls them:
-- h2's events, its connection and the tree of priorities as parameters. A call may raise.
use nonecorn.Prelude.{ℕ, Option, List, Bool}
use nonecorn.Bytes.{Bytes}
use nonecorn.Exec.{Action, Exec}
use nonecorn.Asgi.{Header}

-- the fields of a PriorityUpdated
pub record PriorityUpdate : Type 0 where
  pub stream_id : ℕ
  pub depends_on : ℕ
  pub weight : ℕ
  pub exclusive : Bool

-- A RemoteSettingsChanged says whether INITIAL_WINDOW_SIZE changed. `other` stands for the events
-- that the code does not look at.
pub data H2Event : Type 0 where
  request_received : ℕ → List Header → H2Event
  data_received : ℕ → Bytes → ℕ → H2Event
  stream_ended stream_reset window_updated : ℕ → H2Event
  priority_updated : PriorityUpdate → H2Event
  remote_settings_changed : Bool → H2Event
  connection_terminated : H2Event
  trailers_received : ℕ → List Header → H2Event
  other : H2Event

-- a flow control window, which a change of the settings may make negative
pub data Window : Type 0 where
  room : ℕ → Window
  overdrawn : Window

-- h2.connection.H2Connection
pub record H2 : Type 1 where
  pub Connection : Type 0
  pub connection : Connection
  pub initiate_connection : Action Connection
  pub initiate_upgrade_connection : Bytes → Action Connection
  pub receive_data : Bytes → Exec Connection (List H2Event)
  pub data_to_send : Connection → Bytes × Connection
  pub send_headers : ℕ → List Header → Bool → Action Connection
  pub send_data : ℕ → Bytes → Action Connection
  pub end_stream : ℕ → Action Connection
  pub reset_stream : ℕ → Action Connection
  pub max_concurrent_streams : ℕ → Action Connection
  pub close_connection : Action Connection
  pub acknowledge_received_data : ℕ → ℕ → Action Connection
  pub local_flow_control_window : ℕ → Exec Connection Window
  pub max_outbound_frame_size : Connection → ℕ
  pub next_available_stream_id : Exec Connection ℕ
  pub push_stream : ℕ → ℕ → List Header → Action Connection

-- priority.PriorityTree; `next` has none for a DeadlockError. `missing_is_key_error` is whether
-- MissingStreamError is a KeyError.
pub record PriorityTree : Type 1 where
  pub Tree : Type 0
  pub tree : Tree
  pub missing_is_key_error : Bool
  pub next : Tree → Option ℕ × Tree
  pub block : ℕ → Action Tree
  pub unblock : ℕ → Action Tree
  pub remove_stream : ℕ → Action Tree
  pub insert_stream : ℕ → Action Tree
  pub insert_update : ℕ → Option ℕ → ℕ → Bool → Action Tree
  pub reprioritize : ℕ → Option ℕ → ℕ → Bool → Action Tree

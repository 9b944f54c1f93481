-- ===== src/Tcp.antt =====
-- The class TCPServer of asyncio/tcp_server.py: a connection's writer and its idle timeout, below a
-- protocol. The protocol is a parameter, by its `handle`.
pub mod IdleTimer
use nonecorn.Prelude.{◌∷◌, ℕ, true, if◌then◌else◌, false, [], List, Bool}
use nonecorn.Bytes.{Bytes}
use nonecorn.Exec.{Action, Exec, Result, ok, raise, pass, throw, ◌>>=◌, ◌>>◌, connection_error}
use nonecorn.Http1.State.{IoEvent}

-- what goes to the socket
pub data Written : Type 0 where
  bytes : Bytes → Written
  file : ℕ → ℕ → ℕ → Written

-- `idles` is whether `idle_task` runs; what is written is the newest first
pub record TcpServer : Type 0 where
  pub idles : Bool
  pub closed : Bool
  pub output : List Written

pub record Served (W : Type 0) : Type 0 where
  pub server : TcpServer
  pub rest : W

-- the server before its `run` starts the idle timeout
abbrev pub blank : TcpServer
blank = record { idles = false; closed = false; output = [] }

module _ {W : Type 0} where
  abbrev update_server : (TcpServer → TcpServer) → Action (Served W)
  update_server f w = (ok tt, record w { server = f w.server })

  -- `idle_task.restart` and `idle_task.stop` of AsyncioSingleTask
  unfoldable pub restart_idle : Action (Served W)
  restart_idle = update_server (λ s. record s { idles = true })

  unfoldable pub stop_idle : Action (Served W)
  stop_idle = update_server (λ s. record s { idles = false })

  unfoldable pub write : Written → Action (Served W)
  write written = update_server (λ s. record s { output = written ∷ s.output })

  -- `_close`; what the writer raises is dropped
  unfoldable pub close : Action (Served W)
  close = do update_server (λ s. record s { closed = true }); stop_idle

  -- `broken` is whether the writer raises a ConnectionError
  module _ (handle_closed : Action (Served W)) (broken : Served W → Bool) where
    -- `protocol_send`
    unfoldable pub protocol_send : IoEvent → Action (Served W)
    protocol_send (IoEvent.raw_bytes chunk) w =
        if broken w then handle_closed w else write (Written.bytes chunk) w
    protocol_send (IoEvent.zero_copy_send fd offset count) w =
        if broken w then throw connection_error w else write (Written.file fd offset count) w
    protocol_send IoEvent.closed w = close w
    protocol_send (IoEvent.updated true) w = restart_idle w
    protocol_send (IoEvent.updated false) w = stop_idle w

  -- `_initiate_server_close`
  unfoldable pub initiate_server_close : Action (Served W) → Action (Served W)
  initiate_server_close handle_closed = do
    handle_closed
    update_server (λ s. record s { closed = true })

  -- `_read_data`, for what the reader gives until it ends or raises
  unfoldable pub read_data :
      (Bytes → Action (Served W)) → Action (Served W) → List Bytes → Action (Served W)
  read_data handle_bytes handle_closed [] = handle_closed
  read_data handle_bytes handle_closed (chunk ∷ chunks) = do
    handle_bytes chunk
    read_data handle_bytes handle_closed chunks

  -- `finally` closes the writer. What is raised among the tasks leaves asyncio's TaskGroup in an
  -- exception group, which `except OSError` does not catch.
  abbrev after_reading : Result (Unit {0}) → Action (Served W)
  after_reading (raise e) = do close; throw e
  after_reading (ok x) = close

  -- `run`, from the protocol's `initiate` on
  unfoldable pub run :
      (Bytes → Action (Served W)) → Action (Served W) → List Bytes → Action (Served W)
  run handle_bytes handle_closed chunks w =
      let (r, w') = (do restart_idle; read_data handle_bytes handle_closed chunks) w in
      after_reading r w'

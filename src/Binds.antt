-- ===== src/Binds.antt =====
-- The sockets that a Config makes of its binds (`create_sockets` and `_create_sockets` of config.py).
-- The operating system is a parameter: the type of a descriptor's socket, and the name of a socket.
pub mod Laws
use nonecorn.Prelude.{
  ◌∷◌, ◌==◌, ℕ, true, some, none, ltb, if◌then◌else◌, false, any, [], Option, List, Bool,
}
use nonecorn.Bytes.{Text, codes, starts_with}
use nonecorn.Exec.{Result, ok, raise, value_error, socket_type_error}
use nonecorn.Asgi.{Address}

-- `bind.replace(c, "")`
unfoldable pub remove : ℕ → Text → Text
remove c [] = []
remove c (d ∷ s) = let rest = remove c s in if d == c then rest else d ∷ rest

-- `bind.rsplit(sep, 1)`, where there is a separator
abbrev pub put_before : ℕ → ℕ → Text → Option (Text × Text) → Option (Text × Text)
put_before sep c s (some (before, after)) = some (c ∷ before, after)
put_before sep c s none = if c == sep then some ([], s) else none

unfoldable pub rsplit : ℕ → Text → Option (Text × Text)
rsplit sep [] = none
rsplit sep (c ∷ s) = put_before sep c s (rsplit sep s)

abbrev pub drop_five : Text → Text
drop_five (a ∷ b ∷ c ∷ d ∷ e ∷ s) = s
drop_five _ = []

pub data Kind : Type 0 where
  stream datagram : Kind

abbrev same_kind : Kind → Kind → Bool
same_kind Kind.stream Kind.stream = true
same_kind Kind.datagram Kind.datagram = true
same_kind _ _ = false

-- what a socket is bound to, or the descriptor that it is made of
pub data Binding (Port : Type 0) : Type 0 where
  unix : Text → Binding Port
  descriptor : Port → Binding Port
  inet inet6 : Text → Port → Binding Port

-- `nodelay` and `reuse_port` are the options of that name
pub record Socket (Port : Type 0) : Type 0 where
  pub binding : Binding Port
  pub kind : Kind
  pub nodelay : Bool
  pub reuse_port : Bool

-- `int` is Python's, for text, and `none` where it raises; `default` is 8000
module _ {Port : Type 0} (int : Text → Option Port) (default : Port) where
  abbrev port_of : Text → Text × Text → Option Port → Text × Port
  port_of bind (host, port) none = (bind, default)
  port_of bind (host, port) (some number) = (host, number)

  abbrev parts_of : Text → Option (Text × Text) → Text × Port
  parts_of bind none = (bind, default)
  parts_of bind (some (host, port)) = port_of bind (host, port) (int port)

  -- a bind without its brackets
  unfoldable pub host_port : Text → Text × Port
  host_port bind = parts_of bind (rsplit b':' bind)

  abbrev pub binding_of : Text × Port → Binding Port
  binding_of (host, port) =
      if any (λ c. c == b':') host then Binding.inet6 host port else Binding.inet host port

  abbrev descriptor_of : Option Port → Result (Binding Port)
  descriptor_of none = raise value_error
  descriptor_of (some fd) = ok (Binding.descriptor fd)

  unfoldable pub parse_bind : Text → Result (Binding Port)
  parse_bind bind =
      if starts_with (codes "unix:") bind
      then ok (Binding.unix (drop_five bind))
      else if starts_with (codes "fd://") bind
      then descriptor_of (int (drop_five bind))
      else ok (binding_of (host_port (remove b']' (remove b'[' bind))))

  -- `kind_of` is the type of a descriptor's socket, where a wrong one is a SocketTypeError
  module _ (kind_of : Port → Kind) (workers : ℕ) where
    abbrev socket_of : Kind → Binding Port → Result (Socket Port)
    socket_of kind (Binding.unix path) =
        ok
          (record { binding = Binding.unix path; kind = kind; nodelay = false; reuse_port = false })
    socket_of kind (Binding.descriptor fd) =
        if same_kind (kind_of fd) kind
        then ok (record {
          binding = Binding.descriptor fd;
          kind = kind;
          nodelay = false;
          reuse_port = false;
        })
        else raise socket_type_error
    socket_of kind binding = ok (record {
      binding = binding;
      kind = kind;
      nodelay = same_kind kind Kind.stream;
      reuse_port = ltb 1 workers;
    })

    abbrev then_socket : Kind → Result (Binding Port) → Result (Socket Port)
    then_socket kind (raise e) = raise e
    then_socket kind (ok binding) = socket_of kind binding

    abbrev cons_result :
        Result (Socket Port) → Result (List (Socket Port)) → Result (List (Socket Port))
    cons_result (raise e) rest = raise e
    cons_result (ok socket) (raise e) = raise e
    cons_result (ok socket) (ok sockets) = ok (socket ∷ sockets)

    -- `_create_sockets`
    unfoldable pub make_sockets : Kind → List Text → Result (List (Socket Port))
    make_sockets kind [] = ok []
    make_sockets kind (bind ∷ binds) =
        cons_result (then_socket kind (parse_bind bind)) (make_sockets kind binds)

-- the fields of a Config that are read
pub record Binds : Type 0 where
  pub ssl_enabled : Bool
  pub bind : List Text
  pub insecure_bind : List Text
  pub quic_bind : List Text

pub record Sockets (Port : Type 0) : Type 0 where
  pub secure : List (Socket Port)
  pub insecure : List (Socket Port)
  pub quic : List (Socket Port)

abbrev sockets_of :
    {Port : Type 0}
    → Result (List (Socket Port))
    → Result (List (Socket Port))
    → Result (List (Socket Port))
    → Result (Sockets Port)
sockets_of (ok secure) (ok insecure) (ok quic) =
    ok (record { secure = secure; insecure = insecure; quic = quic })
sockets_of (ok secure) (ok insecure) (raise e) = raise e
sockets_of (ok secure) (raise e) quic = raise e
sockets_of (raise e) insecure quic = raise e

module _ {Port : Type 0} (int : Text → Option Port) (default : Port) (kind_of : Port → Kind)
    (workers : ℕ) where
  -- `create_sockets`
  unfoldable pub create_sockets : Binds → Result (Sockets Port)
  create_sockets config =
      let make = make_sockets int default kind_of workers in
      if config.ssl_enabled
      then sockets_of (make Kind.stream config.bind) (make Kind.stream config.insecure_bind)
          (make Kind.datagram config.quic_bind)
      else sockets_of (ok []) (make Kind.stream config.bind) (ok [])

-- `_set_quic_addresses`: `name` is a socket's address where it has a host and a port
unfoldable pub quic_addresses :
    {Port : Type 0} → (Socket Port → Option Address) → List (Socket Port) → List Address
quic_addresses name [] = []
quic_addresses name (socket ∷ sockets) = elim (name socket) [
  | none ↦ quic_addresses name sockets
  | some address ↦ address ∷ quic_addresses name sockets
]

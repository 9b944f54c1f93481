-- ===== src/Addresses.antt =====
-- The socket addresses of src/hypercorn/utils.py, and Config.response_headers of
-- src/hypercorn/config.py, which tells of the addresses that QUIC is served on.
use nonecorn.Prelude.{
  true, ◌≡◌, ◌∷◌, ◌++◌, ◌==◌, ℕ, some, none, not, if◌then◌else◌, is_empty, all, arith, [], List,
  Option, Bool, map,
}
use nonecorn.Bytes.{Bytes, Text, codes, partition}
use nonecorn.Asgi.{Address, Header}
use nonecorn.Utils.Utf8.{encode_utf8}

-- a family and an address of it, which for another family is the text that `str` makes of it
pub data SocketAddress : Type 0 where
  inet inet6 : Text → ℕ → SocketAddress
  unix other : Text → SocketAddress

unfoldable pub parse_socket_addr : SocketAddress → Option Address
parse_socket_addr (SocketAddress.inet host port) = some (host, port)
parse_socket_addr (SocketAddress.inet6 host port) = some (host, port)
parse_socket_addr _ = none

-- `show` is the decimal text of a number
unfoldable pub repr_socket_addr : (ℕ → Text) → SocketAddress → Text
repr_socket_addr show (SocketAddress.inet host port) = host ++ (codes ":" ++ show port)
repr_socket_addr show (SocketAddress.inet6 host port) =
    codes "[" ++ (host ++ (codes "]:" ++ show port))
repr_socket_addr show (SocketAddress.unix address) = codes "unix:" ++ address
repr_socket_addr show (SocketAddress.other address) = address

-- the fields of a Config that `response_headers` reads, with the text of the date
pub record Announced : Type 0 where
  pub include_date_header : Bool
  pub include_server_header : Bool
  pub date : Bytes
  pub alt_svc_headers : List Text
  pub quic_addresses : List Address

abbrev pub header_when : Bool → Header → List Header
header_when b header = if b then header ∷ [] else []

-- the loop over the addresses, for one version
abbrev pub alt_svc_of : (ℕ → Text) → Text → List Address → List Header
alt_svc_of show version [] = []
alt_svc_of show version ((host, port) ∷ addresses) =
    (codes "alt-svc", encode_utf8 version ++ (codes "=\":" ++ (show port ++ codes "\"; ma=3600")))
    ∷ alt_svc_of show version addresses

abbrev pub alt_svc_versions : (ℕ → Text) → List Text → List Address → List Header
alt_svc_versions show [] addresses = []
alt_svc_versions show (version ∷ versions) addresses =
    alt_svc_of show version addresses ++ alt_svc_versions show versions addresses

-- `Config.response_headers`, with aioquic's H3_ALPN
unfoldable pub response_headers : (ℕ → Text) → List Text → Announced → Text → List Header
response_headers show h3_alpn c protocol =
    header_when c.include_date_header (codes "date", c.date)
    ++ (header_when c.include_server_header (codes "server", codes "hypercorn-" ++ protocol)
        ++ (map (λ header. (codes "alt-svc", encode_utf8 header)) c.alt_svc_headers
            ++ (if is_empty c.alt_svc_headers
                then alt_svc_versions show h3_alpn c.quic_addresses
                else [])))

partition_at :
    (sep : ℕ) (before after : Text)
    → all (λ c. not (c == sep)) before ≡ true
    → partition sep (before ++ (sep ∷ after)) ≡ (before, after)
unfolding partition
partition_at sep [] after h = ground arith
partition_at sep (c ∷ before) after h = ground (arith, partition_at sep before after)

-- The text of an IPv4 address and that of an IPv6 address are read back: the host is what stands
-- before the colon, or in the brackets, where an IPv4 host has no colon and an IPv6 host no bracket.
pub partition-repr_socket_addr :
    (show : ℕ → Text) (host : Text) (port : ℕ)
    → all (λ c. not (c == b':')) host ≡ true
    → all (λ c. not (c == b']')) host ≡ true
    → (partition b':' (repr_socket_addr show (SocketAddress.inet host port)) ≡ (host, show port))
      × (partition b']' (repr_socket_addr show (SocketAddress.inet6 host port))
          ≡ (codes "[" ++ host, codes ":" ++ show port))
unfolding repr_socket_addr
partition-repr_socket_addr show host port c b = (
  partition_at b':' host (show port) c,
  partition_at b']' (codes "[" ++ host) (codes ":" ++ show port) (ground (arith, b)),
)

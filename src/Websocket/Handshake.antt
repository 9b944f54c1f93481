-- ===== src/Websocket/Handshake.antt =====
-- The class Handshake of src/hypercorn/protocol/ws_stream.py.
pub mod Laws
pub mod Answers
use nonecorn.Prelude.{
  ◌∷◌, ◌||◌, ◌++◌, ◌&&◌, ℕ, true, some, not, none, is_some, is_empty, if◌then◌else◌, false, any, [],
  Option, List, Bool,
}
use nonecorn.Bytes.{Bytes, Text, codes, same, less, lower, starts_with}
use nonecorn.Exec.{Error, Result, ok, raise, attribute_error, exception, unicode_error}
use nonecorn.Exec.Results.{◌>>=◌}
use nonecorn.Asgi.{Header}
use nonecorn.Utils.Utf8.{encode_utf8, decode_utf8}
use nonecorn.Websocket.Wsproto.{Wsproto}

pub record Handshake : Type 0 where
  pub accepted : Bool
  pub http_version : Text
  pub connection_tokens : Option (List Text)
  pub extensions : Option (List Text)
  pub key : Option Bytes
  pub subprotocols : Option (List Text)
  pub upgrade : Option Bytes
  pub version : Option Bytes

abbrev pub blank : Text → Handshake
blank http_version = record {
  accepted = false;
  http_version = http_version;
  connection_tokens = none;
  extensions = none;
  key = none;
  subprotocols = none;
  upgrade = none;
  version = none;
}

-- `subprotocol in self.subprotocols`
abbrev pub offers : Option (List Text) → Text → Bool
offers none subprotocol = false
offers (some names) subprotocol = any (same subprotocol) names

-- `x == c` where `x` may be None
abbrev pub is_value : Option Bytes → Bytes → Bool
is_value none c = false
is_value (some x) c = same x c

module _ (ws : Wsproto) where
  -- `split_comma_header(value)`
  abbrev pub split_value : Bytes → Result (List Text)
  split_value value = elim (ws.split_comma_header value) [
    | none ↦ raise unicode_error
    | some tokens ↦ ok tokens
  ]

  -- one round of the loop in `__init__`
  unfoldable pub read_header : Handshake → Header → Result Handshake
  read_header h (name, value) =
      let name = lower name in
      if same name (codes "connection")
      then (do tokens ← split_value value; ok (record h { connection_tokens = some tokens }))
      else if same name (codes "sec-websocket-extensions")
      then (do tokens ← split_value value; ok (record h { extensions = some tokens }))
      else if same name (codes "sec-websocket-key")
      then ok (record h { key = some value })
      else if same name (codes "sec-websocket-protocol")
      then (do tokens ← split_value value; ok (record h { subprotocols = some tokens }))
      else if same name (codes "sec-websocket-version")
      then ok (record h { version = some value })
      else if same name (codes "upgrade")
      then ok (record h { upgrade = some value })
      else ok h

  unfoldable pub read_headers : Handshake → List Header → Result Handshake
  unfolding read_header
  read_headers h [] = ok h
  read_headers h (header ∷ headers) = do h' ← read_header h header; read_headers h' headers

  -- `Handshake.__init__`
  unfoldable pub handshake_of : List Header → Text → Result Handshake
  unfolding read_headers
  handshake_of headers http_version = read_headers (blank http_version) headers

  abbrev pub has_upgrade_token : Option (List Text) → Bool
  has_upgrade_token none = false
  has_upgrade_token (some tokens) = any (λ token. same (lower token) (codes "upgrade")) tokens

  -- `self.upgrade.lower() != b"websocket"`
  abbrev upgrades : Option Bytes → Result Bool
  upgrades none = raise attribute_error
  upgrades (some upgrade) = ok (same (lower upgrade) (codes "websocket"))

  -- the tests of `is_valid` for HTTP/1.1
  unfoldable pub is_valid_http1 : Handshake → Result Bool
  is_valid_http1 h =
      if not (is_some h.key)
      then ok false
      else if not (has_upgrade_token h.connection_tokens)
      then ok false
      else upgrades h.upgrade

  unfoldable pub is_valid : Handshake → Result Bool
  unfolding is_valid_http1
  is_valid h = if less h.http_version (codes "1.1") then ok false else do
    upgraded ← if same h.http_version (codes "1.1") then is_valid_http1 h else ok true
    ok (upgraded && is_value h.version ws.websocket_version)

  unfoldable pub subprotocol_headers : Handshake → Option Text → Result (List Header)
  subprotocol_headers h none = ok []
  subprotocol_headers h (some subprotocol) =
      if offers h.subprotocols subprotocol
      then ok ((codes "sec-websocket-protocol", encode_utf8 subprotocol) ∷ [])
      else raise exception

  -- what `server_extensions_handshake` accepts of the client's extensions
  abbrev pub accepted_extensions : Option (List Text) → Option Bytes
  accepted_extensions none = none
  accepted_extensions (some extensions) = ws.server_extensions_handshake extensions

  -- `if accepts: headers.append(...)`; an empty value counts as none
  abbrev extension_headers : Option Bytes → List Header
  extension_headers none = []
  extension_headers (some accepts) =
      if is_empty accepts then [] else (codes "sec-websocket-extensions", accepts) ∷ []

  abbrev key_headers : Option Bytes → List Header
  key_headers none = []
  key_headers (some key) = (codes "sec-websocket-accept", ws.generate_accept_token key) ∷ []

  abbrev upgrade_headers : Bool → List Header
  upgrade_headers true =
      (codes "upgrade", codes "WebSocket") ∷ (codes "connection", codes "Upgrade") ∷ []
  upgrade_headers false = []

  -- the loop over the application's headers; the message of the exception decodes the name
  unfoldable pub check_additional : List Header → Result (List Header)
  check_additional [] = ok []
  check_additional ((name, value) ∷ headers) =
      if same (codes "sec-websocket-protocol") name || starts_with (codes ":") name
      then elim (decode_utf8 name) [ none ↦ raise unicode_error | some text ↦ raise exception ]
      else do rest ← check_additional headers; ok ((name, value) ∷ rest)

  -- `accept` returns the status and the headers, and the stream makes the connection and sets
  -- `accepted`.
  unfoldable pub accept : Handshake → Option Text → List Header → Result (ℕ × List Header)
  unfolding subprotocol_headers check_additional
  accept h subprotocol additional_headers = do
    chosen ← subprotocol_headers h subprotocol
    let http1 = same h.http_version (codes "1.1")
    additional ← check_additional additional_headers
    ok (
      (if http1 then 101 else 200),
      chosen
          ++ (extension_headers (accepted_extensions h.extensions)
              ++ (key_headers h.key ++ (upgrade_headers http1 ++ additional))),
    )

-- ===== src/Websocket/Handshake/Laws.antt =====
-- What a handshake is read from, and when it is valid.
use mathlib.Core.Option.{map as map_option}
use nonecorn.Prelude.{
  ◌↔◌, not, ◌||◌, all, Bool, ◌∷◌, ◌&&◌, ◌≡◌, true, some, none, is_some, if◌then◌else◌, false, [],
  Option, List, arith, refl, inl, inr, Bool-cases,
}
use nonecorn.Bytes.{less, Bytes, Text, codes, same, lower}
use nonecorn.Bytes.Laws.{same_iff}
use nonecorn.Exec.{unicode_error, Error, Result, raise, ok}
use nonecorn.Exec.Results.{Result-cases, ◌>>=◌}
use nonecorn.Asgi.{Header}
use nonecorn.Websocket.Wsproto.{Wsproto}
use nonecorn.Websocket.Handshake.{
  blank, handshake_of, is_valid_http1, is_valid, has_upgrade_token, is_value, read_headers,
  Handshake, read_header,
}

-- the value of the last header with the name, whatever its case
abbrev pub last_value : Text → List Header → Option Bytes
last_value key [] = none
last_value key ((name, value) ∷ headers) = elim (last_value key headers) [
  | some x ↦ some x
  | none ↦ if same (lower name) key then some value else none
]

abbrev or_else : {A : Type 0} → Option A → Option A → Option A
or_else none d = d
or_else (some a) d = some a

apart : (x a b : Text) → same a b ≡ false → (same x a && same x b) ≡ false
apart x a b h = elim (Bool-cases (same x a)) [
  | inr e ↦ ground (arith, e)
  | inl e ↦ ground (arith, (same_iff x a).0 e, h)
]

-- the six names that the handshake reads, of which at most one is the name of a header
names_apart :
    (x : Text)
    → ((same x (codes "connection") && same x (codes "sec-websocket-key")) ≡ false)
      × ((same x (codes "connection") && same x (codes "sec-websocket-version")) ≡ false)
      × ((same x (codes "connection") && same x (codes "upgrade")) ≡ false)
      × ((same x (codes "sec-websocket-extensions") && same x (codes "sec-websocket-key")) ≡ false)
      × ((same x (codes "sec-websocket-extensions") && same x (codes "sec-websocket-version"))
          ≡ false)
      × ((same x (codes "sec-websocket-extensions") && same x (codes "upgrade")) ≡ false)
      × ((same x (codes "sec-websocket-key") && same x (codes "sec-websocket-version")) ≡ false)
      × ((same x (codes "sec-websocket-key") && same x (codes "upgrade")) ≡ false)
      × ((same x (codes "sec-websocket-key") && same x (codes "sec-websocket-protocol")) ≡ false)
      × ((same x (codes "sec-websocket-protocol") && same x (codes "sec-websocket-version"))
          ≡ false)
      × ((same x (codes "sec-websocket-protocol") && same x (codes "upgrade")) ≡ false)
      × ((same x (codes "sec-websocket-version") && same x (codes "upgrade")) ≡ false)
unfolding same
names_apart x = (
  apart x _ _ refl,
  apart x _ _ refl,
  apart x _ _ refl,
  apart x _ _ refl,
  apart x _ _ refl,
  apart x _ _ refl,
  apart x _ _ refl,
  apart x _ _ refl,
  apart x _ _ refl,
  apart x _ _ refl,
  apart x _ _ refl,
  apart x _ _ refl,
)

-- the headers whose values are split, and so have to be ASCII
abbrev pub is_split : Text → Bool
is_split name =
    same name (codes "connection")
    || same name (codes "sec-websocket-extensions")
    || same name (codes "sec-websocket-protocol")

abbrev pub is_readable : Wsproto → Header → Bool
is_readable ws (name, value) = not (is_split (lower name)) || is_some (ws.split_comma_header value)

abbrev pub split_last : Wsproto → Option Bytes → Option (List Text)
split_last ws none = none
split_last ws (some value) = ws.split_comma_header value

module _ (ws : Wsproto) where
  -- what a round of the loop makes of the four attributes that decide whether a handshake is valid
  read_header-ok :
      (h h' : Handshake) (name value : Bytes)
      → read_header ws h (name, value) ≡ ok h'
      → (is_readable ws (name, value) ≡ true)
        × (h'.key ≡ (if same (lower name) (codes "sec-websocket-key") then some value else h.key))
        × (h'.version
            ≡ (if same (lower name) (codes "sec-websocket-version") then some value else h.version))
        × (h'.upgrade ≡ (if same (lower name) (codes "upgrade") then some value else h.upgrade))
        × (h'.connection_tokens ≡ (
            if same (lower name) (codes "connection")
            then ws.split_comma_header value
            else h.connection_tokens))
        × (h'.http_version ≡ h.http_version)
  unfolding read_header
  read_header-ok h h' name value e = ground (arith, e, names_apart (lower name))

  read_header-raises :
      (h : Handshake) (name value : Bytes) (e : Error)
      → read_header ws h (name, value) ≡ raise e
      → (is_readable ws (name, value) ≡ false) × (e ≡ unicode_error)
  unfolding read_header
  read_header-raises h name value e r = ground (arith, r)

  -- the value of a connection header that was read could be split
  split_last-last_value :
      (headers : List Header)
      → all (is_readable ws) headers ≡ true
      → is_some (split_last ws (last_value (codes "connection") headers))
        ≡ is_some (last_value (codes "connection") headers)
  split_last-last_value [] h = refl
  split_last-last_value ((name, value) ∷ headers) h =
      ground (arith, h, split_last-last_value headers)

  -- what the loop makes of them, where it raises nothing, and that it raises for no other reason
  IsRead : Handshake → List Header → Result Handshake → Type 0
  IsRead h headers (ok h') =
      (all (is_readable ws) headers ≡ true)
      × (h'.key ≡ or_else (last_value (codes "sec-websocket-key") headers) h.key)
      × (h'.version ≡ or_else (last_value (codes "sec-websocket-version") headers) h.version)
      × (h'.upgrade ≡ or_else (last_value (codes "upgrade") headers) h.upgrade)
      × (h'.connection_tokens
          ≡ or_else (split_last ws (last_value (codes "connection") headers)) h.connection_tokens)
      × (h'.http_version ≡ h.http_version)
  IsRead h headers (raise e) = (all (is_readable ws) headers ≡ false) × (e ≡ unicode_error)

  IsRead-cons :
      (h h' : Handshake) (name value : Bytes) (headers : List Header) (r : Result Handshake)
      → read_header ws h (name, value) ≡ ok h'
      → IsRead h' headers r
      → IsRead h ((name, value) ∷ headers) r
  unfolding IsRead
  IsRead-cons h h' name value headers (raise e) one more =
      ground (arith, read_header-ok h h' name value one, more)
  IsRead-cons h h' name value headers (ok h'') one more =
      ground (arith, read_header-ok h h' name value one, more, split_last-last_value headers)

  read_headers-IsRead :
      (h : Handshake) (headers : List Header) → IsRead h headers (read_headers ws h headers)
  unfolding read_headers IsRead
  read_headers-IsRead h [] = (refl, refl, refl, refl, refl, refl)
  read_headers-IsRead h ((name, value) ∷ headers) =
      elim (Result-cases (read_header ws h (name, value))) [
        | inr (e, r) ↦ ground (arith, r, read_header-raises h name value e r)
        | inl (h', r) ↦
            rw r (IsRead-cons h h' name value headers _ r (read_headers-IsRead h' headers))
      ]

-- an independent reading of the headers of a request
abbrev pub asks_upgrade : Wsproto → List Header → Text → Bool
asks_upgrade ws headers http_version =
    not (less http_version (codes "1.1"))
    && is_value (last_value (codes "sec-websocket-version") headers) ws.websocket_version
    && (not (same http_version (codes "1.1"))
        || (is_some (last_value (codes "sec-websocket-key") headers)
            && has_upgrade_token ws (split_last ws (last_value (codes "connection") headers))
            && is_value (map_option lower (last_value (codes "upgrade") headers))
                (codes "websocket")))

-- A request's headers are read as a handshake when the values of its connection,
-- sec-websocket-extensions and sec-websocket-protocol headers are ASCII, and otherwise the reading
-- raises a UnicodeDecodeError. The handshake that is read is valid just when the HTTP version is 1.1 or
-- later, the last sec-websocket-version header has the version of wsproto, and, if the version is
-- 1.1, there is a sec-websocket-key header, a token of the last connection header is "upgrade", and
-- the last upgrade header is "websocket"; the case of names, tokens and of that value is ignored.
pub is_valid-handshake_of_iff :
    (ws : Wsproto) (headers : List Header) (http_version : Text)
    → ((handshake_of ws headers http_version ≡ raise unicode_error)
        ↔ (all (is_readable ws) headers ≡ false))
      × ((handshake_of ws headers http_version >>= is_valid ws ≡ ok true)
          ↔ ((all (is_readable ws) headers && asks_upgrade ws headers http_version) ≡ true))
unfolding is_valid is_valid_http1 handshake_of IsRead
is_valid-handshake_of_iff ws headers http_version =
    ground (arith, read_headers-IsRead ws (blank http_version) headers)

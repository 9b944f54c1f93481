-- ===== src/Websocket/Handshake/Answers.antt =====
-- When a handshake can be accepted, and what the response has.
use nonecorn.Prelude.{
  ◌≡◌, ◌∷◌, ◌++◌, ◌&&◌, ℕ, true, some, refl, not, none, if◌then◌else◌, false, arith, all, [],
  Option, List, Bool,
}
use nonecorn.Bytes.{Bytes, Text, codes, same, starts_with}
use nonecorn.Bytes.Laws.{same_refl}
use nonecorn.Exec.{Result, ok, raise}
use nonecorn.Asgi.{Header}
use nonecorn.Utils.Utf8.{encode_utf8}
use nonecorn.Websocket.Wsproto.{Wsproto}
use nonecorn.Websocket.Handshake.{
  extension_headers, key_headers, upgrade_headers, accepted_extensions, subprotocol_headers, accept,
  offers, check_additional, Handshake,
}

-- the subprotocol, if the application chose one, is one that the client offered
abbrev pub offered : Option (List Text) → Option Text → Bool
offered names none = true
offered names (some subprotocol) = offers names subprotocol

-- a header that the application may add to the response of a handshake
abbrev pub is_additional : Header → Bool
is_additional (name, value) =
    not (same (codes "sec-websocket-protocol") name) && not (starts_with (codes ":") name)

abbrev pub is_ok : {A : Type 0} → Result A → Bool
is_ok (ok a) = true
is_ok (raise e) = false

-- the values of the subprotocol headers
abbrev pub subprotocols_of : List Header → List Bytes
subprotocols_of [] = []
subprotocols_of ((name, value) ∷ headers) =
    let rest = subprotocols_of headers in
    if same (codes "sec-websocket-protocol") name then value ∷ rest else rest

subprotocols_of-append :
    (xs ys : List Header) → subprotocols_of (xs ++ ys) ≡ subprotocols_of xs ++ subprotocols_of ys
subprotocols_of-append [] ys = refl
subprotocols_of-append ((name, value) ∷ xs) ys = ground (arith, subprotocols_of-append xs ys)

subprotocols_of-additional :
    (xs : List Header) → all is_additional xs ≡ true → subprotocols_of xs ≡ []
subprotocols_of-additional [] h = refl
subprotocols_of-additional ((name, value) ∷ xs) h = ground (arith, subprotocols_of-additional xs)

module _ (ws : Wsproto) where
  check_additional_lem :
      (headers : List Header)
      → (all is_additional headers ≡ true → check_additional ws headers ≡ ok headers)
        × (all is_additional headers ≡ false → is_ok (check_additional ws headers) ≡ false)
  unfolding check_additional
  check_additional_lem [] = ground arith
  check_additional_lem ((name, value) ∷ headers) = ground (arith, check_additional_lem headers)

  -- what wsproto and the handshake itself add names no subprotocol
  subprotocols_of-own :
      (accepts key : Option Bytes) (http1 : Bool) (xs : List Header)
      → subprotocols_of
          (extension_headers ws accepts ++ (key_headers ws key ++ (upgrade_headers ws http1 ++ xs)))
        ≡ subprotocols_of xs
  unfolding same
  subprotocols_of-own accepts key http1 xs = ground arith

-- A handshake can be accepted just when the subprotocol, if the application chose one, is one that
-- the client offered, and none of the application's headers is named sec-websocket-protocol or
-- starts with a colon; otherwise `accept` raises.
pub accept-is_ok :
    (ws : Wsproto) (h : Handshake) (subprotocol : Option Text) (headers : List Header)
    → is_ok (accept ws h subprotocol headers)
      ≡ (offered h.subprotocols subprotocol && all is_additional headers)
unfolding accept subprotocol_headers
accept-is_ok ws h subprotocol headers = ground (arith, check_additional_lem ws headers)

-- When a handshake is accepted, the status of the response is 101 for HTTP/1.1 and 200 for other
-- versions, and the response names the subprotocol that the application chose and no other.
pub accept-subprotocols_of :
    (ws : Wsproto) (h : Handshake) (subprotocol : Option Text) (headers : List Header) (status : ℕ)
    (out : List Header)
    → accept ws h subprotocol headers ≡ ok (status, out)
    → (status ≡ (if same h.http_version (codes "1.1") then 101 else 200))
      × (subprotocols_of out ≡ elim subprotocol [ none ↦ [] | some name ↦ encode_utf8 name ∷ [] ])
unfolding accept subprotocol_headers
accept-subprotocols_of ws h none headers status out e = ground (
  arith,
  check_additional_lem ws headers,
  subprotocols_of-additional headers,
  same_refl (codes "sec-websocket-protocol"),
  subprotocols_of-own ws (accepted_extensions ws h.extensions) h.key
      (same h.http_version (codes "1.1")) headers,
)
accept-subprotocols_of ws h (some subprotocol) headers status out e = ground (
  arith,
  check_additional_lem ws headers,
  subprotocols_of-additional headers,
  same_refl (codes "sec-websocket-protocol"),
  subprotocols_of-own ws (accepted_extensions ws h.extensions) h.key
      (same h.http_version (codes "1.1")) headers,
)

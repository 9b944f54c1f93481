-- ===== src/Websocket/Buffer.antt =====
-- The class WebsocketBuffer of src/hypercorn/protocol/ws_stream.py: it joins the fragments of a
-- message up to a greatest length.
pub mod Laws
use nonecorn.Prelude.{length, ◌+◌, ◌++◌, ℕ, some, none, ltb, if◌then◌else◌, Option}
use nonecorn.Bytes.{Bytes, Text}
use nonecorn.Exec.{Action, Result, ok, raise, type_error, frame_too_large}
use nonecorn.Asgi.{Receive}
use nonecorn.Websocket.Wsproto.{WsEvent}

-- a StringIO or a BytesIO with what was written to it
pub data Value : Type 0 where
  text : Text → Value
  binary : Bytes → Value

pub data Message : Type 0 where
  text : Text → Message
  binary : Bytes → Message

pub record Buffer : Type 0 where
  pub value : Option Value
  pub length : ℕ
  pub max_length : ℕ

abbrev pub blank : ℕ → Buffer
blank max_length = record { value = none; length = 0; max_length = max_length }

-- `self.value.write(event.data)`: the new value and the length that was written
unfoldable pub write : Option Value → Message → Result (Value × ℕ)
write none (Message.text t) = ok (Value.text t, length t)
write none (Message.binary b) = ok (Value.binary b, length b)
write (some (Value.text s)) (Message.text t) = ok (Value.text (s ++ t), length t)
write (some (Value.text s)) (Message.binary b) = raise type_error
write (some (Value.binary s)) (Message.text t) = raise type_error
write (some (Value.binary s)) (Message.binary b) = ok (Value.binary (s ++ b), length b)

abbrev store : Buffer → Result (Value × ℕ) → Result (Unit {0}) × Buffer
store b (raise e) = (raise e, b)
store b (ok (value, n)) =
    let b' = record b { value = some value; length = b.length + n } in
    if ltb b.max_length (b.length + n) then (raise frame_too_large, b') else (ok tt, b')

unfoldable pub extend : Message → Action Buffer
unfolding write
extend event b = store b (write b.value event)

unfoldable pub clear : Buffer → Buffer
clear b = record b { value = none; length = 0 }

unfoldable pub to_message : Buffer → Receive
to_message b = elim b.value [
  | none ↦ Receive.ws_receive none none
  | some (Value.binary s) ↦ Receive.ws_receive (some s) none
  | some (Value.text s) ↦ Receive.ws_receive none (some s)
]

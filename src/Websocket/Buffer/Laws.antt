-- ===== src/Websocket/Buffer/Laws.antt =====
-- The buffer counts what it holds, never lets a message past its limit, and joins fragments in order.
use nonecorn.Prelude.{
  refl, append_assoc, append-nil, ◌≤◌, ◌≡◌, ◌∷◌, ◌<◌, ◌+◌, ◌++◌, ℕ, some, none, map, length-append,
  length, inr, inl, arith, [], Option, List,
}
use nonecorn.Bytes.{Text}
use nonecorn.Exec.Results.{Result-cases}
use nonecorn.Exec.{Result, ok, raise, frame_too_large}
use nonecorn.Asgi.{Receive}
use nonecorn.Websocket.Buffer.{Value, Message, Buffer, blank, write, extend, to_message}

abbrev pub size : Option Value → ℕ
size none = 0
size (some (Value.text t)) = length t
size (some (Value.binary b)) = length b

abbrev pub message_size : Message → ℕ
message_size (Message.text t) = length t
message_size (Message.binary b) = length b

abbrev pub IsCounted : Buffer → Type 0
IsCounted b = b.length ≡ size b.value

size-write :
    (v : Option Value) (m : Message) (v' : Value) (n : ℕ)
    → write v m ≡ ok (v', n)
    → (size (some v') ≡ size v + n) × (n ≡ message_size m)
unfolding write
size-write none (Message.text t) v' n h = ground arith
size-write none (Message.binary b) v' n h = ground arith
size-write (some (Value.text s)) (Message.text t) v' n h = ground (arith, length-append s t)
size-write (some (Value.text s)) (Message.binary b) v' n h = cc
size-write (some (Value.binary s)) (Message.text t) v' n h = cc
size-write (some (Value.binary s)) (Message.binary b) v' n h = ground (arith, length-append s b)

-- After `extend` the buffer still counts what it holds, and keeps its limit; a fragment is taken only
-- if all that the buffer then holds is within the limit, and refused as too large only if it is not.
pub extend-IsCounted :
    (m : Message) (b : Buffer)
    → IsCounted b
    → let (r, b') = extend m b in
      IsCounted b'
      × (b'.max_length ≡ b.max_length)
      × (r ≡ ok tt → (b'.length ≤ b.max_length) × (b'.length ≡ b.length + message_size m))
      × (r ≡ raise frame_too_large → b.max_length < b.length + message_size m)
unfolding extend
extend-IsCounted m b h = elim (Result-cases (write b.value m)) [
  | inl ((v, n), e) ↦ ground (arith, e, size-write b.value m v n e)
  | inr (x, e) ↦ ground (arith, e)
]

-- `extend` with each fragment in turn, as long as none is refused
abbrev pub extend_all : List Message → Buffer → Result (Unit {0}) × Buffer
extend_all [] b = (ok tt, b)
extend_all (m ∷ ms) b =
    let (r, b') = extend m b in elim r [ ok _ ↦ extend_all ms b' | raise e ↦ (raise e, b') ]

abbrev pub joined : List Text → Text
joined [] = []
joined (t ∷ ts) = t ++ joined ts

extend-text :
    (s t : Text) (b : Buffer)
    → b.value ≡ some (Value.text s)
    → b.length + length t ≤ b.max_length
    → extend (Message.text t) b
      ≡ (ok tt, record b { value = some (Value.text (s ++ t)); length = b.length + length t })
unfolding extend
extend-text s t b h fits = ground arith

extend_all-cons :
    (m : Message) (ms : List Message) (b b' : Buffer)
    → extend m b ≡ (ok tt, b')
    → extend_all (m ∷ ms) b ≡ extend_all ms b'
extend_all-cons m ms b b' e = ground (arith, e)

extend_all-text :
    (ts : List Text) (s : Text) (b : Buffer)
    → b.value ≡ some (Value.text s)
    → b.length + length (joined ts) ≤ b.max_length
    → let (r, b') = extend_all (map Message.text ts) b in
      (r ≡ ok tt) × (b'.value ≡ some (Value.text (s ++ joined ts)))
extend_all-text [] s b h fits = (refl, rw append-nil h)
extend_all-text (t ∷ ts) s b h fits =
    let b' = record b { value = some (Value.text (s ++ t)); length = b.length + length t } in
    let step = extend-text s t b h (omega (arith, length-append t (joined ts))) in
    rw (extend_all-cons (Message.text t) (map Message.text ts) b b' step, ← append_assoc)
      (extend_all-text ts (s ++ t) b' refl (omega (arith, length-append t (joined ts))))

extend-blank :
    (t : Text) (max : ℕ)
    → length t ≤ max
    → extend (Message.text t) (blank max)
      ≡ (ok tt, record { value = some (Value.text t); length = length t; max_length = max })
unfolding extend
extend-blank t max h = ground arith

to_message_of_text :
    (b : Buffer) (t : Text)
    → b.value ≡ some (Value.text t)
    → to_message b ≡ Receive.ws_receive none (some t)
unfolding to_message
to_message_of_text b t h = ground arith

-- The fragments of a text that fits into an empty buffer are taken one by one, and are delivered as
-- the one text that they make, in their order.
pub to_message-extend_all :
    (t : Text) (ts : List Text) (max : ℕ)
    → length (joined (t ∷ ts)) ≤ max
    → let (r, b) = extend_all (map Message.text (t ∷ ts)) (blank max) in
      (r ≡ ok tt) × (to_message b ≡ Receive.ws_receive none (some (joined (t ∷ ts))))
to_message-extend_all t ts max h =
    let b : Buffer = record { value = some (Value.text t); length = length t; max_length = max } in
    let step = extend-blank t max (omega (arith, length-append t (joined ts))) in
    let (taken, held) = extend_all-text ts t b refl (omega (arith, length-append t (joined ts))) in
    rw (extend_all-cons (Message.text t) (map Message.text ts) (blank max) b step)
      (taken, to_message_of_text (extend_all (map Message.text ts) b).1 (t ++ joined ts) held)

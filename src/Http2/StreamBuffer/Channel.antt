-- ===== src/Http2/StreamBuffer/Channel.antt =====
-- What a StreamBuffer (protocol/h2.py) promises its two tasks: a channel of bytes, which knows nothing
-- of events, waits and water marks.
use nonecorn.Prelude.{
  ◌≡◌, ◌∷◌, ◌||◌, ◌==◌, ◌++◌, ◌&&◌, ℕ, zero, true, suc, some, refl, none, length, leb, is_empty,
  if◌then◌else◌, false, arith, [], Option, List, Bool,
}
use nonecorn.Bytes.{drop, Bytes}
use nonecorn.Exec.{ok, raise, buffer_complete}
use nonecorn.Http2.StreamBuffer.{StreamBuffer, close, pop, push, resume, set_complete, take}

pub record Channel : Type 0 where
  pub pending : Bytes
  pub ended : Bool

-- what the tasks see of each other
pub data Label : Type 0 where
  put refused : Bytes → Label
  got : ℕ → Bytes → Label
  finish cut silent : Label

-- what is behind a prefix
abbrev pub strip_prefix : Bytes → Bytes → Option Bytes
strip_prefix [] s = some s
strip_prefix (c ∷ prefix) [] = none
strip_prefix (c ∷ prefix) (d ∷ s) =
    let rest = strip_prefix prefix s in if c == d then rest else none

-- Bytes come out in the order in which they went in, at most `n` at a time, and fewer only where the
-- channel is empty afterwards.
abbrev pub take_from : ℕ → Bytes → Channel → Option Bytes → Option Channel
take_from n bytes c none = none
take_from n bytes c (some rest) =
    if leb (length bytes) n && (length bytes == n || is_empty rest)
    then some (record c { pending = rest })
    else none

abbrev pub allow : Label → Channel → Option Channel
allow (Label.put bytes) c =
    if c.ended then none else some (record c { pending = c.pending ++ bytes })
allow (Label.refused bytes) c = if c.ended then some c else none
allow (Label.got n bytes) c = take_from n bytes c (strip_prefix bytes c.pending)
allow Label.finish c = some (record c { ended = true })
allow Label.cut c = some (record { pending = []; ended = true })
allow Label.silent c = some c

abbrev pub then_allow : (Channel → Option Channel) → Option Channel → Option Channel
then_allow f none = none
then_allow f (some c) = f c

abbrev pub allow_all : List Label → Channel → Option Channel
allow_all [] c = some c
allow_all (label ∷ labels) c = then_allow (allow_all labels) (allow label c)

-- a buffer, and whether the task that pushes waits
pub record Tasks : Type 0 where
  pub buffer : StreamBuffer
  pub waiting : Bool

pub data Move : Tasks → Label → Tasks → Type 0 where
  pushes :
      (t : Tasks) (bytes : Bytes) (waits : Bool)
      → t.waiting ≡ false
      → (push bytes t.buffer).0 ≡ ok waits
      → Move t (Label.put bytes) (record { buffer = (push bytes t.buffer).1; waiting = waits })
  fails :
      (t : Tasks) (bytes : Bytes)
      → t.waiting ≡ false
      → (push bytes t.buffer).0 ≡ raise buffer_complete
      → Move t (Label.refused bytes) (record t { buffer = (push bytes t.buffer).1 })
  resumes :
      (t : Tasks)
      → t.waiting ≡ true
      → t.buffer.paused ≡ true
      → Move t Label.silent (record { buffer = resume t.buffer; waiting = false })
  pops :
      (t : Tasks) (n : ℕ)
      → Move t (Label.got n (pop n t.buffer).0) (record t { buffer = (pop n t.buffer).1 })
  completes : (t : Tasks) → Move t Label.finish (record t { buffer = set_complete t.buffer })
  closes : (t : Tasks) → Move t Label.cut (record t { buffer = close t.buffer })

pub data Moves : Tasks → List Label → Tasks → Type 0 where
  stay : (t : Tasks) → Moves t [] t
  move :
      {t t' t'' : Tasks} {label : Label} {labels : List Label}
      → Move t label t'
      → Moves t' labels t''
      → Moves t (label ∷ labels) t''

abbrev pub view : StreamBuffer → Channel
view b = record { pending = b.buffer; ended = b.complete }

strip_prefix-take : (n : ℕ) (s : Bytes) → strip_prefix (take n s) s ≡ some (drop n s)
strip_prefix-take zero s = refl
strip_prefix-take (suc n) [] = refl
strip_prefix-take (suc n) (c ∷ s) = ground (arith, strip_prefix-take n s)

length-take :
    (n : ℕ) (s : Bytes)
    → (leb (length (take n s)) n && (length (take n s) == n || is_empty (drop n s))) ≡ true
length-take zero s = refl
length-take (suc n) [] = ground arith
length-take (suc n) (c ∷ s) = ground (arith, length-take n s)

allow-view :
    {t t' : Tasks} {label : Label}
    → Move t label t'
    → allow label (view t.buffer) ≡ some (view t'.buffer)
unfolding push pop
allow-view (pushes t bytes waits w r) = ground (arith, r)
allow-view (fails t bytes w r) = ground (arith, r)
allow-view (resumes t w p) = refl
allow-view (pops t n) =
    ground (arith, strip_prefix-take n t.buffer.buffer, length-take n t.buffer.buffer)
allow-view (completes t) = refl
allow-view (closes t) = refl

-- A stream's buffer refines a channel: whatever the task that pushes and the task that pops do, with
-- waits, completion and closing in any order, a channel allows what they see of each other, and
-- holds in the end what the buffer holds. So bytes come out in order, at most as many as asked for,
-- and fewer only from a buffer that is then empty; a push is refused just after the end.
pub allow_all-view :
    {t t' : Tasks} {labels : List Label}
    → Moves t labels t'
    → allow_all labels (view t.buffer) ≡ some (view t'.buffer)
allow_all-view (stay t) = refl
allow_all-view (move m ms) = ground (arith, allow-view m, allow_all-view ms)

-- ===== src/Http2/StreamBuffer.antt =====
-- The class StreamBuffer of src/hypercorn/protocol/h2.py: a stream's data on its way from the task of
-- the application to the task that sends.
pub mod Runs
pub mod Channel
use nonecorn.Prelude.{
  ◌⊎◌, inl, inr, ◌&&◌, ◌∷◌, ◌++◌, ◌==◌, ◌||◌, ◌-◌, ◌≡◌, ℕ, zero, suc, not, if◌then◌else◌, leb, ltb,
  true, false, [], List, Bool, length,
}
use nonecorn.Bytes.{drop, Bytes}
use nonecorn.Exec.{Action, Exec, Result, ok, raise, buffer_complete}

-- an event is whether it is set
pub record StreamBuffer : Type 0 where
  pub buffer : Bytes
  pub complete : Bool
  pub is_empty : Bool
  pub paused : Bool

abbrev pub blank : StreamBuffer
blank = record { buffer = []; complete = false; is_empty = false; paused = false }

abbrev pub high_water : ℕ
high_water = 32768

abbrev pub low_water : ℕ
low_water = 16384

abbrev pub take : ℕ → Bytes → Bytes
take zero s = []
take (suc n) [] = []
take (suc n) (c ∷ s) = c ∷ take n s

abbrev pub set_complete : StreamBuffer → StreamBuffer
set_complete b = record b { complete = true }

abbrev pub close : StreamBuffer → StreamBuffer
close b = record { buffer = []; complete = true; is_empty = true; paused = true }

-- the property `complete`
abbrev pub is_complete : StreamBuffer → Bool
is_complete b = b.complete && length b.buffer == 0

-- `push` up to its wait; the result says whether it waits for `paused`
unfoldable pub push : Bytes → Exec StreamBuffer Bool
push bytes b =
    let extended = record b { buffer = b.buffer ++ bytes; is_empty = false } in
    if b.complete
    then (raise buffer_complete, b)
    else (ok (leb high_water (length (b.buffer ++ bytes))), extended)

-- the end of a `push` that has waited
abbrev pub resume : StreamBuffer → StreamBuffer
resume b = record b { paused = false }

-- `pop`; the slices take what is there of `max_length` bytes
unfoldable pub pop : ℕ → StreamBuffer → Bytes × StreamBuffer
pop max_length b =
    let bytes = take max_length b.buffer in
    let rest = drop max_length b.buffer in
    (
      bytes,
      record b {
        buffer = rest;
        paused = b.paused || ltb (length bytes) low_water;
        is_empty = b.is_empty || length rest == 0;
      },
    )

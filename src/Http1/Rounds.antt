-- ===== src/Http1/Rounds.antt =====
-- The loop of `_handle_events` (protocol/h11.py) ends: a bound on its rounds.
pub mod Bound
pub mod Events
pub mod Ends
use nonecorn.Prelude.{
  ◌≡◌, ◌∷◌, ◌≤◌, ◌<◌, ◌+◌, ℕ, zero, suc, some, none, [], Option, List, Bool, true, false, arith,
}
use nonecorn.Bytes.{Bytes}
use nonecorn.Http1.H11.{H11, H11Event, Sendable}
use nonecorn.Http1.State.{Http1}

-- the events after which the loop goes on
abbrev pub goes_on : H11Event → Bool
goes_on (H11Event.request request) = true
goes_on (H11Event.content bytes) = true
goes_on (H11Event.end_of_message headers) = true
goes_on (H11Event.ws_bytes bytes) = true
goes_on _ = false

-- What the loop relies on: h11 has only so many events in the bytes that it holds. Each event uses up
-- some, and neither what is sent nor the start of a cycle brings more.
pub record Progress (h : H11) : Type 0 where
  pub rank : h.Connection → ℕ
  pub send-rank : (event : Sendable) (c : h.Connection) → rank (h.send event c).1 ≤ rank c
  pub send_file-rank : (n : ℕ) (c : h.Connection) → rank (h.send_file n c).1 ≤ rank c
  pub start-rank : (c c' : h.Connection) → h.start_next_cycle c ≡ some c' → rank c' ≤ rank c
  pub next_event-rank :
      (c : h.Connection) → goes_on (h.next_event c).0 ≡ true → rank (h.next_event c).1 < rank c

-- the rounds that the loop may still go through; an H11WSConnection has one event at most, and the
-- last round finds none
abbrev pub rounds_left : {h : H11} → Progress h → Http1 h → ℕ
rounds_left progress p = elim p.passthrough [
  | some [] ↦ 1
  | some (b ∷ bs) ↦ 2
  | none ↦ progress.rank p.connection + 3
]

-- ===== src/Http1/Rounds/Ends.antt =====
-- The loop of `_handle_events` (protocol/h11.py) ends.
use nonecorn.Prelude.{◌≤◌, ◌≡◌, ◌∷◌, ℕ, zero, suc, some, refl, none, arith, [], Option}
use nonecorn.Exec.{Result, ok, raise, continue, ◌>>=◌}
use nonecorn.Bytes.{Bytes}
use nonecorn.Http1.State.{Http1}
use nonecorn.Http1.Streams.{Site, Connected}
use nonecorn.Http1.Receive.{
  Round, Loop, handle_h11_event, next_event, round, go_on, handle_events, handle_bytes,
  receive_bytes,
}
use nonecorn.Http1.Rounds.{Progress, rounds_left}
use nonecorn.Http1.Rounds.Bound.{Below}
use nonecorn.Http1.Rounds.Events.{next_from-Room, handle_h11_event-again, continue_100-Keeps}

module _ (site : Site) (progress : Progress site.h) where
  open site use {h}

  some_round : (p : Http1 h) (o : Option Bytes) → p.passthrough ≡ o → ¬ Below progress 0 p
  some_round p none e below = ground (arith, e, below)
  some_round p (some []) e below = ground (arith, e, below)
  some_round p (some (b ∷ bs)) e below = ground (arith, e, below)

  module _ (k : ℕ) where
    after_100 :
        (w : Connected site) (r : Result (Unit {0}))
        → Below progress (suc k) w.rest
        → (continue r (λ x. do event ← next_event site; handle_h11_event site event) w).0
          ≡ ok Round.again
        → Below progress k
            (continue r (λ x. do event ← next_event site; handle_h11_event site event) w).1.rest
    unfolding next_event
    after_100 w (raise e) below again = ground arith
    after_100 w (ok x) below again =
        handle_h11_event-again site progress k _ _
          (next_from-Room site progress k w.rest.passthrough w.rest refl below) again

    round-again :
        (w : Connected site)
        → Below progress (suc k) w.rest
        → (round site w).0 ≡ ok Round.again
        → Below progress k (round site w).1.rest
    unfolding round
    round-again w below again =
        after_100 _ _
          ((continue_100-Keeps site progress (suc k)).at w (record { rest = below })).rest again

  after_round :
      (fuel : ℕ) (w : Connected site) (r : Result Round)
      → ((w' : Connected site)
          → Below progress fuel w'.rest
          → ¬ ((handle_events site fuel w').0 ≡ ok Loop.unfinished))
      → (r ≡ ok Round.again → Below progress fuel w.rest)
      → ¬ ((continue r (go_on site (handle_events site fuel)) w).0 ≡ ok Loop.unfinished)
  unfolding go_on
  after_round fuel w (raise e) ends below = ground arith
  after_round fuel w (ok Round.again) ends below = ends w (below refl)
  after_round fuel w (ok Round.stop) ends below = ground arith
  after_round fuel w (ok Round.wait) ends below = ground arith

  handle_events-ends :
      (fuel : ℕ) (w : Connected site)
      → rounds_left progress w.rest ≤ fuel
      → ¬ ((handle_events site fuel w).0 ≡ ok Loop.unfinished)
  unfolding handle_events
  handle_events-ends zero w below = absurd (some_round w.rest w.rest.passthrough refl below)
  handle_events-ends (suc fuel) w below =
      after_round fuel (round site w).1 (round site w).0 (handle_events-ends fuel)
        (round-again fuel w below)

  -- Given RawData, `handle` comes back: the loop over h11's events ends, in one of the ways that the
  -- code ends it, within as many rounds as `rounds_left` says of the connection with the new bytes.
  -- Whatever the streams do in between does not make it go on. h11 holds finitely many events, and
  -- sending or starting a cycle brings no more.
  pub handle_bytes-ends :
      (bytes : Bytes) (fuel : ℕ) (w : Connected site)
      → rounds_left progress (receive_bytes site bytes w).1.rest ≤ fuel
      → ¬ ((handle_bytes site fuel bytes w).0 ≡ ok Loop.unfinished)
  unfolding handle_bytes receive_bytes
  handle_bytes-ends bytes fuel w enough =
      handle_events-ends fuel (receive_bytes site bytes w).1 enough

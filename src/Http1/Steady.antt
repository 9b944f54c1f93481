-- ===== src/Http1/Steady.antt =====
-- What an H11Protocol (protocol/h11.py) keeps while streams send: the steps that such a predicate
-- has to survive.
pub mod Closing
pub mod Sending
pub mod Checks
pub mod Streams
pub mod Calls
use nonecorn.Prelude.{◌≡◌, ◌∷◌, ℕ, some, List, Bool, true, false}
use nonecorn.Http1.H11.{H11, Sendable}
use nonecorn.Http1.State.{Http1, IoEvent, Effect}

-- events that say nothing of whether the connection idles
abbrev pub is_plain : Effect → Bool
is_plain (Effect.io (IoEvent.updated idle)) = false
is_plain _ = true

-- what sending to the client does to the protocol
pub record Sends (h : H11) (P : Http1 h → Type 0) : Type 0 where
  pub sends :
      (p : Http1 h) (event : Sendable)
      → P p
      → P (record p { connection = (h.send event p.connection).1 })
  pub sends_file :
      (p : Http1 h) (n : ℕ) → P p → P (record p { connection = (h.send_file n p.connection).1 })
  pub emits :
      (p : Http1 h) (effect : Effect)
      → is_plain effect ≡ true
      → P p
      → P (record p { effects = effect ∷ p.effects })

pub record Steady (h : H11) (P : Http1 h → Type 0) : Type 0 where
  pub sending : Sends h P
  pub detaches : (p : Http1 h) → P p → P (record p { attached = false })
  pub wakes : (p : Http1 h) → P p → P (record p { can_read = true })
  pub starts :
      (p : Http1 h) (c : h.Connection)
      → p.attached ≡ false
      → h.start_next_cycle p.connection ≡ some c
      → P p
      → P (record p {
        connection = c;
        can_read = true;
        effects = Effect.io (IoEvent.updated true) ∷ p.effects;
      })

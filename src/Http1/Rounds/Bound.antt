-- ===== src/Http1/Rounds/Bound.antt =====
-- What is left for the loop of `_handle_events` (protocol/h11.py) to do is steady: a stream that sends
-- does not give it more rounds.
use nonecorn.Prelude.{◌∷◌, ◌≤◌, ℕ, some, none, [], arith}
use nonecorn.Http1.H11.{H11}
use nonecorn.Http1.State.{Http1}
use nonecorn.Http1.Steady.{Steady}
use nonecorn.Http1.Rounds.{Progress, rounds_left}

-- the states from which the loop goes through `k` rounds at most
abbrev pub Below : {h : H11} → Progress h → ℕ → Http1 h → Type 0
Below progress k p = rounds_left progress p ≤ k

module _ (h : H11) (progress : Progress h) (k : ℕ) where
  Below-connection :
      (p : Http1 h) (c : h.Connection)
      → progress.rank c ≤ progress.rank p.connection
      → Below progress k p
      → Below progress k (record p { connection = c })
  Below-connection p c down below =
      elim p.passthrough
          as (λ o.
            rounds_left progress (record p { passthrough = o }) ≤ k
            → rounds_left progress (record p { connection = c; passthrough = o }) ≤ k) [
              | none ↦ λ below. omega arith
              | some [] ↦ λ below. below
              | some (b ∷ bs) ↦ λ below. below
            ]
        below

  pub Below-Steady : Steady h (Below progress k)
  Below-Steady = record {
    sending = record {
      sends = λ p event below. Below-connection p _ (progress.send-rank event p.connection) below;
      sends_file = λ p n below. Below-connection p _ (progress.send_file-rank n p.connection) below;
      emits = λ p effect plain below. below;
    };
    detaches = λ p below. below;
    wakes = λ p below. below;
    starts =
        λ p c free next below. Below-connection p c (progress.start-rank p.connection c next) below;
  }

-- ===== src/Http2/SendTask/Ends.antt =====
-- The loop of `send_task` (protocol/h2.py) comes to wait, or ends.
use nonecorn.Prelude.{
  ◌<◌, zero, if◌then◌else◌, some, none, Option, refl, inr, inl, at_key, ◌⊎◌, ◌≤◌, ◌≡◌, ◌∷◌, ◌+◌, ℕ,
  true, suc, length, false, arith, [], Bool,
}
use nonecorn.Exec.{gets, Result, ok, raise, ◌>>◌, ◌>>=◌, continue, caught, pure, gets, throw, Error}
use nonecorn.Exec.Keeps.{continue-leads}
use nonecorn.Http2.SendTask.Work.{
  Left, Scheduler, bytes_in-set_key, end_if_complete-Left, flush-Left, force_close-Left,
  force_close-keeps, length-take-drop, work,
}
use nonecorn.Http2.StreamBuffer.{StreamBuffer, pop, take}
use nonecorn.Http2.State.{ends_sending, present, put_buffer, H2Site, Http2, buffer_of}
use nonecorn.Http2.SendTask.{
  try_send, ends_sending, Window, flush, Bytes, chunk_size, end_if_complete, force_close,
  next_chunk, next_stream, pop_buffer, send_chunk, send_data, send_round, send_task, SendLoop,
}

abbrev is_raise : {A : Type 0} → Result A → Bool
is_raise (ok a) = false
is_raise (raise e) = true

module _ (site : H2Site) (scheduler : Scheduler site.t) (k : ℕ) where
  open site use {h, t}

  -- how a step for an active stream ends: with less left, or by raising before it did anything
  abbrev Ends : {A : Type 0} → ℕ → Result A × Http2 site → Type 0
  Ends id end =
      Left site scheduler k end.1
      ⊎ ((is_raise end.0 ≡ true)
          × (work site scheduler end.1 ≤ suc k)
          × (scheduler.is_active id end.1.priority ≡ true))

  send_chunk-Left :
      (id : ℕ) (bytes : Bytes) (p : Http2 site)
      → work site scheduler p + length bytes ≤ suc k
      → scheduler.is_active id p.priority ≡ true
      → Left site scheduler k (send_chunk site id bytes p).1
  unfolding send_chunk
  send_chunk-Left id [] p left active = record {
    bound = omega (arith, left, scheduler.block-lt id p.priority active);
  }
  send_chunk-Left id (c ∷ bytes) p left active =
      continue-leads (Left site scheduler k) (h.send_data id (c ∷ bytes) p.connection).0
        (λ x. flush site) _ (record { bound = omega (arith, left) })
        (λ x. (flush-Left site scheduler k).at _ (record { bound = omega (arith, left) }))

  after_pop :
      (id : ℕ) (bytes : Bytes) (p : Http2 site)
      → work site scheduler p + length bytes ≤ suc k
      → scheduler.is_active id p.priority ≡ true
      → Left site scheduler k ((do send_chunk site id bytes; end_if_complete site id) p).1
  after_pop id bytes p left active =
      continue-leads (Left site scheduler k) (send_chunk site id bytes p).0
        (λ x. end_if_complete site id) _ (send_chunk-Left id bytes p left active)
        (λ x.
          (end_if_complete-Left site scheduler k id).at _ (send_chunk-Left id bytes p left active))

  popped :
      (id size : ℕ) (o : Option StreamBuffer) (p : Http2 site)
      → at_key id p.buffers ≡ o
      → work site scheduler p ≤ suc k
      → scheduler.is_active id p.priority ≡ true
      → Ends id (
          (do
            bytes ← do b ← present o; put_buffer site id (pop size b).1; pure (pop size b).0
            send_chunk site id bytes
            end_if_complete site id)
            p)
  unfolding pop
  popped id size none p e left active = inr (refl, left, active)
  popped id size (some b) p e left active = inl (
      after_pop id (take size b.buffer) _
        (omega (
          arith,
          left,
          bytes_in-set_key id b (pop size b).1 p.buffers e,
          length-take-drop size b.buffer,
        ))
        active)

  pop_buffer-Ends :
      (id size : ℕ) (p : Http2 site)
      → work site scheduler p ≤ suc k
      → scheduler.is_active id p.priority ≡ true
      → Ends id (
          (do bytes ← pop_buffer site id size; send_chunk site id bytes; end_if_complete site id) p)
  unfolding pop_buffer buffer_of
  pop_buffer-Ends id size p left active = popped id size (at_key id p.buffers) p refl left active

  after_window :
      (id : ℕ) (r : Result Window) (p : Http2 site)
      → work site scheduler p ≤ suc k
      → scheduler.is_active id p.priority ≡ true
      → Ends id (
          (do
            bytes ← λ q.
                continue r
                  (λ window. do
                    frame_size ← gets (λ p. h.max_outbound_frame_size p.connection)
                    pop_buffer site id (chunk_size window frame_size))
                  q
            send_chunk site id bytes
            end_if_complete site id)
            p)
  after_window id (raise e) p left active = inr (refl, left, active)
  after_window id (ok window) p left active = pop_buffer-Ends id _ p left active

  try_send-Ends :
      (id : ℕ) (p : Http2 site)
      → work site scheduler p ≤ suc k
      → scheduler.is_active id p.priority ≡ true
      → Ends id (try_send site id p)
  unfolding try_send next_chunk
  try_send-Ends id p left active =
      after_window id (h.local_flow_control_window id p.connection).0 _ left active

  forced :
      (id : ℕ) (b : Bool) (e : Error) (p : Http2 site)
      → Ends {A = Unit {0}} id (raise e, p)
      → ((if b then force_close site id else throw e) p).0 ≡ ok tt
      → work site scheduler ((if b then force_close site id else throw e) p).1 ≤ k
  forced id false e p ends returns = ground (arith, returns)
  forced id true e p (inl less) returns = force_close-keeps site scheduler k id p less.bound
  forced id true e p (inr (raised, left, active)) returns =
      force_close-Left site scheduler k id p left active returns

  after_try :
      (id : ℕ) (r : Result (Unit {0})) (p : Http2 site)
      → Ends id (r, p)
      → (caught (ends_sending site) (force_close site id) r p).0 ≡ ok tt
      → work site scheduler (caught (ends_sending site) (force_close site id) r p).1 ≤ k
  after_try id (ok x) p (inl less) returns = less.bound
  after_try id (ok x) p (inr (raised, left, active)) returns = ground (arith, raised)
  after_try id (raise e) p ends returns = forced id (ends_sending site e) e p ends returns

  -- sending the data of an active stream leaves less to do
  send_data-less :
      (id : ℕ) (p : Http2 site)
      → work site scheduler p ≤ suc k
      → scheduler.is_active id p.priority ≡ true
      → (send_data site id p).0 ≡ ok tt
      → work site scheduler (send_data site id p).1 ≤ k
  unfolding send_data
  send_data-less id p left active returns =
      after_try id (try_send site id p).0 (try_send site id p).1 (try_send-Ends id p left active)
        returns

module _ (site : H2Site) (scheduler : Scheduler site.t) where
  open site use {h, t}

  -- a round after which the loop goes on leaves less to do
  after_next :
      (k : ℕ) (o : Option ℕ) (p : Http2 site)
      → work site scheduler p ≤ suc k
      → ((id : ℕ) → o ≡ some id → scheduler.is_active id p.priority ≡ true)
      → (send_round site o p).0 ≡ ok true
      → work site scheduler (send_round site o p).1 ≤ k
  unfolding send_round
  after_next k none p left active goes = ground (arith, left, goes)
  after_next k (some id) p left active goes =
      sent (send_data site id p).0 (send_data site id p).1
        (send_data-less site scheduler k id p left (active id refl)) goes
    where
      sent :
          (r : Result (Unit {0})) (q : Http2 site)
          → (r ≡ ok tt → work site scheduler q ≤ k)
          → (continue r (λ x. pure true) q).0 ≡ ok true
          → work site scheduler (continue r (λ x. pure {S = Http2 site} true) q).1 ≤ k
      sent (ok x) q less goes = less refl
      sent (raise e) q less goes = ground (arith, goes)

  go_on-ends :
      (fuel : ℕ) (r : Result Bool) (p : Http2 site)
      → (r ≡ ok true → ¬ ((send_task site fuel p).0 ≡ ok SendLoop.unfinished))
      → ¬ (
          (continue r
            (λ goes_on. if goes_on then send_task site fuel else pure SendLoop.waiting)
            p).0
          ≡ ok SendLoop.unfinished)
  go_on-ends fuel (ok true) p ends = ends refl
  go_on-ends fuel (ok false) p ends = ground arith
  go_on-ends fuel (raise e) p ends = ground arith

  unless :
      (b : Bool) (m n : Result SendLoop × Http2 site)
      → ¬ (m.0 ≡ ok SendLoop.unfinished)
      → ¬ (n.0 ≡ ok SendLoop.unfinished)
      → ¬ ((if b then m else n).0 ≡ ok SendLoop.unfinished)
  unless true m n hm hn = hm
  unless false m n hm hn = hn

  nothing_left :
      (o : Option ℕ) (p : Http2 site)
      → work site scheduler p ≤ 0
      → ((id : ℕ) → o ≡ some id → scheduler.is_active id p.priority ≡ true)
      → ¬ ((send_round site o p).0 ≡ ok true)
  unfolding send_round
  nothing_left none p left active goes = ground (arith, left, goes)
  nothing_left (some id) p left active goes =
      absurd (omega (arith, left, scheduler.block-lt id p.priority (active id refl)))

  next_round-ends :
      (fuel : ℕ) (o : Option ℕ) (p : Http2 site)
      → work site scheduler p ≤ fuel
      → ((id : ℕ) → o ≡ some id → scheduler.is_active id p.priority ≡ true)
      → ((q : Http2 site)
          → work site scheduler q < fuel
          → ¬ ((send_task site fuel q).0 ≡ ok SendLoop.unfinished))
      → ¬ (
          ((do
            goes_on ← send_round site o
            if goes_on then send_task site fuel else pure SendLoop.waiting)
            p).0
          ≡ ok SendLoop.unfinished)
  next_round-ends zero o p left active ends =
      go_on-ends zero (send_round site o p).0 (send_round site o p).1
        (λ goes. absurd (nothing_left o p left active goes))
  next_round-ends (suc k) o p left active ends =
      go_on-ends (suc k) (send_round site o p).0 (send_round site o p).1
        (λ goes. ends _ (omega (arith, after_next k o p left active goes)))

  -- `send_task` does not run for ever: within one round more than the work that is left, that is the
  -- bytes in the streams' buffers, the streams that the tree of priorities has active, and one for
  -- `has_data`, it ends, waits for data, or raises. The tree's `next` gives an active stream, and
  -- blocking or removing one leaves fewer active.
  pub send_task-ends :
      (fuel : ℕ) (p : Http2 site)
      → work site scheduler p < fuel
      → ¬ ((send_task site fuel p).0 ≡ ok SendLoop.unfinished)
  unfolding send_task next_stream
  send_task-ends zero p enough = elim enough [ ]
  send_task-ends (suc fuel) p enough = unless p.closed (pure SendLoop.finished p) _ (ground arith) (
      next_round-ends fuel (t.next p.priority).0 (record p { priority = (t.next p.priority).1 })
        (omega (arith, enough, scheduler.next-le p.priority))
        (λ id found. scheduler.next-is_active p.priority id found) (send_task-ends fuel))

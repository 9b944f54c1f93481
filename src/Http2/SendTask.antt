-- ===== src/Http2/SendTask.antt =====
-- `send_task` and `_send_data` of H2Protocol (protocol/h2.py): the task that chooses whose data goes
-- out next.
pub mod Bounds
pub mod Work
pub mod Ends
use nonecorn.Prelude.{
  ◌∷◌, ◌&&◌, ℕ, zero, suc, some, none, not, if◌then◌else◌, ltb, [], Option, List, Bool, is_empty,
  delete, true, false,
}
use nonecorn.Bytes.{Bytes}
use nonecorn.Exec.{Action, Exec, pass, pure, gets, modify, when, attempt, ◌>>=◌, ◌>>◌}
use nonecorn.Http2.Libraries.{Window}
use nonecorn.Http2.StreamBuffer.{close, is_complete, pop}
use nonecorn.Http2.State.{
  H2Site, Http2, buffer_of, ends_sending, flush, on_connection, on_priority, put_buffer,
}

-- `max(0, min(window, max_outbound_frame_size))`
abbrev pub chunk_size : Window → ℕ → ℕ
chunk_size Window.overdrawn frame_size = 0
chunk_size (Window.room n) frame_size = if ltb n frame_size then n else frame_size

-- how the loop of `send_task` ends: a loop that waits goes on once `has_data` is set
pub data SendLoop : Type 0 where
  finished waiting unfinished : SendLoop

module _ (site : H2Site) where
  open site use {h, t}

  unfoldable pub pop_buffer : ℕ → ℕ → Exec (Http2 site) Bytes
  pop_buffer id size = do
    b ← buffer_of site id
    put_buffer site id (pop size b).1
    pure (pop size b).0

  unfoldable pub next_chunk : ℕ → Exec (Http2 site) Bytes
  next_chunk id = do
    window ← on_connection site (h.local_flow_control_window id)
    frame_size ← gets (λ p. h.max_outbound_frame_size p.connection)
    pop_buffer id (chunk_size window frame_size)

  -- `del self.stream_buffers[id]`, and `remove_stream`
  unfoldable pub forget : ℕ → Action (Http2 site)
  forget id = do
    modify (λ p. record p { buffers = delete id p.buffers })
    on_priority site (t.remove_stream id)

  unfoldable pub send_chunk : ℕ → Bytes → Action (Http2 site)
  send_chunk id [] = on_priority site (t.block id)
  send_chunk id (c ∷ bytes) = do on_connection site (h.send_data id (c ∷ bytes)); flush site

  unfoldable pub end_if_complete : ℕ → Action (Http2 site)
  end_if_complete id = do
    b ← buffer_of site id
    when (is_complete b) (do on_connection site (h.end_stream id); flush site; forget id)

  unfoldable pub force_close : ℕ → Action (Http2 site)
  force_close id = do b ← buffer_of site id; put_buffer site id (close b); forget id

  unfoldable pub try_send : ℕ → Action (Http2 site)
  try_send id = do bytes ← next_chunk id; send_chunk id bytes; end_if_complete id

  -- `_send_data`
  unfoldable pub send_data : ℕ → Action (Http2 site)
  send_data id = attempt (ends_sending site) (try_send id) (force_close id)

  -- a round of `send_task` that finds this stream, or a DeadlockError
  unfoldable pub send_round : Option ℕ → Exec (Http2 site) Bool
  send_round (some id) p = (do send_data id; pure true) p
  send_round none p = if p.has_data then pure true (record p { has_data = false }) else pure false p

  unfoldable pub next_stream : Exec (Http2 site) (Option ℕ)
  next_stream = on_priority site (λ tree. let (id, tree') = t.next tree in pure id tree')

  -- `send_task`, for as many rounds as the fuel says
  unfoldable pub send_task : ℕ → Exec (Http2 site) SendLoop
  send_task zero p = pure SendLoop.unfinished p
  send_task (suc fuel) p =
      if p.closed
      then pure SendLoop.finished p
      else (do
        id ← next_stream
        goes_on ← send_round id
        if goes_on then send_task fuel else pure SendLoop.waiting)
          p

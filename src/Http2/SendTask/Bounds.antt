-- ===== src/Http2/SendTask/Bounds.antt =====
-- What `_send_data` (protocol/h2.py) takes out of a stream's buffer.
use nonecorn.Prelude.{
  ◌≤◌, ◌≡◌, ◌∷◌, ◌<◌, ◌++◌, ℕ, zero, suc, some, set_key, refl, length, at_key, arith, ap, [], List,
}
use nonecorn.Exec.{ok}
use nonecorn.Bytes.{drop, Bytes}
use nonecorn.Http2.Libraries.{Window}
use nonecorn.Http2.StreamBuffer.{StreamBuffer, pop, take}
use nonecorn.Http2.State.{H2Site, Http2, buffer_of}
use nonecorn.Http2.SendTask.{chunk_size, next_chunk, pop_buffer}

take-append-drop : (n : ℕ) (s : Bytes) → take n s ++ drop n s ≡ s
take-append-drop zero s = refl
take-append-drop (suc n) [] = refl
take-append-drop (suc n) (c ∷ s) = ap (λ r. c ∷ r) (take-append-drop n s)

length-take-le : (n : ℕ) (s : Bytes) → length (take n s) ≤ n
length-take-le zero s = omega arith
length-take-le (suc n) [] = omega arith
length-take-le (suc n) (c ∷ s) = omega (arith, length-take-le n s)

take-ne : (n : ℕ) (s : Bytes) → 0 < n → take n s ≡ [] → s ≡ []
take-ne zero s positive e = absurd (omega arith)
take-ne (suc n) [] positive e = refl
take-ne (suc n) (c ∷ s) positive e = ground (arith, e)

pub at_key-set_key {ℓ} :
    {A : Type ℓ} (k : ℕ) (a : A) (d : List (ℕ × A)) → at_key k (set_key k a d) ≡ some a
at_key-set_key k a [] = ground arith
at_key-set_key k a ((j, b) ∷ d) = ground (arith, at_key-set_key k a d)

module _ (site : H2Site) where
  open site use {h}

  -- What goes to h2 at once for a stream with a window is the first bytes of its buffer, which keeps the
  -- others: no more of them than the window takes, and no more than a frame takes. It is nothing only if
  -- the buffer is empty, or the window or the frame takes nothing.
  pub next_chunk-fits :
      (id n : ℕ) (b : StreamBuffer) (p : Http2 site)
      → at_key id p.buffers ≡ some b
      → (h.local_flow_control_window id p.connection).0 ≡ ok (Window.room n)
      → (bytes : Bytes) × (rest : StreamBuffer) × ((next_chunk site id p).0 ≡ ok bytes)
        × (at_key id (next_chunk site id p).1.buffers ≡ some rest)
        × (bytes ++ rest.buffer ≡ b.buffer)
        × (length bytes ≤ n)
        × (length bytes ≤ h.max_outbound_frame_size (h.local_flow_control_window id p.connection).1)
        × (0 < n
            → 0 < h.max_outbound_frame_size (h.local_flow_control_window id p.connection).1
            → bytes ≡ []
            → b.buffer ≡ [])
  unfolding next_chunk pop_buffer buffer_of pop
  next_chunk-fits id n b p e window =
      let c : h.Connection = (h.local_flow_control_window id p.connection).1 in
      let frame : ℕ = h.max_outbound_frame_size c in
      let size : ℕ = chunk_size (Window.room n) frame in
      (
        take size b.buffer,
        (pop size b).1,
        rw (window, e) refl,
        rw (window, e) (at_key-set_key id (pop size b).1 p.buffers),
        take-append-drop size b.buffer,
        ground (arith, length-take-le size b.buffer),
        ground (arith, length-take-le size b.buffer),
        λ roomy framed nothing. take-ne size b.buffer (ground arith) nothing,
      )

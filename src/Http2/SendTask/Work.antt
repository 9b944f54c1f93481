-- ===== src/Http2/SendTask/Work.antt =====
-- The work that is left for `send_task` (protocol/h2.py) until it has to wait, as a number.
use nonecorn.Prelude.{
  inr, inl, Option-cases, ◌≤◌, ◌≡◌, ◌∷◌, ◌<◌, ◌+◌, ℕ, zero, true, suc, some, set_key, length,
  if◌then◌else◌, delete, at_key, arith, [], List, Bool,
}
use nonecorn.Exec.{Exec, ok}
use nonecorn.Exec.Keeps.{keeps_rules, Keeps}
use nonecorn.Http2.StreamBuffer.{StreamBuffer, take, close}
use nonecorn.Http2.Libraries.{PriorityTree}
use nonecorn.Http2.State.{buffer_of, H2Site, Http2, flush, on_connection}
use nonecorn.Http2.SendTask.{force_close, end_if_complete, forget}
use nonecorn.Bytes.{drop, Bytes}

-- What the loop relies on: `next` finds a stream that is active, of which there are so many;
-- blocking or removing an active stream succeeds, and leaves fewer.
pub record Scheduler (t : PriorityTree) : Type 0 where
  pub active : t.Tree → ℕ
  pub is_active : ℕ → t.Tree → Bool
  pub next-is_active :
      (tree : t.Tree) (id : ℕ) → (t.next tree).0 ≡ some id → is_active id (t.next tree).1 ≡ true
  pub next-le : (tree : t.Tree) → active (t.next tree).1 ≤ active tree
  pub block-ok : (id : ℕ) (tree : t.Tree) → is_active id tree ≡ true → (t.block id tree).0 ≡ ok tt
  pub block-lt :
      (id : ℕ) (tree : t.Tree) → is_active id tree ≡ true → active (t.block id tree).1 < active tree
  pub remove-le : (id : ℕ) (tree : t.Tree) → active (t.remove_stream id tree).1 ≤ active tree
  pub remove-lt :
      (id : ℕ) (tree : t.Tree)
      → is_active id tree ≡ true
      → active (t.remove_stream id tree).1 < active tree

abbrev pub bytes_in : List (ℕ × StreamBuffer) → ℕ
bytes_in [] = 0
bytes_in ((id, b) ∷ buffers) = length b.buffer + bytes_in buffers

pub bytes_in-set_key :
    (id : ℕ) (b b' : StreamBuffer) (buffers : List (ℕ × StreamBuffer))
    → at_key id buffers ≡ some b
    → bytes_in (set_key id b' buffers) + length b.buffer ≡ bytes_in buffers + length b'.buffer
bytes_in-set_key id b b' [] e = ground (arith, e)
bytes_in-set_key id b b' ((j, c) ∷ buffers) e = ground (arith, e, bytes_in-set_key id b b' buffers)

bytes_in-delete :
    (id : ℕ) (buffers : List (ℕ × StreamBuffer)) → bytes_in (delete id buffers) ≤ bytes_in buffers
bytes_in-delete id [] = omega arith
bytes_in-delete id ((j, c) ∷ buffers) = ground (arith, bytes_in-delete id buffers)

pub length-take-drop : (n : ℕ) (s : Bytes) → length (take n s) + length (drop n s) ≡ length s
length-take-drop zero s = omega arith
length-take-drop (suc n) [] = omega arith
length-take-drop (suc n) (c ∷ s) = omega (arith, length-take-drop n s)

module _ (site : H2Site) (scheduler : Scheduler site.t) where
  open site use {h, t}

  abbrev pub work : Http2 site → ℕ
  work p = bytes_in p.buffers + scheduler.active p.priority + (if p.has_data then 1 else 0)

  -- at most so much is left
  pub record Left (k : ℕ) (p : Http2 site) : Type 0 where
    pub bound : work p ≤ k

  module _ (k : ℕ) where
    pub on_connection-Left :
        {A : Type 0} (m : Exec h.Connection A) → Keeps (Left k) (on_connection site m)
    on_connection-Left m = record { at = λ p left. record { bound = left.bound } }

    pub flush-Left : Keeps (Left k) (flush site)
    unfolding flush
    flush-Left = record { at = λ p left. record { bound = ground (arith, left.bound) } }

    pub forget-Left : (id : ℕ) → Keeps (Left k) (forget site id)
    unfolding forget
    forget-Left id = record {
      at = λ p left. record {
        bound =
            omega
              (arith, left.bound, bytes_in-delete id p.buffers, scheduler.remove-le id p.priority);
      };
    }

    buffer_of-Left : (id : ℕ) → Keeps (Left k) (buffer_of site id)
    unfolding buffer_of
    buffer_of-Left id = record { at = λ p left. record { bound = ground (arith, left.bound) } }

    pub end_if_complete-Left : (id : ℕ) → Keeps (Left k) (end_if_complete site id)
    unfolding end_if_complete
    end_if_complete-Left id =
        search (keeps_rules, buffer_of-Left, on_connection-Left, flush-Left, forget-Left) depth 12

    -- closing the buffer of an active stream by force leaves less
    pub force_close-Left :
        (id : ℕ) (p : Http2 site)
        → work p ≤ suc k
        → scheduler.is_active id p.priority ≡ true
        → (force_close site id p).0 ≡ ok tt
        → work (force_close site id p).1 ≤ k
    unfolding force_close buffer_of forget
    force_close-Left id p left active returns = elim (Option-cases (at_key id p.buffers)) [
      | inl e ↦ ground (arith, e, returns)
      | inr (b, e) ↦ ground (
        arith,
        e,
        left,
        bytes_in-set_key id b (close b) p.buffers e,
        bytes_in-delete id (set_key id (close b) p.buffers),
        scheduler.remove-lt id p.priority active,
      )
    ]

    pub force_close-keeps :
        (id : ℕ) (p : Http2 site) → work p ≤ k → work (force_close site id p).1 ≤ k
    unfolding force_close buffer_of forget
    force_close-keeps id p left = elim (Option-cases (at_key id p.buffers)) [
      | inl e ↦ ground (arith, e, left)
      | inr (b, e) ↦ ground (
        arith,
        e,
        left,
        bytes_in-set_key id b (close b) p.buffers e,
        bytes_in-delete id (set_key id (close b) p.buffers),
        scheduler.remove-le id p.priority,
      )
    ]

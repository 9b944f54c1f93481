-- ===== src/Http2/StreamBuffer/Runs.antt =====
-- The two tasks at a stream's buffer: the one that pushes may wait, the other one pops.
use nonecorn.Prelude.{
  ◌⊎◌, inl, inr, ◌≡◌, ◌∷◌, ◌++◌, ◌<◌, ◌≤◌, ℕ, zero, suc, refl, ap, ◌∙◌, true, false, arith,
  append_assoc, leb, all, [], List, Bool, length,
}
use nonecorn.Bytes.{drop, Bytes}
use nonecorn.Exec.{ok}
use nonecorn.Http2.StreamBuffer.{StreamBuffer, blank, take, push, pop, resume, set_complete}

-- the buffer, whether the pushing task waits, and all that was pushed and popped
pub record System : Type 0 where
  pub buffer : StreamBuffer
  pub waiting : Bool
  pub pushed : Bytes
  pub popped : Bytes

-- what the tasks can do next
pub data Step : System → System → Type 0 where
  pushes :
      (s : System) (bytes : Bytes) (waits : Bool)
      → s.waiting ≡ false
      → (push bytes s.buffer).0 ≡ ok waits
      → Step s (record s {
        buffer = (push bytes s.buffer).1;
        waiting = waits;
        pushed = s.pushed ++ bytes;
      })
  resumes :
      (s : System)
      → s.waiting ≡ true
      → s.buffer.paused ≡ true
      → Step s (record s { buffer = resume s.buffer; waiting = false })
  pops :
      (s : System) (n : ℕ)
      → Step s (record s { buffer = (pop n s.buffer).1; popped = s.popped ++ (pop n s.buffer).0 })
  completes : (s : System) → Step s (record s { buffer = set_complete s.buffer })

pub data Reachable : System → Type 0 where
  start : Reachable (record { buffer = blank; waiting = false; pushed = []; popped = [] })
  step : {s s' : System} → Reachable s → Step s s' → Reachable s'

take-drop : (n : ℕ) (s : Bytes) → take n s ++ drop n s ≡ s
take-drop zero s = refl
take-drop (suc n) [] = refl
take-drop (suc n) (c ∷ s) = ap (λ (r : Bytes). c ∷ r) (take-drop n s)

IsOrdered : System → Type 0
IsOrdered s = s.popped ++ s.buffer.buffer ≡ s.pushed

step-IsOrdered : {s s' : System} → Step s s' → IsOrdered s → IsOrdered s'
unfolding IsOrdered push pop
step-IsOrdered (pushes s bytes waits w r) h =
    ground (arith, r, h, append_assoc s.popped s.buffer.buffer bytes)
step-IsOrdered (resumes s w p) h = h
step-IsOrdered (pops s n) h =
    append_assoc s.popped (take n s.buffer.buffer) (drop n s.buffer.buffer)
    ∙ ap (λ r. s.popped ++ r) (take-drop n s.buffer.buffer)
    ∙ h
step-IsOrdered (completes s) h = h

-- In every order of pushes, waits and pops, what the sending task has taken is what the application
-- has pushed, in its order and with nothing lost, but for what is in the buffer still.
pub reachable_ordered : (s : System) → Reachable s → s.popped ++ s.buffer.buffer ≡ s.pushed
unfolding IsOrdered
reachable_ordered s start = refl
reachable_ordered s (step r st) = step-IsOrdered st (reachable_ordered _ r)

abbrev pub pop_all : List ℕ → StreamBuffer → StreamBuffer
pop_all [] b = b
pop_all (n ∷ ns) b = pop_all ns (pop n b).1

pop_all-paused : (ns : List ℕ) (b : StreamBuffer) → b.paused ≡ true → (pop_all ns b).paused ≡ true
unfolding pop
pop_all-paused [] b h = h
pop_all-paused (n ∷ ns) b h = pop_all-paused ns (pop n b).1 (ground (arith, h))

drop_shrinks : (n : ℕ) (c : ℕ) (s : Bytes) → length (drop n s) ≤ length s
drop_shrinks zero c s = omega arith
drop_shrinks (suc n) c [] = omega arith
drop_shrinks (suc n) c (d ∷ s) = omega (arith, drop_shrinks n c s)

List-cases : (s : Bytes) → (s ≡ []) ⊎ ((c : ℕ) × (r : Bytes) × (s ≡ c ∷ r))
List-cases [] = inl refl
List-cases (c ∷ r) = inr (c, r, refl)

-- A task that waits in a push is let go on: as many pops as the buffer has bytes, and one more, set
-- the event that it waits for, whatever positive sizes they take.
pub pop_all-wakes :
    (ns : List ℕ) (b : StreamBuffer)
    → all (leb 1) ns ≡ true
    → length b.buffer < length ns
    → (pop_all ns b).paused ≡ true
unfolding pop
pop_all-wakes [] b h l = ground (arith, l)
pop_all-wakes (zero ∷ ns) b h l = ground (arith, h)
pop_all-wakes (suc n ∷ ns) b h l = elim (List-cases b.buffer) [
  | inl e ↦ pop_all-paused ns (pop (suc n) b).1 (ground (arith, e))
  | inr (c, s, e) ↦
      pop_all-wakes ns (pop (suc n) b).1 (ground (arith, h))
        (ground (arith, e, l, drop_shrinks n c s))
]

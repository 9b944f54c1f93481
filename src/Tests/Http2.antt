-- ===== src/Tests/Http2.antt =====
-- A stream's buffer under two tasks.
use nonecorn.Prelude.{some, List, ◌≡◌, ◌∷◌, false, refl, []}
use nonecorn.Bytes.{codes}
use nonecorn.Http2.StreamBuffer.Channel.{Label, Move, Moves, Tasks, allow_all, allow_all-view, view}
use nonecorn.Http2.StreamBuffer.{set_complete, push, pop, blank}

abbrev idle : Tasks
idle = record { buffer = blank; waiting = false }

abbrev given : Tasks
given = record { buffer = (push (codes "hello") blank).1; waiting = false }

abbrev taken : Tasks
taken = record { buffer = (pop 2 given.buffer).1; waiting = false }

abbrev completed : Tasks
completed = record { buffer = set_complete taken.buffer; waiting = false }

abbrev seen : List Label
seen =
    Label.put (codes "hello")
    ∷ Label.got 2 (codes "he")
    ∷ Label.finish
    ∷ Label.refused (codes "late")
    ∷ []

moved : Moves idle seen completed
unfolding push pop
moved = Moves.move (Move.pushes idle (codes "hello") false refl refl) (
    Moves.move (Move.pops given 2) (
      Moves.move (Move.completes taken)
        (Moves.move (Move.fails completed (codes "late") refl refl) (Moves.stay completed))))

allow_all-view_example : allow_all seen (view blank) ≡ some (view completed.buffer)
allow_all-view_example = allow_all-view moved

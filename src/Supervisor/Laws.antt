-- ===== src/Supervisor/Laws.antt =====
-- What `_join_exited` and the end of `run` (run.py) make of exit codes.
use nonecorn.Prelude.{
  ◌≡◌, ◌∷◌, ◌∙◌, ◌↔◌, ℕ, true, sym, some, refl, none, arith, ap, all, [], List, Bool,
}
use nonecorn.Supervisor.{Process, Round, blank, finish, is_zero, join_exited, supervise}

-- a process that runs, or that has exited with zero
abbrev pub is_fine : Process → Bool
is_fine none = true
is_fine (some code) = is_zero code

-- the processes that have not exited
abbrev pub running : List Process → List Process
running [] = []
running (none ∷ processes) = none ∷ running processes
running (some code ∷ processes) = running processes

join_exited-running : (processes : List Process) → (join_exited processes).1 ≡ running processes
unfolding join_exited
join_exited-running [] = refl
join_exited-running (none ∷ processes) = ap (λ r. none ∷ r) (join_exited-running processes)
join_exited-running (some code ∷ processes) = join_exited-running processes

join_exited-is_zero :
    (processes : List Process) → is_zero (join_exited processes).0 ≡ all is_fine processes
unfolding join_exited
join_exited-is_zero [] = refl
join_exited-is_zero (none ∷ processes) = join_exited-is_zero processes
join_exited-is_zero (some code ∷ processes) = ground (arith, join_exited-is_zero processes)

-- `_join_exited` leaves just the processes that have not exited, in their order, and returns a code
-- that is zero just when every process that has exited did so with zero.
pub join_exited_lem :
    (processes : List Process)
    → ((join_exited processes).1 ≡ running processes)
      × ((is_zero (join_exited processes).0 ≡ true) ↔ (all is_fine processes ≡ true))
join_exited_lem processes = (
  join_exited-running processes,
  (λ h. sym (join_exited-is_zero processes) ∙ h, λ h. join_exited-is_zero processes ∙ h),
)

-- The exit code of a worker that fails is lost: whatever the rounds of the loop before the end of
-- `run`, if every process that is left has then not exited yet, or with zero, `run` returns zero.
pub finish-is_zero :
    (workers : ℕ) (rounds : List Round) (observe : List Process → List Process)
    → all is_fine (observe (supervise workers rounds blank).processes) ≡ true
    → is_zero (finish observe (supervise workers rounds blank)) ≡ true
unfolding finish
finish-is_zero workers rounds observe fine =
    ground (arith, fine, join_exited-is_zero (observe (supervise workers rounds blank).processes))

-- ===== src/Tests/Supervisor.antt =====
-- Two workers, of which one fails.
use nonecorn.Prelude.{◌≡◌, ◌∷◌, true, some, refl, none, false, [], List}
use nonecorn.Supervisor.{
  ExitCode, Process, Round, blank, finish, is_zero, join_exited, populate, supervise,
}
use nonecorn.Supervisor.Laws.{finish-is_zero}

abbrev fails : List Process → List Process
fails processes = some (ExitCode.exited 3) ∷ none ∷ []

abbrev failed : List Round
failed = record { observe = fails; interrupted = false } ∷ []

-- The loop ends with the exit code of the worker.
exits_with : (supervise 2 failed blank).exitcode ≡ ExitCode.exited 3
unfolding supervise join_exited populate
exits_with = refl

finish-is_zero_example : is_zero (finish (λ processes. processes) (supervise 2 failed blank)) ≡ true
unfolding supervise join_exited populate
finish-is_zero_example = finish-is_zero 2 failed (λ processes. processes) refl

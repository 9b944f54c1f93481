-- ===== src/Supervisor.antt =====
-- The processes of a server (run.py): `run` for more than no workers, `_populate` and `_join_exited`.
-- What the processes do is a parameter: which have exited when they are looked at, and with what.
pub mod Laws
use nonecorn.Prelude.{
  ◌∷◌, ◌-◌, ◌++◌, zero, true, suc, some, none, length, if◌then◌else◌, false, [], Option, List, Bool,
  ℕ,
}

-- `exitcode`, which is negative for a process that a signal has ended
pub data ExitCode : Type 0 where
  exited signalled : ℕ → ExitCode

abbrev pub is_zero : ExitCode → Bool
is_zero (ExitCode.exited zero) = true
is_zero _ = false

-- a process is the exit code that it has, if it has exited
abbrev pub Process : Type 0
Process = Option ExitCode

-- `_populate`, for as many processes as are missing
abbrev pub start : ℕ → List Process
start zero = []
start (suc n) = none ∷ start n

unfoldable pub populate : ℕ → List Process → List Process
populate workers processes = processes ++ start (workers - length processes)

abbrev join_worker : Process → ExitCode × List Process → ExitCode × List Process
join_worker none (code, rest) = (code, none ∷ rest)
join_worker (some exit) (code, rest) = (if is_zero code then exit else code, rest)

-- `_join_exited`: from the last process on, the first exit code that is not zero
unfoldable pub join_exited : List Process → ExitCode × List Process
join_exited [] = (ExitCode.exited 0, [])
join_exited (process ∷ processes) = join_worker process (join_exited processes)

-- the state of the loop of `run`; `stopping` is whether `shutdown_event` is set
pub record Supervisor : Type 0 where
  pub processes : List Process
  pub active : Bool
  pub stopping : Bool
  pub exitcode : ExitCode

abbrev pub blank : Supervisor
blank = record { processes = []; active = true; stopping = false; exitcode = ExitCode.exited 0 }

-- A round of the loop: how the processes look when its wait ends, and whether SIGINT or SIGTERM has
-- come. A reload joins the processes, and leaves the loop's variables as they are.
pub record Round : Type 0 where
  pub observe : List Process → List Process
  pub interrupted : Bool

-- the handler `shutdown`
abbrev shutdown : Supervisor → Supervisor
shutdown s = record s { stopping = true; active = false }

abbrev pub after_join : ExitCode × List Process → Supervisor → Supervisor
after_join (code, rest) s =
    let joined = record s { processes = rest; exitcode = code } in
    if is_zero code then joined else shutdown joined

abbrev pub supervise_round : ℕ → Round → Supervisor → Supervisor
supervise_round workers round s =
    let waited = record s { processes = round.observe (populate workers s.processes) } in
    after_join (join_exited waited.processes)
      (if round.interrupted then shutdown waited else waited)

-- `while active`
unfoldable pub supervise : ℕ → List Round → Supervisor → Supervisor
supervise workers [] s = s
supervise workers (round ∷ rounds) s =
    let rest = supervise workers rounds (supervise_round workers round s) in
    if s.active then rest else s

-- The end of `run`: the processes are terminated, `observe` is how they look then, and the exit code
-- is what `run` returns.
unfoldable pub finish : (List Process → List Process) → Supervisor → ExitCode
finish observe s = if is_zero s.exitcode then s.exitcode else (join_exited (observe s.processes)).0

-- ===== src/Lifespan.antt =====
-- The classes Lifespan of src/hypercorn/asyncio/lifespan.py and src/hypercorn/trio/lifespan.py: the
-- startup and the shutdown of the application. An event is whether it is set.
pub mod Runs
use nonecorn.Prelude.{
  ◌||◌, ◌∷◌, ◌++◌, some, none, if◌then◌else◌, any, get_or, not, true, false, [], List, Option, Bool,
}
use nonecorn.Bytes.{Text, codes}
use nonecorn.Exec.{
  raise, closed_resource, Error, Action, ok, pass, throw, modify, when, ◌>>=◌, ◌>>◌,
  unexpected_message, lifespan_failure, lifespan_timeout,
}
use nonecorn.Asgi.{AppMessage, Receive}

pub data Backend : Type 0 where
  asyncio trio : Backend

-- the lines that handle_lifespan logs
pub data Log : Type 0 where
  continuing_without shutdown_without errored_after : Log

pub record Lifespan : Type 0 where
  pub startup : Bool
  pub shutdown : Bool
  pub supported : Bool
  pub channels_open : Bool
  pub queue : List Receive
  pub logged : List Log

abbrev pub blank : Lifespan
blank = record {
  startup = false;
  shutdown = false;
  supported = true;
  channels_open = true;
  queue = [];
  logged = [];
}

abbrev pub set_startup : Action Lifespan
set_startup = modify (λ l. record l { startup = true })

abbrev pub set_shutdown : Action Lifespan
set_shutdown = modify (λ l. record l { shutdown = true })

-- `asgi_send`; over trio a failure sets no event
unfoldable pub asgi_send : Backend → AppMessage → Action Lifespan
asgi_send backend AppMessage.startup_complete = set_startup
asgi_send backend AppMessage.shutdown_complete = set_shutdown
asgi_send Backend.asyncio (AppMessage.startup_failed message) = do
  set_startup
  throw (lifespan_failure (codes "startup") (get_or message []))
asgi_send Backend.trio (AppMessage.startup_failed message) =
    throw (lifespan_failure (codes "startup") (get_or message []))
asgi_send Backend.asyncio (AppMessage.shutdown_failed message) = do
  set_shutdown
  throw (lifespan_failure (codes "shutdown") (get_or message []))
asgi_send Backend.trio (AppMessage.shutdown_failed message) =
    throw (lifespan_failure (codes "shutdown") (get_or message []))
asgi_send backend _ = throw unexpected_message

-- How the call of the application in `handle_lifespan` ends. The errors of a group are listed
-- without the groups that they are nested in; the error `shutdown` stands for a cancellation.
pub data Ending : Type 0 where
  returned : Ending
  raised : Error → Ending
  group : List Error → Ending

abbrev pub is_failure : Error → Bool
is_failure (lifespan_failure event message) = true
is_failure Error.shutdown = true
is_failure _ = false

-- the `except` clause for an error that is no failure of the lifespan
unfoldable pub without_support : Action Lifespan
without_support l = (
  ok tt,
  record l {
    supported = false;
    logged =
        (if not l.startup
          then Log.continuing_without
          else if not l.shutdown
          then Log.shutdown_without
          else Log.errored_after)
        ∷ l.logged;
  },
)

-- a failure among the errors of a group, with which `subgroup` raises the group again
abbrev first_failure : List Error → Option Error
first_failure [] = none
first_failure (error ∷ errors) =
    let rest = first_failure errors in if is_failure error then some error else rest

abbrev pub is_error : Ending → Bool
is_error Ending.returned = false
is_error _ = true

-- what is raised again
abbrev pub reraised : Ending → Option Error
reraised Ending.returned = none
reraised (Ending.raised error) = if is_failure error then some error else none
reraised (Ending.group errors) = first_failure errors

abbrev ended : Ending → Option Error → Action Lifespan
ended ending (some error) = throw error
ended ending none = when (is_error ending) without_support

-- the `try` of `handle_lifespan`, once the application has ended; over trio the channels are closed
unfoldable pub handle_ending : Backend → Ending → Action Lifespan
unfolding without_support
handle_ending backend ending l =
    let (result, l') = ended ending (reraised ending) l in
    let channels_open : Bool = elim backend [
      | Backend.asyncio ↦ l'.channels_open
      | Backend.trio ↦ false
    ] in
    (result, record l' { startup = true; shutdown = true; channels_open = channels_open })

-- `app_queue.put`, or `app_send_channel.send`, which raises on a closed channel
unfoldable pub put : Receive → Action Lifespan
put message l =
    if l.channels_open
    then (ok tt, record l { queue = l.queue ++ message ∷ [] })
    else (raise closed_resource, l)

-- `wait_for_startup` and `wait_for_shutdown` up to their waits
unfoldable pub ask : Receive → Action Lifespan
unfolding put
ask message l = (if l.supported then put message else pass) l

-- the end of the wait: the event is set, or the time is over
unfoldable pub end_startup : Action Lifespan
end_startup l =
    if not l.supported || l.startup then pass l else throw (lifespan_timeout (codes "startup")) l

unfoldable pub end_shutdown : Backend → Action Lifespan
end_shutdown backend l =
    if not l.supported || l.shutdown
    then pass l
    else throw
        (lifespan_timeout
          (elim backend [ Backend.asyncio ↦ codes "shutdown" | Backend.trio ↦ codes "startup" ]))
        l

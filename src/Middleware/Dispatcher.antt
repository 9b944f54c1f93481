-- ===== src/Middleware/Dispatcher.antt =====
-- middleware/dispatcher.py: applications mounted on path prefixes, and their joint lifespan. The two
-- classes, over asyncio and over trio, have the same `send`.
pub mod Laws
use nonecorn.Prelude.{
  ◌∷◌, some, none, if◌then◌else◌, all, true, false, [], List, Option, Bool, map, ◌++◌,
}
use nonecorn.Bytes.{Text, codes, same, starts_with}
use nonecorn.Asgi.{AppMessage, Receive, ResponseStart, ResponseBody, Scope, ScopeType}

-- What `__call__` does with a scope that is no lifespan: it calls an application, or it answers.
pub data Dispatch (A : Type 0) : Type 0 where
  call : A → Scope → Dispatch A
  answer : List AppMessage → Dispatch A

-- the messages of a response without content
abbrev pub not_found : List AppMessage
not_found =
    AppMessage.http_start (record {
      status = 404;
      headers = some ((codes "content-length", codes "0") ∷ []);
      trailers = none;
      reason = none;
    })
    ∷ AppMessage.http_body
        (record { content = none; more_body = none; flush = none; headers = none })
    ∷ []

-- the loop over `self.mounts.items()`
unfoldable pub dispatch : {A : Type 0} → List (Text × A) → Scope → Dispatch A
dispatch [] scope = Dispatch.answer not_found
dispatch ((path, app) ∷ mounts) scope =
    let rest = dispatch mounts scope in
    if starts_with path scope.path
    then Dispatch.call app (record scope { root_path = scope.root_path ++ path })
    else rest

-- `startup_complete` and `shutdown_complete`
pub record Completed : Type 0 where
  pub startup : List (Text × Bool)
  pub shutdown : List (Text × Bool)

abbrev pub blank : List Text → Completed
blank paths = record {
  startup = map (λ path. (path, false)) paths;
  shutdown = map (λ path. (path, false)) paths;
}

-- `flags[path] = True` for a key that is there
abbrev pub mark : Text → List (Text × Bool) → List (Text × Bool)
mark path [] = []
mark path ((key, flag) ∷ flags) =
    let rest = mark path flags in if same key path then (key, true) ∷ rest else (key, flag) ∷ rest

-- `if all(flags.values()): await send(message)`
abbrev pub send_when : Bool → AppMessage → List AppMessage
send_when true message = message ∷ []
send_when false message = []

-- `send`: the messages that it passes on
unfoldable pub send : Text → AppMessage → Completed → Completed × List AppMessage
send path AppMessage.startup_complete c =
    let flags = mark path c.startup in
    (record c { startup = flags }, send_when (all (λ f. f.1) flags) AppMessage.startup_complete)
send path AppMessage.shutdown_complete c =
    let flags = mark path c.shutdown in
    (record c { shutdown = flags }, send_when (all (λ f. f.1) flags) AppMessage.shutdown_complete)
send path _ c = (c, [])

-- the reports of several applications, by the paths of their mounts
unfoldable pub send_all : AppMessage → List Text → Completed → Completed
send_all message [] c = c
send_all message (path ∷ paths) c = send_all message paths (send path message c).0

-- the messages that each application has been given, by the path of its mount
abbrev pub Queues : Type 0
Queues = List (Text × List Receive)

abbrev pub empty_queues : List Text → Queues
empty_queues paths = map (λ path. (path, [])) paths

unfoldable pub put_all : Receive → Queues → Queues
put_all message [] = []
put_all message ((path, messages) ∷ queues) =
    (path, messages ++ message ∷ []) ∷ put_all message queues

abbrev pub is_shutdown : Receive → Bool
is_shutdown Receive.lifespan_shutdown = true
is_shutdown _ = false

-- the loop of `_handle_lifespan`, over what `receive` gives
unfoldable pub hand_on : List Receive → Queues → Queues
hand_on [] queues = queues
hand_on (message ∷ messages) queues =
    let rest = hand_on messages (put_all message queues) in
    if is_shutdown message then put_all message queues else rest

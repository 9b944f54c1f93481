-- ===== src/Stream.antt =====
-- What the HTTP and the websocket streams share: the things that a stream does outside itself, and
-- the stream in its surroundings.
pub mod Keeps
use nonecorn.Prelude.{ℕ, ◌∷◌, some, none, [], Option, List}
use nonecorn.Exec.{ok, Exec, Action, throw, pure, attribute_error}
use nonecorn.Asgi.{StreamEvent, Receive, Scope, Summary}

-- `self.send`, `self.app_put`, `task_group.spawn_app`, `log.access`, and the task that sends pings.
-- Times are left out.
pub data Output : Type 0 where
  send : StreamEvent → Output
  put : Receive → Output
  spawn_app : Scope → Output
  access : Scope → Option Summary → Output
  spawn_pings : Output

-- The stream and what stands around it.
pub record World (S : Type 0) (W : Type 0) : Type 0 where
  pub stream : S
  pub rest : W

abbrev pub update : {S W : Type 0} → (S → S) → Action (World S W)
update f w = (ok tt, record w { stream = f w.stream })

-- An attribute that may not be set yet.
abbrev pub attribute : {A S : Type 0} → Option A → Exec S A
attribute none = throw attribute_error
attribute (some a) = pure a

-- Outputs that are recorded, newest first.
abbrev pub record_output : {S : Type 0} → Output → Action (World S (List Output))
record_output o w = (ok tt, record w { rest = o ∷ w.rest })

abbrev pub access_entries : List Output → List (Option Summary)
access_entries [] = []
access_entries (access _ summary ∷ os) = summary ∷ access_entries os
access_entries (_ ∷ os) = access_entries os

-- the statuses of the responses that went out
abbrev pub responses : List Output → List ℕ
responses [] = []
responses (send (StreamEvent.response _ _ status_code _) ∷ os) = status_code ∷ responses os
responses (_ ∷ os) = responses os

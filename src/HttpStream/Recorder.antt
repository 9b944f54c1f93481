-- ===== src/HttpStream/Recorder.antt =====
-- A stream whose outputs are recorded, newest first; runs of such a stream; and the order in which
-- the events of a response may go out, as an automaton of its own.
pub mod Grammar
pub mod Content
pub mod Outcomes
pub mod AccessLog
use nonecorn.Prelude.{◌≡◌, false, ◌∷◌, some, none, [], Option, List}
use nonecorn.Exec.{Result, ok, Action}
use nonecorn.Asgi.{RequestEvent, StreamEvent, AppMessage, Config}
use nonecorn.Stream.{Output, World, record_output, send}
use nonecorn.Platform.{Platform}
use nonecorn.HttpStream.{HttpStream, HttpState, handle}
use nonecorn.HttpStream.AppSend.{app_send}

abbrev pub Recorded : Type 0
Recorded = World HttpStream (List Output)

abbrev pub start : HttpStream → Recorded
start s = record { stream = s; rest = [] }

-- Where a response stands.
pub data Phase : Type 0 where
  waiting sending ended : Phase

-- Informational responses come before the response, its content between it and the end of the body,
-- and nothing of it after that. A pushed request and the close of the stream may come at any time.
abbrev pub next_phase : StreamEvent → Phase → Option Phase
next_phase (StreamEvent.informational_response _ _ _) Phase.waiting = some Phase.waiting
next_phase (StreamEvent.response _ _ _ _) Phase.waiting = some Phase.sending
next_phase (StreamEvent.body _ _ _) Phase.sending = some Phase.sending
next_phase (StreamEvent.zero_copy_send _ _ _ _) Phase.sending = some Phase.sending
next_phase (StreamEvent.trailer_headers_send _ _ _) Phase.sending = some Phase.sending
next_phase (StreamEvent.end_body _ _) Phase.sending = some Phase.ended
next_phase (StreamEvent.request _ _) p = some p
next_phase (StreamEvent.stream_closed _) p = some p
next_phase _ p = none

abbrev after_output : Output → Option Phase → Option Phase
after_output (send event) (some p) = next_phase event p
after_output (send event) none = none
after_output _ p = p

-- the phase after these outputs, `none` if their order is wrong
abbrev pub phase_of : List Output → Option Phase
phase_of [] = some Phase.waiting
phase_of (o ∷ os) = after_output o (phase_of os)

-- One call of the stream: by the application, or by the protocol.
pub data Call : Type 0 where
  app : Option AppMessage → Call
  protocol : StreamEvent → Call

unfoldable pub call : Platform → Config → Call → Action Recorded
call env config (app message) = app_send env record_output message
call env config (protocol event) = handle env config record_output event

-- A call that raises leaves its changes, and the next call goes on from there.
unfoldable pub run : Platform → Config → List Call → Recorded → Recorded
run env config [] w = w
run env config (c ∷ cs) w = run env config cs (call env config c w).1

-- A fresh stream that was given its request.
abbrev pub opened : Platform → Config → HttpStream → RequestEvent → Result (Unit {0}) × Recorded
opened env config s event =
    handle env config record_output (StreamEvent.request s.stream_id event) (start s)

abbrev pub IsFresh : HttpStream → Type 0
IsFresh s = (s.closed ≡ false) × (s.state ≡ HttpState.request)

-- ===== src/Websocket/Stream/Recorder.antt =====
-- A websocket's stream whose outputs are recorded, newest first, and its runs.
pub mod Bounded
pub mod BoundedApp
pub mod Accepting
use nonecorn.Prelude.{◌∷◌, [], Option, List}
use nonecorn.Exec.{Action}
use nonecorn.Asgi.{StreamEvent, AppMessage, Config}
use nonecorn.Stream.{Output, World, record_output}
use nonecorn.Platform.{Platform}
use nonecorn.Websocket.Wsproto.{Wsproto}
use nonecorn.Websocket.Stream.{WsStream}
use nonecorn.Websocket.Stream.Handle.{handle}
use nonecorn.Websocket.Stream.AppSend.{app_send, send_ping}

abbrev pub Recorded : Wsproto → Type 0
Recorded ws = World (WsStream ws.Connection) (List Output)

-- One call of the stream: by the application, by the protocol, or by the task that sends pings.
pub data Call : Type 0 where
  app : Option AppMessage → Call
  protocol : StreamEvent → Call
  ping_round : Call

module _ (ws : Wsproto) (env : Platform) (config : Config) where
  unfoldable pub call : Call → Recorded ws → Recorded ws
  call (app message) w = (app_send ws config record_output message w).1
  call (protocol event) w = (handle ws env config record_output event w).1
  call ping_round w = (send_ping ws config record_output w).1

  -- A call that raises leaves its changes, and the next call goes on from there.
  unfoldable pub run : List Call → Recorded ws → Recorded ws
  run [] w = w
  run (c ∷ cs) w = run cs (call c w)

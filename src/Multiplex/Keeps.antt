-- ===== src/Multiplex/Keeps.antt =====
-- What the protocol of several streams keeps while their methods run (protocol/h2.py, protocol/h3.py).
use nonecorn.Prelude.{ℕ, some, none, at_key, Option}
use nonecorn.Exec.{Action}
use nonecorn.Exec.Keeps.{Keeps}
use nonecorn.Stream.{Output, World}
use nonecorn.Stream.Keeps.{Around}
use nonecorn.Asgi.{StreamEvent}
use nonecorn.HttpStream.{HttpStream}
use nonecorn.HttpStream.Keeps.{handle-Keeps as http-handle-Keeps}
use nonecorn.Websocket.Stream.{WsStream}
use nonecorn.Websocket.Stream.Keeps.{handle-Keeps as ws-handle-Keeps}
use nonecorn.Http1.Streams.{Stream}
use nonecorn.Multiplex.{
  Kept, Makers, as_http, as_ws, handle_by, handle_object, http_emit, store, ws_emit,
}

module _ (makers : Makers) {S : Type 0} (kept : Kept makers.ws S) (P : S → Type 0)
    (stores : (id : ℕ) (s : Stream makers.ws) (p : S) → P p → P (store makers kept id s p))
    (notes : (output : Output) → Keeps P (kept.note output)) (send : StreamEvent → Action S)
    (sends : (event : StreamEvent) → Keeps P (send event)) where
  open makers use {ws, env, config}

  http_emit-Keeps :
      (id : ℕ) (output : Output) → Keeps (Around P) (http_emit makers kept send id output)
  unfolding http_emit
  http_emit-Keeps id (Output.send event) = record {
    at = λ w around. record {
      rest = (sends event).at _ (stores id (Stream.http w.stream) w.rest around.rest);
    };
  }
  http_emit-Keeps id _ = record {
    at = λ w around. record { rest = (notes _).at w.rest around.rest };
  }

  ws_emit-Keeps : (id : ℕ) (output : Output) → Keeps (Around P) (ws_emit makers kept send id output)
  unfolding ws_emit
  ws_emit-Keeps id (Output.send event) = record {
    at = λ w around. record {
      rest = (sends event).at _ (stores id (Stream.websocket w.stream) w.rest around.rest);
    };
  }
  ws_emit-Keeps id _ = record { at = λ w around. record { rest = (notes _).at w.rest around.rest } }

  as_http-Keeps :
      (id : ℕ) (m : Action (World HttpStream S)) (s : HttpStream)
      → Keeps (Around P) m
      → Keeps P (as_http makers kept send id m s)
  as_http-Keeps id m s km = record {
    at = λ p h. stores id _ _ (km.at (record { stream = s; rest = p }) (record { rest = h })).rest;
  }

  as_ws-Keeps :
      (id : ℕ) (m : Action (World (WsStream ws.Connection) S)) (s : WsStream ws.Connection)
      → Keeps (Around P) m
      → Keeps P (as_ws makers kept send id m s)
  as_ws-Keeps id m s km = record {
    at = λ p h. stores id _ _ (km.at (record { stream = s; rest = p }) (record { rest = h })).rest;
  }

  handle_by-Keeps :
      (id : ℕ) (event : StreamEvent) (o : Option (Stream ws))
      → Keeps P (handle_by makers kept send id event o)
  unfolding handle_by
  handle_by-Keeps id event none = record { at = λ p h. h }
  handle_by-Keeps id event (some Stream.absent) = record { at = λ p h. h }
  handle_by-Keeps id event (some (Stream.http s)) =
      as_http-Keeps id _ s
        (http-handle-Keeps P (http_emit makers kept send id) (http_emit-Keeps id) env config event)
  handle_by-Keeps id event (some (Stream.websocket s)) =
      as_ws-Keeps id _ s
        (ws-handle-Keeps ws P (ws_emit makers kept send id) (ws_emit-Keeps id) env config event)

  pub handle_object-Keeps :
      (id : ℕ) (event : StreamEvent) → Keeps P (handle_object makers kept send id event)
  unfolding handle_object
  handle_object-Keeps id event = record {
    at = λ p h. (handle_by-Keeps id event (at_key id (kept.objects p))).at p h;
  }

-- ===== src/Websocket/Stream/Recorder/Bounded.antt =====
-- What a websocket hands to its application never passes the configured size.
use nonecorn.Prelude.{
  if◌then◌else◌, Option, false, ◌∷◌, ◌∙◌, refl, [], List, ◌≤◌, ◌≡◌, ◌&&◌, ℕ, true, some, none,
  length, leb, arith, all, Bool,
}
use nonecorn.Bytes.{Bytes}
use nonecorn.Exec.{lift, ◌>>=◌, Exec, Action, continue, when, Result, ok, raise, frame_too_large}
use nonecorn.Asgi.{RequestEvent, StreamEvent, Receive, Config}
use nonecorn.Stream.{attribute, Output, put, record_output}
use nonecorn.Platform.{Platform}
use nonecorn.Websocket.Handshake.{handshake_of}
use nonecorn.Websocket.Wsproto.{Wsproto, WsEvent}
use nonecorn.Websocket.Buffer.{Message, Buffer, extend, clear, to_message}
use nonecorn.Websocket.Buffer.Laws.{size, IsCounted, extend-IsCounted}
use nonecorn.Websocket.Stream.{scope_of, send_error_response, put_app, send_wsproto_event}
use nonecorn.Websocket.Stream.Handle.{
  received, start_app, refuse, handle_content, handle_request, handle_closed, handle_open,
  yield_event, handle_data, handle, handle_ws_events, deliver, after_extend, handle_message,
  handle_ws_event,
}
use nonecorn.Websocket.Stream.Recorder.{Recorded}

-- the message, if the output is one that goes to the application, has at most `max` bytes or
-- characters
abbrev pub fits : ℕ → Output → Bool
fits max (put (Receive.ws_receive (some b) (some t))) = leb (length b) max && leb (length t) max
fits max (put (Receive.ws_receive (some b) none)) = leb (length b) max
fits max (put (Receive.ws_receive none (some t))) = leb (length t) max
fits max _ = true

pub record IsBounded (ws : Wsproto) (max : ℕ) (w : Recorded ws) : Type 0 where
  pub counted : IsCounted w.stream.buffer
  pub limit : w.stream.buffer.max_length ≡ max
  pub fitting : all (fits max) w.rest ≡ true

module _ (ws : Wsproto) (max : ℕ) where
  pub send-IsBounded :
      (w : Recorded ws) (event : WsEvent)
      → IsBounded ws max w
      → IsBounded ws max (send_wsproto_event ws record_output event w).1
  unfolding send_wsproto_event
  send-IsBounded w event h = ground arith

  put-IsBounded :
      (w : Recorded ws) (message : Receive)
      → fits max (put message) ≡ true
      → IsBounded ws max w
      → IsBounded ws max (put_app ws record_output message w).1
  unfolding put_app
  put-IsBounded w message f h = ground arith

  fits-to_message : (b : Buffer) → size b.value ≤ max → fits max (put (to_message b)) ≡ true
  unfolding to_message
  fits-to_message b h = ground arith

  deliver-IsBounded :
      (env : Platform) (config : Config) (w : Recorded ws) (finished : Bool)
      → w.stream.buffer.length ≤ max
      → IsBounded ws max w
      → IsBounded ws max (deliver ws env config record_output finished w).1
  unfolding deliver put_app clear
  deliver-IsBounded env config w finished f h = ground (arith, fits-to_message w.stream.buffer)

  after-IsBounded :
      (env : Platform) (config : Config) (finished : Bool) (r : Result (Unit {0})) (w : Recorded ws)
      → (r ≡ ok tt → w.stream.buffer.length ≤ max)
      → IsBounded ws max w
      → IsBounded ws max (after_extend ws env config record_output finished r w).1
  unfolding after_extend
  after-IsBounded env config finished (ok x) w f h =
      ground (arith, deliver-IsBounded env config w finished (f refl))
  after-IsBounded env config finished (raise frame_too_large) w f h =
      ground (arith, send-IsBounded w (WsEvent.close_connection ws.message_too_big none))
  after-IsBounded env config finished (raise e) w f h = h

  message-IsBounded :
      (env : Platform) (config : Config) (w : Recorded ws) (m : Message) (finished : Bool)
      → IsBounded ws max w
      → IsBounded ws max (handle_message ws env config record_output m finished w).1
  unfolding handle_message
  message-IsBounded env config w m finished h =
      let (r, b) = extend m w.stream.buffer in
      let (counted, same_limit, within, _) = extend-IsCounted m w.stream.buffer h.counted in
      after-IsBounded env config finished r (record w { stream = record (w.stream) { buffer = b } })
        (λ e. ground (arith, within e))
        (record { counted = counted; limit = same_limit ∙ h.limit; fitting = h.fitting })

  event-IsBounded :
      (env : Platform) (config : Config) (w : Recorded ws) (event : WsEvent)
      → IsBounded ws max w
      → IsBounded ws max (handle_ws_event ws env config record_output event w).1
  unfolding handle_ws_event
  event-IsBounded env config w (WsEvent.text_message t finished) h =
      message-IsBounded env config w (Message.text t) finished h
  event-IsBounded env config w (WsEvent.bytes_message b finished) h =
      message-IsBounded env config w (Message.binary b) finished h
  event-IsBounded env config w (WsEvent.ping payload) h = ground (
    arith,
    send-IsBounded w (ws.response (WsEvent.ping payload)),
    put-IsBounded w (Receive.ws_ping payload),
  )
  event-IsBounded env config w (WsEvent.pong payload) h =
      ground (arith, put-IsBounded w (Receive.ws_pong payload))
  event-IsBounded env config w (WsEvent.close_connection code reason) h =
      ground (arith, send-IsBounded w (ws.response (WsEvent.close_connection code reason)))

  pub continue-IsBounded :
      {A B : Type 0} (r : Result A) (f : A → Exec (Recorded ws) B) (w : Recorded ws)
      → IsBounded ws max w
      → ((a : A) → IsBounded ws max (f a w).1)
      → IsBounded ws max (continue r f w).1
  continue-IsBounded (ok a) f w h k = k a
  continue-IsBounded (raise e) f w h k = h

  pub when-IsBounded :
      (b : Bool) (m : Action (Recorded ws)) (w : Recorded ws)
      → IsBounded ws max w
      → IsBounded ws max (m w).1
      → IsBounded ws max (when b m w).1
  when-IsBounded true m w h k = k
  when-IsBounded false m w h k = h

  pub if-IsBounded :
      (b : Bool) (m n : Action (Recorded ws)) (w : Recorded ws)
      → IsBounded ws max (m w).1
      → IsBounded ws max (n w).1
      → IsBounded ws max ((if b then m else n) w).1
  if-IsBounded true m n w h k = h
  if-IsBounded false m n w h k = k

  yield-IsBounded :
      (env : Platform) (config : Config) (w : Recorded ws) (event : WsEvent)
      → IsBounded ws max w
      → IsBounded ws max (yield_event ws env config record_output event w).1
  unfolding yield_event
  yield-IsBounded env config w event h = ground arith

  events-IsBounded :
      (env : Platform) (config : Config) (events : List WsEvent) (w : Recorded ws)
      → IsBounded ws max w
      → IsBounded ws max (handle_ws_events ws env config record_output events w).1
  unfolding handle_ws_events
  events-IsBounded env config [] w h = h
  events-IsBounded env config (event ∷ events) w h =
      let (r, w') = yield_event ws env config record_output event w in
      let h' = yield-IsBounded env config w event h in
      let (r', w2) = handle_ws_event ws env config record_output event w' in
      let h2 = event-IsBounded env config w' event h' in
      continue-IsBounded r _ w' h' (λ _.
        continue-IsBounded r' _ w2 h2
          (λ more. when-IsBounded more _ w2 h2 (events-IsBounded env config events w2 h2)))

  pub attribute-IsBounded :
      {A B : Type 0} (o : Option A) (f : A → Exec (Recorded ws) B) (w : Recorded ws)
      → IsBounded ws max w
      → ((a : A) → IsBounded ws max (f a w).1)
      → IsBounded ws max ((attribute o >>= f) w).1
  attribute-IsBounded none f w h k = h
  attribute-IsBounded (some a) f w h k = k a

  lift-IsBounded :
      {A B : Type 0} (r : Result A) (f : A → Exec (Recorded ws) B) (w : Recorded ws)
      → IsBounded ws max w
      → ((a : A) → IsBounded ws max (f a w).1)
      → IsBounded ws max ((lift r >>= f) w).1
  lift-IsBounded (raise e) f w h k = h
  lift-IsBounded (ok a) f w h k = k a

  data-IsBounded :
      (env : Platform) (config : Config) (bytes : Bytes) (w : Recorded ws)
      → IsBounded ws max w
      → IsBounded ws max (handle_data ws env config record_output bytes w).1
  unfolding handle_data
  data-IsBounded env config bytes w h = attribute-IsBounded w.stream.connection _ w h (λ c.
      lift-IsBounded (received (ws.receive_data bytes c)) _ w h (λ c'.
        events-IsBounded env config (ws.events c')
          (record w { stream = record (w.stream) { connection = some c' } })
          (record { counted = h.counted; limit = h.limit; fitting = h.fitting })))

  refuse-IsBounded :
      (env : Platform) (config : Config) (status : ℕ) (w : Recorded ws)
      → IsBounded ws max w
      → IsBounded ws max (refuse ws env config record_output status w).1
  unfolding refuse send_error_response
  refuse-IsBounded env config status w h = ground arith

  content-IsBounded :
      (env : Platform) (config : Config) (bytes : Bytes) (w : Recorded ws)
      → IsBounded ws max w
      → IsBounded ws max (handle_content ws env config record_output bytes w).1
  unfolding handle_content
  content-IsBounded env config bytes w h = attribute-IsBounded w.stream.shake _ w h (λ shake.
      if-IsBounded shake.accepted _ _ w (data-IsBounded env config bytes w h)
        (refuse-IsBounded env config 400 w h))

  start_app-IsBounded :
      (env : Platform) (config : Config) (w : Recorded ws)
      → IsBounded ws max w
      → IsBounded ws max (start_app ws env config record_output w).1
  unfolding start_app put_app
  start_app-IsBounded env config w h = ground arith

  request-IsBounded :
      (env : Platform) (config : Config) (event : RequestEvent) (w : Recorded ws)
      → IsBounded ws max w
      → IsBounded ws max (handle_request ws env config record_output event w).1
  unfolding handle_request
  request-IsBounded env config event w h =
      lift-IsBounded (handshake_of ws event.headers event.http_version) _ w h (λ shake.
        let shaken = record (w.stream) { shake = some shake } in
        let w' : Recorded ws = record w {
          stream = record shaken { scope = some (scope_of env config shaken shake event) };
        } in
        ground (
          arith,
          refuse-IsBounded env config 404 w',
          refuse-IsBounded env config 400 w',
          start_app-IsBounded env config w',
        ))

  closed-IsBounded :
      (env : Platform) (config : Config) (w : Recorded ws)
      → IsBounded ws max w
      → IsBounded ws max (handle_closed ws env config record_output w).1
  unfolding handle_closed
  closed-IsBounded env config w h = ground arith

  open-IsBounded :
      (env : Platform) (config : Config) (event : StreamEvent) (w : Recorded ws)
      → IsBounded ws max w
      → IsBounded ws max (handle_open ws env config record_output event w).1
  unfolding handle_open
  open-IsBounded env config (StreamEvent.request id event) w h =
      request-IsBounded env config event w h
  open-IsBounded env config (StreamEvent.body id bytes flush) w h =
      content-IsBounded env config bytes w h
  open-IsBounded env config (StreamEvent.ws_data id bytes flush) w h =
      content-IsBounded env config bytes w h
  open-IsBounded env config (StreamEvent.stream_closed id) w h = closed-IsBounded env config w h
  open-IsBounded env config _ w h = h

  pub handle-IsBounded :
      (env : Platform) (config : Config) (w : Recorded ws) (event : StreamEvent)
      → IsBounded ws max w
      → IsBounded ws max (handle ws env config record_output event w).1
  unfolding handle
  handle-IsBounded env config w event h =
      if-IsBounded w.stream.closed (λ w. (ok tt, w)) (handle_open ws env config record_output event)
        w h (open-IsBounded env config event w h)

-- ===== src/HttpStream/Recorder/Outcomes.antt =====
-- Which messages a stream refuses, and what the end of the application and the close of the stream do.
use nonecorn.Prelude.{
  ◌∙◌, ◌↔◌, true, sym, refl, none, get_or, ap, Bool-cases, All, ◌≢◌, ◌≡◌, ◌∷◌, ◌&&◌, some, inr, inl,
  false, arith, [], Option, List, Bool,
}
use mathlib.Core.Bool.{false≢true}
use nonecorn.HttpStream.Recorder.Content.{send_chunks_ok}
use nonecorn.Exec.{Result, ok, raise, unexpected_message}
use nonecorn.Exec.Results.{Result-cases}
use nonecorn.Asgi.{StreamEvent, AppMessage, Config, Scope, Header}
use nonecorn.Bytes.{Text}
use nonecorn.Stream.{record_output, responses, send}
use nonecorn.Platform.{Platform}
use nonecorn.Utils.Headers.{is_pseudo, build_and_validate_headers}
use nonecorn.HttpStream.{
  log_access, HttpStream, HttpState, handle, send_event, is_request, is_response, is_push_version,
}
use nonecorn.HttpStream.AppSend.{
  app_send, app_message, finish_response, send_path, send_trailers, close_after_trailers,
}
use nonecorn.HttpStream.Recorder.{Recorded, Phase, phase_of, Call, call, run, app, protocol}

-- The messages that a stream takes, by the state and the HTTP version.
abbrev pub takes : HttpState → Text → AppMessage → Bool
takes st version (AppMessage.http_start _) = is_request st
takes st version (AppMessage.http_push _) = is_push_version version
takes st version (AppMessage.http_early_hint _) = is_push_version version && is_request st
takes st version (AppMessage.http_body _) = is_response st
takes st version (AppMessage.http_zerocopysend _) = is_response st
takes st version (AppMessage.http_pathsend _) = is_response st
takes st version (AppMessage.http_trailers _) = is_response st
takes st version _ = false

abbrev pub IsExpected : Result (Unit {0}) → Type 0
IsExpected r = r ≢ raise unexpected_message

build-ne-unexpected :
    (headers : List Header) → build_and_validate_headers headers ≢ raise unexpected_message
unfolding build_and_validate_headers is_pseudo
build-ne-unexpected [] = cc
build-ne-unexpected (([], value) ∷ headers) = cc
build-ne-unexpected ((c ∷ name, value) ∷ headers) =
    elim (Result-cases (build_and_validate_headers headers)) [
      | inl (out, e) ↦ ground (arith, e)
      | inr (x, e) ↦ ground (arith, e, build-ne-unexpected headers)
    ]

module _ (env : Platform) where
  finish-IsExpected :
      (w : Recorded) (more : Option Bool) (headers : List Header)
      → IsExpected (finish_response env record_output more headers w).0
  unfolding finish_response send_event log_access
  finish-IsExpected w more headers = ground arith

  refused :
      (w : Recorded) (scope : Scope) (m : AppMessage)
      → w.stream.scope ≡ some scope
      → takes w.stream.state scope.http_version m ≡ false
      → app_message env record_output m w ≡ (raise unexpected_message, w)
  unfolding app_message
  refused w scope (AppMessage.http_start m) s t = ground arith
  refused w scope _ s t = ground arith

  send_path-ok :
      (w : Recorded) (scope : Scope) (path : Text)
      → (send_path env record_output scope path w).0 ≡ ok tt
  unfolding send_path send_event
  send_path-ok w scope path = ground (arith, send_chunks_ok env (env.read_chunks path) w)

  send_trailers-IsExpected :
      (w : Recorded) (scope : Scope) (m : _)
      → IsExpected (send_trailers env record_output scope m w).0
  unfolding send_trailers send_event
  send_trailers-IsExpected w scope m =
      elim (Result-cases (build_and_validate_headers (get_or m.headers []))) [
        | inl (out, e) ↦ ground (arith, e)
        | inr (x, e) ↦ ground (arith, e, build-ne-unexpected (get_or m.headers []))
      ]

  close_after_trailers-ok :
      (w : Recorded) (scope : Scope) → (close_after_trailers env record_output scope w).0 ≡ ok tt
  unfolding close_after_trailers send_event
  close_after_trailers-ok w scope = ground arith

  expected :
      (w : Recorded) (scope : Scope) (m : AppMessage)
      → w.stream.scope ≡ some scope
      → takes w.stream.state scope.http_version m ≡ true
      → IsExpected (app_message env record_output m w).0
  unfolding app_message send_event
  expected w scope (AppMessage.http_start m) s t =
      ground (arith, build-ne-unexpected (get_or m.headers []))
  expected w scope (AppMessage.http_push m) s t = ground (arith, build-ne-unexpected m.headers)
  expected w scope (AppMessage.http_early_hint m) s t = ground arith
  expected w scope (AppMessage.http_body m) s t = ground (
    arith,
    finish-IsExpected w m.more_body (get_or m.headers []),
    finish-IsExpected
        (record w {
          rest =
              send
                (StreamEvent.body w.stream.stream_id (get_or m.content []) (get_or m.flush false))
              ∷ w.rest;
        })
        m.more_body (get_or m.headers []),
  )
  expected w scope (AppMessage.http_zerocopysend m) s t = ground (
    arith,
    finish-IsExpected w m.more_body (get_or m.headers []),
    finish-IsExpected
        (record w {
          rest =
              send (StreamEvent.zero_copy_send w.stream.stream_id m.file m.offset m.count) ∷ w.rest;
        })
        m.more_body (get_or m.headers []),
  )
  expected w scope (AppMessage.http_pathsend m) s t = ground (
    arith,
    finish-IsExpected w m.more_body [],
    finish-IsExpected (send_path env record_output scope m.path w).1 m.more_body [],
    send_path-ok w scope m.path,
  )
  expected w scope (AppMessage.http_trailers m) s t = ground (
    arith,
    send_trailers-IsExpected w scope m,
    close_after_trailers-ok (send_trailers env record_output scope m w).1 scope,
  )
  expected w scope _ s t = cc

-- A message is refused exactly when the stream's state and the HTTP version do not take it, and a
-- refused message changes nothing and sends nothing.
pub app_message-refused_iff :
    (env : Platform) (w : Recorded) (scope : Scope) (m : AppMessage)
    → w.stream.scope ≡ some scope
    → let (r, w') = app_message env record_output m w in
      ((r ≡ raise unexpected_message) ↔ (takes w.stream.state scope.http_version m ≡ false))
      × (r ≡ raise unexpected_message → w' ≡ w)
app_message-refused_iff env w scope m s =
    elim (Bool-cases (takes w.stream.state scope.http_version m)) [
      | inl t ↦ (
        (λ e. absurd (expected env w scope m s t e), λ f. absurd (false≢true (sym f ∙ t))),
        λ e. absurd (expected env w scope m s t e),
      )
      | inr f ↦
          let e = refused env w scope m s f in
          ((λ _. f, λ _. ap (λ p. p.0) e), λ _. ap (λ p. p.1) e)
    ]

-- what the end of the application adds to the responses: a 500, where none has been started
abbrev pub IsAnswered : Recorded → Recorded → Type 0
IsAnswered w w' =
    (phase_of w.rest ≡ some Phase.waiting → responses w'.rest ≡ 500 ∷ responses w.rest)
    × (phase_of w.rest ≢ some Phase.waiting → responses w'.rest ≡ responses w.rest)

-- The calls that a closed stream ignores.
abbrev pub IsAfterClose : Call → Type 0
IsAfterClose (app (some _)) = ⊥
IsAfterClose _ = Unit

-- A closed stream ignores the protocol and the application's return: no run of such calls changes it
-- or sends anything.
pub run-closed :
    (env : Platform) (config : Config) (calls : List Call) (w : Recorded)
    → All IsAfterClose calls
    → w.stream.closed ≡ true
    → run env config calls w ≡ w
unfolding run call app_send handle
run-closed env config [] w k c = refl
run-closed env config (app (some m) ∷ cs) w k c = absurd k.0
run-closed env config (app none ∷ cs) w k c = simp c (run-closed env config cs w k.1 c)
run-closed env config (protocol event ∷ cs) w k c = simp c (run-closed env config cs w k.1 c)

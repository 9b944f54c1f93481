-- ===== src/Wsgi/Response/Laws.antt =====
-- What the body of a WSGI request is, and what a run of a WSGI application sends.
use nonecorn.Prelude.{
  ap, ◌∙◌, some, ◌≡◌, ◌∷◌, ◌++◌, ℕ, refl, if◌then◌else◌, arith, [], List, length, true, false, map,
  ltb, append_assoc, append-nil, length-append,
}
use mathlib.Core.List.{reverse_aux}
use nonecorn.Bytes.{Bytes, Text}
use nonecorn.Exec.{Result, ok, raise}
use nonecorn.Asgi.{Header, Receive, Scope, AppMessage}
use nonecorn.Wsgi.Environ.{Environ, build_environ}
use nonecorn.Wsgi.Start.{Strings, status_of, encode_headers}
use nonecorn.Wsgi.Response.{
  Reading, read_body, body_of, more_of, Step, Running, run_app, run_step, start_of, body_message,
  handle_http, serve, handle_read, end_app,
}

abbrev pub part : Bytes → Receive
part body = Receive.http_request body true

abbrev pub joined : List Bytes → Bytes
joined [] = []
joined (c ∷ cs) = c ++ joined cs

read_body_from :
    (max : ℕ) (body : Bytes) (parts : List Bytes) (last : Receive) (later : List Receive)
    → more_of last ≡ false
    → let whole = body ++ (joined parts ++ body_of last) in
      read_body max body (map part parts ++ last ∷ later)
      ≡ (if ltb max (length whole) then Reading.too_large else Reading.complete whole)
unfolding read_body
read_body_from max body [] last later h = ground (arith, h)
read_body_from max body (c ∷ parts) last later h = ground (
  arith,
  read_body_from max (body ++ c) parts last later h,
  append_assoc body c (joined parts ++ body_of last),
  append_assoc c (joined parts) (body_of last),
  length-append (body ++ c) (joined parts ++ body_of last),
)

-- The body of a request that comes in parts is the parts joined in their order, and is refused just
-- when it is longer than the limit.
pub read_body_lem :
    (max : ℕ) (parts : List Bytes) (last : Bytes) (later : List Receive)
    → let whole = joined parts ++ last in
      read_body max [] (map part parts ++ Receive.http_request last false ∷ later)
      ≡ (if ltb max (length whole) then Reading.too_large else Reading.complete whole)
read_body_lem max parts last later =
    read_body_from max [] parts (Receive.http_request last false) later refl

-- A client that goes away in the middle of a body that is within the limit leaves the part that came
-- before as the whole body, with which the application is run.
pub read_body-truncates :
    (max : ℕ) (parts : List Bytes) (later : List Receive)
    → ltb max (length (joined parts)) ≡ false
    → read_body max [] (map part parts ++ Receive.http_disconnect ∷ later)
      ≡ Reading.complete (joined parts)
read_body-truncates max parts later h = ground (
  arith,
  read_body_from max [] parts Receive.http_disconnect later refl,
  append-nil (joined parts),
)

abbrev pub part_of : Bytes → AppMessage
part_of chunk = body_message chunk true

run_app-chunks :
    (strings : Strings) (r : Running) (chunks : List Bytes)
    → r.first_chunk ≡ false
    → let (result, r') = run_app strings (map Step.chunk chunks) r in
      (result ≡ ok tt) × (r'.sent ≡ reverse_aux (map part_of chunks) r.sent)
unfolding run_app run_step
run_app-chunks strings r [] h = (refl, refl)
run_app-chunks strings r (chunk ∷ chunks) h =
    let r' : Running = record r { sent = part_of chunk ∷ r.sent } in
    ground (arith, h, run_app-chunks strings r' chunks h)

reverse_aux-reverse_aux :
    {A : Type 0} (xs ys zs : List A)
    → reverse_aux (reverse_aux xs ys) zs ≡ reverse_aux ys (xs ++ zs)
reverse_aux-reverse_aux [] ys zs = refl
reverse_aux-reverse_aux (x ∷ xs) ys zs = reverse_aux-reverse_aux xs (x ∷ ys) zs

end_app_lem :
    (strings : Strings) (p : Result (Unit {0}) × Running) (messages : List AppMessage)
    → p.0 ≡ ok tt
    → p.1.sent ≡ messages
    → end_app strings p ≡ (some (ok tt), reverse_aux messages (body_message [] false ∷ []))
unfolding end_app
end_app_lem strings (ok x, r) messages h e =
    ap (λ ms. (some (ok tt), reverse_aux ms (body_message [] false ∷ []))) e
end_app_lem strings (raise x, r) messages h e = cc

-- An application that starts its response, and then hands out one chunk at least, has the start of
-- the response sent with its status and headers, then each chunk in its order, and then the end.
pub handle_http-chunks :
    (strings : Strings) (max : ℕ) (scope : Scope) (app : Environ → List Step)
    (messages : List Receive) (body : Bytes) (environ : Environ) (status : Text)
    (headers : List (Text × Text)) (code : ℕ) (encoded : List Header) (chunk : Bytes)
    (chunks : List Bytes)
    → read_body max [] messages ≡ Reading.complete body
    → build_environ strings.upper scope body ≡ ok environ
    → app environ ≡ Step.start_response status headers ∷ map Step.chunk (chunk ∷ chunks)
    → status_of strings status ≡ ok code
    → encode_headers strings headers ≡ ok encoded
    → handle_http strings max app scope messages ≡ (
      some (ok tt),
      start_of code encoded ∷ map part_of (chunk ∷ chunks) ++ body_message [] false ∷ [],
    )
unfolding handle_http handle_read serve run_app run_step
handle_http-chunks strings max scope app messages body environ status headers code encoded chunk
      chunks rd be ae se ee =
    let r : Running = record {
      status_code = code;
      headers = encoded;
      response_started = true;
      first_chunk = false;
      sent = part_of chunk ∷ start_of code encoded ∷ [];
    } in
    let (done, sent) = run_app-chunks strings r chunks refl in
    rw (rd, be, ae, se, ee)
      (end_app_lem strings (run_app strings (map Step.chunk chunks) r) _ done sent
        ∙ ap (λ (ms : List AppMessage). (some (ok tt), ms))
            (reverse_aux-reverse_aux (map part_of chunks)
              (part_of chunk ∷ start_of code encoded ∷ []) (body_message [] false ∷ [])))

-- An application that starts its response and hands out no chunk has no start of the response sent:
-- the one message is the end of a body.
pub handle_http-empty :
    (strings : Strings) (max : ℕ) (scope : Scope) (app : Environ → List Step)
    (messages : List Receive) (body : Bytes) (environ : Environ) (status : Text)
    (headers : List (Text × Text)) (code : ℕ) (encoded : List Header)
    → read_body max [] messages ≡ Reading.complete body
    → build_environ strings.upper scope body ≡ ok environ
    → app environ ≡ Step.start_response status headers ∷ []
    → status_of strings status ≡ ok code
    → encode_headers strings headers ≡ ok encoded
    → handle_http strings max app scope messages ≡ (some (ok tt), body_message [] false ∷ [])
unfolding handle_http handle_read serve end_app run_app run_step
handle_http-empty strings max scope app messages body environ status headers code encoded rd be ae
      se ee =
    rw (rd, be, ae, se, ee) refl

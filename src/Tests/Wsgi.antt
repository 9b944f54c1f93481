-- ===== src/Tests/Wsgi.antt =====
-- WSGI applications behind a mount point.
use nonecorn.Prelude.{
  false, ◌*◌, ◌+◌, ◌≡◌, ◌∷◌, ◌-◌, ◌&&◌, ℕ, some, none, refl, if◌then◌else◌, leb, [], List, map,
}
use nonecorn.Bytes.{partition, Text, codes, same, starts_with}
use nonecorn.Exec.{ok}
use nonecorn.Asgi.{Header, Receive, Scope}
use nonecorn.Utils.Utf8.{encode_utf8}
use nonecorn.HttpStream.{init, scope_of}
use nonecorn.Wsgi.Environ.{
  Environ, path_info_of, corrected_name, add_header, add_headers, build_environ,
}
use nonecorn.Wsgi.Start.{Strings, status_of, encode_headers}
use nonecorn.Wsgi.Response.{read_body, Step, handle_http, start_of, body_message}
use nonecorn.Wsgi.Response.Laws.{handle_http-chunks, part_of}
use nonecorn.Tests.Data.{env, config, request_of, host_headers}

-- `int` of a text of ASCII digits
abbrev digits : ℕ → Text → ℕ
digits n [] = n
digits n (c ∷ s) = digits (n * 10 + (c - 48)) s

abbrev strings : Strings
strings = record {
  int = λ s. some (digits 0 s);
  lower = map (λ c. if leb 65 c && leb c 90 then c + 32 else c);
  upper = map (λ c. if leb 97 c && leb c 122 then c - 32 else c);
}

abbrev scope : Scope
scope =
    scope_of env config (init false none none 1 false)
      (request_of (codes "GET") (codes "1.1") host_headers)

abbrev two_headers : List Header
two_headers = (codes "x-a", codes "1") ∷ (codes "accept", codes "b") ∷ (codes "X_A", codes "2") ∷ []

abbrev environ : Environ
environ = record {
  request_method = codes "GET";
  script_name = [];
  path_info = codes "/a";
  query_string = codes "b=c";
  server = (codes "localhost", 80);
  server_protocol = codes "HTTP/1.1";
  url_scheme = codes "http";
  input = codes "abc";
  remote_addr = none;
  headers = (codes "HTTP_HOST", codes "example.org") ∷ (codes "HTTP_TE", codes "trailers") ∷ [];
}

abbrev messages : List Receive
messages = Receive.http_request (codes "abc") false ∷ []

handle_http-chunks_example :
    handle_http strings 8
      (λ e.
        Step.start_response (codes "200 OK") ((codes "A", codes "b") ∷ [])
        ∷ Step.chunk e.input
        ∷ Step.chunk []
        ∷ [])
      scope
      messages
    ≡ (
      some (ok tt),
      start_of 200 ((codes "a", codes "b") ∷ [])
          ∷ part_of (codes "abc")
          ∷ part_of []
          ∷ body_message [] false
          ∷ [],
    )
unfolding partition read_body build_environ path_info_of scope_of init add_header add_headers
    corrected_name same starts_with status_of encode_headers encode_utf8
handle_http-chunks_example =
    handle_http-chunks strings 8 scope
      (λ e.
        Step.start_response (codes "200 OK") ((codes "A", codes "b") ∷ [])
        ∷ Step.chunk e.input
        ∷ Step.chunk []
        ∷ [])
      messages (codes "abc") environ (codes "200 OK") ((codes "A", codes "b") ∷ []) 200
      ((codes "a", codes "b") ∷ []) (codes "abc") ([] ∷ []) refl refl refl refl refl

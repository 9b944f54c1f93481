-- ===== src/Tests/AccessLog.antt =====
-- The access log of a request.
use nonecorn.Prelude.{◌∷◌, some, none, false, []}
use nonecorn.Bytes.{codes, lower}
use nonecorn.Asgi.{Scope}
use nonecorn.AccessLog.{Machine, Timing}
use nonecorn.HttpStream.{scope_of}
use nonecorn.HttpStream.{init as init_http}
use nonecorn.Tests.Data.{env, config, request_of, host_headers}

abbrev machine : Machine
machine = record {
  lower = lower;
  environ = (codes "HOST", codes "localhost") ∷ [];
  phrase = λ status. some (codes "OK");
  show = λ n. codes "200";
  pid = codes "1";
}

abbrev timing : Timing
timing = record { now = codes "[now]"; exact = codes "0.5"; seconds = 0; microseconds = 500000 }

abbrev request : Scope
request =
    scope_of env config (init_http false none none 1 false)
      (request_of (codes "GET") (codes "1.1") host_headers)

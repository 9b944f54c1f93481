-- ===== src/Tests/Middleware.antt =====
-- Middleware in front of applications.
use nonecorn.Prelude.{◌∷◌, ◌++◌, none, false, [], List}
use nonecorn.Bytes.{codes, same, lower, split, starts_with, partition, strip_latin1}
use nonecorn.Asgi.{Header, Scope}
use nonecorn.Utils.Utf8.{encode_utf8}
use nonecorn.HttpStream.{init, scope_of}
use nonecorn.Middleware.ProxyFix.{values_of}
use nonecorn.Tests.Data.{env, config, request_of, host_headers}

abbrev forged : List Header
forged = (codes "X-Forwarded-Host", codes "evil.org") ∷ host_headers

abbrev by_proxy : List Header
by_proxy = (codes "x-forwarded-host", codes "example.org, inner") ∷ []

abbrev scope : Scope
scope =
    scope_of env config (init false none none 1 false)
      (request_of (codes "GET") (codes "1.1") (forged ++ by_proxy))

-- what the headers compute with
text : Unit {0}
unfolding same lower split starts_with partition strip_latin1 encode_utf8 init scope_of values_of
text = tt

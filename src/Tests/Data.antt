-- ===== src/Tests/Data.antt =====
-- Concrete values: a platform, a configuration, a request, a fresh stream.
use nonecorn.Prelude.{◌∷◌, true, none, false, [], List}
use nonecorn.Bytes.{Text, codes}
use nonecorn.Asgi.{Config, RequestEvent, Header}
use nonecorn.Platform.{EventLoop, Platform}

abbrev pub uvloop : EventLoop
uvloop = record {
  version_at_least_3_7 = true;
  has_proactor = false;
  is_proactor = false;
  is_selector = false;
  has_os_sendfile = true;
}

abbrev pub env : Platform
env = record {
  loop = uvloop;
  unquote = λ t. t;
  path_exists = λ t. true;
  open_fd = λ t. 7;
  read_chunks = λ t. codes "chunk" ∷ codes "ed" ∷ [];
}

abbrev pub config : Config
config = record {
  root_path = [];
  server_names = codes "example.org" ∷ [];
  websocket_max_message_size = 8;
  handle_ws_ping = true;
  websocket_ping_interval = none;
}

abbrev pub request_of : Text → Text → List Header → RequestEvent
request_of method version headers = record {
  headers = headers;
  http_version = version;
  method = method;
  raw_path = codes "/a?b=c";
  state = [];
}

abbrev pub host_headers : List Header
host_headers = (codes "Host", codes "example.org") ∷ (codes "te", codes "trailers") ∷ []

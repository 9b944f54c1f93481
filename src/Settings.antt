-- ===== src/Settings.antt =====
-- The options of the command line (__main__.py), and the attributes of a Config that they set
-- (config.py).
use nonecorn.Prelude.{◌∷◌, ℕ, true, none, false, [], Option, List, Bool}
use nonecorn.Bytes.{Text, codes}

-- what the parser leaves for an option: the object `sentinel`, where it was not given
pub data Arg {ℓ} (A : Type ℓ) : Type ℓ where
  sentinel : Arg A
  given : A → Arg A

pub data ℤ : Type 0 where
  pos negsuc : ℕ → ℤ

-- a Python object in an attribute. `seconds` is a multiple of SECONDS, which is a float, and `other`
-- an object that the code only passes on.
pub data Value (Object : Type 0) : Type 0 where
  null no_argument : Value Object
  text : Text → Value Object
  integer : ℤ → Value Object
  seconds : ℕ → Value Object
  flag : Bool → Value Object
  strings : List Text → Value Object
  other : Object → Value Object

module _ (Object : Type 0) where
  -- the destinations of the parser's options, by the types of what they are converted to
  pub record Args : Type 0 where
    pub application : Text
    pub config : Option Text
    pub log_level : Arg Text
    pub access_logformat : Arg Text
    pub access_log : Arg Text
    pub access_logfile : Arg Text
    pub backlog : Arg ℤ
    pub ca_certs : Arg Text
    pub certfile : Arg Text
    pub ciphers : Arg Text
    pub daemon : Arg Bool
    pub debug : Arg Bool
    pub error_log : Arg Text
    pub error_logfile : Arg Text
    pub graceful_timeout : Arg ℤ
    pub read_timeout : Arg ℤ
    pub group : Arg ℤ
    pub keep_alive : Arg ℤ
    pub keyfile : Arg Text
    pub keyfile_password : Arg Text
    pub log_config : Arg Text
    pub max_requests : Arg ℤ
    pub max_requests_jitter : Arg ℤ
    pub pid : Arg Text
    pub root_path : Arg Text
    pub reload : Arg Bool
    pub statsd_host : Arg Text
    pub statsd_prefix : Text
    pub umask : Arg ℤ
    pub user : Arg ℤ
    pub worker_class : Arg Text
    pub websocket_ping_interval : Arg ℤ
    pub workers : Arg ℤ
    pub cert_reqs : Arg ℤ
    pub verify_mode : Arg Object
    pub binds : List Text
    pub insecure_binds : List Text
    pub quic_binds : List Text
    pub server_names : List Text

  -- the attributes that the command line sets
  pub record Config : Type 0 where
    pub application_path : Value Object
    pub loglevel : Value Object
    pub access_log_format : Value Object
    pub accesslog : Value Object
    pub backlog : Value Object
    pub ca_certs : Value Object
    pub certfile : Value Object
    pub ciphers : Value Object
    pub daemon : Value Object
    pub debug : Value Object
    pub errorlog : Value Object
    pub graceful_timeout : Value Object
    pub read_timeout : Value Object
    pub group : Value Object
    pub keep_alive_timeout : Value Object
    pub keyfile : Value Object
    pub keyfile_password : Value Object
    pub logconfig : Value Object
    pub max_requests : Value Object
    pub max_requests_jitter : Value Object
    pub pid_path : Value Object
    pub root_path : Value Object
    pub use_reloader : Value Object
    pub statsd_host : Value Object
    pub statsd_prefix : Value Object
    pub umask : Value Object
    pub user : Value Object
    pub worker_class : Value Object
    pub websocket_ping_interval : Value Object
    pub workers : Value Object
    pub verify_mode : Value Object
    pub bind : Value Object
    pub insecure_bind : Value Object
    pub quic_bind : Value Object
    pub server_names : Value Object

  -- what the parser leaves where only the application is given
  abbrev pub no_args : Text → Args
  no_args application = record {
    application = application;
    config = none;
    log_level = Arg.sentinel;
    access_logformat = Arg.sentinel;
    access_log = Arg.sentinel;
    access_logfile = Arg.sentinel;
    backlog = Arg.sentinel;
    ca_certs = Arg.sentinel;
    certfile = Arg.sentinel;
    ciphers = Arg.sentinel;
    daemon = Arg.sentinel;
    debug = Arg.sentinel;
    error_log = Arg.sentinel;
    error_logfile = Arg.sentinel;
    graceful_timeout = Arg.sentinel;
    read_timeout = Arg.sentinel;
    group = Arg.sentinel;
    keep_alive = Arg.sentinel;
    keyfile = Arg.sentinel;
    keyfile_password = Arg.sentinel;
    log_config = Arg.sentinel;
    max_requests = Arg.sentinel;
    max_requests_jitter = Arg.sentinel;
    pid = Arg.sentinel;
    root_path = Arg.sentinel;
    reload = Arg.sentinel;
    statsd_host = Arg.sentinel;
    statsd_prefix = [];
    umask = Arg.sentinel;
    user = Arg.sentinel;
    worker_class = Arg.sentinel;
    websocket_ping_interval = Arg.sentinel;
    workers = Arg.sentinel;
    cert_reqs = Arg.sentinel;
    verify_mode = Arg.sentinel;
    binds = [];
    insecure_binds = [];
    quic_binds = [];
    server_names = [];
  }

  -- `Config()`. It has no `application_path`, which `main` sets first.
  abbrev pub default_config : Config
  default_config = record {
    application_path = Value.null;
    loglevel = Value.text (codes "INFO");
    access_log_format =
        Value.text (codes "%(h)s %(l)s %(l)s %(t)s \"%(r)s\" %(s)s %(b)s \"%(f)s\" \"%(a)s\"");
    accesslog = Value.null;
    backlog = Value.integer (pos 100);
    ca_certs = Value.null;
    certfile = Value.null;
    ciphers = Value.text (codes "ECDHE+AESGCM");
    daemon = Value.flag true;
    debug = Value.flag false;
    errorlog = Value.text (codes "-");
    graceful_timeout = Value.seconds 3;
    read_timeout = Value.null;
    group = Value.null;
    keep_alive_timeout = Value.seconds 5;
    keyfile = Value.null;
    keyfile_password = Value.null;
    logconfig = Value.null;
    max_requests = Value.null;
    max_requests_jitter = Value.integer (pos 0);
    pid_path = Value.null;
    root_path = Value.text [];
    use_reloader = Value.flag false;
    statsd_host = Value.null;
    statsd_prefix = Value.text [];
    umask = Value.null;
    user = Value.null;
    worker_class = Value.text (codes "asyncio");
    websocket_ping_interval = Value.null;
    workers = Value.integer (pos 1);
    verify_mode = Value.null;
    bind = Value.strings (codes "127.0.0.1:8000" ∷ []);
    insecure_bind = Value.strings [];
    quic_bind = Value.strings [];
    server_names = Value.strings [];
  }

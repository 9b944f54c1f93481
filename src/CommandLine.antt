-- ===== src/CommandLine.antt =====
-- The command line (__main__.py) over a configuration. argparse, the readers of configuration files
-- and the modes of `ssl.VerifyMode` are parameters; warnings are left out.
pub mod Laws
use nonecorn.Prelude.{◌∷◌, ◌==◌, some, none, if◌then◌else◌, [], Option, List}
use nonecorn.Bytes.{Text, codes, rstrip_by, starts_with, drop}
use nonecorn.Exec.{Result, ok, raise, value_error}
use nonecorn.Settings.{Args, Config, Arg, ℤ, Value, default_config}

-- the classmethods of Config that read a file or a module, and `VerifyMode(value)`
pub record Readers (Object : Type 0) : Type 0 where
  pub from_object : Text → Result (Config Object)
  pub from_pyfile : Text → Result (Config Object)
  pub from_toml : Text → Result (Config Object)
  pub verify_mode_of : ℤ → Option Object

module _ {Object : Type 0} where
  -- `args.x`
  unfoldable pub value_of : {A : Type 0} → (A → Value Object) → Arg A → Value Object
  value_of as_value Arg.sentinel = Value.no_argument
  value_of as_value (Arg.given a) = as_value a

  -- `if args.x is not sentinel: config.y = args.x`
  unfoldable pub set : {A : Type 0} → (A → Value Object) → Arg A → Value Object → Value Object
  set as_value Arg.sentinel old = old
  set as_value (Arg.given a) old = as_value a

  -- the jitter: what is set is `args.max_requests`
  unfoldable pub set_jitter : Arg ℤ → Arg ℤ → Value Object → Value Object
  unfolding value_of
  set_jitter Arg.sentinel max_requests old = old
  set_jitter (Arg.given jitter) max_requests old = value_of Value.integer max_requests

  -- `if len(args.xs) > 0: config.y = args.xs`
  unfoldable pub set_strings : List Text → Value Object → Value Object
  set_strings [] old = old
  set_strings (s ∷ ss) old = Value.strings (s ∷ ss)

  -- the setter of `root_path`
  unfoldable pub stripped : Text → Value Object
  unfolding rstrip_by
  stripped s = Value.text (rstrip_by (λ c. c == b'/') s)

  -- the settings of a configuration, but `verify_mode`
  unfoldable pub set_args : Args Object → Config Object → Config Object
  unfolding set value_of set_jitter set_strings stripped
  set_args args config = record config {
    application_path = Value.text args.application;
    loglevel = set Value.text args.log_level config.loglevel;
    access_log_format = set Value.text args.access_logformat config.access_log_format;
    accesslog =
        set Value.text args.access_logfile (set Value.text args.access_log config.accesslog);
    backlog = set Value.integer args.backlog config.backlog;
    ca_certs = set Value.text args.ca_certs config.ca_certs;
    certfile = set Value.text args.certfile config.certfile;
    ciphers = set Value.text args.ciphers config.ciphers;
    daemon = set Value.flag args.daemon config.daemon;
    debug = set Value.flag args.debug config.debug;
    errorlog = set Value.text args.error_logfile (set Value.text args.error_log config.errorlog);
    graceful_timeout = set Value.integer args.graceful_timeout config.graceful_timeout;
    read_timeout = set Value.integer args.read_timeout config.read_timeout;
    group = set Value.integer args.group config.group;
    keep_alive_timeout = set Value.integer args.keep_alive config.keep_alive_timeout;
    keyfile = set Value.text args.keyfile config.keyfile;
    keyfile_password = set Value.text args.keyfile_password config.keyfile_password;
    logconfig = set Value.text args.log_config config.logconfig;
    max_requests = set Value.integer args.max_requests config.max_requests;
    max_requests_jitter =
        set_jitter args.max_requests_jitter args.max_requests config.max_requests_jitter;
    pid_path = set Value.text args.pid config.pid_path;
    root_path = set stripped args.root_path config.root_path;
    use_reloader = set Value.flag args.reload config.use_reloader;
    statsd_host = set Value.text args.statsd_host config.statsd_host;
    statsd_prefix = Value.text args.statsd_prefix;
    umask = set Value.integer args.umask config.umask;
    user = set Value.integer args.user config.user;
    worker_class = set Value.text args.worker_class config.worker_class;
    websocket_ping_interval =
        set Value.integer args.websocket_ping_interval config.websocket_ping_interval;
    workers = set Value.integer args.workers config.workers;
    bind = set_strings args.binds config.bind;
    insecure_bind = set_strings args.insecure_binds config.insecure_bind;
    quic_bind = set_strings args.quic_binds config.quic_bind;
    server_names = set_strings args.server_names config.server_names;
  }

  module _ (readers : Readers Object) where
    abbrev mode_set : Arg Object → Option Object → Result (Value Object)
    mode_set verify_mode none = raise value_error
    mode_set verify_mode (some mode) = ok (set Value.other verify_mode (Value.other mode))

    -- `cert_reqs`, whose setter sets `verify_mode`, and then `verify_mode` itself
    unfoldable pub set_verify_mode : Arg ℤ → Arg Object → Value Object → Result (Value Object)
    set_verify_mode Arg.sentinel verify_mode old = ok (set Value.other verify_mode old)
    set_verify_mode (Arg.given cert_reqs) verify_mode old =
        mode_set verify_mode (readers.verify_mode_of cert_reqs)

    abbrev pub with_mode : Config Object → Result (Value Object) → Result (Config Object)
    with_mode config (raise e) = raise e
    with_mode config (ok mode) = ok (record config { verify_mode = mode })

    -- the arguments over a configuration
    unfoldable pub configure : Args Object → Config Object → Result (Config Object)
    configure args config =
        with_mode (set_args args config)
          (set_verify_mode args.cert_reqs args.verify_mode config.verify_mode)

    -- `_load_config`
    unfoldable pub load_config : Option Text → Result (Config Object)
    load_config none = ok (default_config Object)
    load_config (some path) =
        if starts_with (codes "python:") path
        then readers.from_object (drop 7 path)
        else if starts_with (codes "file:") path
        then readers.from_pyfile (drop 5 path)
        else readers.from_toml path

    abbrev pub over : Args Object → Result (Config Object) → Result (Config Object)
    over args (raise e) = raise e
    over args (ok config) = configure args config

    -- `main`, up to the configuration that `run` is given
    unfoldable pub main : Args Object → Result (Config Object)
    main args = over args (load_config args.config)

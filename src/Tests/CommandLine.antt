-- ===== src/Tests/CommandLine.antt =====
-- Arguments over a configuration.
use nonecorn.Prelude.{◌==◌, if◌then◌else◌, Option, ◌≡◌, ℕ, some, refl, none, []}
use nonecorn.Bytes.{rstrip_by, codes}
use nonecorn.Exec.{Result, raise, ok, value_error}
use nonecorn.CommandLine.{
  set_jitter, set_strings, stripped, set_verify_mode, set, Readers, set_args, configure, over,
}
use nonecorn.Settings.{Args, Arg, ℤ, Value, no_args, default_config}
use nonecorn.CommandLine.Laws.{set_args-ignores, configure-again}

-- `CERT_REQUIRED`
abbrev mode_of : ℤ → Option ℕ
mode_of (ℤ.pos n) = if n == 2 then some 2 else none
mode_of (ℤ.negsuc n) = none

abbrev failing : {A B : Type 0} → A → Result B
failing a = raise value_error

-- no file can be read
abbrev readers : Readers ℕ
readers = record {
  from_object = failing;
  from_pyfile = failing;
  from_toml = failing;
  verify_mode_of = mode_of;
}

-- `hypercorn --cert-reqs 2 --root-path /a/ -w 4 app`
abbrev args : Args ℕ
args = record (no_args ℕ (codes "app")) {
  cert_reqs = Arg.given (ℤ.pos 2);
  root_path = Arg.given (codes "/a/");
  workers = Arg.given (ℤ.pos 4);
}

set_args-ignores_example :
    (set_args
        (record args { max_requests_jitter = Arg.given (ℤ.pos 5) })
        (record (default_config ℕ) { statsd_prefix = Value.text (codes "web") })
      ≡ set_args (record args { max_requests_jitter = Arg.given (ℤ.pos 7) }) (default_config ℕ))
    × ((set_args
          (record args { max_requests_jitter = Arg.given (ℤ.pos 5); max_requests = Arg.sentinel })
          (default_config ℕ)).max_requests_jitter
        ≡ Value.no_argument)
set_args-ignores_example =
    set_args-ignores args (default_config ℕ) (ℤ.pos 5) (ℤ.pos 7) (Value.text (codes "web"))

configure-again_example :
    (over readers args (configure readers args (default_config ℕ))
      ≡ configure readers args (default_config ℕ))
    × (configure readers (no_args ℕ (codes "app")) (default_config ℕ)
        ≡ ok (record (default_config ℕ) {
          application_path = Value.text (codes "app");
          statsd_prefix = Value.text [];
        }))
configure-again_example = configure-again readers args (default_config ℕ) (codes "app")

configured :
    configure readers args (default_config ℕ)
    ≡ ok (record (default_config ℕ) {
      application_path = Value.text (codes "app");
      root_path = Value.text (codes "/a");
      workers = Value.integer (ℤ.pos 4);
      verify_mode = Value.other 2;
    })
unfolding configure set_args set set_verify_mode stripped rstrip_by set_strings set_jitter
configured = refl

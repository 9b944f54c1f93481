-- ===== src/CommandLine/Laws.antt =====
-- What the arguments of the command line do to a configuration (__main__.py).
use nonecorn.Prelude.{◌∙◌, ap, ◌≡◌, ◌∷◌, refl, [], List}
use nonecorn.Bytes.{Text}
use nonecorn.CommandLine.{
  raise, with_mode, over, ok, Result, set_verify_mode, configure, Readers, set_args, set,
  set_jitter, set_strings,
}
use nonecorn.Settings.{no_args, Args, Config, Arg, ℤ, Value}

module _ {Object : Type 0} where
  set-again :
      {A : Type 0} (f : A → Value Object) (a : Arg A) (v : Value Object)
      → set f a (set f a v) ≡ set f a v
  unfolding set
  set-again f Arg.sentinel v = refl
  set-again f (Arg.given a) v = refl

  set-set-again :
      {A : Type 0} (f : A → Value Object) (a b : Arg A) (v : Value Object)
      → set f b (set f a (set f b (set f a v))) ≡ set f b (set f a v)
  unfolding set
  set-set-again f Arg.sentinel Arg.sentinel v = refl
  set-set-again f Arg.sentinel (Arg.given b) v = refl
  set-set-again f (Arg.given a) Arg.sentinel v = refl
  set-set-again f (Arg.given a) (Arg.given b) v = refl

  set_jitter-again :
      (jitter max_requests : Arg ℤ) (v : Value Object)
      → set_jitter jitter max_requests (set_jitter jitter max_requests v)
        ≡ set_jitter jitter max_requests v
  unfolding set_jitter
  set_jitter-again Arg.sentinel max_requests v = refl
  set_jitter-again (Arg.given jitter) max_requests v = refl

  set_strings-again :
      (ss : List Text) (v : Value Object) → set_strings ss (set_strings ss v) ≡ set_strings ss v
  unfolding set_strings
  set_strings-again [] v = refl
  set_strings-again (s ∷ ss) v = refl

  set_args-again :
      (args : Args Object) (c : Config Object) → set_args args (set_args args c) ≡ set_args args c
  unfolding set_args
  set_args-again args c = simp (set-again, set-set-again, set_jitter-again, set_strings-again)

  -- Two settings get lost between the command line, the file and the server: the value of
  -- `--max-requests-jitter` has no effect, and neither has the `statsd_prefix` of the configuration
  -- that the arguments are set over. Where the jitter is given and the maximum of requests is not,
  -- the jitter is set to the object that stands for an option that was not given.
  pub set_args-ignores :
      (args : Args Object) (c : Config Object) (jitter other_jitter : ℤ) (prefix : Value Object)
      → (set_args
            (record args { max_requests_jitter = Arg.given jitter })
            (record c { statsd_prefix = prefix })
          ≡ set_args (record args { max_requests_jitter = Arg.given other_jitter }) c)
        × ((set_args
              (record args { max_requests_jitter = Arg.given jitter; max_requests = Arg.sentinel })
              c).max_requests_jitter
            ≡ Value.no_argument)
  unfolding set_args
  set_args-ignores args c jitter other_jitter prefix = (refl, refl)

  module _ (readers : Readers Object) where
    set_verify_mode-again :
        (cert_reqs : Arg ℤ) (verify_mode : Arg Object) (old mode : Value Object)
        → set_verify_mode readers cert_reqs verify_mode old ≡ ok mode
        → set_verify_mode readers cert_reqs verify_mode mode ≡ ok mode
    unfolding set_verify_mode set
    set_verify_mode-again Arg.sentinel Arg.sentinel old mode h = refl
    set_verify_mode-again Arg.sentinel (Arg.given given_mode) old mode h = h
    set_verify_mode-again (Arg.given cert_reqs) verify_mode old mode h = h

    with_mode-again :
        (args : Args Object) (c : Config Object) (r : Result (Value Object))
        → set_verify_mode readers args.cert_reqs args.verify_mode c.verify_mode ≡ r
        → over readers args (with_mode readers (set_args args c) r)
          ≡ with_mode readers (set_args args c) r
    unfolding configure set_args
    with_mode-again args c (raise e) h = refl
    with_mode-again args c (ok mode) h =
        ap (with_mode readers (set_args args (record (set_args args c) { verify_mode = mode })))
          (set_verify_mode-again args.cert_reqs args.verify_mode c.verify_mode mode h)
        ∙ ap {A = Config Object} (λ x. ok (record x { verify_mode = mode })) (set_args-again args c)

    -- Given once more, the arguments change nothing: set over the configuration that they lead to they
    -- lead to the same one, and where they raise they raise. No option but the application leaves all
    -- of a configuration as it was, except for the application and the prefix of statsd.
    pub configure-again :
        (args : Args Object) (c : Config Object) (application : Text)
        → (over readers args (configure readers args c) ≡ configure readers args c)
          × (configure readers (no_args Object application) c
              ≡ ok (record c {
                application_path = Value.text application;
                statsd_prefix = Value.text [];
              }))
    unfolding configure set_args set_verify_mode
    configure-again args c application = (with_mode-again args c _ refl, refl)

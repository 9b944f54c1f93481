-- ===== src/Middleware/Dispatcher/Laws.antt =====
-- Which application a request goes to, and when the joint startup is complete.
use nonecorn.Prelude.{
  sym, if◌then◌else◌, append_assoc, append-nil, ap, ◌∙◌, ◌||◌, any, false, ◌≡◌, ◌∷◌, ◌++◌, refl,
  all, not, true, arith, [], List, Bool, map,
}
use nonecorn.Bytes.{Text, same, starts_with}
use nonecorn.Asgi.{AppMessage, Receive, Scope}
use nonecorn.Middleware.Dispatcher.{
  Queues, empty_queues, put_all, is_shutdown, hand_on, Completed, blank, send, send_all, send_when,
  Dispatch, dispatch, mark,
}

-- Of several mounts, the request goes to the first whose prefix its path has, with the prefix at the
-- end of the root path.
pub dispatch_first :
    {A : Type 0} (before : List (Text × A)) (path : Text) (app : A) (after : List (Text × A))
    (scope : Scope)
    → all (λ mount. not (starts_with (mount.0) scope.path)) before ≡ true
    → starts_with path scope.path ≡ true
    → dispatch (before ++ (path, app) ∷ after) scope
      ≡ Dispatch.call app (record scope { root_path = scope.root_path ++ path })
unfolding dispatch
dispatch_first [] path app after scope h s = ground (arith, s)
dispatch_first ((p, a) ∷ before) path app after scope h s =
    ground (arith, dispatch_first before path app after scope, s)

mark_lem :
    (seen : Text → Bool) (path : Text) (paths : List Text)
    → mark path (map (λ key. (key, seen key)) paths)
      ≡ map (λ key. (key, same key path || seen key)) paths
mark_lem seen path [] = refl
mark_lem seen path (key ∷ paths) = ground (arith, mark_lem seen path paths)

-- the paths that have reported, after more reports
abbrev seen_after : List Text → (Text → Bool) → Text → Bool
seen_after [] seen = seen
seen_after (path ∷ paths) seen = seen_after paths (λ key. same key path || seen key)

seen_after_lem :
    (reports : List Text) (seen : Text → Bool) (key : Text)
    → seen_after reports seen key ≡ (any (same key) reports || seen key)
seen_after_lem [] seen key = refl
seen_after_lem (path ∷ reports) seen key =
    ground (arith, seen_after_lem reports (λ key. same key path || seen key) key)

send_all-startup :
    (reports paths : List Text) (seen : Text → Bool) (c : Completed)
    → c.startup ≡ map (λ key. (key, seen key)) paths
    → (send_all AppMessage.startup_complete reports c).startup
      ≡ map (λ key. (key, seen_after reports seen key)) paths
unfolding send_all send
send_all-startup [] paths seen c h = h
send_all-startup (path ∷ reports) paths seen c h =
    send_all-startup reports paths (λ key. same key path || seen key)
      (send path AppMessage.startup_complete c).0 (ap (mark path) h ∙ mark_lem seen path paths)

all_flags :
    (f g : Text → Bool) (paths : List Text)
    → ((key : Text) → f key ≡ g key)
    → all (λ (flag : Text × Bool). flag.1) (map (λ key. (key, f key)) paths) ≡ all g paths
all_flags f g [] h = refl
all_flags f g (key ∷ paths) h = ground (arith, h key, all_flags f g paths h)

-- After the applications of some mounts have reported that they have started, in any order, the
-- report of one more mount makes the middleware report the startup just when each of its mounts has
-- reported then.
pub send-send_all :
    (paths reports : List Text) (path : Text)
    → (send path AppMessage.startup_complete
        (send_all AppMessage.startup_complete reports (blank paths))).1
      ≡ send_when (all (λ key. any (same key) (path ∷ reports)) paths) AppMessage.startup_complete
unfolding send
send-send_all paths reports path =
    let seen : Text → Bool = λ key. false in
    let flags = send_all-startup reports paths seen (blank paths) refl in
    ap (λ b. send_when b AppMessage.startup_complete)
      (ap (λ fs. all (λ (f : Text × Bool). f.1) (mark path fs)) flags
        ∙ ap (λ fs. all (λ (f : Text × Bool). f.1) fs)
            (mark_lem (seen_after reports seen) path paths)
        ∙ all_flags (λ key. same key path || seen_after reports seen key)
            (λ key. any (same key) (path ∷ reports)) paths
            (λ key. ground (arith, seen_after_lem reports seen key)))

-- what the server says up to the first shutdown
abbrev pub up_to_shutdown : List Receive → List Receive
up_to_shutdown [] = []
up_to_shutdown (message ∷ messages) =
    let rest = up_to_shutdown messages in
    if is_shutdown message then message ∷ [] else message ∷ rest

put_all_lem :
    (message : Receive) (seen : List Receive) (paths : List Text)
    → put_all message (map (λ path. (path, seen)) paths)
      ≡ map (λ path. (path, seen ++ message ∷ [])) paths
unfolding put_all
put_all_lem message seen [] = refl
put_all_lem message seen (path ∷ paths) =
    ap (λ (queues : Queues). (path, seen ++ message ∷ []) ∷ queues) (put_all_lem message seen paths)

hand_on-seen :
    (messages seen : List Receive) (paths : List Text)
    → hand_on messages (map (λ path. (path, seen)) paths)
      ≡ map (λ path. (path, seen ++ up_to_shutdown messages)) paths
unfolding hand_on
hand_on-seen [] seen paths =
    ap (λ s. map (λ (path : Text). (path, s)) paths) (sym (append-nil seen))
hand_on-seen (message ∷ messages) seen paths = ground (
  arith,
  put_all_lem message seen paths,
  hand_on-seen messages (seen ++ message ∷ []) paths,
  append_assoc seen (message ∷ []) (up_to_shutdown messages),
)

-- Each of the mounted applications is given the same of the server's lifespan messages: all of them in
-- their order, up to the first shutdown, after which none is handed on.
pub hand_on_lem :
    (messages : List Receive) (paths : List Text)
    → hand_on messages (empty_queues paths) ≡ map (λ path. (path, up_to_shutdown messages)) paths
hand_on_lem messages paths = hand_on-seen messages [] paths

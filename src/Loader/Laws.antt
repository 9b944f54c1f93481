-- ===== src/Loader/Laws.antt =====
-- Which application a path names (utils.py, `load_application`).
use nonecorn.Prelude.{some, none, ◌≡◌, ◌∷◌, ◌==◌, ◌+◌, ◌++◌, true, refl, not, arith, all, [], Bool}
use nonecorn.Bytes.{Text, codes, partition, same}
use nonecorn.Exec.{ok}
use nonecorn.Loader.{with_mode, parse_path, Mode, count}

abbrev pub lacks_colon : Text → Bool
lacks_colon s = all (λ c. not (c == b':')) s

abbrev pub mode_name : Mode → Text
mode_name Mode.asgi = codes "asgi"
mode_name Mode.wsgi = codes "wsgi"

partition_at :
    (before after : Text)
    → lacks_colon before ≡ true
    → partition b':' (before ++ (b':' ∷ after)) ≡ (before, after)
unfolding partition
partition_at [] after h = ground arith
partition_at (c ∷ before) after h = ground (arith, h, partition_at before after)

count-lacks : (s : Text) → lacks_colon s ≡ true → count b':' s ≡ 0
unfolding count
count-lacks [] h = refl
count-lacks (c ∷ s) h = ground (arith, h, count-lacks s)

count_at :
    (before after : Text)
    → lacks_colon before ≡ true
    → count b':' (before ++ (b':' ∷ after)) ≡ count b':' after + 1
unfolding count
count_at [] after h = ground arith
count_at (c ∷ before) after h = ground (arith, h, count_at before after)

named : (mode : Mode) → lacks_colon (mode_name mode) ≡ true
named Mode.asgi = refl
named Mode.wsgi = refl

with_mode-mode_name :
    (mode : Mode) (module_name app_name : Text)
    → with_mode (mode_name mode) module_name app_name ≡ ok (some mode, (module_name, app_name))
unfolding same
with_mode-mode_name Mode.asgi module_name app_name = refl
with_mode-mode_name Mode.wsgi module_name app_name = refl

-- A path names what it is made of: of a module, of a module and an application, and of a mode, a
-- module and an application, with colons between them and none in them, `load_application` reads the
-- same back, the application "app" where none is named, and no mode where none is.
pub parse_path-names :
    (mode : Mode) (module_name app_name : Text)
    → lacks_colon module_name ≡ true
    → lacks_colon app_name ≡ true
    → (parse_path module_name ≡ ok (none, (module_name, codes "app")))
      × (parse_path (module_name ++ (b':' ∷ app_name)) ≡ ok (none, (module_name, app_name)))
      × (parse_path (mode_name mode ++ (b':' ∷ (module_name ++ (b':' ∷ app_name))))
          ≡ ok (some mode, (module_name, app_name)))
unfolding parse_path
parse_path-names mode module_name app_name hm ha =
    let one : count b':' (module_name ++ (b':' ∷ app_name)) ≡ 1 =
      ground (arith, count_at module_name app_name hm, count-lacks app_name ha) in
    (
      ground (arith, count-lacks module_name hm),
      ground (arith, one, partition_at module_name app_name hm),
      ground (
        arith,
        one,
        count_at (mode_name mode) (module_name ++ (b':' ∷ app_name)) (named mode),
        partition_at (mode_name mode) (module_name ++ (b':' ∷ app_name)) (named mode),
        partition_at module_name app_name hm,
        with_mode-mode_name mode module_name app_name,
      ),
    )

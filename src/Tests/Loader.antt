-- ===== src/Tests/Loader.antt =====
-- The paths of an application.
use nonecorn.Prelude.{◌≡◌, ◌∷◌, ◌++◌, refl, some, none}
use nonecorn.Bytes.{codes}
use nonecorn.Exec.{ok}
use nonecorn.Loader.{Mode, parse_path}
use nonecorn.Loader.Laws.{mode_name, parse_path-names}

parse_path-names_example :
    (parse_path (codes "main") ≡ ok (none, (codes "main", codes "app")))
    × (parse_path (codes "main" ++ (b':' ∷ codes "site")) ≡ ok (none, (codes "main", codes "site")))
    × (parse_path (mode_name Mode.wsgi ++ (b':' ∷ (codes "main" ++ (b':' ∷ codes "site"))))
        ≡ ok (some Mode.wsgi, (codes "main", codes "site")))
parse_path-names_example = parse_path-names Mode.wsgi (codes "main") (codes "site") refl refl

-- ===== src/Loader.antt =====
-- The loading of an application, and the watching of its files (utils.py: `load_application`,
-- `wrap_app`, `is_asgi`, `check_for_updates`).
pub mod Laws
use nonecorn.Prelude.{
  ◌∷◌, ◌||◌, ◌==◌, ◌+◌, ℕ, true, some, none, ltb, if◌then◌else◌, get_or, false, [], Option, List,
  Bool,
}
use nonecorn.Bytes.{Text, codes, partition, same}
use nonecorn.Exec.{Error, Result, ok, raise, name_error, module_not_found, no_app, value_error}

pub data Mode : Type 0 where
  asgi wsgi : Mode

unfoldable pub count : ℕ → Text → ℕ
count c [] = 0
count c (d ∷ s) = let rest = count c s in if d == c then rest + 1 else rest

abbrev pub with_mode : Text → Text → Text → Result (Option Mode × (Text × Text))
with_mode mode module_name app_name =
    if same mode (codes "asgi")
    then ok (some Mode.asgi, (module_name, app_name))
    else if same mode (codes "wsgi")
    then ok (some Mode.wsgi, (module_name, app_name))
    else raise value_error

-- the mode, the module and the application that a path names
unfoldable pub parse_path : Text → Result (Option Mode × (Text × Text))
parse_path path =
    let (first, rest) = partition b':' path in
    let (second, third) = partition b':' rest in
    if count b':' path == 0
    then ok (none, (path, codes "app"))
    else if count b':' path == 2
    then with_mode first second third
    else ok (none, (first, rest))

-- what `import_module` comes to; a ModuleNotFoundError names the module that is not found
pub data Imported (Module : Type 0) : Type 0 where
  loaded : Module → Imported Module
  not_found : Text → Imported Module
  failed : Error → Imported Module

-- The interpreter. `import_name` is the name of a module's resolved path, without the suffix where it
-- is a file; `call_is_coroutine` is there for an application that has a `__call__`.
pub record Interpreter : Type 1 where
  pub Module : Type 0
  pub App : Type 0
  pub import_name : Text → Text
  pub import_module : Text → Imported Module
  pub evaluate : Text → Module → Result App
  pub is_coroutine : App → Bool
  pub call_is_coroutine : App → Option Bool

pub data Wrapped (App : Type 0) : Type 0 where
  asgi_wrapper : App → Wrapped App
  wsgi_wrapper : App → ℕ → Wrapped App

module _ (python : Interpreter) (wsgi_max_body_size : ℕ) where
  open python use {Module, App}

  unfoldable pub is_asgi : App → Bool
  is_asgi app = python.is_coroutine app || get_or (python.call_is_coroutine app) false

  unfoldable pub wrap_app : App → Option Mode → Wrapped App
  wrap_app app none =
      if is_asgi app then Wrapped.asgi_wrapper app else Wrapped.wsgi_wrapper app wsgi_max_body_size
  wrap_app app (some Mode.asgi) = Wrapped.asgi_wrapper app
  wrap_app app (some Mode.wsgi) = Wrapped.wsgi_wrapper app wsgi_max_body_size

  -- `eval`, whose NameError says that there is no such application
  abbrev wrap_result : Option Mode → Result App → Result (Wrapped App)
  wrap_result mode (ok app) = ok (wrap_app app mode)
  wrap_result mode (raise name_error) = raise no_app
  wrap_result mode (raise e) = raise e

  abbrev evaluated : Option Mode → Text → Text → Imported Module → Result (Wrapped App)
  evaluated mode name app_name (Imported.loaded module_) =
      wrap_result mode (python.evaluate app_name module_)
  evaluated mode name app_name (Imported.not_found missing) =
      if same missing name then raise no_app else raise (module_not_found missing)
  evaluated mode name app_name (Imported.failed e) = raise e

  abbrev load_parsed : Result (Option Mode × (Text × Text)) → Result (Wrapped App)
  load_parsed (raise e) = raise e
  load_parsed (ok (mode, (module_name, app_name))) =
      let name = python.import_name module_name in
      evaluated mode name app_name (python.import_module name)

  unfoldable pub load_application : Text → Result (Wrapped App)
  load_application path = load_parsed (parse_path path)

-- `stat` is the time of a file's last change, where there is the file. The times that were seen are
-- kept in the dict, up to the file that has changed.
unfoldable pub check_for_updates : (Text → Option ℕ) → List (Text × ℕ) → Bool × List (Text × ℕ)
check_for_updates stat [] = (false, [])
check_for_updates stat ((path, last) ∷ files) =
    let (updated, rest) = check_for_updates stat files in
    elim (stat path) [
      | none ↦ (true, (path, last) ∷ files)
      | some time ↦
          if ltb last time then (true, (path, last) ∷ files) else (updated, (path, time) ∷ rest)
    ]

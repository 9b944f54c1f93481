-- ===== src/AccessLog.antt =====
-- The class AccessLogAtoms of logging.py: what an access log's format may name of a request.
pub mod Laws
use nonecorn.Prelude.{◌∷◌, ◌<◌, ◌-◌, ◌++◌, ℕ, some, none, is_empty, if◌then◌else◌, [], Option, List}
use nonecorn.Bytes.{Bytes, Text, codes, same, starts_with}
use nonecorn.Exec.{unicode_error, Result, ok, raise}
use nonecorn.Asgi.{Address, Header, Scope, ScopeType, Summary}
use nonecorn.Utils.Utf8.{decode_utf8}

pub data Value : Type 0 where
  text : Text → Value
  number : ℕ → Value
  nothing : Value

-- a dict, the newest entry first
abbrev pub Atoms : Type 0
Atoms = List (Text × Value)

-- `str.lower`, the environment, and the phrases of HTTPStatus, which raises a ValueError for others
pub record Machine : Type 0 where
  pub lower : Text → Text
  pub environ : List (Text × Text)
  pub phrase : ℕ → Option Text
  pub show : ℕ → Text
  pub pid : Text

-- the time now, and the time of the request: as text, in seconds and in microseconds
pub record Timing : Type 0 where
  pub now : Text
  pub exact : Text
  pub seconds : ℕ
  pub microseconds : ℕ

-- the keys "{name}i", "{name}o" and "{name}e"
abbrev pub key : Text → ℕ → Text
key name kind = b'{' ∷ (name ++ (b'}' ∷ kind ∷ []))

unfoldable pub lookup : Text → Atoms → Option Value
lookup k [] = none
lookup k ((k', value) ∷ atoms) = let rest = lookup k atoms in if same k' k then some value else rest

abbrev pub or_dash : Option Value → Value
or_dash none = Value.text (codes "-")
or_dash (some value) = value

module _ (m : Machine) where
  -- `__getitem__`
  unfoldable pub get : Atoms → Text → Value
  get atoms k = or_dash (lookup (if starts_with (codes "{") k then m.lower k else k) atoms)

  -- the loops over the headers and over the environment
  unfoldable pub name_atoms : ℕ → List (Text × Text) → Atoms → Atoms
  name_atoms kind [] atoms = atoms
  name_atoms kind ((name, value) ∷ headers) atoms =
      name_atoms kind headers ((key (m.lower name) kind, Value.text value) ∷ atoms)

  abbrev remote_addr : Option Address → Value
  remote_addr none = Value.nothing
  remote_addr (some (host, port)) = Value.text (host ++ (codes ":" ++ m.show port))

  abbrev method_of : Scope → Text
  method_of request = elim request.type [
    | ScopeType.http ↦ request.method
    | ScopeType.websocket ↦ codes "GET"
    | ScopeType.lifespan ↦ codes "GET"
  ]

  abbrev status_phrase : ℕ → Option Text → Text
  status_phrase status none = codes "<???" ++ (m.show status ++ codes "???>")
  status_phrase status (some phrase) = phrase

  -- the status, its phrase, and the atoms of the response's headers
  abbrev status_of : Option Summary → Text × Text
  status_of none = (codes "-", codes "-")
  status_of (some response) =
      (m.show response.status, status_phrase response.status (m.phrase response.status))

  abbrev response_atoms : Option Summary → Atoms → Atoms
  response_atoms none atoms = atoms
  response_atoms (some response) atoms = name_atoms b'o' response.headers atoms

  -- the dict of `self.update`
  abbrev fixed_atoms : Scope → Text → Text × Text → Timing → Atoms → Atoms
  fixed_atoms request query (status, phrase) timing atoms =
      let target = request.path ++ (if is_empty query then [] else codes "?" ++ query) in
      let line = method_of request ++ codes " " in
      let end = codes " " ++ request.http_version in
      (codes "h", remote_addr request.client)
      ∷ (codes "l", Value.text (codes "-"))
      ∷ (codes "t", Value.text timing.now)
      ∷ (codes "r", Value.text (line ++ (request.path ++ end)))
      ∷ (codes "R", Value.text (line ++ (target ++ end)))
      ∷ (codes "s", Value.text status)
      ∷ (codes "st", Value.text phrase)
      ∷ (codes "S", Value.text request.scheme)
      ∷ (codes "m", Value.text (method_of request))
      ∷ (codes "U", Value.text request.path)
      ∷ (codes "Uq", Value.text target)
      ∷ (codes "q", Value.text query)
      ∷ (codes "H", Value.text request.http_version)
      ∷ (codes "b", get atoms (codes "{Content-Length}o"))
      ∷ (codes "B", get atoms (codes "{Content-Length}o"))
      ∷ (codes "f", get atoms (codes "{Referer}i"))
      ∷ (codes "a", get atoms (codes "{User-Agent}i"))
      ∷ (codes "T", Value.number timing.seconds)
      ∷ (codes "D", Value.number timing.microseconds)
      ∷ (codes "L", Value.text timing.exact)
      ∷ (codes "p", Value.text (codes "<" ++ (m.pid ++ codes ">")))
      ∷ atoms

  -- `__init__`, for a query that is decoded
  unfoldable pub atoms_of : Scope → Option Summary → Timing → Text → Atoms
  atoms_of request response timing query =
      fixed_atoms request query (status_of response) timing
        (response_atoms response (name_atoms b'e' m.environ (name_atoms b'i' request.headers [])))

  abbrev decoded : Scope → Option Summary → Timing → Option Text → Result Atoms
  decoded request response timing none = raise unicode_error
  decoded request response timing (some query) = ok (atoms_of request response timing query)

  -- `__init__`
  unfoldable pub init : Scope → Option Summary → Timing → Result Atoms
  init request response timing = decoded request response timing (decode_utf8 request.query_string)

-- ===== src/AccessLog/Laws.antt =====
-- What an access log's format finds under a header's name (logging.py, AccessLogAtoms).
use nonecorn.Prelude.{
  ◌≡◌, ◌∷◌, ◌∙◌, ◌==◌, ◌++◌, ◌&&◌, ℕ, some, refl, none, if◌then◌else◌, false, arith, [], Option,
  List,
}
use nonecorn.Bytes.{Text, same, starts_with}
use nonecorn.Exec.{ok}
use nonecorn.Asgi.{Scope, Summary}
use nonecorn.AccessLog.{
  Atoms, Machine, Timing, Value, atoms_of, fixed_atoms, get, init, key, lookup, name_atoms, or_dash,
  response_atoms, status_of,
}
use nonecorn.Utils.Utf8.{decode_utf8}

-- the value of the last header of a name, or what was found before
abbrev pub last_value : (Text → Text) → Text → Option Value → List (Text × Text) → Option Value
last_value lower name found [] = found
last_value lower name found ((n, value) ∷ headers) =
    last_value lower name (if same (lower n) name then some (Value.text value) else found) headers

same-suffix :
    (a b : ℕ) (n m : Text)
    → (a == b'}') ≡ false
    → (b == b'}') ≡ false
    → same (n ++ (b'}' ∷ a ∷ [])) (m ++ (b'}' ∷ b ∷ [])) ≡ (same n m && a == b)
unfolding same
same-suffix a b [] [] ha hb = ground (arith, ha, hb)
same-suffix a b [] (d ∷ []) ha hb = ground (arith, ha, hb)
same-suffix a b [] (d ∷ e ∷ []) ha hb = ground (arith, ha, hb)
same-suffix a b [] (d ∷ e ∷ f ∷ m) ha hb = ground (arith, ha, hb)
same-suffix a b (c ∷ []) [] ha hb = ground (arith, ha, hb)
same-suffix a b (c ∷ e ∷ []) [] ha hb = ground (arith, ha, hb)
same-suffix a b (c ∷ e ∷ f ∷ n) [] ha hb = ground (arith, ha, hb)
same-suffix a b (c ∷ n) (d ∷ m) ha hb = ground (arith, same-suffix a b n m ha hb)

same-key :
    (a b : ℕ) (n m : Text)
    → (a == b'}') ≡ false
    → (b == b'}') ≡ false
    → same (key n a) (key m b) ≡ (same n m && a == b)
unfolding same
same-key a b n m ha hb = same-suffix a b n m ha hb

module _ (m : Machine) where
  lookup-name_atoms :
      (kind : ℕ) (k : Text) (headers : List (Text × Text)) (d : Atoms)
      → (kind == b'}') ≡ false
      → lookup (key k kind) (name_atoms m kind headers d)
        ≡ last_value m.lower k (lookup (key k kind) d) headers
  unfolding name_atoms lookup
  lookup-name_atoms kind k [] d h = refl
  lookup-name_atoms kind k ((n, value) ∷ headers) d h = ground (
    arith,
    lookup-name_atoms kind k headers ((key (m.lower n) kind, Value.text value) ∷ d) h,
    same-key kind kind (m.lower n) k h h,
  )

  lookup-others :
      (kind other : ℕ) (k : Text) (headers : List (Text × Text)) (d : Atoms)
      → (kind == b'}') ≡ false
      → (other == b'}') ≡ false
      → (other == kind) ≡ false
      → lookup (key k kind) (name_atoms m other headers d) ≡ lookup (key k kind) d
  unfolding name_atoms lookup
  lookup-others kind other k [] d h ho differ = refl
  lookup-others kind other k ((n, value) ∷ headers) d h ho differ = ground (
    arith,
    differ,
    lookup-others kind other k headers ((key (m.lower n) other, Value.text value) ∷ d) h ho differ,
    same-key other kind (m.lower n) k ho h,
  )

  lookup-response_atoms :
      (k : Text) (response : Option Summary) (d : Atoms)
      → lookup (key k b'i') (response_atoms m response d) ≡ lookup (key k b'i') d
  lookup-response_atoms k none d = refl
  lookup-response_atoms k (some response) d =
      lookup-others b'i' b'o' k response.headers d refl refl refl

  lookup-fixed_atoms :
      (k : Text) (kind : ℕ) (request : Scope) (query : Text) (s : Text × Text) (timing : Timing)
      (d : Atoms)
      → lookup (key k kind) (fixed_atoms m request query s timing d) ≡ lookup (key k kind) d
  unfolding lookup same
  lookup-fixed_atoms k kind request query (status, phrase) timing d = refl

  lookup-atoms_of :
      (k : Text) (request : Scope) (response : Option Summary) (timing : Timing) (query : Text)
      → lookup (key k b'i') (atoms_of m request response timing query)
        ≡ last_value m.lower k none request.headers
  unfolding atoms_of lookup
  lookup-atoms_of k request response timing query =
      lookup-fixed_atoms k b'i' request query (status_of m response) timing _
      ∙ lookup-response_atoms k response _
      ∙ lookup-others b'i' b'e' k m.environ _ refl refl refl
      ∙ lookup-name_atoms b'i' k request.headers [] refl

  -- What an access log's format finds as "{name}i" is the value of the request's last header of that
  -- name, in whatever case the format and the client write it, and a dash where there is none:
  -- neither the environment, nor the response, nor the fixed atoms get in the way. The query is UTF-8,
  -- and the lower case of the key is the key of the name's lower case.
  pub get-init :
      (request : Scope) (response : Option Summary) (timing : Timing) (name query : Text)
      → decode_utf8 request.query_string ≡ some query
      → m.lower (key name b'i') ≡ key (m.lower name) b'i'
      → (init m request response timing ≡ ok (atoms_of m request response timing query))
        × (get m (atoms_of m request response timing query) (key name b'i')
            ≡ or_dash (last_value m.lower (m.lower name) none request.headers))
  unfolding init get starts_with
  get-init request response timing name query reads lowers = (
    ground (arith, reads),
    ground (arith, lowers, lookup-atoms_of (m.lower name) request response timing query),
  )

-- ===== src/Tls.antt =====
-- What a scope says of the TLS of its connection (utils.py, `get_tls_info`). The SSLObject is a
-- parameter, by what its methods return.
pub mod Ephemeral
pub mod Fixed
pub mod Plain
use nonecorn.Prelude.{◌∷◌, ◌+◌, ◌++◌, ℕ, some, none, map, if◌then◌else◌, [], Option, List}
use nonecorn.Bytes.{Text, codes, same}
use nonecorn.Utils.Names.{escape_dn_chars}
use nonecorn.Tls.Ephemeral.{dhe_suites, ecdhe_suites}
use nonecorn.Tls.Fixed.{dh_suites, ecdh_suites}
use nonecorn.Tls.Plain.{other_suites}

abbrev pub rdns_mapping : List (Text × Text)
rdns_mapping =
    (codes "domainComponent", codes "DC")
    ∷ (codes "commonName", codes "CN")
    ∷ (codes "organizationalUnitName", codes "OU")
    ∷ (codes "organizationName", codes "O")
    ∷ (codes "streetAddress", codes "STREET")
    ∷ (codes "localityName", codes "L")
    ∷ (codes "stateOrProvinceName", codes "ST")
    ∷ (codes "countryName", codes "C")
    ∷ (codes "userId", codes "UID")
    ∷ []

abbrev pub tls_version_map : List (Text × ℕ)
tls_version_map =
    (codes "TLSv1", 769)
    ∷ (codes "TLSv1.1", 770)
    ∷ (codes "TLSv1.2", 771)
    ∷ (codes "TLSv1.3", 772)
    ∷ []

abbrev pub tls_cipher_suites : List (Text × ℕ)
tls_cipher_suites = dhe_suites ++ dh_suites ++ ecdhe_suites ++ ecdh_suites ++ other_suites

-- what a dict has for a key
unfoldable pub find : {A : Type 0} → Text → List (Text × A) → Option A
find key [] = none
find key ((name, value) ∷ entries) =
    let rest = find key entries in if same name key then some value else rest

-- a distinguished name of the peer's certificate: its parts are lists of names and values
abbrev pub Subject : Type 0
Subject = List (List (Text × Text))

-- `subject` is there for a certificate that is not empty
pub record SslObject : Type 0 where
  pub subject : Option Subject
  pub certificate : Text
  pub version : Text
  pub cipher : Text

-- the entries of the dict that are not always None
pub record TlsInfo : Type 0 where
  pub client_cert_chain : List Text
  pub client_cert_name : Text
  pub tls_version : Option ℕ
  pub cipher_suite : Option ℕ

-- `separator.join(parts)`
unfoldable pub join : Text → List Text → Text
join separator [] = []
join separator (part ∷ []) = part
join separator (part ∷ next ∷ parts) = part ++ (separator ++ join separator (next ∷ parts))

abbrev put_entry : Text → Option Text → List Text → List Text
put_entry value none entries = entries
put_entry value (some name) entries = (name ++ (codes "=" ++ escape_dn_chars value)) ∷ entries

-- the entries of a part that have a short name, each with its value, onto what is there
unfoldable pub reversed_entries : List (Text × Text) → List Text → List Text
reversed_entries [] entries = entries
reversed_entries ((name, value) ∷ rdn) entries =
    reversed_entries rdn (put_entry value (find name rdns_mapping) entries)

unfoldable pub rdn_string : List (Text × Text) → Text
rdn_string rdn = join (codes "+") (reversed_entries rdn [])

unfoldable pub get_tls_info : SslObject → Option TlsInfo
get_tls_info ssl = elim ssl.subject [
  | none ↦ none
  | some subject ↦ some (record {
    client_cert_chain = ssl.certificate ∷ [];
    client_cert_name = join (codes ", ") (map rdn_string subject);
    tls_version = find ssl.version tls_version_map;
    cipher_suite = find ssl.cipher tls_cipher_suites;
  })
]

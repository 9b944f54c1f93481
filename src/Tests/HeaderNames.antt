-- ===== src/Tests/HeaderNames.antt =====
-- The header functions and the escapes of names.
use nonecorn.Prelude.{some, ◌≡◌, ◌∷◌, refl, [], List}
use nonecorn.Bytes.{codes, same, strip}
use nonecorn.Exec.{ok}
use nonecorn.Asgi.{Header}
use nonecorn.Utils.Headers.{build_and_validate_headers, filter_pseudo_headers}
use nonecorn.Utils.Headers.Laws.{filter_pseudo_headers_lem}
use nonecorn.Utils.Headers.Smuggling.{build_and_validate_headers-smuggles}
use nonecorn.Utils.Names.{escape_dn_chars}
use nonecorn.Utils.Names.Rfc4514.{unescape_dn}
use nonecorn.Utils.Names.Laws.{unescape-escape_dn_chars}

abbrev plain : List Header
plain = (codes "a ", codes " 1") ∷ (codes "b", codes "2") ∷ []

build_and_validate_headers-smuggles_example :
    build_and_validate_headers ((codes " :status ", codes "200") ∷ [])
    ≡ ok ((codes ":status", codes "200") ∷ [])
unfolding build_and_validate_headers strip
build_and_validate_headers-smuggles_example =
    build_and_validate_headers-smuggles (codes "status ") (codes "200") [] [] refl

abbrev received : List Header
received =
    (codes ":method", codes "GET")
    ∷ (codes ":authority", codes "x.org")
    ∷ (codes "host", codes "y.org")
    ∷ (codes "accept", codes "*")
    ∷ []

filter_pseudo_headers_lem_example :
    filter_pseudo_headers received
    ≡ ok ((codes "host", codes "x.org") ∷ (codes "accept", codes "*") ∷ [])
unfolding same
filter_pseudo_headers_lem_example =
    filter_pseudo_headers_lem received ((λ e. cc), ((λ e. cc), ((λ e. cc), ((λ e. cc), tt))))

unescape-escape_dn_chars_example :
    unescape_dn (escape_dn_chars (codes "#a, b ")) ≡ some (codes "#a, b ")
unescape-escape_dn_chars_example = unescape-escape_dn_chars (codes "#a, b ")

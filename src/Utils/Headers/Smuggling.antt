-- ===== src/Utils/Headers/Smuggling.antt =====
-- The validation of header names looks at the first byte before it strips the name.
use nonecorn.Prelude.{◌≡◌, ◌∷◌, List}
use nonecorn.Bytes.{Bytes, strip, is_space, rstrip_by}
use nonecorn.Exec.{ok}
use nonecorn.Asgi.{Header}
use nonecorn.Utils.Headers.{build_and_validate_headers}

-- A pseudo header behind a space passes the validation, whatever its name and value are, and comes
-- out as a pseudo header, since the name is stripped after it was tested.
pub build_and_validate_headers-smuggles :
    (name value : Bytes) (headers out : List Header)
    → build_and_validate_headers headers ≡ ok out
    → build_and_validate_headers ((b' ' ∷ b':' ∷ name, value) ∷ headers)
      ≡ ok ((b':' ∷ rstrip_by is_space name, strip value) ∷ out)
unfolding build_and_validate_headers strip
build_and_validate_headers-smuggles name value headers out h = rw h

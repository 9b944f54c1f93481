-- ===== src/Utils/Names.antt =====
-- escape_dn_chars of src/hypercorn/utils.py, and the reading of such escapes by RFC 4514.
pub mod Rfc4514
pub mod Laws
use nonecorn.Prelude.{◌∷◌, ◌||◌, ◌==◌, ◌++◌, ℕ, if◌then◌else◌, []}
use nonecorn.Bytes.{Text, codes}

-- `s.replace(c, r)` for a pattern `c` of one character
unfoldable pub replace : ℕ → Text → Text → Text
replace c r [] = []
replace c r (d ∷ s) = (if d == c then r else d ∷ []) ++ replace c r s

-- `"".join((s[:-1], "\\ "))` if the last character is a space
unfoldable pub escape_last : Text → Text
escape_last [] = []
escape_last (c ∷ []) = if c == b' ' then b'\\' ∷ b' ' ∷ [] else c ∷ []
escape_last (c ∷ d ∷ s) = c ∷ escape_last (d ∷ s)

-- a backslash before a first "#" or " "
unfoldable pub escape_first : Text → Text
escape_first [] = []
escape_first (c ∷ s) = if c == b'#' || c == b' ' then b'\\' ∷ c ∷ s else c ∷ s

-- the calls of `replace`, in their order
unfoldable pub replace_specials : Text → Text
replace_specials s =
    let s = replace b'\\' (b'\\' ∷ b'\\' ∷ []) s in
    let s = replace b',' (b'\\' ∷ b',' ∷ []) s in
    let s = replace b'+' (b'\\' ∷ b'+' ∷ []) s in
    let s = replace b'"' (b'\\' ∷ b'"' ∷ []) s in
    let s = replace b'<' (b'\\' ∷ b'<' ∷ []) s in
    let s = replace b'>' (b'\\' ∷ b'>' ∷ []) s in
    let s = replace b';' (b'\\' ∷ b';' ∷ []) s in
    let s = replace b'=' (b'\\' ∷ b'=' ∷ []) s in
    let s = replace 0 (b'\\' ∷ 0 ∷ []) s in
    let s = replace 10 (b'\\' ∷ b'0' ∷ b'a' ∷ []) s in replace 13 (b'\\' ∷ b'0' ∷ b'd' ∷ []) s

unfoldable pub escape_dn_chars : Text → Text
unfolding replace replace_specials escape_last escape_first
escape_dn_chars [] = []
escape_dn_chars (c ∷ s) = escape_first (escape_last (replace_specials (c ∷ s)))

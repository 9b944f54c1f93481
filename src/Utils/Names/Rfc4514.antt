-- ===== src/Utils/Names/Rfc4514.antt =====
-- A reader of the values of distinguished names, as RFC 4514 has them.
use nonecorn.Prelude.{
  ◌∷◌, ◌||◌, ◌==◌, ◌-◌, ◌+◌, ◌*◌, ◌&&◌, ℕ, some, none, ltb, leb, is_empty, if◌then◌else◌, [],
  Option, Bool,
}
use nonecorn.Bytes.{Text}

unfoldable pub is_hex : ℕ → Bool
is_hex c = (leb b'0' c && leb c b'9') || (leb b'a' c && leb c b'f') || (leb b'A' c && leb c b'F')

unfoldable pub hex_value : ℕ → ℕ
hex_value c = if leb c b'9' then c - b'0' else if leb c b'F' then c - b'A' + 10 else c - b'a' + 10

-- Where a reader of escapes stands: outside, behind a backslash, behind a backslash and a digit.
pub data Mode : Type 0 where
  plain escaped : Mode
  digit : ℕ → Mode

-- the characters that have to be escaped wherever they stand
unfoldable pub is_reserved : ℕ → Bool
is_reserved c = c == b'"' || c == b'+' || c == b',' || c == b';' || c == b'<' || c == b'>' || c == 0

-- the characters that may stand behind a backslash as they are
unfoldable pub is_escapable : ℕ → Bool
is_escapable c =
    c == b'"'
    || c == b'+'
    || c == b','
    || c == b';'
    || c == b'<'
    || c == b'>'
    || c == b'\\'
    || c == b' '
    || c == b'#'
    || c == b'='

unfoldable pub cons_some : ℕ → Option Text → Option Text
cons_some c none = none
cons_some c (some s) = some (c ∷ s)

-- RFC 4514, section 3, behind the first character: a backslash stands before a character that may be
-- escaped, or before two hexadecimal digits, here of an ASCII character; a reserved character does
-- not stand alone, and neither does a space at the end.
unfoldable pub unescape_from : Mode → Text → Option Text
unescape_from plain [] = some []
unescape_from plain (c ∷ s) =
    let rest = unescape_from plain s in
    let behind = unescape_from escaped s in
    if c == b'\\'
    then behind
    else if is_reserved c || (c == b' ' && is_empty s)
    then none
    else cons_some c rest
unescape_from escaped [] = none
unescape_from escaped (c ∷ s) =
    let rest = unescape_from plain s in
    let behind = unescape_from (digit c) s in
    if is_hex c then behind else if is_escapable c then cons_some c rest else none
unescape_from (digit d) [] = none
unescape_from (digit d) (c ∷ s) =
    let rest = unescape_from plain s in
    if is_hex c && ltb (hex_value d) 8
    then cons_some (hex_value d * 16 + hex_value c) rest
    else none

-- the reader of a value, which does not start with a "#" or a space
unfoldable pub unescape_dn : Text → Option Text
unfolding unescape_from
unescape_dn [] = some []
unescape_dn (c ∷ s) = if c == b'#' || c == b' ' then none else unescape_from plain (c ∷ s)

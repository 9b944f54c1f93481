-- ===== src/Utils/Names/Laws.antt =====
-- The escapes of a distinguished name are read back as the text that was escaped.
use nonecorn.Prelude.{
  ◌∙◌, any, Bool-cases, ==_iff, ◌⊎◌, inr, inl, true, not, false, some, none, is_empty, Option, ◌≢◌,
  ◌&&◌, ap, Bool, ◌≡◌, ◌∷◌, ◌||◌, ◌==◌, ◌++◌, ℕ, refl, if◌then◌else◌, arith, append_assoc, [],
}
use nonecorn.Bytes.{Text}
use nonecorn.Utils.Names.Rfc4514.{
  is_hex, hex_value, is_reserved, is_escapable, cons_some, unescape_from, unescape_dn, plain,
}
use nonecorn.Utils.Names.{escape_dn_chars, replace, escape_last, escape_first, replace_specials}

flat_map : (ℕ → Text) → Text → Text
flat_map f [] = []
flat_map f (c ∷ s) = f c ++ flat_map f s

-- the characters that get a backslash and are kept
is_special : ℕ → Bool
is_special c =
    c == b'\\'
    || c == b','
    || c == b'+'
    || c == b'"'
    || c == b'<'
    || c == b'>'
    || c == b';'
    || c == b'='
    || c == 0

-- what the chain of replacements makes of one character
escape_char : ℕ → Text
escape_char c =
    if is_special c
    then b'\\' ∷ c ∷ []
    else if c == 10
    then b'\\' ∷ b'0' ∷ b'a' ∷ []
    else if c == 13
    then b'\\' ∷ b'0' ∷ b'd' ∷ []
    else c ∷ []

replace-append : (c : ℕ) (r s t : Text) → replace c r (s ++ t) ≡ replace c r s ++ replace c r t
unfolding replace
replace-append c r [] t = refl
replace-append c r (d ∷ s) t = simp (replace-append c r s t, append_assoc)

replace_specials-append :
    (s t : Text) → replace_specials (s ++ t) ≡ replace_specials s ++ replace_specials t
unfolding replace_specials
replace_specials-append s t = simp replace-append

replace_specials_char : (c : ℕ) → replace_specials (c ∷ []) ≡ escape_char c
unfolding replace replace_specials escape_char is_special
replace_specials_char c = ground arith

replace_specials_lem : (s : Text) → replace_specials s ≡ flat_map escape_char s
unfolding flat_map
replace_specials_lem [] = unfold replace replace_specials in refl
replace_specials_lem (c ∷ s) =
    rw (replace_specials-append (c ∷ []) s, replace_specials_char c, replace_specials_lem s)

-- what a reader gets for a character and what is behind it, where a NUL is refused
cons_unless_nul : ℕ → Option Text → Option Text
cons_unless_nul c r = if c == 0 then none else cons_some c r

special-is_escapable :
    (c : ℕ) → is_special c ≡ true → (is_hex c ≡ false) × (is_escapable c ≡ not (c == 0))
unfolding is_special is_hex is_escapable
special-is_escapable c h = ground (arith, h)

not_special :
    (c : ℕ)
    → is_special c ≡ false
    → ((c == b'\\') ≡ false) × (is_reserved c ≡ false) × ((c == 0) ≡ false)
unfolding is_special is_reserved
not_special c h = ground (arith, h)

-- an escaped character, and one that stands alone
unescape_pair :
    (c : ℕ) (t : Text)
    → is_special c ≡ true
    → unescape_from plain (b'\\' ∷ c ∷ t) ≡ cons_unless_nul c (unescape_from plain t)
unfolding cons_unless_nul unescape_from
unescape_pair c t h = ground (arith, special-is_escapable c h)

unescape_alone :
    (c : ℕ) (t : Text)
    → is_special c ≡ false
    → (c == b' ' && is_empty t) ≡ false
    → unescape_from plain (c ∷ t) ≡ cons_unless_nul c (unescape_from plain t)
unfolding cons_unless_nul unescape_from
unescape_alone c t h inside = ground (arith, not_special c h, inside)

unescape_pair-hex :
    (t : Text)
    → (unescape_from plain (b'\\' ∷ b'0' ∷ b'a' ∷ t) ≡ cons_unless_nul 10 (unescape_from plain t))
      × (unescape_from plain (b'\\' ∷ b'0' ∷ b'd' ∷ t) ≡ cons_unless_nul 13 (unescape_from plain t))
unfolding cons_unless_nul unescape_from is_hex hex_value
unescape_pair-hex t = (refl, refl)

-- the three forms that a character gets
escape_char-cases :
    (c : ℕ)
    → ((is_special c ≡ true) × (escape_char c ≡ b'\\' ∷ c ∷ []))
      ⊎ ((c ≡ 10) × (escape_char c ≡ b'\\' ∷ b'0' ∷ b'a' ∷ []))
      ⊎ ((c ≡ 13) × (escape_char c ≡ b'\\' ∷ b'0' ∷ b'd' ∷ []))
      ⊎ ((is_special c ≡ false) × (escape_char c ≡ c ∷ []))
unfolding escape_char
escape_char-cases c = ground arith

unescape-escape_char :
    (c : ℕ) (t : Text)
    → is_empty t ≡ false
    → unescape_from plain (escape_char c ++ t) ≡ cons_unless_nul c (unescape_from plain t)
unescape-escape_char c t more = elim (escape_char-cases c) [
  | inl (h, e) ↦ rw e (unescape_pair c t h)
  | inr (inl (h, e)) ↦ rw (e, h) (unescape_pair-hex t).0
  | inr (inr (inl (h, e))) ↦ rw (e, h) (unescape_pair-hex t).1
  | inr (inr (inr (h, e))) ↦ rw e (unescape_alone c t h (ground (arith, more)))
]

escape_last-append :
    (s : Text) (d : ℕ) (t : Text) → escape_last (s ++ d ∷ t) ≡ s ++ escape_last (d ∷ t)
unfolding escape_last
escape_last-append [] d t = refl
escape_last-append (c ∷ []) d t = refl
escape_last-append (c ∷ c' ∷ s) d t = ap (λ r. c ∷ r) (escape_last-append (c' ∷ s) d t)

escape_char-ne-nil : (c : ℕ) (t : Text) → escape_char c ++ t ≢ []
unfolding escape_char
escape_char-ne-nil c t = ground arith

escape_last-append_ne : (s t : Text) → t ≢ [] → escape_last (s ++ t) ≡ s ++ escape_last t
escape_last-append_ne s [] h = absurd (h refl)
escape_last-append_ne s (d ∷ t) h = escape_last-append s d t

unescape_space : unescape_from plain (b'\\' ∷ b' ' ∷ []) ≡ cons_unless_nul b' ' (some [])
unfolding cons_unless_nul unescape_from is_hex is_escapable
unescape_space = refl

escape_last-pair : (a b : ℕ) → (b == b' ') ≡ false → escape_last (a ∷ b ∷ []) ≡ a ∷ b ∷ []
unfolding escape_last
escape_last-pair a b h = ground (arith, h)

special-ne-space : (c : ℕ) → is_special c ≡ true → (c == b' ') ≡ false
unfolding is_special
special-ne-space c h = ground (arith, h)

unescape_last_alone :
    (c : ℕ)
    → is_special c ≡ false
    → unescape_from plain (escape_last (c ∷ [])) ≡ cons_unless_nul c (some [])
unfolding escape_last
unescape_last_alone c h = elim (Bool-cases (c == b' ')) [
  | inl e ↦ rw ((==_iff c b' ').0 e) unescape_space
  | inr e ↦ rw e (unescape_alone c [] h (ground (arith, e)) ∙ unfold unescape_from in refl)
]

unescape_one :
    (c : ℕ) → unescape_from plain (escape_last (escape_char c ++ [])) ≡ cons_unless_nul c (some [])
unescape_one c = elim (escape_char-cases c) [
  | inl (h, e) ↦
      rw (e, escape_last-pair b'\\' c (special-ne-space c h))
        (unescape_pair c [] h ∙ unfold unescape_from in refl)
  | inr (inl (h, e)) ↦
      rw (e, h) (unfold unescape_from escape_last cons_unless_nul is_hex hex_value in refl)
  | inr (inr (inl (h, e))) ↦
      rw (e, h) (unfold unescape_from escape_last cons_unless_nul is_hex hex_value in refl)
  | inr (inr (inr (h, e))) ↦ rw e (unescape_last_alone c h)
]

is_empty-escape_last : (c : ℕ) (s : Text) → is_empty (escape_last (c ∷ s)) ≡ false
unfolding escape_last
is_empty-escape_last c [] = ground arith
is_empty-escape_last c (d ∷ s) = refl

escape_last-nonempty : (s : Text) → s ≢ [] → is_empty (escape_last s) ≡ false
escape_last-nonempty [] h = absurd (h refl)
escape_last-nonempty (c ∷ s) h = is_empty-escape_last c s

unescape-escape_first :
    (c : ℕ) (s : Text)
    → (c == b' ' && is_empty s) ≡ false
    → unescape_dn (escape_first (c ∷ s)) ≡ unescape_from plain (c ∷ s)
unfolding unescape_dn escape_first unescape_from is_hex is_escapable is_reserved
unescape-escape_first c s h = ground (arith, h)

unescape-escape_ends :
    (s : Text) → unescape_dn (escape_first (escape_last s)) ≡ unescape_from plain (escape_last s)
unfolding escape_last
unescape-escape_ends [] = unfold unescape_dn escape_first unescape_from in refl
unescape-escape_ends (c ∷ []) = elim (Bool-cases (c == b' ')) [
  | inl e ↦ rw e (unescape-escape_first b'\\' (b' ' ∷ []) refl)
  | inr e ↦ rw e (unescape-escape_first c [] (ground (arith, e)))
]
unescape-escape_ends (c ∷ d ∷ s) =
    unescape-escape_first c (escape_last (d ∷ s)) (ground (arith, is_empty-escape_last d s))

-- what a reader gets for an escaped text
abbrev read_of : Text → Option Text
read_of s = if any (λ c. c == 0) s then none else some s

cons_unless_nul-read_of : (c : ℕ) (s : Text) → cons_unless_nul c (read_of s) ≡ read_of (c ∷ s)
unfolding cons_unless_nul cons_some
cons_unless_nul-read_of c s = ground arith

unescape-escape_last :
    (s : Text) → unescape_from plain (escape_last (flat_map escape_char s)) ≡ read_of s
unfolding flat_map
unescape-escape_last [] = unfold unescape_from escape_last in refl
unescape-escape_last (c ∷ []) = unescape_one c ∙ cons_unless_nul-read_of c []
unescape-escape_last (c ∷ c' ∷ s) =
    rw
      (escape_last-append_ne (escape_char c) (escape_char c' ++ flat_map escape_char s)
        (escape_char-ne-nil c' (flat_map escape_char s)))
      (unescape-escape_char c _
          (escape_last-nonempty _ (escape_char-ne-nil c' (flat_map escape_char s)))
        ∙ ap (cons_unless_nul c) (unescape-escape_last (c' ∷ s))
        ∙ cons_unless_nul-read_of c (c' ∷ s))

-- A reader that follows RFC 4514 gets back the text that was escaped, whatever characters it holds but
-- the NUL: a text with a NUL is escaped as one that such a reader refuses.
pub unescape-escape_dn_chars :
    (s : Text) → unescape_dn (escape_dn_chars s) ≡ (if any (λ c. c == 0) s then none else some s)
unfolding escape_dn_chars
unescape-escape_dn_chars [] = unfold unescape_dn in refl
unescape-escape_dn_chars (c ∷ s) =
    rw (unescape-escape_ends, replace_specials_lem (c ∷ s)) (unescape-escape_last (c ∷ s))

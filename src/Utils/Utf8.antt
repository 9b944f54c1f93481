-- ===== src/Utils/Utf8.antt =====
-- `bytes.decode()` and `str.encode()` with Python's default codec, strict UTF-8.
use nonecorn.Prelude.{
  zero, refl, suc, ◌≡◌, ℕ, ◌+◌, ◌-◌, ◌*◌, ◌/◌, ◌%◌, Bool, true, false, ◌&&◌, ◌||◌, Option, none,
  some, [], ◌∷◌, ◌++◌, ltb, leb, if◌then◌else◌,
}
use nonecorn.Bytes.{Bytes, Text}

-- the code points that UTF-8 encodes: below 0x110000, and no surrogate
abbrev pub is_scalar : ℕ → Bool
is_scalar c = ltb c 55296 || (leb 57344 c && ltb c 1114112)

abbrev is_continuation : ℕ → Bool
is_continuation b = leb 128 b && ltb b 192

unfoldable pub encode_char : ℕ → Bytes
encode_char c =
    if ltb c 128
    then c ∷ []
    else if ltb c 2048
    then (192 + c / 64) ∷ (128 + c % 64) ∷ []
    else if ltb c 65536
    then (224 + c / 4096) ∷ (128 + c / 64 % 64) ∷ (128 + c % 64) ∷ []
    else (240 + c / 262144) ∷ (128 + c / 4096 % 64) ∷ (128 + c / 64 % 64) ∷ (128 + c % 64) ∷ []

unfoldable pub encode_utf8 : Text → Bytes
unfolding encode_char
encode_utf8 [] = []
encode_utf8 (c ∷ cs) = encode_char c ++ encode_utf8 cs

abbrev pub prepend : ℕ → Option Text → Option Text
prepend c none = none
prepend c (some t) = some (c ∷ t)

-- What a leading byte of a longer form says: the bytes that follow, its own bits, and the least
-- code point of the form.
lead : ℕ → Option (ℕ × ℕ × ℕ)
lead b =
    if leb 194 b && ltb b 224
    then some (1, b - 192, 128)
    else if leb 224 b && ltb b 240
    then some (2, b - 224, 2048)
    else if leb 240 b && ltb b 245
    then some (3, b - 240, 65536)
    else none

-- `n` bytes of the current form are missing; `acc` holds its bits so far.
decode_from : (n acc low : ℕ) → Bytes → Option Text
unfolding lead
decode_from zero acc low [] = some []
decode_from (suc n) acc low [] = none
decode_from zero acc low (b ∷ bs) = elim (ltb b 128) [
  | true ↦ prepend b (decode_from 0 0 0 bs)
  | false ↦ elim (lead b) [ none ↦ none | some (m, bits, least) ↦ decode_from m bits least bs ]
]
decode_from (suc zero) acc low (b ∷ bs) =
    let v = acc * 64 + (b - 128) in
    elim (is_continuation b && leb low v && is_scalar v) [
      | true ↦ prepend v (decode_from 0 0 0 bs)
      | false ↦ none
    ]
decode_from (suc (suc n)) acc low (b ∷ bs) = elim (is_continuation b) [
  | true ↦ decode_from (suc n) (acc * 64 + (b - 128)) low bs
  | false ↦ none
]

-- Overlong forms, surrogates and code points past 0x10ffff are refused.
unfoldable pub decode_utf8 : Bytes → Option Text
unfolding decode_from
decode_utf8 bs = decode_from 0 0 0 bs

-- one character of each length, and a surrogate, an overlong form and a stray byte that are refused
decode_tests :
    (decode_utf8 (encode_utf8 (36 ∷ 233 ∷ 8364 ∷ 128512 ∷ []))
      ≡ some (36 ∷ 233 ∷ 8364 ∷ 128512 ∷ []))
    × (decode_utf8 (237 ∷ 160 ∷ 128 ∷ []) ≡ none)
    × (decode_utf8 (192 ∷ 128 ∷ []) ≡ none)
    × (decode_utf8 (65 ∷ 128 ∷ []) ≡ none)
unfolding decode_utf8 encode_utf8
decode_tests = (refl, refl, refl, refl)

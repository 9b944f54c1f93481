-- ===== src/Bytes.antt =====
-- Python's `bytes` and `str` as lists of numbers: the bytes, or the code points. Decoding latin-1
-- is the identity on these lists. The operations are those that the server calls.
pub mod Laws
use Prim.Native.Char.{code}
use nonecorn.Prelude.{
  ℕ, zero, suc, ◌+◌, ◌-◌, String, Bool, true, false, ◌&&◌, ◌||◌, Option, none, some, List, [], ◌∷◌,
  ◌++◌, map, ltb, leb, ◌==◌, is_empty, if◌then◌else◌,
}

abbrev pub Bytes : Type 0
Bytes = List ℕ

abbrev pub Text : Type 0
Text = List ℕ

-- a literal `b"..."` or `"..."` of the source
abbrev pub codes : String → List ℕ
codes String.[] = []
codes (String.◌∷◌ c s) = code c ∷ codes s

-- `a == b`
unfoldable pub same : Bytes → Bytes → Bool
same [] [] = true
same [] (d ∷ ds) = false
same (c ∷ cs) [] = false
same (c ∷ cs) (d ∷ ds) = c == d && same cs ds

-- `a < b` of two texts
unfoldable pub less : Text → Text → Bool
less [] [] = false
less [] (d ∷ ds) = true
less (c ∷ cs) [] = false
less (c ∷ cs) (d ∷ ds) = ltb c d || (c == d && less cs ds)

-- `s.startswith(prefix)`
unfoldable pub starts_with : Bytes → Bytes → Bool
starts_with [] s = true
starts_with (c ∷ cs) [] = false
starts_with (c ∷ cs) (d ∷ ds) = c == d && starts_with cs ds

-- the whitespace of `bytes.strip`: space, and \t \n \v \f \r
unfoldable pub is_space : ℕ → Bool
is_space c = c == 32 || (leb 9 c && leb c 13)

-- the whitespace of `str.strip` among the code points of latin-1
unfoldable pub is_space_latin1 : ℕ → Bool
unfolding is_space
is_space_latin1 c = is_space c || (leb 28 c && leb c 31) || c == 133 || c == 160

unfoldable pub lstrip_by : (ℕ → Bool) → Bytes → Bytes
lstrip_by p [] = []
lstrip_by p (c ∷ cs) = let rest = lstrip_by p cs in if p c then rest else c ∷ cs

unfoldable pub rstrip_by : (ℕ → Bool) → Bytes → Bytes
rstrip_by p [] = []
rstrip_by p (c ∷ cs) = let rest = rstrip_by p cs in if p c && is_empty rest then [] else c ∷ rest

-- `value.strip()` of bytes
unfoldable pub strip : Bytes → Bytes
unfolding lstrip_by rstrip_by is_space
strip s = rstrip_by is_space (lstrip_by is_space s)

-- `value.decode("latin1").strip()`
unfoldable pub strip_latin1 : Bytes → Text
unfolding lstrip_by rstrip_by is_space_latin1
strip_latin1 s = rstrip_by is_space_latin1 (lstrip_by is_space_latin1 s)

unfoldable pub lower_byte : ℕ → ℕ
lower_byte c = if leb 65 c && leb c 90 then c + 32 else c

-- `value.lower()` of bytes
unfoldable pub lower : Bytes → Bytes
unfolding lower_byte
lower = map lower_byte

unfoldable pub upper_byte : ℕ → ℕ
upper_byte c = if leb 97 c && leb c 122 then c - 32 else c

-- `value.upper()` of an ASCII text
unfoldable pub upper : Text → Text
unfolding upper_byte
upper = map upper_byte

-- `s.split(sep)` for a separator of one byte
unfoldable pub split_from : ℕ → Bytes → Bytes → List Bytes
split_from sep cur [] = cur ∷ []
split_from sep cur (c ∷ cs) =
    let closed = cur ∷ split_from sep [] cs in
    let longer = split_from sep (cur ++ c ∷ []) cs in if c == sep then closed else longer

unfoldable pub split : ℕ → Bytes → List Bytes
unfolding split_from
split sep s = split_from sep [] s

-- `s.partition(sep)`, without its middle part
unfoldable pub partition : ℕ → Bytes → Bytes × Bytes
partition sep [] = ([], [])
partition sep (c ∷ cs) =
    let (before, after) = partition sep cs in if c == sep then ([], cs) else (c ∷ before, after)

-- `s[n:]`
abbrev pub drop : ℕ → Bytes → Bytes
drop zero s = s
drop (suc n) [] = []
drop (suc n) (c ∷ s) = drop n s

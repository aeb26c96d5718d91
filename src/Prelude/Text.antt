-- ===== src/Prelude/Text.antt =====
-- Rust strings as lists of code points, with the byte view that `len`, `find` and `truncate` use.
-- A slice at an offset that `find` returned is the pair of texts before and behind the match.
use Prim.Native.Nat.{ℕ, ◌+◌, ◌-◌}
use Prim.Native.Char.{code}
use Prim.Native.String.{String}
use mathlib.Core.Path.{◌≡◌}
use mathlib.Core.Bool.{Bool, true, false, ◌&&◌, ◌||◌}
use mathlib.Core.List.{List, [], ◌∷◌, ◌++◌, map, reverse}
use mathlib.Core.Option.{Option, none, some}
use native.Mathlib.Omega.{arith}
use postgresql_trino_gateway.Prelude.Tests.{ltb, leb, ◌==◌, if◌then◌else◌}

abbrev pub Text : Type 0
Text = List ℕ

abbrev pub codes : String → Text
codes String.[] = []
codes (String.◌∷◌ c s) = code c ∷ codes s

-- The bytes that UTF-8 takes for a code point.
abbrev pub utf8_len : ℕ → ℕ
utf8_len c = if ltb c 0x80 then 1 else if ltb c 0x800 then 2 else if ltb c 0x1_0000 then 3 else 4

-- `str::len`, in bytes.
abbrev pub byte_len : Text → ℕ
byte_len [] = 0
byte_len (c ∷ s) = utf8_len c + byte_len s

pub byte_len-append : (s t : Text) → byte_len (s ++ t) ≡ byte_len s + byte_len t
byte_len-append [] t = omega arith
byte_len-append (c ∷ s) t = omega (arith, byte_len-append s t)

-- `str::is_char_boundary`.
unfoldable pub is_char_boundary : Text → ℕ → Bool
is_char_boundary [] i = i == 0
is_char_boundary (c ∷ s) i =
    if i == 0
    then true
    else if ltb i (utf8_len c)
    then false
    else is_char_boundary s (i - utf8_len c)

-- `String::truncate` at a char boundary: the code points that end within the first `n` bytes.
unfoldable pub truncate : Text → ℕ → Text
truncate [] n = []
truncate (c ∷ s) n = if ltb n (utf8_len c) then [] else c ∷ truncate s (n - utf8_len c)

-- The text behind a prefix.
unfoldable pub strip_prefix : Text → Text → Option Text
strip_prefix [] s = some s
strip_prefix (p ∷ ps) [] = none
strip_prefix (p ∷ ps) (c ∷ s) = if p == c then strip_prefix ps s else none

unfoldable pub starts_with : Text → Text → Bool
starts_with s [] = true
starts_with [] (p ∷ ps) = false
starts_with (c ∷ s) (p ∷ ps) = p == c && starts_with s ps

unfoldable pub ends_with : Text → Text → Bool
unfolding starts_with
ends_with s p = starts_with (reverse s) (reverse p)

unfoldable pub text_eq : Text → Text → Bool
text_eq [] [] = true
text_eq [] (d ∷ t) = false
text_eq (c ∷ s) [] = false
text_eq (c ∷ s) (d ∷ t) = c == d && text_eq s t

abbrev before_in : ℕ → Option (Text × Text) → Option (Text × Text)
before_in c none = none
before_in c (some (a, b)) = some (c ∷ a, b)

-- `str::find` of a text: what stands before and behind its first occurrence.
unfoldable pub find : Text → Text → Option (Text × Text)
unfolding strip_prefix
find pat [] = elim (strip_prefix pat []) [ none ↦ none | some rest ↦ some ([], rest) ]
find pat (c ∷ s) = elim (strip_prefix pat (c ∷ s)) [
  | none ↦ before_in c (find pat s)
  | some rest ↦ some ([], rest)
]

unfoldable pub contains : Text → Text → Bool
unfolding find
contains s pat = elim (find pat s) [ none ↦ false | some _ ↦ true ]

-- The rest from the first code point on that passes the test: `find(closure)` and `trim_start`.
unfoldable pub drop_until : (ℕ → Bool) → Text → Text
drop_until p [] = []
drop_until p (c ∷ s) = if p c then c ∷ s else drop_until p s

unfoldable pub take_until : (ℕ → Bool) → Text → Text
take_until p [] = []
take_until p (c ∷ s) = if p c then [] else c ∷ take_until p s

-- `char::is_whitespace`, Unicode's White_Space.
unfoldable pub is_whitespace : ℕ → Bool
is_whitespace c =
    leb 9 c && leb c 13
    || c == 32
    || c == 0x85
    || c == 0xA0
    || c == 0x1680
    || leb 0x2000 c && leb c 0x200A
    || c == 0x2028
    || c == 0x2029
    || c == 0x202F
    || c == 0x205F
    || c == 0x3000

unfoldable pub trim_start : Text → Text
unfolding is_whitespace
trim_start [] = []
trim_start (c ∷ s) = if is_whitespace c then trim_start s else c ∷ s

unfoldable pub trim_end_by : (ℕ → Bool) → Text → Text
trim_end_by p [] = []
trim_end_by p (c ∷ s) =
    let rest = trim_end_by p s in
    elim rest [ [] ↦ (if p c then [] else c ∷ []) | d ∷ r ↦ c ∷ d ∷ r ]

unfoldable pub trim : Text → Text
unfolding trim_start trim_end_by is_whitespace
trim s = trim_end_by is_whitespace (trim_start s)

unfoldable pub ascii_upper : ℕ → ℕ
ascii_upper c = if leb b'a' c && leb c b'z' then c - 32 else c

unfoldable pub ascii_lower : ℕ → ℕ
ascii_lower c = if leb b'A' c && leb c b'Z' then c + 32 else c

-- `str::to_ascii_uppercase`.
unfoldable pub to_ascii_uppercase : Text → Text
unfolding ascii_upper
to_ascii_uppercase = map ascii_upper

-- `str::eq_ignore_ascii_case`.
unfoldable pub eq_ignore_ascii_case : Text → Text → Bool
unfolding text_eq ascii_lower
eq_ignore_ascii_case s t = text_eq (map ascii_lower s) (map ascii_lower t)

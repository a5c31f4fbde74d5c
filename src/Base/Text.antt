-- ===== src/Base/Text.antt =====
-- Python's text methods over the native `String`: `strip`, `lower` (ASCII), `len`, and tests of
-- every character.
use Prim.Native.Nat.{ℕ, suc, ◌-◌}
use Prim.Native.Char.{Char, code}
use Prim.Native.String.{String, char_at}
use mathlib.Core.Bool.{Bool, true, false, ◌&&◌, ◌||◌}
use alpha_agent.Base.Tests.{leb, ◌==◌, if◌then◌else◌}

-- `str.isspace` of one character.
abbrev pub is_space : ℕ → Bool
is_space c =
    (leb 9 c && leb c 13)
    || (leb 28 c && leb c 32)
    || c == 133
    || c == 160
    || c == 5760
    || (leb 8192 c && leb c 8202)
    || c == 8232
    || c == 8233
    || c == 8239
    || c == 8287
    || c == 12288

abbrev is_empty : String → Bool
is_empty String.[] = true
is_empty (String.◌∷◌ c s) = false

pub lstrip : String → String
lstrip String.[] = String.[]
lstrip (String.◌∷◌ c s) = let rest = lstrip s in if is_space (code c) then rest else String.◌∷◌ c s

pub rstrip : String → String
rstrip String.[] = String.[]
rstrip (String.◌∷◌ c s) =
    let rest = rstrip s in
    if is_space (code c) && is_empty rest then String.[] else String.◌∷◌ c rest

-- `str.strip()`
unfoldable pub strip : String → String
unfolding lstrip rstrip
strip s = rstrip (lstrip s)

-- `not s`
unfoldable pub is_blank : String → Bool
is_blank = is_empty

-- `len(s)`: the number of code points.
unfoldable pub length_text : String → ℕ
length_text String.[] = 0
length_text (String.◌∷◌ c s) = suc (length_text s)

-- `all(p(c) for c in s)`
unfoldable pub all_chars : (ℕ → Bool) → String → Bool
all_chars p String.[] = true
all_chars p (String.◌∷◌ c s) = p (code c) && all_chars p s

-- `str.lower` of one character whose lower case is ASCII: the capitals A to Z and the Kelvin
-- sign. The other characters stay.
lower_char : Char → Char
lower_char c =
    if leb 65 (code c) && leb (code c) 90
    then char_at "abcdefghijklmnopqrstuvwxyz" (code c - 65)
    else if code c == 8490
    then char_at "k" 0
    else c

unfoldable pub lower : String → String
unfolding lower_char
lower String.[] = String.[]
lower (String.◌∷◌ c s) = String.◌∷◌ (lower_char c) (lower s)

-- `c in "0123456789abcdef"`
abbrev pub is_hex : ℕ → Bool
is_hex c = (leb 48 c && leb c 57) || (leb 97 c && leb c 102)

-- `isinstance(value, str) and len(value) == length and all(hex)`, of a text.
unfoldable pub is_lower_hex : ℕ → String → Bool
unfolding length_text all_chars
is_lower_hex n s = length_text s == n && all_chars is_hex s

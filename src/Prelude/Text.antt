-- ===== src/Prelude/Text.antt =====
-- What the program uses of Python's `str`: `strip`, `lstrip`, `upper`, slices by characters and the
-- decimal print of a number. Case mapping is that of the ASCII letters.
use Prim.Native.Nat.{ℕ, zero, suc, ◌-◌}
use Prim.Native.Char.{code}
use Prim.Native.String.{String, [], ◌∷◌, ◌++◌, count}
use mathlib.Core.Bool.{Bool, true, false, ◌&&◌, ◌||◌}
use mathlib.Core.List.{List, [], ◌∷◌}
use text.Mathlib.Text.{◌==◌, starts_with}
use hermes_sdlc_agents.Prelude.Tests.{ltb, leb, nat_eq, if◌then◌else◌}

-- `str.isspace` of one character, by its code point.
unfoldable pub is_space : ℕ → Bool
is_space c =
    (leb 9 c && leb c 13)
    || (leb 28 c && leb c 32)
    || nat_eq c 133
    || nat_eq c 160
    || nat_eq c 5760
    || (leb 8192 c && leb c 8202)
    || nat_eq c 8232
    || nat_eq c 8233
    || nat_eq c 8239
    || nat_eq c 8287
    || nat_eq c 12288

-- `s.lstrip(...)` and `s.rstrip(...)`, by a test of the characters to drop.
unfoldable pub strip_left : (ℕ → Bool) → String → String
strip_left p [] = []
strip_left p (c ∷ s) = if p (code c) then strip_left p s else c ∷ s

unfoldable pub strip_right : (ℕ → Bool) → String → String
strip_right p [] = []
strip_right p (c ∷ s) =
    let rest = strip_right p s in if p (code c) && rest == "" then [] else c ∷ rest

unfoldable pub strip : String → String
unfolding is_space strip_left strip_right
strip s = strip_right is_space (strip_left is_space s)

-- `s.lstrip("/")`
unfoldable pub strip_slashes : String → String
unfolding strip_left
strip_slashes s = strip_left (λ c. nat_eq c b'/') s

-- `s[:n]`
unfoldable pub take_chars : ℕ → String → String
take_chars zero s = []
take_chars (suc n) [] = []
take_chars (suc n) (c ∷ s) = c ∷ take_chars n s

-- `any(ord(char) < 32 for char in value)`
unfoldable pub has_control : String → Bool
has_control [] = false
has_control (c ∷ s) = ltb (code c) 32 || has_control s

-- `str.upper` of one character, where the result is an ASCII letter: dotless i and long s are the
-- only characters outside ASCII of which that is so.
unfoldable pub upper_code : ℕ → ℕ
upper_code c =
    if leb b'a' c && leb c b'z'
    then c - 32
    else if nat_eq c 305
    then b'I'
    else if nat_eq c 383
    then b'S'
    else c

-- `s.upper() == t`, for an ASCII text `t` in which no character stands for two of `s.upper()`.
unfoldable pub upper_is : String → String → Bool
unfolding upper_code
upper_is [] [] = true
upper_is (c ∷ s) (d ∷ t) = nat_eq (upper_code (code c)) (code d) && upper_is s t
upper_is _ _ = false

-- `s.endswith(t)`
unfoldable pub ends_with : String → String → Bool
ends_with [] t = [] == t
ends_with (c ∷ s) t = (c ∷ s) == t || ends_with s t

-- `s[:-n]`
unfoldable pub drop_end : ℕ → String → String
unfolding take_chars
drop_end n s = take_chars (count s - n) s

-- The text of an f-string, from its pieces.
unfoldable pub concat : List String → String
concat [] = ""
concat (s ∷ ss) = s ++ concat ss

-- `separator.join(lines)`
unfoldable pub join : String → List String → String
join separator [] = ""
join separator (s ∷ []) = s
join separator (s ∷ t ∷ ss) = s ++ separator ++ join separator (t ∷ ss)

abbrev pub add_to_first : String → List String → List String
add_to_first s [] = s ∷ []
add_to_first s (t ∷ ts) = (s ++ t) ∷ ts

-- `s.split(separator)`, by a separator of one character.
unfoldable pub split_on : ℕ → String → List String
split_on separator [] = "" ∷ []
split_on separator (c ∷ s) =
    let rest = split_on separator s in
    if nat_eq (code c) separator then "" ∷ rest else add_to_first (c ∷ []) rest

-- `s[n:]`
unfoldable pub drop_chars : ℕ → String → String
drop_chars zero s = s
drop_chars (suc n) [] = []
drop_chars (suc n) (c ∷ s) = drop_chars n s

-- `t in s`
unfoldable pub contains : String → String → Bool
contains [] t = starts_with [] t
contains (c ∷ s) t = starts_with (c ∷ s) t || contains s t

-- The texts between white space, empty ones too.
unfoldable pub pieces : String → List String
unfolding is_space
pieces [] = "" ∷ []
pieces (c ∷ s) =
    let rest = pieces s in if is_space (code c) then "" ∷ rest else add_to_first (c ∷ []) rest

-- `s.split()`: the pieces that are not empty.
unfoldable pub words : List String → List String
words [] = []
words (s ∷ ss) = let rest = words ss in if s == "" then rest else s ∷ rest

-- `s.rsplit(separator, 1)[-1]`, by a separator of one character; `last` is what follows the last one
-- that was met.
unfoldable pub after_last : ℕ → String → String → String
after_last separator last [] = last
after_last separator last (c ∷ s) =
    after_last separator (if nat_eq (code c) separator then s else last) s

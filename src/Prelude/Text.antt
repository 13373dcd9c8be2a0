-- ===== src/Prelude/Text.antt =====
-- The parts of Rust's `str` that the program uses, on native texts.
pub mod Words
pub mod Decimal
pub mod Ascii
use Prim.Native.Nat.{ℕ, ◌+◌}
use Prim.Native.Char.{Char, code}
use Prim.Native.String
use Prim.Native.String.{String, [], ◌∷◌}
use mathlib.Core.Path.{◌≡◌, refl}
use mathlib.Core.Bool.{Bool, true, false, ◌&&◌, ◌||◌}
use mathlib.Core.Option.{Option, none, some}
use mathlib.Core.List.{List, [], ◌∷◌}
use text.Mathlib.Text.{◌==◌ as str_eq, starts_with as text_starts_with}
use sts_delegate_rs.Prelude.Tests.{leb, ◌==◌, if◌then◌else◌}

infixl 65 ◌⧺◌
abbrev pub ◌⧺◌ : String → String → String
s ⧺ t = String.◌++◌ s t

abbrev pub text_eq : String → String → Bool
text_eq s t = str_eq s t

-- `Option<&str> == Some(s)`.
abbrev pub is_some_text : String → Option String → Bool
is_some_text s none = false
is_some_text s (some t) = str_eq t s

abbrev pub is_empty : String → Bool
is_empty [] = true
is_empty (c ∷ s) = false

-- `char::is_whitespace`: the Unicode property White_Space.
unfoldable pub is_whitespace : ℕ → Bool
is_whitespace c =
    leb 9 c && leb c 13
    || c == 32
    || c == 0x85
    || c == 0xA0
    || c == 0x1680
    || leb 0x2000 c && leb c 0x200A
    || c == 0x2028
    || c == 0x2029
    || c == 0x202F
    || c == 0x205F
    || c == 0x3000

unfoldable pub trim_start : String → String
unfolding is_whitespace
trim_start [] = []
trim_start (c ∷ s) = let rest = trim_start s in if is_whitespace (code c) then rest else c ∷ s

unfoldable pub trim_end : String → String
unfolding is_whitespace
trim_end [] = []
trim_end (c ∷ s) =
    let rest = trim_end s in if is_empty rest && is_whitespace (code c) then [] else c ∷ rest

unfoldable pub trim : String → String
unfolding trim_start trim_end
trim s = trim_end (trim_start s)

-- `s.trim().is_empty()`.
unfoldable pub is_blank : String → Bool
unfolding trim
is_blank s = is_empty (trim s)

-- Some character of the text passes the test.
abbrev pub any_char : (ℕ → Bool) → String → Bool
any_char p [] = false
any_char p (c ∷ s) = p (code c) || any_char p s

-- `s.contains(c)` for a character, and `s.contains(t)` for a text.
abbrev pub contains_char : String → ℕ → Bool
contains_char s k = any_char (λ c. c == k) s

abbrev pub starts_with : String → String → Bool
starts_with s t = text_starts_with s t

unfoldable pub contains : String → String → Bool
contains [] t = starts_with [] t
contains (c ∷ s) t = starts_with (c ∷ s) t || contains s t

-- `split_whitespace`: the word that the text begins with, and the later words.
abbrev close : String → List String → List String
close [] ws = ws
close (c ∷ w) ws = (c ∷ w) ∷ ws

words : String → String × List String
unfolding is_whitespace
words [] = ("", [])
words (c ∷ s) =
    let (w, ws) = words s in if is_whitespace (code c) then ("", close w ws) else (c ∷ w, ws)

unfoldable pub split_whitespace : String → List String
unfolding words
split_whitespace s = let (w, ws) = words s in close w ws

-- `split(c)`: the first part and the later ones.
unfoldable pub parts : ℕ → String → String × List String
parts sep [] = ("", [])
parts sep (c ∷ s) =
    let (part, later) = parts sep s in
    if code c == sep then ("", part ∷ later) else (c ∷ part, later)

unfoldable pub split : ℕ → String → List String
unfolding parts
split sep s = let (part, later) = parts sep s in part ∷ later

-- `trim_end_matches(c)`.
unfoldable pub trim_end_matches : ℕ → String → String
trim_end_matches k [] = []
trim_end_matches k (c ∷ s) =
    let rest = trim_end_matches k s in if is_empty rest && code c == k then [] else c ∷ rest

-- `strip_prefix(p)`.
unfoldable pub strip_prefix : String → String → Option String
strip_prefix [] s = some s
strip_prefix (c ∷ p) [] = none
strip_prefix (c ∷ p) (d ∷ s) =
    let rest = strip_prefix p s in if code c == code d then rest else none

-- `s.len()`: the number of bytes in UTF-8.
abbrev pub utf8_width : ℕ → ℕ
utf8_width c = if leb c 0x7F then 1 else if leb c 0x7FF then 2 else if leb c 0xFFFF then 3 else 4

unfoldable pub utf8_length : String → ℕ
utf8_length [] = 0
utf8_length (c ∷ s) = utf8_width (code c) + utf8_length s

-- `words.join(" ")`.
unfoldable pub join_spaces : List String → String
join_spaces [] = ""
join_spaces (w ∷ []) = w
join_spaces (w ∷ v ∷ ws) = w ⧺ (" " ⧺ join_spaces (v ∷ ws))

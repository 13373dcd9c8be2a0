-- ===== src/Cli/Redaction.antt =====
-- The texts that crates/sts-cli/src/main.rs prints of foreign input.
pub mod Safe
pub mod Leak
use Prim.Native.Char.{Char, code}
use Prim.Native.String.{[] as no_text, ◌∷◌ as push_char}
use sts_delegate_rs.Prelude.{
  ℕ, zero, suc, String, Bool, true, false, not, ◌&&◌, ◌||◌, Option, none, some, List, [], ◌∷◌,
  if◌then◌else◌, ◌==◌, leb, ltb, ◌+◌, map, utf8_length, is_empty, split_whitespace, join_spaces,
  ◌⧺◌,
}

-- `is_ascii_graphic` or a space.
abbrev pub is_printed : ℕ → Bool
is_printed c = leb 33 c && leb c 126 || c == 32

-- `chars().take(n)`, each shown as itself or as a question mark.
unfoldable pub take_shown : ℕ → String → String
take_shown zero s = no_text
take_shown (suc n) no_text = no_text
take_shown (suc n) (push_char c s) =
    push_char (if is_printed (code c) then c else "?") (take_shown n s)

-- `chars().count()`.
unfoldable pub char_count : String → ℕ
char_count no_text = 0
char_count (push_char c s) = suc (char_count s)

unfoldable pub sanitize : String → String
sanitize value =
    let shown = take_shown 120 value in if ltb 120 (char_count value) then shown ⧺ "..." else shown

abbrev pub display_optional : Option String → String
display_optional none = "(absent)"
display_optional (some value) = sanitize value

-- The characters of a compact token.
abbrev pub is_token_char : ℕ → Bool
is_token_char c =
    leb 48 c && leb c 57
    || leb 65 c && leb c 90
    || leb 97 c && leb c 122
    || c == 45
    || c == 95
    || c == 46

-- `trim_matches` of the other characters.
unfoldable pub trim_token_start : String → String
trim_token_start no_text = no_text
trim_token_start (push_char c s) =
    let rest = trim_token_start s in if is_token_char (code c) then push_char c s else rest

unfoldable pub trim_token_end : String → String
trim_token_end no_text = no_text
trim_token_end (push_char c s) =
    let rest = trim_token_end s in
    if is_empty rest && not (is_token_char (code c)) then no_text else push_char c rest

-- `matches('.').count()`.
unfoldable pub dots : String → ℕ
dots no_text = 0
dots (push_char c s) = if code c == 46 then suc (dots s) else dots s

unfoldable pub looks_like_compact_jwt : String → Bool
looks_like_compact_jwt value =
    let trimmed = trim_token_end (trim_token_start value) in
    ltb 40 (utf8_length trimmed) && dots trimmed == 2

abbrev pub redacted : String → String
redacted part = if looks_like_compact_jwt part then "[redacted]" else part

unfoldable pub sanitize_oauth_text : String → String
sanitize_oauth_text value = join_spaces (map redacted (split_whitespace (sanitize value)))

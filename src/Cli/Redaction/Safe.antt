-- ===== src/Cli/Redaction/Safe.antt =====
-- What crates/sts-cli/src/main.rs prints of an OAuth error: no word of it looks like a token.
use Prim.Native.Char.{code}
use Prim.Native.String.{[] as no_text, ◌∷◌ as push_char}
use sts_delegate_rs.Prelude.{
  ℕ, zero, suc, ◌≤◌, ◌<◌, ◌⊎◌, ◌==◌, String, Bool, true, false, not, ◌&&◌, ◌≡◌, refl, sym, ap, ◌∙◌,
  subst, inl, inr, List, [], ◌∷◌, map, length, any_char, is_empty, is_whitespace, split,
  split_whitespace, join_spaces, utf8_length, All, arith, Bool-cases, text_eq,
}
use sts_delegate_rs.Prelude.Text.{parts}
use sts_delegate_rs.Prelude.Text.Words.{
  IsWord, split_whitespace-IsWord, split_whitespace-join_spaces,
}
use sts_delegate_rs.Cli.Redaction.{
  looks_like_compact_jwt, is_token_char, trim_token_start, trim_token_end, dots, redacted, sanitize,
  sanitize_oauth_text,
}

marker_test : looks_like_compact_jwt "[redacted]" ≡ false
unfolding looks_like_compact_jwt sts_delegate_rs.Prelude.utf8_length
    sts_delegate_rs.Cli.Redaction.trim_token_end sts_delegate_rs.Cli.Redaction.trim_token_start
marker_test = refl

marker-IsWord : IsWord "[redacted]"
unfolding is_whitespace
marker-IsWord = (refl, refl)

redacted-IsWord : (w : String) → IsWord w → IsWord (redacted w)
redacted-IsWord w word = elim (Bool-cases (looks_like_compact_jwt w)) [
  | inl token ↦ rw token marker-IsWord
  | inr plain ↦ rw plain word
]

redacted-safe : (w : String) → looks_like_compact_jwt (redacted w) ≡ false
redacted-safe w = elim (Bool-cases (looks_like_compact_jwt w)) [
  | inl token ↦ rw token marker_test
  | inr plain ↦ rw (plain, plain) refl
]

map-redacted-IsWord : (ws : List String) → All IsWord ws → All IsWord (map redacted ws)
map-redacted-IsWord [] h = tt
map-redacted-IsWord (w ∷ ws) (word, h) = (redacted-IsWord w word, map-redacted-IsWord ws h)

-- A word that would not be taken for a token.
abbrev pub IsSafe : String → Type 0
IsSafe w = looks_like_compact_jwt w ≡ false

map-redacted-IsSafe : (ws : List String) → All IsSafe (map redacted ws)
map-redacted-IsSafe [] = tt
map-redacted-IsSafe (w ∷ ws) = (redacted-safe w, map-redacted-IsSafe ws)

true≢false : true ≡ false → ⊥
true≢false h = cc

-- A character of a compact token: a digit, a letter, a dash, an underscore or a dot.
abbrev pub IsTokenChar : ℕ → Type 0
IsTokenChar c =
    ((48 ≤ c) × (c ≤ 57))
    ⊎ ((65 ≤ c) × (c ≤ 90))
    ⊎ ((97 ≤ c) × (c ≤ 122))
    ⊎ (c ≡ 45)
    ⊎ (c ≡ 95)
    ⊎ (c ≡ 46)

abbrev pub AllTokenChars : String → Type 0
AllTokenChars no_text = Unit
AllTokenChars (push_char c s) = IsTokenChar (code c) × AllTokenChars s

-- A compact token of more than 40 characters: three segments behind dots.
pub record IsCompactToken (w : String) : Type 0 where
  pub plain : AllTokenChars w
  pub long : 40 < utf8_length w
  pub header : String
  pub payload : String
  pub signature : String
  pub segments : split b'.' w ≡ header ∷ payload ∷ signature ∷ []

is_token_char-true : (c : ℕ) → IsTokenChar c → is_token_char c ≡ true
is_token_char-true c h = ground (arith, h)

trim_token_start_plain : (w : String) → AllTokenChars w → trim_token_start w ≡ w
unfolding trim_token_start
trim_token_start_plain no_text h = refl
trim_token_start_plain (push_char c s) (here, h) = rw (is_token_char-true (code c) here) refl

trim_token_end_plain : (w : String) → AllTokenChars w → trim_token_end w ≡ w
unfolding trim_token_end
trim_token_end_plain no_text h = refl
trim_token_end_plain (push_char c s) (here, h) =
    ground (arith, is_token_char-true (code c) here, trim_token_end_plain s h)

length-parts : (s : String) → length (parts 46 s).1 ≡ dots s
unfolding parts dots
length-parts no_text = refl
length-parts (push_char c s) = elim (Bool-cases (code c == 46)) [
  | inl dot ↦ ground (arith, dot, length-parts s)
  | inr other ↦ ground (arith, other, length-parts s)
]

dots-split : (w : String) (a b c : String) → split b'.' w ≡ a ∷ b ∷ c ∷ [] → dots w ≡ 2
unfolding split
dots-split w a b c h =
    let later : (parts 46 w).1 ≡ b ∷ c ∷ [] = cc in sym (length-parts w) ∙ ap length later

IsCompactToken-looks : (w : String) → IsCompactToken w → looks_like_compact_jwt w ≡ true
unfolding looks_like_compact_jwt
IsCompactToken-looks w t =
    let whole : trim_token_end (trim_token_start w) ≡ w =
      ap trim_token_end (trim_token_start_plain w t.plain) ∙ trim_token_end_plain w t.plain in
    let two = dots-split w t.header t.payload t.signature t.segments in
    let long = t.long in rw whole (ground (arith, two, long))

safe-not_token : (ws : List String) → All IsSafe ws → All (λ w. ¬ IsCompactToken w) ws
safe-not_token [] h = tt
safe-not_token (w ∷ ws) (safe, h) =
    (λ token. true≢false (sym (IsCompactToken-looks w token) ∙ safe), safe-not_token ws h)

-- No word that `sanitize_oauth_text` gives is a compact token: three segments of letters, digits, dashes and
-- underscores behind dots, of more than 40 characters in all.
pub sanitize_oauth_text-no_token :
    (value : String) → All (λ w. ¬ IsCompactToken w) (split_whitespace (sanitize_oauth_text value))
unfolding sanitize_oauth_text
sanitize_oauth_text-no_token value =
    let words = split_whitespace (sanitize value) in
    let back : split_whitespace (join_spaces (map redacted words)) ≡ map redacted words =
      split_whitespace-join_spaces (map redacted words)
        (map-redacted-IsWord words (split_whitespace-IsWord (sanitize value))) in
    rw back (safe-not_token (map redacted words) (map-redacted-IsSafe words))

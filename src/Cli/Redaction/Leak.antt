-- ===== src/Cli/Redaction/Leak.antt =====
-- The order of cutting and redacting in crates/sts-cli/src/main.rs: a long token is cut first.
use Prim.Native.Char.{code}
use Prim.Native.String.{[] as no_text, ◌∷◌ as push_char}
use text.Mathlib.TextLemmas.{nil-append, cons-append}
use sts_delegate_rs.Prelude.{
  ℕ, zero, suc, String, Bool, true, false, not, ◌&&◌, ◌≡◌, refl, sym, ap, ◌∙◌, subst, inl, inr, ◌<◌,
  ◌+◌, List, [], ◌∷◌, map, any_char, is_empty, is_whitespace, split_whitespace, join_spaces, arith,
  Bool-cases, false_of_||, ltb, ◌==◌, utf8_length, ◌⧺◌,
}
use sts_delegate_rs.Prelude.Text.Words.{IsSolid, split_whitespace_word}
use sts_delegate_rs.Cli.Redaction.{
  is_printed, take_shown, char_count, sanitize, trim_token_start, trim_token_end, dots,
  looks_like_compact_jwt, sanitize_oauth_text,
}

dots-trim_token_start : (s : String) → dots (trim_token_start s) ≡ dots s
unfolding dots trim_token_start
dots-trim_token_start no_text = refl
dots-trim_token_start (push_char c s) = ground (arith, dots-trim_token_start s)

dots_of_empty : (s : String) → is_empty s ≡ true → dots s ≡ 0
unfolding dots
dots_of_empty no_text h = refl
dots_of_empty (push_char c s) h = cc

dots-trim_token_end : (s : String) → dots (trim_token_end s) ≡ dots s
unfolding dots trim_token_end
dots-trim_token_end no_text = refl
dots-trim_token_end (push_char c s) =
    ground (arith, dots-trim_token_end s, dots_of_empty (trim_token_end s))

dots-append : (s t : String) → dots (s ⧺ t) ≡ dots s + dots t
unfolding dots
dots-append no_text t = rw nil-append (ground arith)
dots-append (push_char c s) t = rw cons-append (ground (arith, dots-append s t))

ellipsis_dots : dots "..." ≡ 3
unfolding dots
ellipsis_dots = refl

cut_not_token : (s : String) → looks_like_compact_jwt (s ⧺ "...") ≡ false
unfolding looks_like_compact_jwt
cut_not_token s =
    let cut = s ⧺ "..." in
    let count : dots (trim_token_end (trim_token_start cut)) ≡ dots s + 3 =
      dots-trim_token_end (trim_token_start cut)
      ∙ dots-trim_token_start cut
      ∙ dots-append s "..."
      ∙ ap (λ k. dots s + k) ellipsis_dots in
    rw count (ground arith)

IsSolid-append : (s t : String) → IsSolid s → IsSolid t → IsSolid (s ⧺ t)
IsSolid-append no_text t h k = rw nil-append k
IsSolid-append (push_char c s) t h k = rw cons-append (ground (arith, IsSolid-append s t))

question_black : is_whitespace 63 ≡ false
unfolding is_whitespace
question_black = refl

take_shown-IsSolid : (n : ℕ) (s : String) → IsSolid s → IsSolid (take_shown n s)
unfolding take_shown
take_shown-IsSolid zero s h = refl
take_shown-IsSolid (suc n) no_text h = refl
take_shown-IsSolid (suc n) (push_char c s) h =
    let (black, later) = false_of_|| (is_whitespace (code c)) (any_char is_whitespace s) h in
    let rest = take_shown-IsSolid n s later in
    elim (Bool-cases (is_printed (code c))) [
      | inl printed ↦ rw printed (rw black rest)
      | inr hidden ↦ rw hidden (rw question_black rest)
    ]

cut_full : (s : String) → is_empty (s ⧺ "...") ≡ false
cut_full no_text = refl
cut_full (push_char c s) = rw cons-append refl

ellipsis-IsSolid : IsSolid "..."
unfolding is_whitespace
ellipsis-IsSolid = refl

-- A word of more than 120 characters, be it a token, is printed as its first 120 characters and an ellipsis.
pub long_word_printed :
    (w : String) → IsSolid w → 120 < char_count w → sanitize_oauth_text w ≡ take_shown 120 w ⧺ "..."
unfolding sanitize_oauth_text sanitize
long_word_printed w solid long =
    let cut : String = take_shown 120 w ⧺ "..." in
    let over : ltb 120 (char_count w) ≡ true = ground arith in
    let one : split_whitespace cut ≡ cut ∷ [] = split_whitespace_word cut (
      cut_full (take_shown 120 w),
      IsSolid-append (take_shown 120 w) "..." (take_shown-IsSolid 120 w solid) ellipsis-IsSolid,
    ) in
    rw over (
      rw one (
        unfold sts_delegate_rs.Prelude.Text.join_spaces in
        rw (cut_not_token (take_shown 120 w)) refl))

-- ===== src/Prelude/Text/Words.antt =====
-- Words: `split_whitespace` yields them, `trim` leaves them alone, and joining is undone by splitting.
use Prim.Native.Char.{code}
use Prim.Native.String.{String, [], ◌∷◌}
use mathlib.Core.Path.{◌≡◌, refl, ap, ◌∙◌}
use mathlib.Core.Logic.{inl, inr}
use mathlib.Core.Bool.{false}
use mathlib.Core.List.{List, [], ◌∷◌}
use native.Mathlib.Omega.{arith}
use text.Mathlib.TextLemmas.{nil-append, cons-append, append-nil}
use sts_delegate_rs.Prelude.Tests.{Bool-cases}
use sts_delegate_rs.Prelude.Lists.{All}
use sts_delegate_rs.Prelude.Text.{
  ◌⧺◌, is_empty, is_whitespace, trim_start, trim_end, trim, is_blank, any_char, close, words,
  split_whitespace, join_spaces,
}

abbrev pub IsSolid : String → Type 0
IsSolid s = any_char is_whitespace s ≡ false

-- A non-empty text without white space.
abbrev pub IsWord : String → Type 0
IsWord w = (is_empty w ≡ false) × IsSolid w

trim_start_of_IsSolid : (s : String) → IsSolid s → trim_start s ≡ s
unfolding trim_start
trim_start_of_IsSolid [] h = refl
trim_start_of_IsSolid (c ∷ s) h = ground arith

trim_end_of_IsSolid : (s : String) → IsSolid s → trim_end s ≡ s
unfolding trim_end
trim_end_of_IsSolid [] h = refl
trim_end_of_IsSolid (c ∷ s) h = ground (arith, trim_end_of_IsSolid s)

pub trim_of_IsSolid : (s : String) → IsSolid s → trim s ≡ s
unfolding trim
trim_of_IsSolid s h = ap trim_end (trim_start_of_IsSolid s h) ∙ trim_end_of_IsSolid s h

pub IsWord-not_blank : (w : String) → IsWord w → is_blank w ≡ false
unfolding is_blank
IsWord-not_blank w (full, solid) = ap is_empty (trim_of_IsSolid w solid) ∙ full

close-IsWord : (w : String) (ws : List String) → IsSolid w → All IsWord ws → All IsWord (close w ws)
close-IsWord [] ws h k = k
close-IsWord (c ∷ w) ws h k = ((refl, h), k)

words-IsWord : (s : String) → IsSolid (words s).0 × All IsWord (words s).1
unfolding words
words-IsWord [] = (refl, tt)
words-IsWord (c ∷ s) =
    let (solid, later) = words-IsWord s in
    elim (Bool-cases (is_whitespace (code c))) [
      | inl white ↦ rw white (refl, close-IsWord (words s).0 (words s).1 solid later)
      | inr black ↦ rw (black, black) (solid, later)
    ]

-- What `split_whitespace` yields are words.
pub split_whitespace-IsWord : (s : String) → All IsWord (split_whitespace s)
unfolding split_whitespace
split_whitespace-IsWord s =
    let (solid, later) = words-IsWord s in close-IsWord (words s).0 (words s).1 solid later

words_word_append : (w s : String) → IsSolid w → words (w ⧺ s) ≡ (w ⧺ (words s).0, (words s).1)
unfolding words
words_word_append [] s h = rw (nil-append, nil-append)
words_word_append (c ∷ w) s h =
    rw (cons-append, cons-append) (ground (arith, words_word_append w s))

close_of_full : (w : String) (ws : List String) → is_empty w ≡ false → close w ws ≡ w ∷ ws
close_of_full [] ws h = cc
close_of_full (c ∷ w) ws h = refl

pub split_whitespace_word : (w : String) → IsWord w → split_whitespace w ≡ w ∷ []
unfolding split_whitespace
split_whitespace_word w (full, solid) =
    let e : words w ≡ (w, []) = rw append-nil at (words_word_append w "" solid) in
    rw e (close_of_full w [] full)

words_space : (s : String) → words (" " ⧺ s) ≡ ("", split_whitespace s)
unfolding split_whitespace
words_space s = rw (cons-append, nil-append)

split_whitespace_word_space :
    (w s : String) → IsWord w → split_whitespace (w ⧺ (" " ⧺ s)) ≡ w ∷ split_whitespace s
unfolding split_whitespace
split_whitespace_word_space w s (full, solid) =
    let e : words (w ⧺ (" " ⧺ s)) ≡ (w, split_whitespace s) =
      rw (words_word_append w (" " ⧺ s) solid, words_space s, append-nil) in
    rw e (close_of_full w (split_whitespace s) full)

-- Splitting undoes joining.
pub split_whitespace-join_spaces :
    (ws : List String) → All IsWord ws → split_whitespace (join_spaces ws) ≡ ws
unfolding join_spaces
split_whitespace-join_spaces [] h = unfold split_whitespace in refl
split_whitespace-join_spaces (w ∷ []) (word, h) = split_whitespace_word w word
split_whitespace-join_spaces (w ∷ v ∷ ws) (word, h) =
    rw (split_whitespace_word_space w (join_spaces (v ∷ ws)) word)
      (ap (λ l. w ∷ l) (split_whitespace-join_spaces (v ∷ ws) h))

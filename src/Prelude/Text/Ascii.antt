-- ===== src/Prelude/Text/Ascii.antt =====
-- The ASCII case of texts.
use Prim.Native.Nat.{ℕ, zero, suc, ◌-◌}
use Prim.Native.Char.{Char, code}
use Prim.Native.String.{String, [], ◌∷◌}
use mathlib.Core.Bool.{Bool, ◌&&◌}
use sts_delegate_rs.Prelude.Tests.{leb, if◌then◌else◌}
use sts_delegate_rs.Prelude.Text.{text_eq}

char_or : Char → ℕ → String → Char
char_or c n [] = c
char_or c zero (d ∷ s) = d
char_or c (suc n) (d ∷ s) = char_or c n s

lower_char : Char → Char
unfolding char_or
lower_char c =
    if leb b'A' (code c) && leb (code c) b'Z'
    then char_or c (code c - b'A') "abcdefghijklmnopqrstuvwxyz"
    else c

unfoldable pub to_ascii_lowercase : String → String
unfolding lower_char
to_ascii_lowercase [] = []
to_ascii_lowercase (c ∷ s) = lower_char c ∷ to_ascii_lowercase s

unfoldable pub eq_ignore_ascii_case : String → String → Bool
unfolding to_ascii_lowercase
eq_ignore_ascii_case s t = text_eq (to_ascii_lowercase s) (to_ascii_lowercase t)

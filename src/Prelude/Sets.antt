-- ===== src/Prelude/Sets.antt =====
-- `BTreeSet<String>`: the sorted list of its texts. Texts are compared byte by byte in UTF-8, which is
-- the order of their scalar values.
use Prim.Native.Char.{code}
use Prim.Native.String.{String, [], ◌∷◌}
use mathlib.Core.Path.{◌≡◌, refl}
use mathlib.Core.Bool.{Bool, true, false, ◌&&◌, ◌||◌}
use mathlib.Core.List.{List, [], ◌∷◌}
use native.Mathlib.Omega.{arith}
use text.Mathlib.Text.{◌==◌ as str_eq}
use text.Mathlib.TextEquality.{eq_iff}
use sts_delegate_rs.Prelude.Tests.{ltb, ◌==◌, if◌then◌else◌}
use sts_delegate_rs.Prelude.Lists.{member}

unfoldable pub text_ltb : String → String → Bool
text_ltb [] [] = false
text_ltb [] (d ∷ t) = true
text_ltb (c ∷ s) [] = false
text_ltb (c ∷ s) (d ∷ t) = ltb (code c) (code d) || (code c == code d && text_ltb s t)

-- `set.insert(s)`.
unfoldable pub insert_text : String → List String → List String
unfolding text_ltb
insert_text s [] = s ∷ []
insert_text s (t ∷ ts) =
    let rest = insert_text s ts in
    if str_eq t s then t ∷ ts else if text_ltb s t then s ∷ t ∷ ts else t ∷ rest

-- `set.extend(texts)`, and `collect()` of an iterator.
unfoldable pub extend_texts : List String → List String → List String
unfolding insert_text
extend_texts [] set = set
extend_texts (s ∷ texts) set = extend_texts texts (insert_text s set)

pub member-insert_text :
    (x s : String) (ts : List String) → member x (insert_text s ts) ≡ (str_eq s x || member x ts)
unfolding insert_text
member-insert_text x s [] = refl
member-insert_text x s (t ∷ ts) =
    ground (arith, eq_iff t s, eq_iff s x, eq_iff t x, member-insert_text x s ts)

pub member-extend_texts :
    (x : String) (texts set : List String)
    → member x (extend_texts texts set) ≡ (member x texts || member x set)
unfolding extend_texts
member-extend_texts x [] set = refl
member-extend_texts x (s ∷ texts) set =
    ground (arith, member-insert_text x s set, member-extend_texts x texts (insert_text s set))

-- ===== src/Verify/Claims/Ownership.antt =====
-- A signing key belongs to one registered identity.
use Prim.Native.Char.{Char, code}
use Prim.Native.String.{[] as no_text, ◌∷◌ as push_char}
use text.Mathlib.TextEquality.{Char-path}
use sts_delegate_rs.Prelude.{
  ℕ, ◌<◌, ◌≤◌, String, ◌≡◌, ◌≢◌, refl, sym, ap, ◌∙◌, inl, inr, true, false, not, ◌&&◌, Option, none,
  some, List, [], ◌∷◌, arith, eq_iff, member, ltb, ◌==◌, ==_iff, text_eq, utf8_length, utf8_width,
  strip_prefix, Bool-cases, true_of_||, false_of_||,
}
use sts_delegate_rs.Verify.Claims.{
  is_separated, prefix_match, is_claimed_by_longer, kid_belongs_to_claimed_identity,
}

-- A text that begins another.
abbrev IsPrefix : String → String → Type 0
IsPrefix p s = (rest : String) × (strip_prefix p s ≡ some rest)

strip_prefix_self : (s : String) → strip_prefix s s ≡ some ""
unfolding strip_prefix
strip_prefix_self no_text = refl
strip_prefix_self (push_char c s) = rw (strip_prefix_self s) (ground arith)

strip_prefix_step :
    (c x : Char) (p s t : String)
    → strip_prefix (push_char c p) (push_char x s) ≡ some t
    → (c ≡ x) × IsPrefix p s
unfolding strip_prefix
strip_prefix_step c x p s t h = elim (Bool-cases (code c == code x)) [
  | inl same ↦ (Char-path c x ((==_iff _ _).0 same), (t, ground (arith, same, h)))
  | inr other ↦ absurd (ground (arith, other, h))
]

utf8_width-pos : (c : ℕ) → 0 < utf8_width c
utf8_width-pos c = ground arith

-- Two beginnings of a text that are equally long are the same.
same_prefix : (p q s : String) → IsPrefix p s → IsPrefix q s → utf8_length p ≡ utf8_length q → p ≡ q
unfolding strip_prefix utf8_length
same_prefix no_text no_text s h k e = refl
same_prefix no_text (push_char d q) s h k e =
    absurd (let w = utf8_width-pos (code d) in omega arith)
same_prefix (push_char c p) no_text s h k e =
    absurd (let w = utf8_width-pos (code c) in omega arith)
same_prefix (push_char c p) (push_char d q) no_text (_, h) k e = cc
same_prefix (push_char c p) (push_char d q) (push_char x s) (t, h) (u, k) e =
    let (cx, hp) = strip_prefix_step c x p s t h in
    let (dx, kq) = strip_prefix_step d x q s u k in
    let same : c ≡ d = cx ∙ sym dx in
    let width : utf8_width (code c) ≡ utf8_width (code d) = ap (λ c. utf8_width (code c)) same in
    let tails = same_prefix p q s hp kq (omega arith) in cc

some_of_separated : (o : Option String) → is_separated o ≡ true → (rest : String) × (o ≡ some rest)
some_of_separated none h = cc
some_of_separated (some rest) h = (rest, refl)

prefix_match-IsPrefix :
    (kid identity : String) → prefix_match kid identity ≡ true → IsPrefix identity kid
unfolding prefix_match
prefix_match-IsPrefix kid identity h = elim (true_of_|| _ _ h) [
  | inl same ↦ ("", rw ((eq_iff kid identity).0 same) (strip_prefix_self identity))
  | inr separated ↦ some_of_separated (strip_prefix identity kid) separated
]

-- No registered text claims the key with a greater length.
not_longer :
    (kid claimed other : String) (registry : List String)
    → is_claimed_by_longer kid claimed registry ≡ false
    → member other registry ≡ true
    → prefix_match kid other ≡ true
    → claimed ≢ other
    → utf8_length other ≤ utf8_length claimed
unfolding is_claimed_by_longer
not_longer kid claimed other [] h m p apart = cc
not_longer kid claimed other (r ∷ registry) h m p apart =
    let longer = λ (x : String).
      not (text_eq x claimed) && ltb (utf8_length claimed) (utf8_length x) && prefix_match kid x in
    let (here, later) = false_of_|| (longer r) (is_claimed_by_longer kid claimed registry) h in
    elim (true_of_|| _ _ m) [
      | inl same ↦
          let e : r ≡ other = (eq_iff _ _).0 same in
          let here' : longer other ≡ false = rw e at here in
          elim (Bool-cases (text_eq other claimed)) [
            | inl eq ↦ absurd (apart (sym ((eq_iff _ _).0 eq)))
            | inr ne ↦ ground (arith, here', ne, p)
          ]
      | inr m' ↦ not_longer kid claimed other registry later m' p apart
    ]

belongs-parts :
    (kid claimed : String) (registry : List String)
    → kid_belongs_to_claimed_identity kid claimed registry ≡ true
    → (prefix_match kid claimed ≡ true) × (is_claimed_by_longer kid claimed registry ≡ false)
unfolding kid_belongs_to_claimed_identity
belongs-parts kid claimed registry h = ground (arith, h)

-- A signing key belongs to at most one registered identity: two registered identities that the same
-- key id is accepted for are the same.
pub one_owner :
    (kid one two : String) (registry : List String)
    → member one registry ≡ true
    → member two registry ≡ true
    → kid_belongs_to_claimed_identity kid one registry ≡ true
    → kid_belongs_to_claimed_identity kid two registry ≡ true
    → one ≡ two
one_owner kid one two registry in_one in_two h k =
    let (p, no_longer) = belongs-parts kid one registry h in
    let (q, no_longer') = belongs-parts kid two registry k in
    elim (Bool-cases (text_eq one two)) [
      | inl same ↦ (eq_iff _ _).0 same
      | inr other ↦
          let apart : one ≢ two = λ e. ground (arith, other, eq_iff one two, e) in
          let le = not_longer kid one two registry no_longer in_two q apart in
          let ge = not_longer kid two one registry no_longer' in_one p (λ e. apart (sym e)) in
          same_prefix one two kid (prefix_match-IsPrefix kid one p)
            (prefix_match-IsPrefix kid two q) (omega arith)
    ]

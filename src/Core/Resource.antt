-- ===== src/Core/Resource.antt =====
-- The three tests on a resource, without the functions that run them.
use text.Mathlib.TextEquality.{starts_with_iff}
use text.Mathlib.TextLemmas.{nil-append, cons-append}
use Prim.Native.Char.{code}
use Prim.Native.String.{[] as no_text, ◌∷◌ as push_char}
use sts_delegate_rs.Prelude.{
  ℕ, Bool, String, ◌≡◌, ◌≢◌, ◌↔◌, refl, sym, subst, ap, ◌∙◌, true, false, ◌||◌, true_of_||, ◌==◌,
  ◌⧺◌, contains, contains_char, starts_with, inl, inr, arith,
}

-- The second text stands in the first.
abbrev pub HoldsText : String → String → Type 0
HoldsText s t = (before : String) × (after : String) × (s ≡ before ⧺ (t ⧺ after))

abbrev pub StartsWith : String → String → Type 0
StartsWith s t = (after : String) × (s ≡ t ⧺ after)

abbrev pub NoChar : String → ℕ → Type 0
NoChar no_text k = Unit
NoChar (push_char c s) k = (code c ≢ k) × NoChar s k

starts_with-StartsWith : (s t : String) → starts_with s t ≡ true → StartsWith s t
starts_with-StartsWith s t h = let p = (starts_with_iff s t).0 h in (p.0, sym p.1)

StartsWith-starts_with : (s t : String) → StartsWith s t → starts_with s t ≡ true
StartsWith-starts_with s t (after, e) = (starts_with_iff s t).1 (after, sym e)

StartsWith-HoldsText : (s t : String) → StartsWith s t → HoldsText s t
StartsWith-HoldsText s t (after, e) = ("", after, e ∙ sym (nil-append (t ⧺ after)))

contains-HoldsText : (s t : String) → contains s t ≡ true → HoldsText s t
unfolding sts_delegate_rs.Prelude.Text.contains
contains-HoldsText no_text t h = StartsWith-HoldsText no_text t (starts_with-StartsWith no_text t h)
contains-HoldsText (push_char c s) t h =
    elim (true_of_|| (starts_with (push_char c s) t) (contains s t) h) [
      | inl here ↦
          StartsWith-HoldsText (push_char c s) t (starts_with-StartsWith (push_char c s) t here)
      | inr later ↦
          let (before, after, e) = contains-HoldsText s t later in
          (
            push_char c before,
            after,
            ap (λ v. push_char c v) e ∙ sym (cons-append c before (t ⧺ after)),
          )
    ]

contains_of_starts_with : (s t : String) → starts_with s t ≡ true → contains s t ≡ true
unfolding sts_delegate_rs.Prelude.Text.contains
contains_of_starts_with no_text t h = h
contains_of_starts_with (push_char c s) t h = rw h refl

contains_at : (before s t : String) → starts_with s t ≡ true → contains (before ⧺ s) t ≡ true
unfolding sts_delegate_rs.Prelude.Text.contains
contains_at no_text s t h =
    subst (λ v. contains v t ≡ true) (sym (nil-append s)) (contains_of_starts_with s t h)
contains_at (push_char c before) s t h = rw cons-append (ground (arith, contains_at before s t h))

HoldsText-contains : (s t : String) → HoldsText s t → contains s t ≡ true
HoldsText-contains s t (before, after, e) =
    rw e (contains_at before (t ⧺ after) t (StartsWith-starts_with (t ⧺ after) t (after, refl)))

contains_char-NoChar : (s : String) (k : ℕ) → contains_char s k ≡ false → NoChar s k
contains_char-NoChar no_text k h = tt
contains_char-NoChar (push_char c s) k h =
    (ground (arith, h), contains_char-NoChar s k (ground (arith, h)))

NoChar-contains_char : (s : String) (k : ℕ) → NoChar s k → contains_char s k ≡ false
NoChar-contains_char no_text k h = refl
NoChar-contains_char (push_char c s) k (here, h) = ground (arith, here, NoChar-contains_char s k h)

-- The text holds "://", does not start with "/" and has no "#".
abbrev pub IsResource : String → Type 0
IsResource s = HoldsText s "://" × (¬ StartsWith s "/") × NoChar s b'#'

-- The tests of `validate_resource_value` pass.
abbrev pub Passes : String → Type 0
Passes s = (contains s "://" ≡ true) × (starts_with s "/" ≡ false) × (contains_char s b'#' ≡ false)

true≢false : true ≡ false → ⊥
true≢false h = cc

not_true : (b : Bool) → (b ≡ true → ⊥) → b ≡ false
not_true true h = absurd (h refl)
not_true false h = refl

-- The tests pass exactly for such a text.
pub Passes-IsResource : (s : String) → Passes s ↔ IsResource s
Passes-IsResource s = (
  λ (holds, relative, whole). (
    contains-HoldsText s "://" holds,
    λ h. true≢false (sym (StartsWith-starts_with s "/" h) ∙ relative),
    contains_char-NoChar s b'#' whole,
  ),
  λ (holds, relative, whole). (
    HoldsText-contains s "://" holds,
    not_true (starts_with s "/") (λ h. relative (starts_with-StartsWith s "/" h)),
    NoChar-contains_char s b'#' whole,
  ),
)

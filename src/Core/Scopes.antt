-- ===== src/Core/Scopes.antt =====
-- Downscoping of crates/sts-core/src/lib.rs: what the issued scope text holds.
use mathlib.Core.Option.{some-injective}
use sts_delegate_rs.Prelude.{
  String, ◌≡◌, refl, ap, sym, subst, ◌∙◌, ◌⊎◌, inl, inr, Bool, true, false, not, ◌||◌, Option, none,
  some, List, [], ◌∷◌, map, ok, err, arith, eq_iff, Bool-cases, All, filter, member, ◌&&◌, ◌↔◌,
  eq_refl, true_of_&&, trim, is_blank, split_whitespace, text_eq,
}
use sts_delegate_rs.Prelude.Text.Words.{
  IsWord, trim_of_IsSolid, IsWord-not_blank, split_whitespace-IsWord, split_whitespace-join_spaces,
}
use sts_delegate_rs.Core.{
  invalid_scope, core_error, split_scopes, intersect_scopes, join_scopes, is_empty_list,
  bound_by_subject, kept_scopes, downscope, text_or_empty,
}

tidy_words : (ws : List String) → All IsWord ws → map trim (filter (λ s. not (is_blank s)) ws) ≡ ws
tidy_words [] h = refl
tidy_words (w ∷ ws) (word, h) =
    rw (IsWord-not_blank w word, trim_of_IsSolid w word.1) (ap (λ l. w ∷ l) (tidy_words ws h))

-- The filter and the second trim of `split_scopes` change nothing.
pub split_scopes_lem : (o : Option String) → split_scopes o ≡ split_whitespace (text_or_empty o)
unfolding split_scopes
split_scopes_lem o = tidy_words _ (split_whitespace-IsWord (text_or_empty o))

pub split_scopes-IsWord : (o : Option String) → All IsWord (split_scopes o)
split_scopes-IsWord o = rw split_scopes_lem (split_whitespace-IsWord (text_or_empty o))

filter-All : (p : String → Bool) (ws : List String) → All IsWord ws → All IsWord (filter p ws)
filter-All p [] h = tt
filter-All p (w ∷ ws) (word, h) = ground (arith, filter-All p ws h)

-- Membership in an intersection is membership in both lists.
pub member-intersect_scopes :
    (s : String) (left right : List String)
    → member s (intersect_scopes left right) ≡ (member s left && member s right)
unfolding intersect_scopes
member-intersect_scopes s [] right = refl
member-intersect_scopes s (w ∷ left) right = elim (Bool-cases (text_eq w s)) [
  | inl same ↦
      let here : member w right ≡ member s right = ap (λ x. member x right) ((eq_iff w s).0 same) in
      ground (arith, here, member-intersect_scopes s left right)
  | inr other ↦ ground (arith, member-intersect_scopes s left right)
]

member-head : (s : String) (ws : List String) → member s (s ∷ ws) ≡ true
member-head s ws = rw eq_refl

-- Some allowed scope is among the subject's.
abbrev pub Overlap : String → String → Type 0
Overlap target_allowed subject =
    (x : String) × (member x (split_whitespace target_allowed) ≡ true)
    × (member x (split_whitespace subject) ≡ true)

-- The subject's scopes bind a request if the deployment demands it or if some of them is allowed
-- at the target.
abbrev pub Within : String → Option String → Bool → String → Type 0
Within target_allowed subject_scopes required s =
    (subject : String)
    → subject_scopes ≡ some subject
    → (required ≡ true) ⊎ Overlap target_allowed subject
    → member s (split_whitespace subject) ≡ true

-- The scopes that may be issued, stated without the code's lists.
abbrev pub IsIssuable : Option String → String → Option String → Bool → String → Type 0
IsIssuable requested target_allowed subject_scopes required s =
    (member s (split_whitespace (text_or_empty requested)) ≡ true)
    × (member s (split_whitespace target_allowed) ≡ true)
    × Within target_allowed subject_scopes required s

module _ (target_allowed subject : String) where
  abbrev common : List String
  common = intersect_scopes (split_scopes (some target_allowed)) (split_scopes (some subject))

  member-common :
      (x : String)
      → member x common
        ≡ (member x (split_whitespace target_allowed) && member x (split_whitespace subject))
  member-common x = rw (
    member-intersect_scopes,
    split_scopes_lem (some target_allowed),
    split_scopes_lem (some subject),
  )

  Overlap-of_common :
      (l : List String) → common ≡ l → is_empty_list l ≡ false → Overlap target_allowed subject
  Overlap-of_common [] e h = cc
  Overlap-of_common (x ∷ l) e h =
      let m : member x common ≡ true = rw e (member-head x l) in
      let (a, b) = true_of_&& _ _ (sym (member-common x) ∙ m) in (x, a, b)

  common-of_Overlap :
      Overlap target_allowed subject → (l : List String) → common ≡ l → is_empty_list l ≡ false
  common-of_Overlap (x, a, b) [] e =
      let m : member x common ≡ true = member-common x ∙ rw (a, b) in
      let n : member x common ≡ false = ap (member x) e in cc
  common-of_Overlap o (x ∷ l) e = refl

  -- The test under which the subject's scopes bind.
  abbrev binds : Bool → Bool
  binds required = required || not (is_empty_list common)

  binds_iff :
      (required : Bool)
      → (binds required ≡ true) ↔ ((required ≡ true) ⊎ Overlap target_allowed subject)
  binds_iff true = (λ _. inl refl, λ _. refl)
  binds_iff false = (λ h. inr (Overlap-of_common common refl (ground (arith, h))), λ o. to_binds o)
    where
      to_binds : (false ≡ true) ⊎ Overlap target_allowed subject → binds false ≡ true
      to_binds (inl e) = cc
      to_binds (inr o) = rw (common-of_Overlap o common refl)

  -- The second half of `downscope`, under its own test.
  member-bound :
      (s : String) (result : List String) (required : Bool)
      → member s
          (bound_by_subject result (split_scopes (some target_allowed)) (some subject) required)
        ≡ (member s result
            && (not (binds required)
                || (member s (split_whitespace target_allowed)
                    && member s (split_whitespace subject))))
  unfolding bound_by_subject
  member-bound s result required = elim (Bool-cases (binds required)) [
    | inl bound ↦ rw bound (rw (member-intersect_scopes, member-common))
    | inr free ↦ rw free (ground arith)
  ]

bound_only : (n b c : Bool) → (not n || (b && c)) ≡ true → n ≡ true → c ≡ true
bound_only n b c h k = ground arith

bound_when : (n b c : Bool) → b ≡ true → (n ≡ true → c ≡ true) → (not n || (b && c)) ≡ true
bound_when true b c h k = rw (h, k refl)
bound_when false b c h k = refl

Within-some :
    (target_allowed subject : String) (required : Bool) (s : String)
    → ((required ≡ true) ⊎ Overlap target_allowed subject
        → member s (split_whitespace subject) ≡ true)
    → Within target_allowed (some subject) required s
Within-some target_allowed subject required s f t e =
    subst (λ u. (required ≡ true) ⊎ Overlap target_allowed u → member s (split_whitespace u) ≡ true)
      (some-injective _ _ e) f

module _ (requested : Option String) (target_allowed : String) (s : String) where
  abbrev asked : Bool
  asked = member s (split_whitespace (text_or_empty requested))

  abbrev allowed : Bool
  allowed = member s (split_whitespace target_allowed)

  abbrev first : List String
  first = intersect_scopes (split_scopes requested) (split_scopes (some target_allowed))

  member-first : member s first ≡ (asked && allowed)
  member-first =
      rw (
        member-intersect_scopes,
        split_scopes_lem requested,
        split_scopes_lem (some target_allowed),
      )

  member-kept :
      (subject_scopes : Option String) (required : Bool)
      → (member s (kept_scopes requested target_allowed subject_scopes required) ≡ true)
        ↔ IsIssuable requested target_allowed subject_scopes required s
  unfolding kept_scopes
  member-kept none required = (
    λ h. let (a, b) = true_of_&& asked allowed (sym member-first ∙ h) in (a, b, λ t e _. cc),
    λ (a, b, _). member-first ∙ rw (a, b),
  )
  member-kept (some subject) required = (
    λ h.
        let both = sym (member-bound target_allowed subject s first required) ∙ h in
        let (m, k) = true_of_&& _ _ both in
        let (a, b) = true_of_&& asked allowed (sym member-first ∙ m) in
        let bound = bound_only (binds target_allowed subject required) allowed _ k in
        let narrow = λ (o : (required ≡ true) ⊎ Overlap target_allowed subject).
          bound ((binds_iff target_allowed subject required).1 o) in
        (a, b, Within-some target_allowed subject required s narrow),
    λ (a, b, within).
        let narrow = λ (n : binds target_allowed subject required ≡ true).
          within subject refl ((binds_iff target_allowed subject required).0 n) in
        let m : member s first ≡ true = member-first ∙ rw (a, b) in
        member-bound target_allowed subject s first required
        ∙ rw (m, bound_when (binds target_allowed subject required) allowed _ b narrow),
  )

filter-IsWord-bound :
    (result target_allowed : List String) (subject_scopes : Option String) (required : Bool)
    → All IsWord result
    → All IsWord (bound_by_subject result target_allowed subject_scopes required)
unfolding bound_by_subject intersect_scopes
filter-IsWord-bound result target_allowed none required h = h
filter-IsWord-bound result target_allowed (some subject) required h =
    elim (Bool-cases (
      required
      || not (is_empty_list (intersect_scopes target_allowed (split_scopes (some subject)))))) [
        | inl bound ↦ rw bound (filter-All _ result h)
        | inr free ↦ rw free h
      ]

kept_scopes-IsWord :
    (requested : Option String) (target_allowed : String) (subject_scopes : Option String)
    (required : Bool)
    → All IsWord (kept_scopes requested target_allowed subject_scopes required)
unfolding kept_scopes intersect_scopes
kept_scopes-IsWord requested target_allowed subject_scopes required =
    filter-IsWord-bound _ _ subject_scopes required
      (filter-All _ (split_scopes requested) (split_scopes-IsWord requested))

-- A successful downscoping issues exactly the scopes that were requested, that the target allows
-- and, where the subject's scopes bind, that the subject has: nothing more and nothing less.
pub downscope-issues_iff :
    (requested : Option String) (target_allowed : String) (subject_scopes : Option String)
    (required : Bool) (scope s : String)
    → downscope requested target_allowed subject_scopes required ≡ ok scope
    → (member s (split_whitespace scope) ≡ true)
      ↔ IsIssuable requested target_allowed subject_scopes required s
unfolding downscope
downscope-issues_iff requested target_allowed subject_scopes required scope s h =
    let kept = kept_scopes requested target_allowed subject_scopes required in
    let same : join_scopes kept ≡ scope = ground arith in
    let split_back : split_whitespace (join_scopes kept) ≡ kept =
      unfold join_scopes in
      split_whitespace-join_spaces kept
        (kept_scopes-IsWord requested target_allowed subject_scopes required) in
    let (to, from) = member-kept requested target_allowed s subject_scopes required in
    rw (← same) (rw split_back (to, from))

no_member : (l : List String) → ((s : String) → member s l ≡ true → ⊥) → is_empty_list l ≡ true
no_member [] h = refl
no_member (x ∷ l) h = absurd (h x (member-head x l))

empty_no_member : (l : List String) (s : String) → is_empty_list l ≡ true → member s l ≡ true → ⊥
empty_no_member [] s h k = cc
empty_no_member (x ∷ l) s h k = cc

-- Downscoping is refused, with `invalid_scope`, exactly when no scope may be issued.
pub downscope-refuses_iff :
    (requested : Option String) (target_allowed : String) (subject_scopes : Option String)
    (required : Bool)
    → (downscope requested target_allowed subject_scopes required
        ≡ err (core_error invalid_scope "no scopes remain after downscoping"))
      ↔ ((s : String) → ¬ IsIssuable requested target_allowed subject_scopes required s)
unfolding downscope
downscope-refuses_iff requested target_allowed subject_scopes required =
    let kept = kept_scopes requested target_allowed subject_scopes required in
    let law = λ (s : String). member-kept requested target_allowed s subject_scopes required in
    (
      λ h s i. empty_no_member kept s (ground arith) ((law s).1 i),
      λ none_left. rw (no_member kept (λ s m. none_left s ((law s).0 m))),
    )

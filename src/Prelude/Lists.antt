-- ===== src/Prelude/Lists.antt =====
-- Lists measured by native numbers, Boolean searches and association lists keyed by texts.
use Prim.Native.Nat.{ℕ, suc, ◌≤◌}
use Prim.Native.String.{String}
use mathlib.Core.Path.{◌≡◌, refl}
use mathlib.Core.Bool.{Bool, true, false, ◌||◌}
use mathlib.Core.Option.{Option, none, some}
use mathlib.Core.List.{List, [], ◌∷◌, ◌++◌}
use native.Mathlib.Omega.{arith}
use text.Mathlib.Text.{◌==◌}
use text.Mathlib.TextEquality.{eq_iff}
use sts_delegate_rs.Prelude.Tests.{if◌then◌else◌}

module _ {ℓ} {A : Type ℓ} where
  abbrev pub length : List A → ℕ
  length [] = 0
  length (x ∷ xs) = suc (length xs)

  -- `iter().any(p)`, `iter().all(p)` and `iter().filter(p)`.
  abbrev pub any : (A → Bool) → List A → Bool
  any p [] = false
  any p (x ∷ xs) = p x || any p xs

  abbrev pub filter : (A → Bool) → List A → List A
  filter p [] = []
  filter p (x ∷ xs) = let rest = filter p xs in if p x then x ∷ rest else rest

  -- `iter().find(p)`.
  abbrev pub find : (A → Bool) → List A → Option A
  find p [] = none
  find p (x ∷ xs) = let rest = find p xs in if p x then some x else rest

  pub length-filter-le : (p : A → Bool) (xs : List A) → length (filter p xs) ≤ length xs
  length-filter-le p [] = omega arith
  length-filter-le p (x ∷ xs) = ground (arith, length-filter-le p xs)

module _ {ℓ κ} {A : Type ℓ} where
  abbrev pub All : (A → Type κ) → List A → Type κ
  All P [] = Unit
  All P (x ∷ xs) = P x × All P xs

-- Membership of a text.
abbrev pub member : String → List String → Bool
member s [] = false
member s (t ∷ ts) = t == s || member s ts

pub member_cons : (s t : String) (ts : List String) → member s ts ≡ true → member s (t ∷ ts) ≡ true
member_cons s t ts h = ground arith

pub member-append_left :
    (s : String) (xs ys : List String) → member s xs ≡ true → member s (xs ++ ys) ≡ true
member-append_left s [] ys h = cc
member-append_left s (x ∷ xs) ys h = ground (arith, member-append_left s xs ys)

pub member-append_right :
    (s : String) (xs ys : List String) → member s ys ≡ true → member s (xs ++ ys) ≡ true
member-append_right s [] ys h = h
member-append_right s (x ∷ xs) ys h = ground (arith, member-append_right s xs ys)

-- A map keyed by texts: the keys that the program inserts are distinct.
module _ {ℓ} {V : Type ℓ} where
  abbrev pub lookup : String → List (String × V) → Option V
  lookup k [] = none
  lookup k ((j, v) ∷ m) = let rest = lookup k m in if j == k then some v else rest

  abbrev pub has_key : String → List (String × V) → Bool
  has_key k [] = false
  has_key k ((j, v) ∷ m) = j == k || has_key k m

  -- `map.insert(k, v)`.
  abbrev pub insert : String → V → List (String × V) → List (String × V)
  insert k v [] = (k, v) ∷ []
  insert k v ((j, w) ∷ m) = let rest = insert k v m in if j == k then (k, v) ∷ m else (j, w) ∷ rest

  abbrev pub remove : String → List (String × V) → List (String × V)
  remove k [] = []
  remove k ((j, v) ∷ m) = let rest = remove k m in if j == k then rest else (j, v) ∷ rest

  pub lookup-insert :
      (k j : String) (v : V) (m : List (String × V))
      → lookup j (insert k v m) ≡ (if k == j then some v else lookup j m)
  lookup-insert k j v [] = refl
  lookup-insert k j v ((i, w) ∷ m) =
      ground (arith, eq_iff k j, eq_iff i k, eq_iff i j, lookup-insert k j v m)

  pub lookup-remove :
      (k j : String) (m : List (String × V))
      → lookup j (remove k m) ≡ (if k == j then none else lookup j m)
  lookup-remove k j [] = ground arith
  lookup-remove k j ((i, v) ∷ m) =
      ground (arith, lookup-remove k j m, eq_iff i k, eq_iff i j, eq_iff k j)

  pub has_key_of_lookup :
      (k : String) (v : V) (m : List (String × V)) → lookup k m ≡ some v → has_key k m ≡ true
  has_key_of_lookup k v [] h = cc
  has_key_of_lookup k v ((j, w) ∷ m) h = ground (arith, has_key_of_lookup k v m)

  pub lookup_of_not_has_key :
      (k : String) (m : List (String × V)) → has_key k m ≡ false → lookup k m ≡ none
  lookup_of_not_has_key k [] h = refl
  lookup_of_not_has_key k ((j, w) ∷ m) h = ground (arith, lookup_of_not_has_key k m)

  pub length-insert-le :
      (k : String) (v : V) (m : List (String × V)) → length (insert k v m) ≤ suc (length m)
  length-insert-le k v [] = omega arith
  length-insert-le k v ((j, w) ∷ m) = ground (arith, length-insert-le k v m)

  pub length-insert-has_key :
      (k : String) (v : V) (m : List (String × V))
      → has_key k m ≡ true
      → length (insert k v m) ≡ length m
  length-insert-has_key k v [] h = cc
  length-insert-has_key k v ((j, w) ∷ m) h = ground (arith, length-insert-has_key k v m)

-- ===== src/Prelude/Int.antt =====
-- Rust's `i64`: integers over the native numbers, with the wrap-around of the release profile (the
-- workspace's Cargo.toml turns no overflow checks on).
use Prim.Native.Nat.{ℕ, suc, ◌+◌, ◌-◌, ◌≤◌, ◌<◌}
use mathlib.Core.Path.{◌≡◌}
use mathlib.Core.Bool.{Bool, true, false}
use native.Mathlib.Omega.{arith}
use sts_delegate_rs.Prelude.Tests.{ltb, leb, if◌then◌else◌}

-- `negsuc n` is -(n + 1).
pub data ℤ : Type 0 where
  pos : ℕ → ℤ
  negsuc : ℕ → ℤ

abbrev pub pos_part : ℤ → ℕ
pos_part (pos n) = n
pos_part (negsuc n) = 0

abbrev pub neg_part : ℤ → ℕ
neg_part (pos n) = 0
neg_part (negsuc n) = suc n

-- a - b, as an integer.
abbrev pub sub_ℕ : ℕ → ℕ → ℤ
sub_ℕ a b = if leb b a then pos (a - b) else negsuc (b - a - 1)

infix 50 ◌≤ℤ◌ ◌<ℤ◌
abbrev pub ◌≤ℤ◌ : ℤ → ℤ → Type 0
a ≤ℤ b = pos_part a + neg_part b ≤ pos_part b + neg_part a

abbrev pub ◌<ℤ◌ : ℤ → ℤ → Type 0
a <ℤ b = pos_part a + neg_part b < pos_part b + neg_part a

abbrev pub ltb_ℤ : ℤ → ℤ → Bool
ltb_ℤ a b = ltb (pos_part a + neg_part b) (pos_part b + neg_part a)

abbrev pub leb_ℤ : ℤ → ℤ → Bool
leb_ℤ a b = leb (pos_part a + neg_part b) (pos_part b + neg_part a)

abbrev pub min_ℤ : ℤ → ℤ → ℤ
min_ℤ a b = if leb_ℤ a b then a else b

abbrev pub max_ℤ : ℤ → ℤ → ℤ
max_ℤ a b = if leb_ℤ a b then b else a

-- |a - b|, the value of `a.abs_diff(b)`.
abbrev pub abs_diff : ℤ → ℤ → ℕ
abs_diff a b =
    let x = pos_part a + neg_part b in
    let y = pos_part b + neg_part a in if leb x y then y - x else x - y

-- The sum and the difference without a bound.
infixl 65 ◌+ℤ◌ ◌-ℤ◌
abbrev pub ◌+ℤ◌ : ℤ → ℤ → ℤ
a +ℤ b = sub_ℕ (pos_part a + pos_part b) (neg_part a + neg_part b)

abbrev pub ◌-ℤ◌ : ℤ → ℤ → ℤ
a -ℤ b = sub_ℕ (pos_part a + neg_part b) (neg_part a + pos_part b)

abbrev pub half_word : ℕ
half_word = 0x8000000000000000

abbrev pub whole_word : ℕ
whole_word = 0x10000000000000000

-- a - b brought back into the range of an i64 by one turn of the word.
abbrev pub wrap_i64 : ℕ → ℕ → ℤ
wrap_i64 a b =
    if leb (b + half_word) a
    then sub_ℕ a (b + whole_word)
    else if ltb (a + half_word) b
    then sub_ℕ (a + whole_word) b
    else sub_ℕ a b

-- `a + b` and `a - b` on i64.
unfoldable pub add_i64 : ℤ → ℤ → ℤ
add_i64 a b = wrap_i64 (pos_part a + pos_part b) (neg_part a + neg_part b)

unfoldable pub sub_i64 : ℤ → ℤ → ℤ
sub_i64 a b = wrap_i64 (pos_part a + neg_part b) (neg_part a + pos_part b)

-- `a.saturating_add(b)`.
unfoldable pub saturating_add : ℤ → ℤ → ℤ
saturating_add a b =
    let p = pos_part a + pos_part b in
    let n = neg_part a + neg_part b in
    if leb (n + half_word) p
    then pos (half_word - 1)
    else if ltb (p + half_word) n
    then negsuc (half_word - 1)
    else sub_ℕ p n

-- The values that an i64 holds.
abbrev pub IsI64 : ℤ → Type 0
IsI64 a = (pos_part a < half_word) × (neg_part a ≤ half_word)

-- Moderate values, such as Unix times and configured lifetimes: no sum of two of them wraps.
abbrev pub IsModerate : ℤ → Type 0
IsModerate a = (pos_part a < 0x4000000000000000) × (neg_part a ≤ 0x4000000000000000)

pub add_i64_parts :
    (a b : ℤ)
    → IsModerate a
    → IsModerate b
    → pos_part (add_i64 a b) + neg_part a + neg_part b
      ≡ neg_part (add_i64 a b) + pos_part a + pos_part b
unfolding add_i64
add_i64_parts a b h k = ground arith

pub sub_i64_parts :
    (a b : ℤ)
    → IsModerate a
    → IsModerate b
    → pos_part (sub_i64 a b) + neg_part a + pos_part b
      ≡ neg_part (sub_i64 a b) + pos_part a + neg_part b
unfolding sub_i64
sub_i64_parts a b h k = ground arith

-- Sums and differences of moderate values do not wrap.
pub add_i64-exact : (a b : ℤ) → IsModerate a → IsModerate b → add_i64 a b ≡ a +ℤ b
unfolding add_i64
add_i64-exact a b h k = ground arith

pub sub_i64-exact : (a b : ℤ) → IsModerate a → IsModerate b → sub_i64 a b ≡ a -ℤ b
unfolding sub_i64
sub_i64-exact a b h k = ground arith

pub add_i64-IsI64 : (a b : ℤ) → IsI64 a → IsI64 b → IsI64 (add_i64 a b)
unfolding add_i64
add_i64-IsI64 a b h k = (ground arith, ground arith)

pub ltb_ℤ→lt : (a b : ℤ) → ltb_ℤ a b ≡ true → a <ℤ b
ltb_ℤ→lt a b h = ground arith

pub ltb_ℤ→ge : (a b : ℤ) → ltb_ℤ a b ≡ false → b ≤ℤ a
ltb_ℤ→ge a b h = ground arith

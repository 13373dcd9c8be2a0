-- ===== src/Prelude/Text/Decimal.antt =====
-- Decimal integers as Rust prints them and as `str::parse::<i64>` reads them.
use Prim.Native.Nat.{ℕ, zero, suc, ◌+◌, ◌-◌, ◌*◌, ◌/◌, ◌%◌, ◌<◌}
use Prim.Native.Char.{Char, code}
use Prim.Native.String.{String, [], ◌∷◌}
use mathlib.Core.Path.{◌≡◌, refl, ap, ◌∙◌}
use mathlib.Core.Logic.{inl, inr}
use mathlib.Core.Bool.{Bool, true, false, ◌&&◌}
use mathlib.Core.Option.{Option, none, some}
use native.Mathlib.Omega.{arith}
use text.Mathlib.TextLemmas.{nil-append, cons-append}
use sts_delegate_rs.Prelude.Tests.{leb, ltb, ◌==◌, if◌then◌else◌, Bool-cases}
use sts_delegate_rs.Prelude.Int.{ℤ, pos, negsuc, half_word, whole_word, IsI64}
use sts_delegate_rs.Prelude.Text.{
  ◌⧺◌, is_empty, is_whitespace, any_char, trim_start, trim_end, trim,
}

digit_char : ℕ → Char
digit_char zero = "0"
digit_char (suc zero) = "1"
digit_char (suc (suc zero)) = "2"
digit_char (suc (suc (suc zero))) = "3"
digit_char (suc (suc (suc (suc zero)))) = "4"
digit_char (suc (suc (suc (suc (suc zero))))) = "5"
digit_char (suc (suc (suc (suc (suc (suc zero)))))) = "6"
digit_char (suc (suc (suc (suc (suc (suc (suc zero))))))) = "7"
digit_char (suc (suc (suc (suc (suc (suc (suc (suc zero)))))))) = "8"
digit_char _ = "9"

code-digit_char : (d : ℕ) → d < 10 → code (digit_char d) ≡ d + 48
unfolding digit_char
code-digit_char zero h = refl
code-digit_char (suc zero) h = refl
code-digit_char (suc (suc zero)) h = refl
code-digit_char (suc (suc (suc zero))) h = refl
code-digit_char (suc (suc (suc (suc zero)))) h = refl
code-digit_char (suc (suc (suc (suc (suc zero))))) h = refl
code-digit_char (suc (suc (suc (suc (suc (suc zero)))))) h = refl
code-digit_char (suc (suc (suc (suc (suc (suc (suc zero))))))) h = refl
code-digit_char (suc (suc (suc (suc (suc (suc (suc (suc zero)))))))) h = refl
code-digit_char (suc (suc (suc (suc (suc (suc (suc (suc (suc zero))))))))) h = refl
code-digit_char (suc (suc (suc (suc (suc (suc (suc (suc (suc (suc n)))))))))) h =
    absurd (omega arith)

-- The digits of `n` in front of `s`; `n` rounds are enough.
show_from : ℕ → ℕ → String → String
show_from zero n s = s
show_from (suc f) n s =
    let longer = show_from f (n / 10) (digit_char (n % 10) ∷ s) in
    if n / 10 == 0 then digit_char (n % 10) ∷ s else longer

show_ℕ : ℕ → String
unfolding show_from digit_char
show_ℕ n = show_from (suc n) n ""

unfoldable pub show_i64 : ℤ → String
unfolding show_ℕ
show_i64 (pos n) = show_ℕ n
show_i64 (negsuc n) = "-" ⧺ show_ℕ (suc n)

-- The digits of `s` read behind the number `n`.
read_from : ℕ → String → Option ℕ
read_from n [] = some n
read_from n (c ∷ s) =
    let d = code c in
    let rest = read_from (n * 10 + (d - 48)) s in if leb 48 d && leb d 57 then rest else none

read_digits : String → Option ℕ
unfolding read_from
read_digits [] = none
read_digits (c ∷ s) = read_from 0 (c ∷ s)

in_range : Bool → Option ℕ → Option ℤ
in_range negative none = none
in_range true (some zero) = some (pos 0)
in_range true (some (suc n)) = if ltb n half_word then some (negsuc n) else none
in_range false (some n) = if ltb n half_word then some (pos n) else none

-- `s.parse::<i64>().ok()`: an optional sign, at least one digit, and a value in range.
unfoldable pub parse_i64 : String → Option ℤ
unfolding read_digits in_range
parse_i64 [] = none
parse_i64 (c ∷ s) =
    if code c == b'-'
    then in_range true (read_digits s)
    else if code c == b'+'
    then in_range false (read_digits s)
    else in_range false (read_digits (c ∷ s))

-- `n.to_string()` and `s.parse::<usize>().ok()` on a 64-bit machine.
unfoldable pub show_usize : ℕ → String
unfolding show_ℕ
show_usize n = show_ℕ n

word_sized : Option ℕ → Option ℕ
word_sized none = none
word_sized (some n) = if ltb n whole_word then some n else none

unfoldable pub parse_usize : String → Option ℕ
unfolding read_digits word_sized
parse_usize [] = none
parse_usize (c ∷ s) =
    if code c == b'+' then word_sized (read_digits s) else word_sized (read_digits (c ∷ s))

read_from-digit :
    (n d : ℕ) (s : String) → d < 10 → read_from n (digit_char d ∷ s) ≡ read_from (n * 10 + d) s
unfolding read_from
read_from-digit n d s h =
    let e : d + 48 - 48 ≡ d = omega arith in
    let t : (leb 48 (d + 48) && leb (d + 48) 57) ≡ true = ground arith in
    rw (code-digit_char d h) (rw (e, t))

read_from-show_from : (f n : ℕ) (s : String) → n < f → read_from 0 (show_from f n s) ≡ read_from n s
unfolding show_from
read_from-show_from zero n s h = elim h [ ]
read_from-show_from (suc f) n s h = elim (Bool-cases (n / 10 == 0)) [
  | inl small ↦
      let e : 0 * 10 + n % 10 ≡ n = ground arith in
      rw small (read_from-digit 0 (n % 10) s (omega arith) ∙ ap (λ k. read_from k s) e)
  | inr large ↦
      let e : n / 10 * 10 + n % 10 ≡ n = omega arith in
      rw large (
        read_from-show_from f (n / 10) (digit_char (n % 10) ∷ s) (ground arith)
        ∙ (read_from-digit (n / 10) (n % 10) s (omega arith) ∙ ap (λ k. read_from k s) e))
]

-- The printed digits of a number are there, and are read back.
show_from-full : (f n : ℕ) (s : String) → is_empty s ≡ false → is_empty (show_from f n s) ≡ false
unfolding show_from
show_from-full zero n s h = h
show_from-full (suc f) n s h =
    ground (arith, show_from-full f (n / 10) (digit_char (n % 10) ∷ s) refl)

read_digits_of_full : (s : String) → is_empty s ≡ false → read_digits s ≡ read_from 0 s
unfolding read_digits
read_digits_of_full [] h = cc
read_digits_of_full (c ∷ s) h = refl

show_ℕ-full : (n : ℕ) → is_empty (show_ℕ n) ≡ false
unfolding show_ℕ
show_ℕ-full n = ground (arith, show_from-full n (n / 10) (digit_char (n % 10) ∷ "") refl)

read_digits-show_ℕ : (n : ℕ) → read_digits (show_ℕ n) ≡ some n
read_digits-show_ℕ n =
    read_digits_of_full (show_ℕ n) (show_ℕ-full n)
    ∙ unfold show_ℕ read_from in read_from-show_from (suc n) n "" (omega arith)

-- Digits begin with no sign.
parse_of_digits :
    (s : String) (n : ℕ) → read_digits s ≡ some n → parse_i64 s ≡ in_range false (some n)
unfolding parse_i64 read_digits
parse_of_digits [] n h = cc
parse_of_digits (c ∷ s) n h = ground arith

white-digit : (d : ℕ) → d < 10 → is_whitespace (code (digit_char d)) ≡ false
unfolding is_whitespace
white-digit d h = rw (code-digit_char d h) (ground arith)

show_from-solid :
    (f n : ℕ) (s : String)
    → any_char is_whitespace s ≡ false
    → any_char is_whitespace (show_from f n s) ≡ false
unfolding show_from
show_from-solid zero n s h = h
show_from-solid (suc f) n s h =
    let here : any_char is_whitespace (digit_char (n % 10) ∷ s) ≡ false =
      rw (white-digit (n % 10) (omega arith)) h in
    ground (arith, here, show_from-solid f (n / 10) (digit_char (n % 10) ∷ s) here)

-- What is printed is read back.
pub parse_i64-show_i64 : (z : ℤ) → IsI64 z → parse_i64 (show_i64 z) ≡ some z
unfolding show_i64 in_range
parse_i64-show_i64 (pos n) h = parse_of_digits (show_ℕ n) n (read_digits-show_ℕ n) ∙ ground arith
parse_i64-show_i64 (negsuc n) h =
    let e : parse_i64 ("-" ⧺ show_ℕ (suc n)) ≡ in_range true (read_digits (show_ℕ (suc n))) =
      rw (cons-append, nil-append) (unfold parse_i64 in refl) in
    e ∙ rw (read_digits-show_ℕ (suc n)) (ground arith)

-- A printed number is not empty and holds no white space.
pub show_i64-solid :
    (z : ℤ) → (is_empty (show_i64 z) ≡ false) × (any_char is_whitespace (show_i64 z) ≡ false)
unfolding show_i64
show_i64-solid (pos n) = (show_ℕ-full n, unfold show_ℕ in show_from-solid (suc n) n "" refl)
show_i64-solid (negsuc n) =
    rw (cons-append, nil-append)
      (refl, unfold show_ℕ is_whitespace in show_from-solid (suc (suc n)) (suc n) "" refl)

trim_end-line : (w : String) → any_char is_whitespace w ≡ false → trim_end (w ⧺ "\n") ≡ w
unfolding trim_end
trim_end-line [] h = refl
trim_end-line (c ∷ w) h = rw cons-append (ground (arith, trim_end-line w))

trim-line :
    (w : String) → is_empty w ≡ false → any_char is_whitespace w ≡ false → trim (w ⧺ "\n") ≡ w
unfolding trim
trim-line [] h k = cc
trim-line (c ∷ w) h k =
    let e : trim_start ((c ∷ w) ⧺ "\n") ≡ (c ∷ w) ⧺ "\n" =
      rw cons-append (unfold trim_start in ground arith) in
    rw e (trim_end-line (c ∷ w) k)

-- A line that holds a printed number is read back after trimming.
pub parse_i64-trim-line : (z : ℤ) → IsI64 z → parse_i64 (trim (show_i64 z ⧺ "\n")) ≡ some z
parse_i64-trim-line z h =
    let (full, solid) = show_i64-solid z in
    rw (trim-line (show_i64 z) full solid) (parse_i64-show_i64 z h)

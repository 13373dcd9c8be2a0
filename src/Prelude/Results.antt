-- ===== src/Prelude/Results.antt =====
-- Rust's `Result<T, E>` with `?` as the bind of a do block.
use mathlib.Core.Path.{◌≡◌, refl}
use mathlib.Core.Logic.{◌⊎◌, inl, inr}
use mathlib.Core.Bool.{Bool, true, false}
use mathlib.Core.Option.{Option, none, some}

pub data Result {ℓ} (A E : Type ℓ) : Type ℓ where
  ok : A → Result A E
  err : E → Result A E

infixl 5 ◌>>=◌ ◌>>◌
unfoldable pub ◌>>=◌ {ℓ} : {A B E : Type ℓ} → Result A E → (A → Result B E) → Result B E
ok x >>= next = next x
err why >>= next = err why

abbrev pub ◌>>◌ {ℓ} : {A B E : Type ℓ} → Result A E → Result B E → Result B E
first >> second = first >>= λ _. second

-- `if test { return Err(e) }`.
unfoldable pub refuse_if {ℓ} : {E : Type ℓ} → Bool → E → Result (Unit {ℓ}) E
refuse_if false why = ok tt
refuse_if true why = err why

-- `ok_or_else` and `map_err`.
unfoldable pub ok_or {ℓ} : {A E : Type ℓ} → Option A → E → Result A E
ok_or none e = err e
ok_or (some a) e = ok a

unfoldable pub map_err {ℓ} : {A E F : Type ℓ} → (E → F) → Result A E → Result A F
map_err f (ok a) = ok a
map_err f (err e) = err (f e)

abbrev pub map_ok {ℓ} : {A B E : Type ℓ} → (A → B) → Result A E → Result B E
map_ok f (ok a) = ok (f a)
map_ok f (err e) = err e

-- `Option<Result<T, E>>::transpose`, as `option.map(f).transpose()`.
abbrev pub traverse {ℓ} : {A B E : Type ℓ} → (A → Result B E) → Option A → Result (Option B) E
traverse f none = ok none
traverse f (some a) = map_ok some (f a)

pub Result-cases {ℓ} :
    {A E : Type ℓ} (r : Result A E) → ((a : A) × (r ≡ ok a)) ⊎ ((e : E) × (r ≡ err e))
Result-cases (ok a) = inl (a, refl)
Result-cases (err e) = inr (e, refl)

-- Inversion of a successful chain, with the rest of a proof behind it: what a step yields is a
-- variable there.
pub after_ok {ℓ} :
    {A B E C : Type ℓ} {start : Result A E} {next : A → Result B E} {end : B}
    → (start >>= next) ≡ ok end
    → ((middle : A) → start ≡ ok middle → next middle ≡ ok end → C)
    → C
unfolding ◌>>=◌
after_ok {start = err why} same rest = cc
after_ok {start = ok x} same rest = rest x refl same

pub after_refuse_if {ℓ} :
    {B E C : Type ℓ} (why : E) {test : Bool} {next : Result B E} {end : B}
    → (refuse_if test why >> next) ≡ ok end
    → (test ≡ false → next ≡ ok end → C)
    → C
unfolding ◌>>=◌ refuse_if
after_refuse_if why {test = true} same rest = cc
after_refuse_if why {test = false} same rest = rest refl same

pub ok_or-eq-ok {ℓ} : {A E : Type ℓ} (o : Option A) (e : E) {a : A} → ok_or o e ≡ ok a → o ≡ some a
unfolding ok_or
ok_or-eq-ok none e h = cc
ok_or-eq-ok (some a) e h = cc

pub map_err-eq-ok {ℓ} :
    {A E F : Type ℓ} (f : E → F) (r : Result A E) {a : A} → map_err f r ≡ ok a → r ≡ ok a
unfolding map_err
map_err-eq-ok f (ok a) h = cc
map_err-eq-ok f (err e) h = cc

pub after_map_ok {ℓ} :
    {A B E C : Type ℓ} (f : A → B) (r : Result A E) {b : B}
    → map_ok f r ≡ ok b
    → ((a : A) → r ≡ ok a → f a ≡ b → C)
    → C
after_map_ok f (ok a) h rest = rest a refl cc
after_map_ok f (err e) h rest = cc

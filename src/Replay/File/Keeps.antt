-- ===== src/Replay/File/Keeps.antt =====
-- Operations of the file store that leave a file of the directory alone, one rule for each way to
-- build an operation.
use sts_delegate_rs.Prelude.{String, ◌≡◌, Bool, true, false, some, Result, ok, err, if◌then◌else◌}
use sts_delegate_rs.Replay.Errors.{ReplayError}
use sts_delegate_rs.Replay.File.{file, Directory, World, M, ◌>>=◌, pure, throw, continue, lookup_in}

-- The directory holds a regular file with that name and content.
abbrev pub Holds : String → String → Directory → Type 0
Holds name content dir = lookup_in name dir ≡ some (file content)

-- The file stays, whether the operation returns or fails.
pub record Keeps {A : Type 0} (name content : String) (m : M A) : Type 0 where
  pub at : (w : World) → Holds name content w.dir → Holds name content (m w).0.dir

module _ {A B : Type 0} {name content : String} where
  Keeps-continue :
      (f : A → M B)
      → ((a : A) → Keeps name content (f a))
      → (r : Result A ReplayError) (w : World) → Holds name content w.dir
      → Holds name content (continue r f w).0.dir
  Keeps-continue f kf (ok a) w h = (kf a).at w h
  Keeps-continue f kf (err e) w h = h

  pub Keeps-bind :
      (m : M A) (f : A → M B)
      → Keeps name content m
      → ((a : A) → Keeps name content (f a))
      → Keeps name content (m >>= f)
  unfolding ◌>>=◌
  Keeps-bind m f km kf = record { at = λ w h. Keeps-continue f kf (m w).1 (m w).0 (km.at w h) }

module _ {A : Type 0} {name content : String} where
  pub Keeps-pure : (a : A) → Keeps name content (pure a)
  unfolding pure
  Keeps-pure a = record { at = λ w h. h }

  pub Keeps-throw : (e : ReplayError) → Keeps {A = A} name content (throw e)
  unfolding throw
  Keeps-throw e = record { at = λ w h. h }

  pub Keeps-if :
      (b : Bool) (m n : M A)
      → Keeps name content m
      → Keeps name content n
      → Keeps name content (if b then m else n)
  Keeps-if true m n km kn = km
  Keeps-if false m n km kn = kn

  -- An operation that chooses by the state, `λ w. g w w`, keeps the file if each choice does.
  pub Keeps-reader :
      (g : World → M A) → ((w : World) → Keeps name content (g w)) → Keeps name content (λ w. g w w)
  Keeps-reader g kg = record { at = λ w h. (kg w).at w h }

pub ruleset keeps_rules = (Keeps-bind, Keeps-pure, Keeps-throw, Keeps-if)

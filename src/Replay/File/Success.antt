-- ===== src/Replay/File/Success.antt =====
-- How a successful call of the file store ends: in the creation of the key's file.
use sts_delegate_rs.Prelude.{
  ℕ, ℤ, ◌≤ℤ◌, String, ◌≡◌, ◌≢◌, refl, ◌∙◌, some, List, Result, ok, err, lookup, lookup-insert,
  has_key_of_lookup, eq_refl, is_blank, trim, ◌⧺◌, arith, Option-cases, inl, inr, Bool-cases,
}
use sts_delegate_rs.Prelude.Text.Decimal.{parse_i64, show_i64}
use sts_delegate_rs.Replay.Errors.{ReplayError, empty_jti, replay_store_unavailable}
use sts_delegate_rs.Replay.Keys.{replay_filename}
use sts_delegate_rs.Replay.Store.{Call}
use sts_delegate_rs.Replay.File.Keeps.{Holds}
use sts_delegate_rs.Replay.File.Laws.{
  maybe_sweep-Keeps, sweep_if_full-Keeps, require_room-Keeps, remove_if_expired-Keeps,
}
use sts_delegate_rs.Replay.File.{
  file, Faults, World, M, ◌>>=◌, ◌>>◌, throw, continue, maybe_sweep, sweep_if_full, require_room,
  remove_if_expired, create_record, check_and_record,
}

go_on :
    {A B : Type 0} (r : Result A ReplayError) (k : M B) (w : World) {b : B}
    → (continue r (λ _. k) w).1 ≡ ok b
    → continue r (λ _. k) w ≡ k w
go_on (ok a) k w e = refl
go_on (err x) k w e = cc

-- A sequence that succeeds is what its second operation does after the first.
then-ok :
    {A B : Type 0} (m : M A) (k : M B) (w : World) {b : B} {out : World × Result B ReplayError}
    → ((k (m w).0).1 ≡ ok b → k (m w).0 ≡ out)
    → ((m >> k) w).1 ≡ ok b
    → (m >> k) w ≡ out
unfolding ◌>>=◌
then-ok m k w next h = let e = go_on (m w).1 k (m w).0 h in e ∙ next (rw e at h)

module _ (sha256 : String → List ℕ) (faults : Faults) (c : Call) where
  abbrev pub name : String
  name = replay_filename sha256 c.jti

  -- The world in which the record is created.
  abbrev pub before_create : World → World
  before_create w =
      (remove_if_expired faults c.now name
        (require_room faults (sweep_if_full faults c.now (maybe_sweep faults c.now w).0).0).0).0

  -- A call that succeeds is a successful creation there.
  pub check_and_record-ok :
      (w : World)
      → (check_and_record faults sha256 c w).1 ≡ ok tt
      → check_and_record faults sha256 c w ≡ create_record faults name c.exp (before_create w)
  unfolding check_and_record throw
  check_and_record-ok w h = elim (Bool-cases (is_blank c.jti)) [
    | inl blank ↦ let e : err empty_jti ≡ ok tt = rw blank at h in cc
    | inr there ↦
        rw there (
          then-ok _ _ _ (then-ok _ _ _ (then-ok _ _ _ (then-ok _ _ _ (λ _. refl)))) (rw there at h))
  ]

  pub before_create-Holds :
      (content : String) (exp : ℤ) (w : World)
      → c.now ≤ℤ exp
      → parse_i64 (trim content) ≡ some exp
      → Holds name content w.dir
      → Holds name content (before_create w).dir
  before_create-Holds content exp w fresh readable h =
      (remove_if_expired-Keeps faults name content exp c.now fresh readable name).at _ (
        (require_room-Keeps faults name content exp c.now fresh readable).at _ (
          (sweep_if_full-Keeps faults name content exp c.now fresh readable).at _
            ((maybe_sweep-Keeps faults name content exp c.now fresh readable).at w h)))

  pub create_record-held :
      (content : String) (exp : ℤ) (w : World)
      → Holds name content w.dir
      → (create_record faults name exp w).1 ≢ ok tt
  unfolding create_record
  create_record-held content exp w h e = elim (Option-cases w.dir) [
    | inl missing ↦
        let k : err replay_store_unavailable ≡ ok tt = rw (missing, create_record) at e in cc
    | inr (entries, there) ↦
        let held : lookup name entries ≡ some (file content) = rw there at h in
        let k = has_key_of_lookup name (file content) entries held in ground (arith, k, there)
  ]

  pub create_record-ok :
      (exp : ℤ) (w : World)
      → (create_record faults name exp w).1 ≡ ok tt
      → Holds name (show_i64 exp ⧺ "\n") (create_record faults name exp w).0.dir
  unfolding create_record
  create_record-ok exp w h = elim (Option-cases w.dir) [
    | inl missing ↦ ground (arith, missing)
    | inr (entries, there) ↦
        ground
          (arith, there, lookup-insert name name (file (show_i64 exp ⧺ "\n")) entries, eq_refl name)
  ]

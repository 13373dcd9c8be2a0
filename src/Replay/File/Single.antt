-- ===== src/Replay/File/Single.antt =====
-- The file store keeps the promise of `ReplayStore`, for all stores that share a directory and whose
-- calls do not overlap. `FileReplayStore` holds no lock between the reading of a file and its removal.
use sts_delegate_rs.Prelude.{ℕ, ℤ, ◌≤ℤ◌, IsI64, String, ◌≡◌, ◌≢◌, some, List, Result, ok, trim, ◌⧺◌}
use sts_delegate_rs.Prelude.Text.Decimal.{parse_i64, show_i64, parse_i64-trim-line}
use sts_delegate_rs.Replay.Errors.{ReplayError}
use sts_delegate_rs.Replay.Keys.{replay_filename}
use sts_delegate_rs.Replay.Store.{Call, ReplayStore, run, Before, single_use}
use sts_delegate_rs.Replay.File.Keeps.{Holds}
use sts_delegate_rs.Replay.File.Laws.{check_and_record-Keeps}
use sts_delegate_rs.Replay.File.Success.{
  check_and_record-ok, before_create-Holds, create_record-held, create_record-ok,
}
use sts_delegate_rs.Replay.File.{Directory, Faults, FileReplayStore, World, check_and_record}

-- A key is held by a readable file of its name.
abbrev pub IsHeld : (String → List ℕ) → String → ℤ → Directory → Type 0
IsHeld sha256 jti exp dir =
    (content : String) × Holds (replay_filename sha256 jti) content dir
    × (parse_i64 (trim content) ≡ some exp)

module _ (sha256 : String → List ℕ) where
  -- A call by a store whose own counter is `local`, seen from the directory.
  abbrev pub call :
      Faults × FileReplayStore → Call → Directory → Directory × Result Unit ReplayError
  call (faults, local) c dir =
      let (w, r) = check_and_record faults sha256 c (record { store = local; dir = dir }) in
      (w.dir, r)

  pub call-IsHeld_once :
      (env : Faults × FileReplayStore) (c : Call) (dir : Directory)
      → IsI64 c.exp
      → (call env c dir).1 ≡ ok tt
      → IsHeld sha256 c.jti c.exp (call env c dir).0
  call-IsHeld_once (faults, local) c dir i64 h =
      let w : World = record { store = local; dir = dir } in
      let e = check_and_record-ok sha256 faults c w h in
      (
        show_i64 c.exp ⧺ "\n",
        rw (e, call) (create_record-ok sha256 faults c c.exp _ (rw e at h)),
        parse_i64-trim-line c.exp i64,
      )

  pub call-IsHeld_while :
      (jti : String) (exp : ℤ) (env : Faults × FileReplayStore) (c : Call) (dir : Directory)
      → c.now ≤ℤ exp
      → IsHeld sha256 jti exp dir
      → IsHeld sha256 jti exp (call env c dir).0
  call-IsHeld_while jti exp (faults, local) c dir fresh (content, held, readable) = (
    content,
    (check_and_record-Keeps sha256 faults _ content exp c fresh readable).at _ held,
    readable,
  )

  pub call-refused :
      (exp : ℤ) (env : Faults × FileReplayStore) (c : Call) (dir : Directory)
      → c.now ≤ℤ exp
      → IsHeld sha256 c.jti exp dir
      → (call env c dir).1 ≢ ok tt
  call-refused exp (faults, local) c dir fresh (content, held, readable) h =
      let w : World = record { store = local; dir = dir } in
      let e = check_and_record-ok sha256 faults c w h in
      create_record-held sha256 faults c content c.exp _
        (before_create-Holds sha256 faults c content exp w fresh readable held) (rw e at h)

  -- The directory as an implementation of the trait: any store may make any call on it.
  abbrev pub directory_store : ReplayStore
  directory_store = record {
    State = Directory;
    Env = Faults × FileReplayStore;
    check_and_record = call;
    IsHeld = IsHeld sha256;
    held_once_recorded = call-IsHeld_once;
    held_while_fresh = call-IsHeld_while;
    refused_when_held = call-refused;
  }

-- Where calls follow one another and none overlaps another: once a key was recorded in the directory, with an expiry that an i64 holds, no store on it accepts
-- the key again until it expires, whatever calls that are not later than the expiry the stores make in
-- between, whatever their own counters, and whatever operations of the file system fail.
pub directory_single_use :
    (sha256 : String → List ℕ) (dir : Directory) (env env' : Faults × FileReplayStore)
    (first again : Call) (between : List ((Faults × FileReplayStore) × Call))
    → IsI64 first.exp
    → (call sha256 env first dir).1 ≡ ok tt
    → Before (directory_store sha256) first.exp between
    → again.jti ≡ first.jti
    → again.now ≤ℤ first.exp
    → (call sha256 env' again
        (run (directory_store sha256) (call sha256 env first dir).0 between)).1
      ≢ ok tt
directory_single_use sha256 = single_use (directory_store sha256)

-- ===== src/Replay/File/Overlap.antt =====
-- Calls of several file stores that overlap: `check_and_record` and the sweep of
-- crates/sts-replay/src/lib.rs read a file's expiry, remove the file and create it in steps, between
-- which the steps of other processes may come. `create_new` and the write after it are one step here: a file
-- without its expiry is read as one that has not expired. What the directory holds is not counted here.
use sts_delegate_rs.Prelude.{
  ℕ, ℤ, ◌≤ℤ◌, IsI64, String, ◌≡◌, ◌≢◌, refl, sym, Bool-cases, text_eq, inl, inr, true, false, some,
  List, [], ◌∷◌, Result, ok, if◌then◌else◌, lookup, remove, member, All, eq_iff, eq_refl, trim, ◌⧺◌,
  arith,
}
use sts_delegate_rs.Prelude.Text.Decimal.{parse_i64, show_i64, parse_i64-trim-line}
use sts_delegate_rs.Replay.Errors.{ReplayError}
use sts_delegate_rs.Replay.Keys.{replay_filename}
use sts_delegate_rs.Replay.Store.{Call}
use sts_delegate_rs.Replay.File.Keeps.{Holds}
use sts_delegate_rs.Replay.File.Laws.{remove_other, not_expired, create_record-Holds}
use sts_delegate_rs.Replay.File.Success.{create_record-held, create_record-ok}
use sts_delegate_rs.Replay.File.Reuse.{no_faults, not_has_key-remove}
use sts_delegate_rs.Replay.File.{
  file, Entries, Directory, Faults, FileReplayStore, World, read_exp, has_expired,
  remove_replay_file, remove_if_expired, create_record,
}

-- The directory, and the names that some call has read as expired and has still to remove.
pub record Shared : Type 0 where
  pub dir : Directory
  pub doomed : List String

-- A step of a call at a store, by what it may meet in the file system.
pub data Action : Type 0 where
  look : Faults → ℤ → String → Action
  unlink : Faults → FileReplayStore → String → Action
  create : Faults → FileReplayStore → String → ℤ → Action

unfoldable pub drop_one : String → List String → List String
drop_one k [] = []
drop_one k (x ∷ xs) = let rest = drop_one k xs in if text_eq x k then xs else x ∷ rest

abbrev pub remove_in : Faults → FileReplayStore → String → Directory → Directory
remove_in faults local name dir =
    (remove_replay_file faults name (record { store = local; dir = dir })).0.dir

abbrev pub create_in :
    Faults → FileReplayStore → String → ℤ → Directory → World × Result Unit ReplayError
create_in faults local name exp dir =
    create_record faults name exp (record { store = local; dir = dir })

-- A call unlinks a name only after it has read it as expired.
unfoldable pub act : Action → Shared → Shared
act (look faults now name) s =
    if has_expired faults now (read_exp faults name s.dir)
    then record s { doomed = name ∷ s.doomed }
    else s
act (unlink faults local name) s =
    if member name s.doomed
    then record { dir = remove_in faults local name s.dir; doomed = drop_one name s.doomed }
    else s
act (create faults local name exp) s = record s {
  dir = (create_in faults local name exp s.dir).0.dir;
}

unfoldable pub play : List Action → Shared → Shared
play [] s = s
play (a ∷ later) s = play later (act a s)

-- No step reads the clock after `exp`.
abbrev pub IsTimely : ℤ → Action → Type 0
IsTimely exp (look faults now name) = now ≤ℤ exp
IsTimely exp (unlink faults local name) = Unit
IsTimely exp (create faults local name e) = Unit

-- The two steps by which a call removes an expired file, with no step of another call between them,
-- are what `remove_if_expired` does to the directory.
play-remove_if_expired :
    (faults : Faults) (local : FileReplayStore) (now : ℤ) (name : String) (dir : Directory)
    → (play
        (look faults now name ∷ unlink faults local name ∷ [])
        (record { dir = dir; doomed = [] })).dir
      ≡ (remove_if_expired faults now name (record { store = local; dir = dir })).0.dir
unfolding play act remove_if_expired
play-remove_if_expired faults local now name dir =
    elim (Bool-cases (has_expired faults now (read_exp faults name dir))) [
      | inl expired ↦ rw expired (rw (eq_refl name) refl)
      | inr kept ↦ rw kept refl
    ]

member-drop_one :
    (k j : String) (xs : List String) → member k xs ≡ false → member k (drop_one j xs) ≡ false
unfolding drop_one
member-drop_one k j [] h = refl
member-drop_one k j (x ∷ xs) h = ground (arith, member-drop_one k j xs)

-- A file that is held, and that no call is about to remove.
pub record IsSettled (name content : String) (s : Shared) : Type 0 where
  pub held : Holds name content s.dir
  pub spared : member name s.doomed ≡ false

module _ (name content : String) (exp : ℤ) (readable : parse_i64 (trim content) ≡ some exp) where
  look-IsSettled :
      (faults : Faults) (now : ℤ) (j : String) (s : Shared)
      → now ≤ℤ exp
      → IsSettled name content s
      → IsSettled name content (act (look faults now j) s)
  unfolding act
  look-IsSettled faults now j s fresh settled = elim (Bool-cases (text_eq j name)) [
    | inl same ↦
        let e : j ≡ name = (eq_iff j name).0 same in
        rw e
          (rw (not_expired faults name content exp now fresh readable s.dir settled.held) settled)
    | inr different ↦
        let spared = settled.spared in
        record { held = ground (arith, settled.held); spared = ground (arith, different, spared) }
  ]

  unlink-IsSettled :
      (faults : Faults) (local : FileReplayStore) (j : String) (s : Shared)
      → IsSettled name content s
      → IsSettled name content (act (unlink faults local j) s)
  unfolding act
  unlink-IsSettled faults local j s settled = elim (Bool-cases (member j s.doomed)) [
    | inl doomed ↦
        let spared = settled.spared in
        let different : j ≢ name =
          λ e. let k : member name s.doomed ≡ true = rw (sym e) doomed in cc in
        rw doomed (record {
          held =
              remove_other faults name content exp exp (omega arith) readable j
                (record { store = local; dir = s.dir }) different settled.held;
          spared = member-drop_one name j s.doomed spared;
        })
    | inr not_doomed ↦ rw not_doomed settled
  ]

  create-IsSettled :
      (faults : Faults) (local : FileReplayStore) (j : String) (e : ℤ) (s : Shared)
      → IsSettled name content s
      → IsSettled name content (act (create faults local j e) s)
  unfolding act
  create-IsSettled faults local j e s settled = record {
    held =
        create_record-Holds faults name content exp exp (omega arith) readable j e
          (record { store = local; dir = s.dir }) settled.held;
    spared = settled.spared;
  }

  act-IsSettled :
      (a : Action) (s : Shared)
      → IsTimely exp a
      → IsSettled name content s
      → IsSettled name content (act a s)
  act-IsSettled (look faults now j) s timely settled = look-IsSettled faults now j s timely settled
  act-IsSettled (unlink faults local j) s timely settled = unlink-IsSettled faults local j s settled
  act-IsSettled (create faults local j e) s timely settled =
      create-IsSettled faults local j e s settled

  play-IsSettled :
      (later : List Action) (s : Shared)
      → All (IsTimely exp) later
      → IsSettled name content s
      → IsSettled name content (play later s)
  unfolding play
  play-IsSettled [] s timely settled = settled
  play-IsSettled (a ∷ later) s (now, timely) settled =
      play-IsSettled later (act a s) timely (act-IsSettled a s now settled)

-- Where a call has read the name as expired before its file was created anew, that call removes the
-- new file, and another one creates it again: both creators have succeeded.
doomed_file_recreated :
    (local local' : FileReplayStore) (name content : String) (exp : ℤ) (entries : Entries)
    (doomed : List String)
    → lookup name entries ≡ some (file content)
    → member name doomed ≡ true
    → (create_in no_faults local' name exp
        (act (unlink no_faults local name) (record { dir = some entries; doomed = doomed })).dir).1
      ≡ ok tt
unfolding act remove_replay_file create_record
doomed_file_recreated local local' name content exp entries doomed held late =
    let removed : remove_in no_faults local name (some entries) ≡ some (remove name entries) =
      rw (held, remove_in, remove_replay_file) refl in
    rw (late, removed, create_record) (rw (not_has_key-remove name entries) refl)

-- Where the steps of calls mix: once the file of a key was created with an expiry that an i64 holds, at a
-- time when no call has read the file of that name as expired and has still to remove it, no call creates
-- the key's file again, whatever steps that do not read the clock after the expiry come in between,
-- of whichever calls, and whatever operations of the file system fail.
pub overlapping_single_use :
    (sha256 : String → List ℕ) (s : Shared) (faults faults' : Faults)
    (local local' : FileReplayStore) (c : Call) (exp : ℤ) (later : List Action)
    → IsI64 c.exp
    → member (replay_filename sha256 c.jti) s.doomed ≡ false
    → (create_in faults local (replay_filename sha256 c.jti) c.exp s.dir).1 ≡ ok tt
    → All (IsTimely c.exp) later
    → (create_in faults' local'
        (replay_filename sha256 c.jti)
        exp
        (play later (act (create faults local (replay_filename sha256 c.jti) c.exp) s)).dir).1
      ≢ ok tt
unfolding act
overlapping_single_use sha256 s faults faults' local local' c exp later i64 spared created timely =
    let content = show_i64 c.exp ⧺ "\n" in
    let name = replay_filename sha256 c.jti in
    let first : IsSettled name content (act (create faults local name c.exp) s) = record {
      held = create_record-ok sha256 faults c c.exp (record { store = local; dir = s.dir }) created;
      spared = spared;
    } in
    let last =
      play-IsSettled name content c.exp (parse_i64-trim-line c.exp i64) later _ timely first in
    create_record-held sha256 faults' c content exp _ last.held

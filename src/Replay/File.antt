-- ===== src/Replay/File.antt =====
-- `FileReplayStore` of crates/sts-replay/src/lib.rs. The directory is shared by every store that was
-- opened on it; each store has its own sweep counter. A call is one step, that no call of another store overlaps; it may meet
-- failures of the file system, which the environment chooses.
pub mod Keeps
pub mod Laws
pub mod Success
pub mod Single
pub mod Reuse
pub mod Overlap
use sts_delegate_rs.Prelude.{
  ℕ, suc, ◌+◌, ℤ, ltb_ℤ, String, Bool, true, false, ◌&&◌, Option, none, some, List, [], ◌∷◌, Result,
  ok, err, if◌then◌else◌, leb, length, has_key, lookup, insert, remove, is_blank, trim, ◌⧺◌,
}
use Prim.Native.Nat.{max}
use sts_delegate_rs.Prelude.Text.Decimal.{parse_i64, show_i64}
use sts_delegate_rs.Replay.Errors.{
  ReplayError, empty_jti, already_seen, no_room, replay_store_unavailable,
}
use sts_delegate_rs.Replay.Keys.{replay_filename}
use sts_delegate_rs.Replay.Store.{Call}

-- What a directory entry is: a regular file with its content, or anything else.
pub data DirEntry : Type 0 where
  file : String → DirEntry
  other : DirEntry

abbrev pub Entries : Type 0
Entries = List (String × DirEntry)

-- A directory, or `none` where it cannot be listed.
abbrev pub Directory : Type 0
Directory = Option Entries

-- The names on which an operation fails during a call.
pub record Faults : Type 0 where
  pub entry : String → Bool
  pub read : String → Bool
  pub unlink : String → Bool
  pub create : String → Bool
  pub write : String → Bool

pub record FileReplayStore : Type 0 where
  pub max_seen : ℕ
  pub sweep_every : ℕ
  pub calls_since_sweep : ℕ
  pub poisoned : Bool

-- `FileReplayStore::new` on a directory that is there after `create_dir_all`.
unfoldable pub new : Directory → ℕ → ℕ → Result FileReplayStore ReplayError
new none max_seen sweep_every = err replay_store_unavailable
new (some entries) max_seen sweep_every = ok (record {
  max_seen = max_seen;
  sweep_every = max sweep_every 1;
  calls_since_sweep = 0;
  poisoned = false;
})

-- A store and the directory that it works on.
pub record World : Type 0 where
  pub store : FileReplayStore
  pub dir : Directory

-- Methods keep what they wrote before an error.
abbrev pub M : Type 0 → Type 0
M A = World → World × Result A ReplayError

abbrev pub continue : {A B : Type 0} → Result A ReplayError → (A → M B) → M B
continue (ok a) f w = f a w
continue (err e) f w = (w, err e)

infixl 5 ◌>>=◌ ◌>>◌
unfoldable pub ◌>>=◌ : {A B : Type 0} → M A → (A → M B) → M B
◌>>=◌ m f w = let (w', r) = m w in continue r f w'

abbrev pub ◌>>◌ : {A B : Type 0} → M A → M B → M B
first >> second = first >>= λ _. second

unfoldable pub pure : {A : Type 0} → A → M A
pure a w = (w, ok a)

unfoldable pub throw : {A : Type 0} → ReplayError → M A
throw e w = (w, err e)

abbrev pub lookup_in : String → Directory → Option DirEntry
lookup_in name none = none
lookup_in name (some entries) = lookup name entries

abbrev pub update_dir : (Entries → Entries) → Directory → Directory
update_dir f none = none
update_dir f (some entries) = some (f entries)

unfoldable pub add_file : DirEntry → Result ℕ ReplayError → Result ℕ ReplayError
add_file (file _) (ok n) = ok (suc n)
add_file _ r = r

abbrev count_or_zero : Result ℕ ReplayError → ℕ
count_or_zero (ok n) = n
count_or_zero (err e) = 0

module _ (faults : Faults) where
  unfoldable pub exp_of : String → Option DirEntry → Option ℤ
  exp_of name none = none
  exp_of name (some other) = none
  exp_of name (some (file content)) = if faults.read name then none else parse_i64 (trim content)

  unfoldable pub read_exp : String → Directory → Option ℤ
  unfolding exp_of
  read_exp name dir = exp_of name (lookup_in name dir)

  -- `read_exp(..).is_some_and(|exp| exp < now)`.
  unfoldable pub has_expired : ℤ → Option ℤ → Bool
  has_expired now none = false
  has_expired now (some exp) = ltb_ℤ exp now

  -- A file that is gone already is no error.
  unfoldable pub remove_replay_file : String → M Unit
  remove_replay_file name w = elim (lookup_in name w.dir) [
    | none ↦ (w, ok tt)
    | some other ↦ (w, err replay_store_unavailable)
    | some (file _) ↦
        if faults.unlink name
        then (w, err replay_store_unavailable)
        else (record w { dir = update_dir (remove name) w.dir }, ok tt)
  ]

  -- The removal of an expired file.
  unfoldable pub remove_if_expired : ℤ → String → M Unit
  remove_if_expired now name w =
      if has_expired now (read_exp name w.dir) then remove_replay_file name w else (w, ok tt)

  -- One round of the loop over the directory's entries.
  unfoldable pub sweep_entry : ℤ → String × DirEntry → M Unit
  sweep_entry now (name, other) w =
      if faults.entry name then (w, err replay_store_unavailable) else (w, ok tt)
  sweep_entry now (name, file _) w =
      if faults.entry name then (w, err replay_store_unavailable) else remove_if_expired now name w

  unfoldable pub sweep_entries : ℤ → Entries → M Unit
  sweep_entries now [] = pure tt
  sweep_entries now (e ∷ entries) = do sweep_entry now e; sweep_entries now entries

  unfoldable pub sweep_expired : ℤ → M Unit
  unfolding sweep_entries sweep_entry remove_if_expired has_expired
  sweep_expired now w = elim w.dir [
    | none ↦ (w, err replay_store_unavailable)
    | some entries ↦ sweep_entries now entries w
  ]

  unfoldable pub set_calls : ℕ → M Unit
  set_calls n w = (record w { store = record w.store { calls_since_sweep = n } }, ok tt)

  unfoldable pub maybe_sweep : ℤ → M Unit
  unfolding set_calls
  maybe_sweep now w =
      let calls = w.store.calls_since_sweep + 1 in
      if w.store.poisoned
      then (w, err replay_store_unavailable)
      else if leb w.store.sweep_every calls
      then (do set_calls calls; sweep_expired now; set_calls 0) w
      else set_calls calls w

  unfoldable pub count_files : Entries → Result ℕ ReplayError
  unfolding add_file
  count_files [] = ok 0
  count_files ((name, e) ∷ entries) =
      let rest = count_files entries in
      if faults.entry name then err replay_store_unavailable else add_file e rest

  -- The number of regular files, live or not.
  unfoldable pub active_entry_count : M ℕ
  unfolding count_files
  active_entry_count w = elim w.dir [
    | none ↦ (w, err replay_store_unavailable)
    | some entries ↦ (w, count_files entries)
  ]

  -- A sweep if the directory is full.
  unfoldable pub sweep_if_full : ℤ → M Unit
  sweep_if_full now w =
      (active_entry_count >>= λ n. if leb w.store.max_seen n then sweep_expired now else pure tt) w

  unfoldable pub require_room : M Unit
  require_room w =
      (active_entry_count >>= λ n. if leb w.store.max_seen n then throw no_room else pure tt) w

  -- `create_new` and the write: exactly one creator of a name wins. A failed write leaves an empty
  -- file.
  unfoldable pub create_record : String → ℤ → M Unit
  create_record name exp w = elim w.dir [
    | none ↦ (w, err replay_store_unavailable)
    | some entries ↦
        if has_key name entries
        then (w, err already_seen)
        else if faults.create name
        then (w, err replay_store_unavailable)
        else if faults.write name
        then (record w { dir = some (insert name (file "") entries) }, err replay_store_unavailable)
        else (record w { dir = some (insert name (file (show_i64 exp ⧺ "\n")) entries) }, ok tt)
  ]

  module _ (sha256 : String → List ℕ) where
    unfoldable pub check_and_record : Call → M Unit
    check_and_record c = if is_blank c.jti then throw empty_jti else (do
      maybe_sweep c.now
      sweep_if_full c.now
      require_room
      remove_if_expired c.now (replay_filename sha256 c.jti)
      create_record (replay_filename sha256 c.jti) c.exp)

  unfoldable pub cache_size : World → ℕ
  cache_size w = count_or_zero (active_entry_count w).1

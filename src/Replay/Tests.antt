-- ===== src/Replay/Tests.antt =====
-- Runs of the replay stores on concrete keys, with a text's character codes in the place of its
-- SHA-256 digest.
use Prim.Native.Char.{code}
use sts_delegate_rs.Prelude.{
  ℕ, ◌+◌, ◌%◌, pos, String, ◌≡◌, ◌≢◌, ◌<◌, ◌↔◌, refl, true, false, some, ok, err, List, [], ◌∷◌,
  All, arith, length, trim, has_key, is_blank,
}
use sts_delegate_rs.Prelude.Text.Decimal.{parse_i64}
use sts_delegate_rs.Replay.Store.{Call, run}
use sts_delegate_rs.Replay.Memory.{default_store, new, check_and_record}
use sts_delegate_rs.Replay.Memory.Laws.{memory_store, memory_single_use}
use sts_delegate_rs.Replay.Memory.Bounds.{IsBounded, live, new-run-IsBounded, accepts_iff}
use sts_delegate_rs.Replay.Keys.{hex_lower, replay_filename}
use sts_delegate_rs.Replay.Keys.Distinct.{IsByte, dpop_replay_key_injective}
use sts_delegate_rs.Replay.File.{
  file, Faults, FileReplayStore, check_and_record as file_check_and_record,
}
use sts_delegate_rs.Replay.File.Single.{call, directory_store, directory_single_use}
use sts_delegate_rs.Replay.File.Overlap.{
  Shared, Action, look, unlink, create, create_in, act, play, overlapping_single_use,
}
use sts_delegate_rs.Replay.File.Reuse.{no_faults, expired_key_accepted}

abbrev at_time : ℕ → Call
at_time now = record { jti = "act:a"; exp = pos 200; now = pos now }

abbrev other_key : Call
other_key = record { jti = "act:b"; exp = pos 500; now = pos 150 }

memory_single_use_example :
    (check_and_record
      (at_time 160)
      (run memory_store (check_and_record (at_time 100) default_store).0 ((tt, other_key) ∷ []))).1
    ≢ ok tt
unfolding check_and_record sts_delegate_rs.Prelude.Text.is_blank default_store
    sts_delegate_rs.Replay.Memory.record_key sts_delegate_rs.Replay.Memory.make_room
    sts_delegate_rs.Replay.Memory.count_call
memory_single_use_example =
    memory_single_use default_store (at_time 100) (at_time 160) ((tt, other_key) ∷ []) (omega arith)
      refl (omega arith, tt) refl (omega arith)

new-run-IsBounded_example :
    IsBounded 2 (run memory_store (new 2 1) ((tt, at_time 100) ∷ (tt, other_key) ∷ []))
new-run-IsBounded_example = new-run-IsBounded 2 1 ((tt, at_time 100) ∷ (tt, other_key) ∷ [])

accepts_iff_example : ((check_and_record (at_time 100) default_store).1 ≡ ok tt) ↔ (
    (is_blank "act:a" ≡ false)
    × (has_key "act:a" default_store.seen ≡ false)
    × (live default_store (pos 100) < default_store.max_seen))
unfolding default_store
accepts_iff_example = accepts_iff default_store (at_time 100) refl refl

-- The stand-in for SHA-256.
abbrev char_bytes : String → List ℕ
char_bytes String.[] = []
char_bytes (String.◌∷◌ c s) = (code c % 256) ∷ char_bytes s

char_bytes-IsByte : (s : String) → All IsByte (char_bytes s)
char_bytes-IsByte String.[] = tt
char_bytes-IsByte (String.◌∷◌ c s) = (omega arith, char_bytes-IsByte s)

filename_test : replay_filename (λ _. 171 ∷ []) "a" ≡ "ab.jti"
unfolding replay_filename hex_lower
filename_test = refl

dpop_replay_key_injective_example : (◌≡◌ {A = String} "k" "k") × (◌≡◌ {A = String} "j" "j")
dpop_replay_key_injective_example =
    dpop_replay_key_injective char_bytes "k" "k" "j" "j" refl refl
      (record { bytes = char_bytes-IsByte; apart = λ _. refl }) refl

abbrev fresh_store : FileReplayStore
fresh_store = record { max_seen = 4; sweep_every = 3; calls_since_sweep = 0; poisoned = false }

directory_single_use_example :
    (call char_bytes
      (no_faults, fresh_store)
      (at_time 160)
      (run
        (directory_store char_bytes)
        (call char_bytes (no_faults, fresh_store) (at_time 100) (some [])).0
        (((no_faults, fresh_store), other_key) ∷ []))).1
    ≢ ok tt
unfolding file_check_and_record sts_delegate_rs.Prelude.Text.is_blank
    sts_delegate_rs.Replay.File.◌>>=◌ sts_delegate_rs.Replay.File.maybe_sweep
    sts_delegate_rs.Replay.File.sweep_if_full sts_delegate_rs.Replay.File.active_entry_count
    sts_delegate_rs.Replay.File.pure sts_delegate_rs.Replay.File.require_room
    sts_delegate_rs.Replay.File.remove_if_expired sts_delegate_rs.Replay.File.has_expired
    sts_delegate_rs.Replay.File.read_exp sts_delegate_rs.Replay.File.create_record
directory_single_use_example =
    directory_single_use char_bytes (some []) (no_faults, fresh_store) (no_faults, fresh_store)
      (at_time 100) (at_time 160) (((no_faults, fresh_store), other_key) ∷ []) (omega arith) refl
      (omega arith, tt) refl (omega arith)

abbrev empty_directory : Shared
empty_directory = record { dir = some []; doomed = [] }

abbrev key_file : String
key_file = replay_filename char_bytes "act:a"

-- Another call looks at the file and goes on to remove it, if it was expired.
abbrev other_steps : List Action
other_steps = look no_faults (pos 150) key_file ∷ unlink no_faults fresh_store key_file ∷ []

overlapping_single_use_example :
    (create_in no_faults fresh_store key_file
      (pos 500)
      (play other_steps
        (act (create no_faults fresh_store key_file (pos 200)) empty_directory)).dir).1
    ≢ ok tt
unfolding sts_delegate_rs.Replay.File.create_record
overlapping_single_use_example =
    overlapping_single_use char_bytes empty_directory no_faults no_faults fresh_store fresh_store
      (at_time 100) (pos 500) other_steps (omega arith) refl refl (omega arith, (tt, tt))

expired_key_accepted_example :
    (file_check_and_record no_faults char_bytes (at_time 201) (record {
      store = fresh_store;
      dir = some ((replay_filename char_bytes "act:a", file "200\n") ∷ []);
    })).1
    ≡ ok tt
unfolding sts_delegate_rs.Replay.File.count_files sts_delegate_rs.Prelude.Text.is_blank
    replay_filename hex_lower parse_i64
expired_key_accepted_example =
    expired_key_accepted char_bytes (at_time 201) fresh_store
      ((replay_filename char_bytes "act:a", file "200\n") ∷ []) "200\n" (pos 200)
      (record { live = refl; early = omega arith; count = 1; counted = refl; room = omega arith })
      refl refl refl (omega arith)

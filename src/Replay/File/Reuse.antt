-- ===== src/Replay/File/Reuse.antt =====
-- A key whose expiry has passed is accepted again.
use sts_delegate_rs.Prelude.{
  ℕ, ◌+◌, ◌<◌, ℤ, ltb_ℤ, ◌<ℤ◌, String, ◌≡◌, refl, true, false, some, List, [], ◌∷◌, ok, leb,
  has_key, lookup, remove, is_blank, trim, arith,
}
use sts_delegate_rs.Prelude.Text.Decimal.{parse_i64}
use sts_delegate_rs.Replay.Keys.{replay_filename}
use sts_delegate_rs.Replay.Store.{Call}
use sts_delegate_rs.Replay.File.{
  file, Entries, Faults, FileReplayStore, World, ◌>>=◌, pure, read_exp, has_expired,
  remove_replay_file, remove_if_expired, count_files, active_entry_count, maybe_sweep,
  sweep_if_full, require_room, create_record, check_and_record,
}

-- No operation of the file system fails.
abbrev pub no_faults : Faults
no_faults = record {
  entry = λ _. false;
  read = λ _. false;
  unlink = λ _. false;
  create = λ _. false;
  write = λ _. false;
}

pub not_has_key-remove : (k : String) (entries : Entries) → has_key k (remove k entries) ≡ false
not_has_key-remove k [] = refl
not_has_key-remove k ((j, e) ∷ entries) = ground (arith, not_has_key-remove k entries)

module _ (sha256 : String → List ℕ) (c : Call) (local : FileReplayStore) (entries : Entries) where
  -- The store is not poisoned and not due for a counted sweep, and the directory has room.
  pub record IsQuiet : Type 0 where
    pub live : local.poisoned ≡ false
    pub early : local.calls_since_sweep + 1 < local.sweep_every
    pub count : ℕ
    pub counted : count_files no_faults entries ≡ ok count
    pub room : count < local.max_seen

  abbrev counted_world : World
  counted_world = record {
    store = record local { calls_since_sweep = local.calls_since_sweep + 1 };
    dir = some entries;
  }

  maybe_sweep-quiet :
      IsQuiet
      → maybe_sweep no_faults c.now (record { store = local; dir = some entries })
        ≡ (counted_world, ok tt)
  unfolding maybe_sweep
  maybe_sweep-quiet q =
      let e : leb local.sweep_every (local.calls_since_sweep + 1) ≡ false =
        let h = q.early in ground arith in
      rw q.live (rw e)

  full-quiet : (q : IsQuiet) → leb local.max_seen q.count ≡ false
  full-quiet q = let h = q.room in ground arith

  sweep_if_full-quiet :
      IsQuiet → sweep_if_full no_faults c.now counted_world ≡ (counted_world, ok tt)
  unfolding sweep_if_full active_entry_count ◌>>=◌ pure
  sweep_if_full-quiet q = rw q.counted (rw (full-quiet q))

  require_room-quiet : IsQuiet → require_room no_faults counted_world ≡ (counted_world, ok tt)
  unfolding require_room active_entry_count ◌>>=◌ pure
  require_room-quiet q = rw q.counted (rw (full-quiet q))

  -- An expired file of the key is removed.
  remove_if_expired-stale :
      (content : String) (exp : ℤ)
      → lookup (replay_filename sha256 c.jti) entries ≡ some (file content)
      → parse_i64 (trim content) ≡ some exp
      → exp <ℤ c.now
      → remove_if_expired no_faults c.now (replay_filename sha256 c.jti) counted_world ≡ (
        record counted_world { dir = some (remove (replay_filename sha256 c.jti) entries) },
        ok tt,
      )
  unfolding remove_if_expired has_expired read_exp remove_replay_file
  remove_if_expired-stale content exp held readable stale =
      let t : ltb_ℤ exp c.now ≡ true = ground arith in
      rw held (rw readable (rw t (rw (held, remove_replay_file))))

  -- A call with a key whose recorded expiry has passed succeeds.
  pub expired_key_accepted :
      (content : String) (exp : ℤ)
      → IsQuiet
      → is_blank c.jti ≡ false
      → lookup (replay_filename sha256 c.jti) entries ≡ some (file content)
      → parse_i64 (trim content) ≡ some exp
      → exp <ℤ c.now
      → (check_and_record no_faults sha256 c (record { store = local; dir = some entries })).1
        ≡ ok tt
  unfolding check_and_record ◌>>=◌ create_record
  expired_key_accepted content exp q b held readable stale = rw b (
      rw (maybe_sweep-quiet q) (
        rw (sweep_if_full-quiet q) (
          rw (require_room-quiet q) (
            rw (remove_if_expired-stale content exp held readable stale)
              (rw (not_has_key-remove (replay_filename sha256 c.jti) entries))))))

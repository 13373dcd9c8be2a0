-- ===== src/Replay/File/Laws.antt =====
-- A key in the directory stays refused until it expires, whichever stores work on the directory.
use sts_delegate_rs.Prelude.{
  ℕ, ◌+◌, ℤ, ◌≤ℤ◌, String, ◌≡◌, ◌≢◌, refl, Bool-cases, Option-cases, text_eq, inl, inr, true, false,
  none, some, List, [], ◌∷◌, if◌then◌else◌, leb, lookup, remove, lookup-insert, lookup-remove,
  has_key_of_lookup, eq_iff, is_blank, trim, ◌⧺◌, arith,
}
use sts_delegate_rs.Prelude.Text.Decimal.{parse_i64, show_i64}
use sts_delegate_rs.Replay.Errors.{no_room}
use sts_delegate_rs.Replay.Store.{Call}
use sts_delegate_rs.Replay.File.Keeps.{
  Holds, Keeps, Keeps-bind, Keeps-reader, Keeps-if, Keeps-throw, keeps_rules,
}
use sts_delegate_rs.Replay.File.{
  DirEntry, file, other, Entries, Directory, Faults, World, ◌>>=◌, ◌>>◌, pure, throw, lookup_in,
  update_dir, read_exp, has_expired, remove_replay_file, remove_if_expired, sweep_entry,
  sweep_entries, sweep_expired, set_calls, maybe_sweep, active_entry_count, sweep_if_full,
  require_room, create_record, check_and_record,
}

pub not_eq : (s t : String) → text_eq s t ≡ false → s ≢ t
not_eq s t h e = let k : text_eq s t ≡ true = (eq_iff s t).1 e in cc

lookup_in-remove :
    (j name : String) (dir : Directory)
    → j ≢ name
    → lookup_in name (update_dir (remove j) dir) ≡ lookup_in name dir
lookup_in-remove j name none o = refl
lookup_in-remove j name (some entries) o =
    ground (arith, lookup-remove j name entries, eq_iff j name)

module _ (faults : Faults) (name content : String) (exp now : ℤ) (fresh : now ≤ℤ exp)
    (readable : parse_i64 (trim content) ≡ some exp) where
  pub remove_other :
      (j : String) (w : World)
      → j ≢ name
      → Holds name content w.dir
      → Holds name content (remove_replay_file faults j w).0.dir
  unfolding remove_replay_file
  remove_other j w o h = ground (arith, lookup_in-remove j name w.dir o)

  pub not_expired :
      (dir : Directory)
      → Holds name content dir
      → has_expired faults now (read_exp faults name dir) ≡ false
  unfolding read_exp has_expired
  not_expired dir h = rw h (ground arith)

  remove_if_expired-Holds :
      (j : String) (w : World)
      → Holds name content w.dir
      → Holds name content (remove_if_expired faults now j w).0.dir
  unfolding remove_if_expired
  remove_if_expired-Holds j w h = elim (Bool-cases (text_eq j name)) [
    | inl same ↦ let e : j ≡ name = (eq_iff j name).0 same in rw e (rw (not_expired w.dir h) h)
    | inr different ↦ ground (arith, remove_other j w (not_eq j name different) h)
  ]

  pub remove_if_expired-Keeps : (j : String) → Keeps name content (remove_if_expired faults now j)
  remove_if_expired-Keeps j = record { at = remove_if_expired-Holds j }

  sweep_entry-Holds :
      (e : String × DirEntry) (w : World)
      → Holds name content w.dir
      → Holds name content (sweep_entry faults now e w).0.dir
  unfolding sweep_entry
  sweep_entry-Holds (j, other) w h = ground arith
  sweep_entry-Holds (j, file _) w h = ground (arith, remove_if_expired-Holds j w h)

  sweep_entry-Keeps : (e : String × DirEntry) → Keeps name content (sweep_entry faults now e)
  sweep_entry-Keeps e = record { at = sweep_entry-Holds e }

  sweep_entries-Keeps : (entries : Entries) → Keeps name content (sweep_entries faults now entries)
  unfolding sweep_entries
  sweep_entries-Keeps [] = search keeps_rules
  sweep_entries-Keeps (e ∷ entries) =
      Keeps-bind _ _ (sweep_entry-Keeps e) (λ _. sweep_entries-Keeps entries)

  sweep_expired-Holds :
      (w : World) → Holds name content w.dir → Holds name content (sweep_expired faults now w).0.dir
  unfolding sweep_expired
  sweep_expired-Holds w h = elim (Option-cases w.dir) [
    | inl missing ↦ rw (missing, sweep_expired) h
    | inr (entries, there) ↦ rw (there, sweep_expired) ((sweep_entries-Keeps entries).at w h)
  ]

  sweep_expired-Keeps : Keeps name content (sweep_expired faults now)
  sweep_expired-Keeps = record { at = sweep_expired-Holds }

  set_calls-Keeps : (n : ℕ) → Keeps name content (set_calls faults n)
  unfolding set_calls
  set_calls-Keeps n = record { at = λ w h. h }

  counted_sweep-Keeps :
      (calls : ℕ)
      → Keeps name content (do set_calls faults calls; sweep_expired faults now; set_calls faults 0)
  counted_sweep-Keeps calls = search (keeps_rules, set_calls-Keeps, sweep_expired-Keeps)

  pub maybe_sweep-Keeps : Keeps name content (maybe_sweep faults now)
  unfolding maybe_sweep
  maybe_sweep-Keeps = record {
    at = λ w h.
        let calls = w.store.calls_since_sweep + 1 in
        ground (arith, (counted_sweep-Keeps calls).at w h, (set_calls-Keeps calls).at w h);
  }

  active_entry_count-Keeps : Keeps name content (active_entry_count faults)
  unfolding active_entry_count
  active_entry_count-Keeps = record { at = λ w h. ground (arith, h) }

  pub sweep_if_full-Keeps : Keeps name content (sweep_if_full faults now)
  unfolding sweep_if_full
  sweep_if_full-Keeps =
      Keeps-reader
        (λ v. active_entry_count faults >>= λ n.
          if leb v.store.max_seen n then sweep_expired faults now else pure tt)
        (λ w. search (keeps_rules, active_entry_count-Keeps, sweep_expired-Keeps))

  pub require_room-Keeps : Keeps name content (require_room faults)
  unfolding require_room
  require_room-Keeps =
      Keeps-reader
        (λ v. active_entry_count faults >>= λ n.
          if leb v.store.max_seen n then throw no_room else pure tt)
        (λ w. search (keeps_rules, active_entry_count-Keeps))

  pub create_record-Holds :
      (j : String) (e : ℤ) (w : World)
      → Holds name content w.dir
      → Holds name content (create_record faults j e w).0.dir
  unfolding create_record
  create_record-Holds j e w h = elim (Option-cases w.dir) [
    | inl missing ↦ rw (missing, create_record) h
    | inr (entries, there) ↦
        let held : lookup name entries ≡ some (file content) = rw there at h in
        rw (there, create_record)
          (ground (
            arith,
            lookup-insert j name (file "") entries,
            lookup-insert j name (file (show_i64 e ⧺ "\n")) entries,
            has_key_of_lookup name (file content) entries held,
            eq_iff j name,
          ))
  ]

  create_record-Keeps : (j : String) (e : ℤ) → Keeps name content (create_record faults j e)
  create_record-Keeps j e = record { at = create_record-Holds j e }

module _ (sha256 : String → List ℕ) (faults : Faults) (name content : String) (exp : ℤ) (c : Call)
    (fresh : c.now ≤ℤ exp) (readable : parse_i64 (trim content) ≡ some exp) where
  -- A call leaves every unexpired file alone.
  pub check_and_record-Keeps : Keeps name content (check_and_record faults sha256 c)
  unfolding check_and_record
  check_and_record-Keeps = Keeps-if (is_blank c.jti) _ _ (Keeps-throw _) (
      Keeps-bind _ _ (maybe_sweep-Keeps faults name content exp c.now fresh readable) (λ _.
        Keeps-bind _ _ (sweep_if_full-Keeps faults name content exp c.now fresh readable) (λ _.
          Keeps-bind _ _ (require_room-Keeps faults name content exp c.now fresh readable) (λ _.
            Keeps-bind _ _ (remove_if_expired-Keeps faults name content exp c.now fresh readable _)
              (λ _. create_record-Keeps faults name content exp c.now fresh readable _ _)))))

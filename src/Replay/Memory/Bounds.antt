-- ===== src/Replay/Memory/Bounds.antt =====
-- The bounds of the in-memory store, over any sequence of calls, and when it accepts a key.
use sts_delegate_rs.Prelude.{
  ℕ, suc, ◌≤◌, ◌<◌, ℤ, leb_ℤ, String, ◌≡◌, ◌↔◌, refl, ap, Bool, false, List, [], ◌∷◌, ok, arith,
  length, has_key, filter, leb, length-insert-le, length-filter-le, is_blank, Bool-cases, inl, inr,
}
use sts_delegate_rs.Replay.Store.{Call, run}
use sts_delegate_rs.Replay.Memory.{
  InMemoryReplayStore, new, sweep_expired, count_call, make_room, record_key, check_and_record,
}
use sts_delegate_rs.Replay.Memory.Laws.{memory_store}

-- At most `cap` keys are held, and the sweep counter stays below its period.
pub record IsBounded (cap : ℕ) (s : InMemoryReplayStore) : Type 0 where
  pub fixed : s.max_seen ≡ cap
  pub capacity : length s.seen ≤ cap
  pub counter : s.calls_since_sweep < s.sweep_every

length-sweep_expired-le :
    (seen : List (String × ℤ)) (now : ℤ) → length (sweep_expired seen now) ≤ length seen
unfolding sweep_expired
length-sweep_expired-le seen now = length-filter-le (λ e. leb_ℤ now e.1) seen

module _ (cap : ℕ) where
  count_call-IsBounded :
      (s : InMemoryReplayStore) (now : ℤ) → IsBounded cap s → IsBounded cap (count_call s now)
  unfolding count_call
  count_call-IsBounded s now v = ground (arith, length-sweep_expired-le s.seen now)

  make_room-IsBounded :
      (s : InMemoryReplayStore) (now : ℤ) → IsBounded cap s → IsBounded cap (make_room s now)
  unfolding make_room
  make_room-IsBounded s now v = ground (arith, length-sweep_expired-le s.seen now)

  record_key-IsBounded :
      (s : InMemoryReplayStore) (jti : String) (exp : ℤ)
      → IsBounded cap s
      → IsBounded cap (record_key s jti exp).0
  unfolding record_key
  record_key-IsBounded s jti exp v = ground (arith, length-insert-le jti exp s.seen)

  check_and_record-IsBounded :
      (c : Call) (s : InMemoryReplayStore)
      → IsBounded cap s
      → IsBounded cap (check_and_record c s).0
  unfolding check_and_record
  check_and_record-IsBounded c s v =
      let s' = count_call s c.now in
      let room = make_room-IsBounded s' c.now (count_call-IsBounded s c.now v) in
      ground (arith, record_key-IsBounded (make_room s' c.now) c.jti c.exp room)

  run-IsBounded :
      (s : InMemoryReplayStore) (cs : List (Unit × Call))
      → IsBounded cap s
      → IsBounded cap (run memory_store s cs)
  unfolding run
  run-IsBounded s [] v = v
  run-IsBounded s ((_, c) ∷ cs) v =
      run-IsBounded (check_and_record c s).0 cs (check_and_record-IsBounded c s v)

  new-IsBounded : (sweep_every : ℕ) → IsBounded cap (new cap sweep_every)
  unfolding new
  new-IsBounded sweep_every = record { fixed = refl; capacity = omega arith; counter = omega arith }

-- After any sequence of calls, a store made by `new` holds at most `max_seen` keys, and the calls
-- since its last counted sweep are fewer than its period.
pub new-run-IsBounded :
    (max_seen sweep_every : ℕ) (cs : List (Unit × Call))
    → IsBounded max_seen (run memory_store (new max_seen sweep_every) cs)
new-run-IsBounded max_seen sweep_every cs =
    run-IsBounded max_seen _ cs (new-IsBounded max_seen sweep_every)

length-filter-filter :
    {A : Type 0} (p : A → Bool) (xs : List A)
    → length (filter p (filter p xs)) ≡ length (filter p xs)
length-filter-filter p [] = refl
length-filter-filter p (x ∷ xs) = elim (Bool-cases (p x)) [
  | inl keep ↦ rw keep (rw keep (ap suc (length-filter-filter p xs)))
  | inr drop ↦ rw drop (length-filter-filter p xs)
]

length-sweep_expired-twice :
    (seen : List (String × ℤ)) (now : ℤ)
    → length (sweep_expired (sweep_expired seen now) now) ≡ length (sweep_expired seen now)
unfolding sweep_expired
length-sweep_expired-twice seen now = length-filter-filter (λ e. leb_ℤ now e.1) seen

-- The keys that have not expired.
abbrev pub live : InMemoryReplayStore → ℤ → ℕ
live s now = length (sweep_expired s.seen now)

-- Room is left for a key exactly when the unexpired keys leave some, whichever sweeps were made.
has_room :
    (s : InMemoryReplayStore) (now : ℤ)
    → leb s.max_seen (length (make_room (count_call s now) now).seen) ≡ leb s.max_seen (live s now)
unfolding make_room count_call
has_room s now =
    ground (arith, length-sweep_expired-twice s.seen now, length-sweep_expired-le s.seen now)

max_seen-make_room :
    (s : InMemoryReplayStore) (now : ℤ) → (make_room (count_call s now) now).max_seen ≡ s.max_seen
unfolding make_room count_call
max_seen-make_room s now = ground arith

-- A store whose locks are not poisoned accepts a key exactly when the key is not blank, is not held
-- and fewer than `max_seen` unexpired keys are.
pub accepts_iff :
    (s : InMemoryReplayStore) (c : Call)
    → s.seen_poisoned ≡ false
    → s.calls_poisoned ≡ false
    → ((check_and_record c s).1 ≡ ok tt)
      ↔ ((is_blank c.jti ≡ false) × (has_key c.jti s.seen ≡ false) × (live s c.now < s.max_seen))
unfolding check_and_record record_key
accepts_iff s c p q = ground (arith, has_room s c.now, max_seen-make_room s c.now)

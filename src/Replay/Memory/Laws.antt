-- ===== src/Replay/Memory/Laws.antt =====
-- The in-memory store keeps the promise of `ReplayStore`, and answers as it should.
use sts_delegate_rs.Prelude.{
  ℤ, ◌≤ℤ◌, IsI64, String, ◌≡◌, ◌≢◌, true, false, some, List, [], ◌∷◌, ok, arith, eq_iff, eq_refl,
  has_key, lookup, lookup-insert, has_key_of_lookup,
}
use sts_delegate_rs.Replay.Store.{Call, ReplayStore, run, Before, single_use}
use sts_delegate_rs.Replay.Memory.{
  InMemoryReplayStore, sweep_expired, count_call, make_room, record_key, check_and_record,
}

abbrev pub IsHeld : String → ℤ → InMemoryReplayStore → Type 0
IsHeld jti exp s = lookup jti s.seen ≡ some exp

-- A sweep keeps what has not expired.
lookup-sweep_expired :
    (jti : String) (exp now : ℤ) (seen : List (String × ℤ))
    → now ≤ℤ exp
    → lookup jti seen ≡ some exp
    → lookup jti (sweep_expired seen now) ≡ some exp
unfolding sweep_expired
lookup-sweep_expired jti exp now [] fresh h = cc
lookup-sweep_expired jti exp now ((j, e) ∷ seen) fresh h =
    ground (arith, lookup-sweep_expired jti exp now seen fresh)

module _ (jti : String) (exp now : ℤ) (s : InMemoryReplayStore) (fresh : now ≤ℤ exp) where
  count_call-IsHeld : IsHeld jti exp s → IsHeld jti exp (count_call s now)
  unfolding count_call
  count_call-IsHeld h = ground (arith, lookup-sweep_expired jti exp now s.seen fresh)

  make_room-IsHeld : IsHeld jti exp s → IsHeld jti exp (make_room s now)
  unfolding make_room
  make_room-IsHeld h = ground (arith, lookup-sweep_expired jti exp now s.seen fresh)

record_key-IsHeld :
    (jti j : String) (exp e : ℤ) (s : InMemoryReplayStore)
    → jti ≢ j
    → IsHeld jti exp s
    → IsHeld jti exp (record_key s j e).0
unfolding record_key
record_key-IsHeld jti j exp e s other h = ground (arith, lookup-insert j jti e s.seen, eq_iff j jti)

seen_if_held :
    (jti j : String) (exp : ℤ) (s : InMemoryReplayStore)
    → IsHeld jti exp s
    → has_key j s.seen ≡ false
    → jti ≢ j
seen_if_held jti j exp s h absent same =
    let k : has_key j s.seen ≡ true = has_key_of_lookup j exp s.seen (rw (← same) h) in cc

pub IsHeld-once_recorded :
    (c : Call) (s : InMemoryReplayStore)
    → (check_and_record c s).1 ≡ ok tt
    → IsHeld c.jti c.exp (check_and_record c s).0
unfolding check_and_record record_key
IsHeld-once_recorded c s h = ground (
  arith,
  lookup-insert c.jti c.jti c.exp (make_room (count_call s c.now) c.now).seen,
  eq_refl c.jti,
)

pub refused_when_held :
    (exp : ℤ) (c : Call) (s : InMemoryReplayStore)
    → IsHeld c.jti exp s
    → (check_and_record c s).1 ≢ ok tt
unfolding check_and_record
refused_when_held exp c s h = ground (arith, has_key_of_lookup c.jti exp s.seen h)

pub IsHeld-while_fresh :
    (jti : String) (exp : ℤ) (c : Call) (s : InMemoryReplayStore)
    → c.now ≤ℤ exp
    → IsHeld jti exp s
    → IsHeld jti exp (check_and_record c s).0
unfolding check_and_record
IsHeld-while_fresh jti exp c s fresh h =
    let s' = count_call s c.now in
    let room =
      make_room-IsHeld jti exp c.now s' fresh (count_call-IsHeld jti exp c.now s fresh h) in
    ground (
      arith,
      seen_if_held jti c.jti exp s h,
      record_key-IsHeld jti c.jti exp c.exp (make_room s' c.now),
      room,
    )

-- The store as an implementation of the trait.
abbrev pub memory_store : ReplayStore
memory_store = record {
  State = InMemoryReplayStore;
  Env = Unit;
  check_and_record = λ _. check_and_record;
  IsHeld = IsHeld;
  held_once_recorded = λ _ c s _. IsHeld-once_recorded c s;
  held_while_fresh = λ jti exp _. IsHeld-while_fresh jti exp;
  refused_when_held = λ exp _ c s _. refused_when_held exp c s;
}

-- Once a key was accepted, with an expiry that an i64 holds, it is refused until it expires, whatever
-- calls that are not later than its expiry come in between.
pub memory_single_use :
    (s : InMemoryReplayStore) (first again : Call) (between : List (Unit × Call))
    → IsI64 first.exp
    → (check_and_record first s).1 ≡ ok tt
    → Before memory_store first.exp between
    → again.jti ≡ first.jti
    → again.now ≤ℤ first.exp
    → (check_and_record again (run memory_store (check_and_record first s).0 between)).1 ≢ ok tt
memory_single_use s = single_use memory_store s tt tt

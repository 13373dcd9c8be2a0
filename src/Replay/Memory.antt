-- ===== src/Replay/Memory.antt =====
-- `InMemoryReplayStore` of crates/sts-replay/src/lib.rs. The two mutexes are the store's own fields,
-- each with whether a panic has poisoned it; a call holds both for its whole length, so that calls
-- happen one after another.
pub mod Laws
pub mod Bounds
use sts_delegate_rs.Prelude.{
  ℕ, zero, suc, ◌+◌, ℤ, ltb_ℤ, leb_ℤ, String, Bool, true, false, not, List, [], ◌∷◌, Result, ok,
  err, if◌then◌else◌, leb, length, has_key, insert, filter, is_blank,
}
use Prim.Native.Nat.{max}
use sts_delegate_rs.Replay.Errors.{
  ReplayError, empty_jti, already_seen, no_room, replay_store_unavailable,
}
use sts_delegate_rs.Replay.Store.{Call}

pub record InMemoryReplayStore : Type 0 where
  pub seen : List (String × ℤ)
  pub calls_since_sweep : ℕ
  pub max_seen : ℕ
  pub sweep_every : ℕ
  pub seen_poisoned : Bool
  pub calls_poisoned : Bool

unfoldable pub new : ℕ → ℕ → InMemoryReplayStore
new max_seen sweep_every = record {
  seen = [];
  calls_since_sweep = 0;
  max_seen = max_seen;
  sweep_every = max sweep_every 1;
  seen_poisoned = false;
  calls_poisoned = false;
}

unfoldable pub default_store : InMemoryReplayStore
unfolding new
default_store = new 1024 256

-- `retain(|_, exp| *exp >= now)`.
unfoldable pub sweep_expired : List (String × ℤ) → ℤ → List (String × ℤ)
sweep_expired seen now = filter (λ e. leb_ℤ now e.1) seen

-- The counted sweep.
unfoldable pub count_call : InMemoryReplayStore → ℤ → InMemoryReplayStore
count_call s now =
    let calls = s.calls_since_sweep + 1 in
    if leb s.sweep_every calls
    then record s { seen = sweep_expired s.seen now; calls_since_sweep = 0 }
    else record s { calls_since_sweep = calls }

-- The sweep of a full store.
unfoldable pub make_room : InMemoryReplayStore → ℤ → InMemoryReplayStore
make_room s now =
    if leb s.max_seen (length s.seen) then record s { seen = sweep_expired s.seen now } else s

-- The last test and the insertion.
unfoldable pub record_key :
    InMemoryReplayStore → String → ℤ → InMemoryReplayStore × Result (Unit {0}) ReplayError
record_key s jti exp =
    if leb s.max_seen (length s.seen)
    then (s, err no_room)
    else (record s { seen = insert jti exp s.seen }, ok tt)

unfoldable pub check_and_record :
    Call → InMemoryReplayStore → InMemoryReplayStore × Result (Unit {0}) ReplayError
check_and_record c s =
    if is_blank c.jti
    then (s, err empty_jti)
    else if s.seen_poisoned
    then (s, err replay_store_unavailable)
    else if has_key c.jti s.seen
    then (s, err already_seen)
    else if s.calls_poisoned
    then (s, err replay_store_unavailable)
    else record_key (make_room (count_call s c.now) c.now) c.jti c.exp

unfoldable pub cache_size : InMemoryReplayStore → ℕ
cache_size s = if s.seen_poisoned then 0 else length s.seen

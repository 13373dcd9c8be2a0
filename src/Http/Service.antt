-- ===== src/Http/Service.antt =====
-- The state of crates/sts-http/src/lib.rs that a request changes: the replay store, any that keeps the
-- promise of `ReplayStore`, the revoked tokens and the counters; and the handlers' early returns.
use sts_delegate_rs.Prelude.{
  ℕ, ◌+◌, String, Bool, true, false, ◌&&◌, List, [], ◌∷◌, Result, ok, err, map_err, if◌then◌else◌,
  text_eq, ◌≡◌, refl, Option, none, some, ◌%◌, whole_word,
}
use sts_delegate_rs.Replay.Errors.{ReplayError}
use sts_delegate_rs.Replay.Store.{Call, ReplayStore}
use sts_delegate_rs.Http.{HttpError}
use sts_delegate_rs.Http.Policy.{SigningDecision}
use sts_delegate_rs.Http.Revocation.{RevocationState}

abbrev pub add_u64 : ℕ → ℕ → ℕ
add_u64 a b = (a + b) % whole_word

-- The counters by algorithm and fallback, and whether their lock is poisoned.
pub record SigningCounters : Type 0 where
  pub signing_algs : List ((String × Bool) × ℕ)
  pub poisoned : Bool

abbrev pub bool_eq : Bool → Bool → Bool
bool_eq true true = true
bool_eq false false = true
bool_eq _ _ = false

unfoldable pub count_one : String → Bool → List ((String × Bool) × ℕ) → List ((String × Bool) × ℕ)
count_one alg fallback [] = ((alg, fallback), 1) ∷ []
count_one alg fallback (((a, f), n) ∷ rest) =
    let later = count_one alg fallback rest in
    if text_eq a alg && bool_eq f fallback
    then ((a, f), add_u64 n 1) ∷ rest
    else ((a, f), n) ∷ later

unfoldable pub record_signing : SigningDecision → SigningCounters → SigningCounters
unfolding count_one
record_signing decision m =
    if m.poisoned
    then m
    else record m { signing_algs = count_one decision.alg decision.pqc_fallback m.signing_algs }

-- `MetricsState`: its counters are 64 bits wide.
pub record MetricsState : Type 0 where
  pub exchanges_minted : ℕ
  pub exchanges_denied : ℕ
  pub denials : List (String × ℕ)
  pub denials_poisoned : Bool
  pub signing : SigningCounters

abbrev pub no_metrics : MetricsState
no_metrics = record {
  exchanges_minted = 0;
  exchanges_denied = 0;
  denials = [];
  denials_poisoned = false;
  signing = record { signing_algs = []; poisoned = false };
}

unfoldable pub count_denial : String → List (String × ℕ) → List (String × ℕ)
count_denial error [] = (error, 1) ∷ []
count_denial error ((e, n) ∷ rest) =
    let later = count_denial error rest in
    if text_eq e error then (e, add_u64 n 1) ∷ rest else (e, n) ∷ later

abbrev deny : Option String → MetricsState → MetricsState
deny none m = m
deny (some error) m =
    if m.denials_poisoned then m else record m { denials = count_denial error m.denials }

unfoldable pub record_exchange : {A : Type 0} → Result A HttpError → MetricsState → MetricsState
unfolding count_denial
record_exchange (ok _) m = record m { exchanges_minted = add_u64 m.exchanges_minted 1 }
record_exchange (err e) m =
    deny e.error (record m { exchanges_denied = add_u64 m.exchanges_denied 1 })

module _ (r : ReplayStore) where
  pub record Service : Type 0 where
    pub replay : r.State
    pub revocations : RevocationState
    pub metrics : MetricsState

  -- A handler keeps what it recorded before an error.
  abbrev pub Handler : Type 0 → Type 0
  Handler A = Service → Service × Result A HttpError

module _ {r : ReplayStore} where
  abbrev pub proceed : {A B : Type 0} → Result A HttpError → (A → Handler r B) → Handler r B
  proceed (ok a) next s = next a s
  proceed (err e) next s = (s, err e)

  infixl 5 ◌>>=◌ ◌>>◌
  unfoldable pub ◌>>=◌ : {A B : Type 0} → Handler r A → (A → Handler r B) → Handler r B
  ◌>>=◌ step next s = let (s', result) = step s in proceed result next s'

  abbrev pub ◌>>◌ : {A B : Type 0} → Handler r A → Handler r B → Handler r B
  one >> two = one >>= λ _. two

  -- A step that changes nothing.
  unfoldable pub lift : {A : Type 0} → Result A HttpError → Handler r A
  lift result s = (s, result)

  -- A call of the replay store in an environment of its own, its error mapped.
  unfoldable pub check_replay : r.Env → (ReplayError → HttpError) → Call → Handler r Unit
  check_replay env map_error c s =
      let (replay, result) = r.check_and_record env c s.replay in
      (record s { replay = replay }, map_err map_error result)

  unfoldable pub count_signing : SigningDecision → Handler r Unit
  count_signing decision s =
      let counted = record s.metrics { signing = record_signing decision s.metrics.signing } in
      (record s { metrics = counted }, ok tt)

  after_proceed :
      {A B C : Type 0} (result : Result A HttpError) (next : A → Handler r B) (s : Service r)
      (b : B)
      → (proceed result next s).1 ≡ ok b
      → ((a : A) → result ≡ ok a → (next a s).1 ≡ ok b → C)
      → C
  after_proceed (ok a) next s b h rest = rest a refl h
  after_proceed (err e) next s b h rest = cc

  -- Inversion of a handler that succeeded.
  pub after_step :
      {A B C : Type 0} (step : Handler r A) (next : A → Handler r B) (s : Service r) (b : B)
      → ((step >>= next) s).1 ≡ ok b
      → ((a : A) → (step s).1 ≡ ok a → (next a (step s).0).1 ≡ ok b → C)
      → C
  unfolding ◌>>=◌
  after_step step next s b h rest = after_proceed (step s).1 next (step s).0 b h rest

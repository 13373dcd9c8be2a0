-- ===== src/Replay/Store.antt =====
-- The trait `ReplayStore` of crates/sts-replay/src/lib.rs, with what its clients rely on.
use sts_delegate_rs.Prelude.{
  ℤ, ◌≤ℤ◌, IsI64, String, ◌≡◌, ◌≢◌, sym, subst, List, [], ◌∷◌, All, Result, ok,
}
use sts_delegate_rs.Replay.Errors.{ReplayError}

-- One call of `check_and_record`.
pub record Call : Type 0 where
  pub jti : String
  pub exp : ℤ
  pub now : ℤ

-- A store: its state, the operation in an environment that changes from call to call, and the
-- promise that a recorded key stays refused until it expires, whatever is recorded in between.
pub record ReplayStore : Type 1 where
  pub State : Type 0
  pub Env : Type 0
  pub check_and_record : Env → Call → State → State × Result (Unit {0}) ReplayError
  -- The key is held until the time.
  pub IsHeld : String → ℤ → State → Type 0
  pub held_once_recorded :
      (env : Env) (c : Call) (s : State)
      → IsI64 c.exp
      → (check_and_record env c s).1 ≡ ok tt
      → IsHeld c.jti c.exp (check_and_record env c s).0
  pub held_while_fresh :
      (jti : String) (exp : ℤ) (env : Env) (c : Call) (s : State)
      → c.now ≤ℤ exp
      → IsHeld jti exp s
      → IsHeld jti exp (check_and_record env c s).0
  pub refused_when_held :
      (exp : ℤ) (env : Env) (c : Call) (s : State)
      → c.now ≤ℤ exp
      → IsHeld c.jti exp s
      → (check_and_record env c s).1 ≢ ok tt

module _ (r : ReplayStore) where
  open r use {
    State, Env, check_and_record, IsHeld, held_once_recorded, held_while_fresh, refused_when_held,
  }

  -- The state after a sequence of calls, in their order.
  unfoldable pub run : State → List (Env × Call) → State
  run s [] = s
  run s ((env, c) ∷ cs) = run (check_and_record env c s).0 cs

  -- No call of the sequence is later than a time.
  abbrev pub Before : ℤ → List (Env × Call) → Type 0
  Before exp cs = All (λ ec. ec.1.now ≤ℤ exp) cs

  pub run-IsHeld :
      (jti : String) (exp : ℤ) (s : State) (cs : List (Env × Call))
      → Before exp cs
      → IsHeld jti exp s
      → IsHeld jti exp (run s cs)
  unfolding run
  run-IsHeld jti exp s [] h held = held
  run-IsHeld jti exp s ((env, c) ∷ cs) (fresh, h) held =
      run-IsHeld jti exp (check_and_record env c s).0 cs h
        (held_while_fresh jti exp env c s fresh held)

  -- A key that was accepted is refused until it expires, whatever calls come in between.
  pub single_use :
      (s : State) (env env' : Env) (first again : Call) (between : List (Env × Call))
      → IsI64 first.exp
      → (check_and_record env first s).1 ≡ ok tt
      → Before first.exp between
      → again.jti ≡ first.jti
      → again.now ≤ℤ first.exp
      → (check_and_record env' again (run (check_and_record env first s).0 between)).1 ≢ ok tt
  single_use s env env' first again between i64 accepted fresh same still =
      let held =
        run-IsHeld first.jti first.exp _ between fresh
          (held_once_recorded env first s i64 accepted) in
      refused_when_held first.exp env' again _ still (
        subst (λ k. IsHeld k first.exp (run (check_and_record env first s).0 between)) (sym same)
          held)

-- ===== src/Dpop/Single.antt =====
-- A DPoP proof is used once: the validation of crates/sts-dpop together with a replay store.
use sts_delegate_rs.Prelude.{
  ℕ, ℤ, pos, ◌≤◌, ◌≤ℤ◌, IsI64, String, ◌≡◌, ◌≢◌, refl, ◌∙◌, List, ok, max_ℤ, pos_part, abs_diff,
  saturating_add, arith,
}
use sts_delegate_rs.Replay.Store.{Call, ReplayStore, run, Before, single_use}
use sts_delegate_rs.Replay.Keys.{dpop_replay_key}
use sts_delegate_rs.Dpop.{DpopProofRequest, DpopBinding, Backend, validate_dpop_proof}
use sts_delegate_rs.Dpop.Validated.{IsValidated, validate_dpop_proof-IsValidated}

-- A time within the leeway of `iat` is at most the time until which the proof's key is held.
still_held :
    (now iat leeway : ℤ)
    → IsI64 now
    → abs_diff now iat ≤ pos_part (max_ℤ leeway (pos 0))
    → now ≤ℤ saturating_add iat (max_ℤ leeway (pos 0))
unfolding saturating_add
still_held now iat leeway i h = ground arith

saturating_add-IsI64 : (a b : ℤ) → IsI64 (saturating_add a b)
unfolding saturating_add
saturating_add-IsI64 a b = (ground arith, ground arith)

module _ {Jwk Key : Type 0} (backend : Backend Jwk Key) where
  -- The binding of a proof hangs on its text alone.
  same_binding :
      (input again : DpopProofRequest) (b b' : DpopBinding)
      → input.proof ≡ again.proof
      → IsValidated backend input b
      → IsValidated backend again b'
      → (b.jkt ≡ b'.jkt) × (b.jti ≡ b'.jti) × (b.iat ≡ b'.iat)
  same_binding input again b b' same v v' =
      let parts : v.parts ≡ v'.parts = let h = v.has_parts in let k = v'.has_parts in cc in
      let header : v.header ≡ v'.header = let h = v.has_header in let k = v'.has_header in cc in
      let alg : v.alg ≡ v'.alg = let h = v.checked in let k = v'.checked in cc in
      let jwk : v.jwk ≡ v'.jwk = let h = v.checked in let k = v'.checked in cc in
      let key : v.key ≡ v'.key = let h = v.made in let k = v'.made in cc in
      let claims : v.claims ≡ v'.claims = let h = v.signed in let k = v'.signed in cc in
      let time : v.time ≡ v'.time = let h = v.claimed_time in let k = v'.claimed_time in cc in
      (
        let h = v.jkt in let k = v'.jkt in cc,
        let h = v.jti in let k = v'.jti in cc,
        let h = v.iat in let k = v'.iat in cc,
      )

  module _ (sha256 : String → List ℕ) (r : ReplayStore) where
    -- The call by which a validated proof is recorded.
    abbrev proof_call : DpopBinding → ℤ → Call
    proof_call b now = record {
      jti = dpop_replay_key sha256 b.jkt b.jti;
      exp = b.replay_expires_at;
      now = now;
    }

    -- A proof whose key was recorded is not accepted again, under the same leeway, as long as it is valid
    -- at all: the second presentation of its text is validated and then refused by the replay store,
    -- whatever keys are recorded in between by calls that are not later than the first key's expiry.
    pub proof_used_once :
        (input again : DpopProofRequest) (b b' : DpopBinding) (s : r.State) (env env' : r.Env)
        (between : List (r.Env × Call))
        → validate_dpop_proof backend input ≡ ok b
        → validate_dpop_proof backend again ≡ ok b'
        → input.proof ≡ again.proof
        → input.clock_skew_leeway ≡ again.clock_skew_leeway
        → IsI64 again.now
        → (r.check_and_record env (proof_call b input.now) s).1 ≡ ok tt
        → Before r b.replay_expires_at between
        → (r.check_and_record env'
            (proof_call b' again.now)
            (run r (r.check_and_record env (proof_call b input.now) s).0 between)).1
          ≢ ok tt
    proof_used_once input again b b' s env env' between valid valid' same leeway i64 recorded
          before =
        let v = validate_dpop_proof-IsValidated backend input b valid in
        let v' = validate_dpop_proof-IsValidated backend again b' valid' in
        let (jkt, jti, iat) = same_binding input again b b' same v v' in
        let until : b.replay_expires_at
            ≡ saturating_add b'.iat (max_ℤ again.clock_skew_leeway (pos 0)) =
          v.held_until ∙ rw iat (rw leeway refl) in
        single_use r s env env' (proof_call b input.now) (proof_call b' again.now) between
          (rw until (saturating_add-IsI64 b'.iat (max_ℤ again.clock_skew_leeway (pos 0)))) recorded
          before (rw jkt (rw jti refl))
          (rw until (still_held again.now b'.iat again.clock_skew_leeway i64 v'.window))

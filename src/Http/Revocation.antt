-- ===== src/Http/Revocation.antt =====
-- `RevocationState` of crates/sts-http/src/lib.rs: the revoked tokens by the digest of their text, with
-- their expiry, and whether the lock is poisoned.
pub mod Lasting
use Prim.Native.Char.{nul}
use Prim.Native.String.{◌∷◌ as push_char}
use sts_delegate_rs.Prelude.{
  ℕ, ℤ, leb_ℤ, String, Bool, true, false, not, ◌&&◌, List, [], ◌∷◌, Result, ok, err, if◌then◌else◌,
  leb, length, has_key, insert, filter, ◌⧺◌,
}
use sts_delegate_rs.Replay.Keys.{hex_lower}
use sts_delegate_rs.Http.{HttpError, service_unavailable}

pub record RevocationState : Type 0 where
  pub revoked : List (String × ℤ)
  pub poisoned : Bool

abbrev pub no_revocations : RevocationState
no_revocations = record { revoked = []; poisoned = false }

unfoldable pub sweep_revoked : List (String × ℤ) → ℤ → List (String × ℤ)
sweep_revoked revoked now = filter (λ e. leb_ℤ now e.1) revoked

module _ (sha256 : String → List ℕ) where
  unfoldable pub revocation_key : String → String
  revocation_key token = hex_lower (sha256 ("sts-revocation-v1" ⧺ push_char nul token))

  unfoldable pub revoke :
      String → ℤ → ℤ → ℕ → RevocationState → RevocationState × Result Unit HttpError
  revoke token exp now max_seen s =
      let swept = sweep_revoked s.revoked now in
      let key = revocation_key token in
      if s.poisoned
      then (s, err (service_unavailable "revocation store unavailable, retry shortly"))
      else if not (has_key key swept) && leb max_seen (length swept)
      then (
        record s { revoked = swept },
        err (service_unavailable "revocation store full, retry shortly"),
      )
      else (record s { revoked = insert key exp swept }, ok tt)

  unfoldable pub is_revoked_or_unavailable : String → ℤ → RevocationState → RevocationState × Bool
  is_revoked_or_unavailable token now s =
      let swept = sweep_revoked s.revoked now in
      if s.poisoned
      then (s, true)
      else (record s { revoked = swept }, has_key (revocation_key token) swept)

-- ===== src/Http/Revocation/Lasting.antt =====
-- A revocation lasts until the token expires.
use sts_delegate_rs.Prelude.{
  ℕ, ℤ, ◌≤ℤ◌, String, ◌≡◌, refl, ◌⊎◌, inl, true, some, List, [], ◌∷◌, ok, arith, eq_iff, lookup,
  lookup-insert, has_key_of_lookup,
}
use sts_delegate_rs.Http.Revocation.{
  RevocationState, sweep_revoked, revocation_key, revoke, is_revoked_or_unavailable,
}

lookup-sweep_revoked :
    (k : String) (exp now : ℤ) (m : List (String × ℤ))
    → now ≤ℤ exp
    → lookup k m ≡ some exp
    → lookup k (sweep_revoked m now) ≡ some exp
unfolding sweep_revoked
lookup-sweep_revoked k exp now [] h e = cc
lookup-sweep_revoked k exp now ((j, v) ∷ m) h e = ground (arith, lookup-sweep_revoked k exp now m)

module _ (sha256 : String → List ℕ) (token : String) (exp : ℤ) where
  -- The token is revoked until `exp`, or the lock is poisoned.
  abbrev pub IsRevoked : RevocationState → Type 0
  IsRevoked s = (s.poisoned ≡ true) ⊎ (lookup (revocation_key sha256 token) s.revoked ≡ some exp)

  -- One operation of the service on the list, not later than `exp`. A revocation under the token's own
  -- key has the token's expiry.
  pub data Step : RevocationState → RevocationState → Type 0 where
    revoke_step :
        (other : String) (other_exp now : ℤ) (max_seen : ℕ) (s : RevocationState)
        → now ≤ℤ exp
        → (revocation_key sha256 other ≡ revocation_key sha256 token → other_exp ≡ exp)
        → Step s (revoke sha256 other other_exp now max_seen s).0
    check_step :
        (other : String) (now : ℤ) (s : RevocationState)
        → now ≤ℤ exp
        → Step s (is_revoked_or_unavailable sha256 other now s).0
    panic_step : (s : RevocationState) → Step s (record s { poisoned = true })

  -- Any sequence of operations.
  pub data Steps : RevocationState → RevocationState → Type 0 where
    done : (s : RevocationState) → Steps s s
    next : (s t u : RevocationState) → Step s t → Steps t u → Steps s u

  revoke-IsRevoked :
      (other : String) (other_exp now : ℤ) (max_seen : ℕ) (s : RevocationState)
      → now ≤ℤ exp
      → (revocation_key sha256 other ≡ revocation_key sha256 token → other_exp ≡ exp)
      → IsRevoked s
      → IsRevoked (revoke sha256 other other_exp now max_seen s).0
  unfolding revoke
  revoke-IsRevoked other other_exp now max_seen s h same v =
      let k = revocation_key sha256 token in
      let j = revocation_key sha256 other in
      ground (
        arith,
        lookup-sweep_revoked k exp now s.revoked h,
        lookup-insert j k other_exp (sweep_revoked s.revoked now),
        eq_iff j k,
        same,
        v,
      )

  check-IsRevoked :
      (other : String) (now : ℤ) (s : RevocationState)
      → now ≤ℤ exp
      → IsRevoked s
      → IsRevoked (is_revoked_or_unavailable sha256 other now s).0
  unfolding is_revoked_or_unavailable
  check-IsRevoked other now s h v =
      ground (arith, lookup-sweep_revoked (revocation_key sha256 token) exp now s.revoked h, v)

  Step-IsRevoked : (s t : RevocationState) → Step s t → IsRevoked s → IsRevoked t
  Step-IsRevoked s _ (revoke_step other other_exp now max_seen _ h same) v =
      revoke-IsRevoked other other_exp now max_seen s h same v
  Step-IsRevoked s _ (check_step other now _ h) v = check-IsRevoked other now s h v
  Step-IsRevoked s _ (panic_step _) v = inl refl

  Steps-IsRevoked : (s t : RevocationState) → Steps s t → IsRevoked s → IsRevoked t
  Steps-IsRevoked s _ (done _) v = v
  Steps-IsRevoked s u (next _ t _ step steps) v =
      Steps-IsRevoked t u steps (Step-IsRevoked s t step v)

  answer-IsRevoked :
      (now : ℤ) (s : RevocationState)
      → now ≤ℤ exp
      → IsRevoked s
      → (is_revoked_or_unavailable sha256 token now s).1 ≡ true
  unfolding is_revoked_or_unavailable
  answer-IsRevoked now s h v =
      let k = revocation_key sha256 token in
      ground (
        arith,
        lookup-sweep_revoked k exp now s.revoked h,
        has_key_of_lookup k exp (sweep_revoked s.revoked now),
        v,
      )

  accepted-IsRevoked :
      (now : ℤ) (max_seen : ℕ) (s : RevocationState)
      → (revoke sha256 token exp now max_seen s).1 ≡ ok tt
      → IsRevoked (revoke sha256 token exp now max_seen s).0
  unfolding revoke
  accepted-IsRevoked now max_seen s h =
      let k = revocation_key sha256 token in
      ground (arith, lookup-insert k k exp (sweep_revoked s.revoked now), eq_iff k k, h)

  -- After a successful revocation the token is answered as revoked until it expires, whatever tokens are
  -- revoked or checked in between by calls that are not later than its expiry, where a revocation under
  -- the same key has the same expiry, and whether or not a panic poisons the lock.
  pub revoked_until_expiry :
      (now later : ℤ) (max_seen : ℕ) (s t : RevocationState)
      → (revoke sha256 token exp now max_seen s).1 ≡ ok tt
      → Steps (revoke sha256 token exp now max_seen s).0 t
      → later ≤ℤ exp
      → (is_revoked_or_unavailable sha256 token later t).1 ≡ true
  revoked_until_expiry now later max_seen s t accepted steps fresh =
      answer-IsRevoked later t fresh
        (Steps-IsRevoked _ t steps (accepted-IsRevoked now max_seen s accepted))

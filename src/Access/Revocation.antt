-- ===== src/Access/Revocation.antt =====
-- compilableworld_mcp/revocation.py: `PrincipalJTIRevocationStore` with `db_path is None`. The
-- function `sha256` stands for hashlib's.
pub mod Denied
mod Tests
use compilableworld_runtime.Base.{
  ℕ, ◌-◌, String, Bool, not, Option, none, some, Outcome, ok, err, guard, ltb, leb, string_eq,
}
use compilableworld_runtime.Base.Lists.{length}
use compilableworld_runtime.Base.Text.{stripped}
use compilableworld_runtime.Base.Dict.{Dict, insert, keep, is_in}
use compilableworld_runtime.Base.Exec.{Exec, lift, ◌>>=◌, ◌>>◌}

-- The `code` of the `RequestSecurityError` that the store raises.
pub data RevocationError : Type 0 where
  invalid_revocation : RevocationError

-- The ends of the revocations, by the hashes of their tokens' ids.
abbrev pub Revoked : Type 0
Revoked = Dict String ℕ

unfoldable pub prune_local : ℕ → Revoked → Revoked
prune_local now s = keep (λ _ expires_at. not (leb expires_at now)) s

module _ (sha256 : String → String) where
  unfoldable pub jti_hash : String → Outcome RevocationError String
  jti_hash jti = elim (stripped jti) [ none ↦ err invalid_revocation | some s ↦ ok (sha256 s) ]

  unfoldable pub revoke : String → ℕ → ℕ → Exec Revoked RevocationError (Unit {0})
  unfolding prune_local jti_hash
  revoke jti expires_at current = do
    digest ← lift (jti_hash jti)
    lift (guard (ltb current expires_at) invalid_revocation)
    λ s. (ok tt, insert digest expires_at (prune_local current s))

  unfoldable pub is_revoked : String → ℕ → Exec Revoked RevocationError Bool
  unfolding prune_local jti_hash
  is_revoked jti current = lift (jti_hash jti) >>= λ digest s.
      (ok (is_in digest (prune_local current s)), prune_local current s)

unfoldable pub prune : ℕ → Revoked → ℕ × Revoked
unfolding prune_local
prune current s = (length s - length (prune_local current s), prune_local current s)

-- ===== src/Access/Revocation/Tests.antt =====
-- A token that is revoked until 50.
use compilableworld_runtime.Base.{String, true, ◌≡◌, refl, [], ◌∷◌, ok, arith, string_eq}
use compilableworld_runtime.Base.Text.{stripped}
use compilableworld_runtime.Base.Dict.{lookup}
use compilableworld_runtime.Access.Revocation.{is_revoked, revoke, jti_hash}
use compilableworld_runtime.Access.Revocation.Denied.{revoked_until, prune_each}

abbrev sha : String → String
sha s = s

revoked_until_example :
    (is_revoked sha " t" 49
      (prune_each (30 ∷ 48 ∷ []) (revoke sha " t" 50 10 (("u", 20) ∷ [])).1)).0
    ≡ ok true
unfolding jti_hash stripped lookup
revoked_until_example =
    revoked_until sha " t" "t" 50 10 (("u", 20) ∷ []) (refl, tt) refl (omega arith) (30 ∷ 48 ∷ [])
      (omega arith, (omega arith, tt)) 49

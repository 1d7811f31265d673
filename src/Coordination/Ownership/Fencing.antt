-- ===== src/Coordination/Ownership/Fencing.antt =====
-- Fencing: every issue of a lease takes a larger token, and an older grant is never honoured again.
use native.Mathlib.Nat.{le_refl}
use compilableworld_runtime.Base.{
  ℕ, ◌≤◌, String, ◌≡◌, refl, List, [], ◌∷◌, ok, guard, ltb, string_eq, pair_eq,
}
use compilableworld_runtime.Base.Dict.{lookup}
use compilableworld_runtime.Base.Exec.{after_lift, after_bind}
use compilableworld_runtime.Coordination.Lease.{
  fresh_grant, RuntimeLeaseGrant, RuntimeOwnershipRecord, Key, invalid_runtime_ownership,
  record_key, validate,
}
use compilableworld_runtime.Coordination.Ownership.{
  Leases, acquire, recover, require, renew, release, write,
}
use compilableworld_runtime.Coordination.Ownership.Steps.{
  Advance, Advance-refl, Advance-trans, Advance-insert, acquire_over-Advance, recover_over-Advance,
  require-Advance, require-IsHeld, IsKeyed, token,
}

module _ (sha256 : String → String) where
  pub acquire-Advance :
      (w i o : String) (ttl now : ℕ) (id : String) (s : Leases)
      → Advance s (acquire sha256 w i o ttl now id s).1
  unfolding acquire
  acquire-Advance w i o ttl now id s =
      after_lift Advance (validate w i o ttl) _ s (Advance-refl s) λ a _.
        acquire_over-Advance sha256 (a.0, a.1) (fresh_grant a ttl now id) now (lookup (a.0, a.1) s)
          s refl refl

  pub recover-Advance :
      (w i o : String) (ttl now : ℕ) (id : String) (s : Leases)
      → Advance s (recover sha256 w i o ttl now id s).1
  unfolding recover
  recover-Advance w i o ttl now id s =
      after_lift Advance (validate w i o ttl) _ s (Advance-refl s) λ a _.
        recover_over-Advance sha256 (a.0, a.1) (fresh_grant a ttl now id) now (lookup (a.0, a.1) s)
          s refl refl

  -- Writing back a record that `require` returned, with its identity and token as they were.
  rewrite-Advance :
      (g : RuntimeLeaseGrant) (now : ℕ) (r r' : RuntimeOwnershipRecord) (s : Leases)
      → (require sha256 g now s).0 ≡ ok r
      → record_key r' ≡ record_key r
      → r'.fencing_token ≡ r.fencing_token
      → Advance (require sha256 g now s).1 (write r' (require sha256 g now s).1)
  unfolding write
  rewrite-Advance g now r r' s h same t =
      let (key, held) = require-IsHeld sha256 g now s h in
      Advance-insert (record_key r') r' (require sha256 g now s).1 (λ _. refl)
        λ keyed. rw (same, keyed.at_key key r held.stored, held.stored, t) (le_refl r.fencing_token)

  renew-Advance :
      (g : RuntimeLeaseGrant) (ttl now : ℕ) (s : Leases) → Advance s (renew sha256 g ttl now s).1
  unfolding renew
  renew-Advance g ttl now s =
      after_lift Advance (guard (ltb 0 ttl) invalid_runtime_ownership) _ s (Advance-refl s) λ _ _.
        after_bind Advance Advance-trans (require sha256 g now) _ s (require-Advance sha256 g now s)
          λ r h. rewrite-Advance g now r _ s h refl refl

  release-Advance :
      (g : RuntimeLeaseGrant) (now : ℕ) (s : Leases) → Advance s (release sha256 g now s).1
  unfolding release
  release-Advance g now s =
      after_bind Advance Advance-trans (require sha256 g now) _ s (require-Advance sha256 g now s)
        λ r h. rewrite-Advance g now r _ s h refl refl

-- A call of the store by some host, at some time. `prune` is not among them: it forgets tokens.
pub data Call : Type 0 where
  acquiring : String → String → String → ℕ → ℕ → String → Call
  recovering : String → String → String → ℕ → ℕ → String → Call
  requiring : RuntimeLeaseGrant → ℕ → Call
  renewing : RuntimeLeaseGrant → ℕ → ℕ → Call
  releasing : RuntimeLeaseGrant → ℕ → Call

module _ (sha256 : String → String) where
  -- The store after a call, whether it returned or raised.
  pub after : Call → Leases → Leases
  after (acquiring w i o ttl now id) s = (acquire sha256 w i o ttl now id s).1
  after (recovering w i o ttl now id) s = (recover sha256 w i o ttl now id s).1
  after (requiring g now) s = (require sha256 g now s).1
  after (renewing g ttl now) s = (renew sha256 g ttl now s).1
  after (releasing g now) s = (release sha256 g now s).1

  pub after_all : List Call → Leases → Leases
  after_all [] s = s
  after_all (c ∷ cs) s = after_all cs (after c s)

  after-Advance : (c : Call) (s : Leases) → Advance s (after c s)
  unfolding after
  after-Advance (acquiring w i o ttl now id) s = acquire-Advance sha256 w i o ttl now id s
  after-Advance (recovering w i o ttl now id) s = recover-Advance sha256 w i o ttl now id s
  after-Advance (requiring g now) s = require-Advance sha256 g now s
  after-Advance (renewing g ttl now) s = renew-Advance sha256 g ttl now s
  after-Advance (releasing g now) s = release-Advance sha256 g now s

  after_all-Advance : (cs : List Call) (s : Leases) → Advance s (after_all cs s)
  unfolding after_all
  after_all-Advance [] s = Advance-refl s
  after_all-Advance (c ∷ cs) s =
      Advance-trans s (after c s) (after_all cs (after c s)) (after-Advance c s)
        (after_all-Advance cs (after c s))

  pub after_all-tokens_grow :
      (cs : List Call) (s : Leases)
      → IsKeyed s
      → IsKeyed (after_all cs s) × ((key : Key) → token key s ≤ token key (after_all cs s))
  after_all-tokens_grow cs s keyed =
      let a = after_all-Advance cs s in (a.keyed keyed, a.grows keyed)

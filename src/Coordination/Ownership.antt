-- ===== src/Coordination/Ownership.antt =====
-- compilableworld_mcp/runtime_ownership.py: the lease store with `db_path is None`, where the
-- records stand in the dictionary `_local`. A time is a number of seconds; the clock's reading, the
-- new lease id and SHA-256 are arguments.
pub mod Steps
pub mod Exclusion
pub mod Fencing
pub mod Life
pub mod Prune
mod Tests
use compilableworld_runtime.Base.{
  ℕ, ◌+◌, String, Bool, not, ◌&&◌, Option, none, some, ◌-◌, ok, err, guard, ltb, leb, ◌==◌,
  if◌then◌else◌, string_eq, pair_eq,
}
use compilableworld_runtime.Base.Lists.{length}
use compilableworld_runtime.Base.Dict.{Dict, lookup, insert, keep}
use compilableworld_runtime.Base.Exec.{Exec, lift, pure, ◌>>=◌, ◌>>◌}
use compilableworld_runtime.Coordination.Lease.{
  released, OwnershipError, invalid_runtime_ownership, runtime_busy, runtime_ownership_missing,
  RuntimeLeaseGrant, RuntimeOwnershipRecord, Key, is_active, expire, next_token, next_revision,
  is_live, record_key, validate, record_from_grant, assert_active, grant_key, fresh_grant,
}

abbrev pub Leases : Type 0
Leases = Dict Key RuntimeOwnershipRecord

abbrev pub Op : Type 0 → Type 0
Op A = Exec Leases OwnershipError A

-- `_write`, of a record under its own key.
pub write : RuntimeOwnershipRecord → Leases → Leases
write r s = insert (record_key r) r s

module _ (sha256 : String → String) where
  -- The last lines of `acquire` and `recover`: the grant with its fencing token replaces the record.
  pub install : Key → RuntimeLeaseGrant → Option RuntimeOwnershipRecord → Op RuntimeLeaseGrant
  unfolding record_from_grant
  install key grant existing s =
      let g = record grant { fencing_token = next_token existing } in
      (lift (record_from_grant sha256 g (next_revision existing)) >>= λ r s'.
      (ok g, insert key r s'))
        s

  -- The record that `acquire` finds: an active one is busy, or expired in the store first.
  pub acquire_over :
      Key → RuntimeLeaseGrant → ℕ → Option RuntimeOwnershipRecord → Op RuntimeLeaseGrant
  unfolding install
  acquire_over key grant current none s = install key grant none s
  acquire_over key grant current (some r) s =
      if is_active r.status
      then (if leb r.expires_at current
          then install key grant (some (expire r)) (insert key (expire r) s)
          else (err runtime_busy, s))
      else install key grant (some r) s

  -- `now` and the new lease id are read before the lock is taken.
  pub acquire : String → String → String → ℕ → ℕ → String → Op RuntimeLeaseGrant
  unfolding validate acquire_over
  acquire world_id runtime_instance_id owner_id ttl current fresh_id = do
    ids ← lift (validate world_id runtime_instance_id owner_id ttl)
    λ s.
        acquire_over (ids.0, ids.1) (fresh_grant ids ttl current fresh_id) current
          (lookup (ids.0, ids.1) s) s

  -- `recover` only refuses a live lease of another owner.
  pub recover_over :
      Key → RuntimeLeaseGrant → ℕ → Option RuntimeOwnershipRecord → Op RuntimeLeaseGrant
  unfolding install
  recover_over key grant current none s = install key grant none s
  recover_over key grant current (some r) s =
      if is_live current r && not (r.owner_id == grant.owner_id)
      then (err runtime_busy, s)
      else install key grant (some r) s

  pub recover : String → String → String → ℕ → ℕ → String → Op RuntimeLeaseGrant
  unfolding validate recover_over
  recover world_id runtime_instance_id owner_id ttl current fresh_id = do
    ids ← lift (validate world_id runtime_instance_id owner_id ttl)
    λ s.
        recover_over (ids.0, ids.1) (fresh_grant ids ttl current fresh_id) current
          (lookup (ids.0, ids.1) s) s

  -- An active record that is past its time is marked in the store, whatever the check then says.
  require_over :
      Key → RuntimeLeaseGrant → ℕ → Option RuntimeOwnershipRecord → Op RuntimeOwnershipRecord
  unfolding assert_active
  require_over key grant current none s = (err runtime_ownership_missing, s)
  require_over key grant current (some r) s =
      if is_active r.status && leb r.expires_at current
      then (lift (assert_active sha256 (expire r) grant) >>= λ _. pure (expire r))
          (insert key (expire r) s)
      else (lift (assert_active sha256 r grant) >>= λ _. pure r) s

  pub require : RuntimeLeaseGrant → ℕ → Op RuntimeOwnershipRecord
  unfolding grant_key require_over
  require grant current = do
    key ← lift (grant_key grant)
    λ s. require_over key grant current (lookup key s) s

  pub renew : RuntimeLeaseGrant → ℕ → ℕ → Op RuntimeLeaseGrant
  unfolding require write
  renew grant ttl current = do
    lift (guard (ltb 0 ttl) invalid_runtime_ownership)
    r ← require grant current
    λ s. (
      ok (record grant { issued_at = r.issued_at; expires_at = current + ttl }),
      write (record r { expires_at = current + ttl; revision = r.revision + 1 }) s,
    )

  pub release : RuntimeLeaseGrant → ℕ → Op RuntimeOwnershipRecord
  unfolding require write
  release grant current = do
    r ← require grant current
    λ s.
        let done = record r { status = released; revision = r.revision + 1 } in
        (ok done, write done s)

-- Whether `prune` drops a record: its status is terminal, and its time is past.
abbrev pub is_stale : ℕ → RuntimeOwnershipRecord → Bool
is_stale cutoff r = not (is_active r.status) && leb r.expires_at cutoff

pub prune : ℕ → Op ℕ
prune cutoff s =
    let kept = keep (λ _ r. not (is_stale cutoff r)) s in (ok (length s - length kept), kept)

-- ===== src/Coordination/Lease.antt =====
-- compilableworld_mcp/runtime_ownership.py: grants, records, and the checks that read no store. The
-- function `sha256` stands for hashlib's.
use compilableworld_runtime.Base.{
  ℕ, ◌+◌, String, Bool, true, false, not, ◌&&◌, Option, none, some, Outcome, ok, err, guard, ltb,
  leb, ◌==◌, string_eq, nat_eq,
}
use compilableworld_runtime.Base.Raising.{◌>>=◌, ◌>>◌}
use compilableworld_runtime.Base.Text.{stripped}

pub data LeaseStatus : Type 0 where
  active expired released : LeaseStatus

-- The `code` of a `RuntimeOwnershipError`.
pub data OwnershipError : Type 0 where
  invalid_runtime_ownership runtime_busy runtime_ownership_missing : OwnershipError
  runtime_lease_expired runtime_lease_released : OwnershipError
  runtime_ownership_mismatch runtime_fencing_mismatch : OwnershipError

pub record RuntimeLeaseGrant : Type 0 where
  pub world_id : String
  pub runtime_instance_id : String
  pub owner_id : String
  pub lease_id : String
  pub issued_at : ℕ
  pub expires_at : ℕ
  pub fencing_token : ℕ

pub record RuntimeOwnershipRecord : Type 0 where
  pub world_id : String
  pub runtime_instance_id : String
  pub owner_id : String
  pub lease_id_hash : String
  pub issued_at : ℕ
  pub expires_at : ℕ
  pub status : LeaseStatus
  pub revision : ℕ
  pub fencing_token : ℕ

abbrev pub Key : Type 0
Key = String × String

-- The grant that `acquire` and `recover` begin with, its fencing token not yet known.
abbrev pub fresh_grant : String × String × String → ℕ → ℕ → String → RuntimeLeaseGrant
fresh_grant (world, runtime, owner) ttl current fresh_id = record {
  world_id = world;
  runtime_instance_id = runtime;
  owner_id = owner;
  lease_id = fresh_id;
  issued_at = current;
  expires_at = current + ttl;
  fencing_token = 0;
}

abbrev pub granted_key : RuntimeLeaseGrant → Key
granted_key g = (g.world_id, g.runtime_instance_id)

abbrev pub is_active : LeaseStatus → Bool
is_active active = true
is_active _ = false

abbrev pub required : String → Outcome OwnershipError String
required value = elim (stripped value) [ none ↦ err invalid_runtime_ownership | some s ↦ ok s ]

-- `replace(record, status=LEASE_STATUS_EXPIRED, revision=record.revision + 1)`
abbrev pub expire : RuntimeOwnershipRecord → RuntimeOwnershipRecord
expire r = record r { status = expired; revision = r.revision + 1 }

-- `1 if existing is None else existing.fencing_token + 1`, and the new revision.
abbrev pub next_token : Option RuntimeOwnershipRecord → ℕ
next_token none = 1
next_token (some r) = r.fencing_token + 1

abbrev pub next_revision : Option RuntimeOwnershipRecord → ℕ
next_revision none = 0
next_revision (some r) = r.revision + 1

-- Whether a lease stands at the time `current`.
abbrev pub is_live : ℕ → RuntimeOwnershipRecord → Bool
is_live current r = is_active r.status && not (leb r.expires_at current)

abbrev pub record_key : RuntimeOwnershipRecord → Key
record_key r = (r.world_id, r.runtime_instance_id)

-- What the three public methods check before they touch the store.
unfoldable pub validate :
    String → String → String → ℕ → Outcome OwnershipError (String × String × String)
validate world_id runtime_instance_id owner_id ttl = do
  world ← required world_id
  runtime ← required runtime_instance_id
  owner ← required owner_id
  guard (ltb 0 ttl) invalid_runtime_ownership
  ok (world, runtime, owner)

unfoldable pub grant_key : RuntimeLeaseGrant → Outcome OwnershipError Key
grant_key grant = do
  world ← required grant.world_id
  runtime ← required grant.runtime_instance_id
  ok (world, runtime)

module _ (sha256 : String → String) where
  hash : String → Outcome OwnershipError String
  hash value = do s ← required value; ok (sha256 s)

  unfoldable pub record_from_grant :
      RuntimeLeaseGrant → ℕ → Outcome OwnershipError RuntimeOwnershipRecord
  unfolding hash
  record_from_grant g revision = do
    digest ← hash g.lease_id
    ok (record {
      world_id = g.world_id;
      runtime_instance_id = g.runtime_instance_id;
      owner_id = g.owner_id;
      lease_id_hash = digest;
      issued_at = g.issued_at;
      expires_at = g.expires_at;
      status = active;
      revision = revision;
      fencing_token = g.fencing_token;
    })

  status_check : LeaseStatus → Outcome OwnershipError (Unit {0})
  status_check active = ok tt
  status_check expired = err runtime_lease_expired
  status_check released = err runtime_lease_released

  -- `or` reads the hash only if the owners agree.
  unfoldable pub assert_active :
      RuntimeOwnershipRecord → RuntimeLeaseGrant → Outcome OwnershipError (Unit {0})
  unfolding status_check hash
  assert_active r grant = do
    status_check r.status
    guard (r.owner_id == grant.owner_id) runtime_ownership_mismatch
    digest ← hash grant.lease_id
    guard (r.lease_id_hash == digest) runtime_ownership_mismatch
    guard (r.fencing_token == grant.fencing_token) runtime_fencing_mismatch

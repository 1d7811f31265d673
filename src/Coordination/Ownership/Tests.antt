-- ===== src/Coordination/Ownership/Tests.antt =====
-- The lease store at concrete inputs; a hash that changes nothing stands for SHA-256.
use compilableworld_runtime.Base.{
  ◌+◌, ◌-◌, ◌≤◌, String, ◌≡◌, ◌≢◌, refl, false, [], ◌∷◌, ok, err, arith, if◌then◌else◌,
}
use compilableworld_runtime.Base.{pair_eq, string_eq}
use compilableworld_runtime.Base.Compare.{pair_beq}
use compilableworld_runtime.Base.Lists.{length}
use compilableworld_runtime.Base.Text.{stripped}
use compilableworld_runtime.Base.Dict.{lookup, insert}
use compilableworld_runtime.Coordination.Lease.{
  RuntimeLeaseGrant, RuntimeOwnershipRecord, active, released, runtime_busy, runtime_lease_released,
  validate, grant_key, fresh_grant,
}
use compilableworld_runtime.Coordination.Ownership.{Leases, acquire, require, renew, release, prune}
use compilableworld_runtime.Coordination.Ownership.Steps.{IsKeyed, IsKeyed-single, token}
use compilableworld_runtime.Coordination.Ownership.Fencing.{renewing, after_all}
use compilableworld_runtime.Coordination.Ownership.Exclusion.{issue, stale_grant_rejected}
use compilableworld_runtime.Coordination.Ownership.Life.{
  acquire_reply, release_ends, renew_extends, stands_at,
}
use compilableworld_runtime.Coordination.Ownership.Prune.{Left, prune_exact, prune_restarts_tokens}

abbrev sha : String → String
sha s = s

abbrev first : RuntimeLeaseGrant
first = record {
  world_id = "w";
  runtime_instance_id = "r";
  owner_id = "a";
  lease_id = "lease_1";
  issued_at = 100;
  expires_at = 130;
  fencing_token = 7;
}

abbrev held : RuntimeOwnershipRecord
held = record {
  world_id = "w";
  runtime_instance_id = "r";
  owner_id = "a";
  lease_id_hash = "lease_1";
  issued_at = 100;
  expires_at = 130;
  status = active;
  revision = 0;
  fencing_token = 7;
}

abbrev held_store : Leases
held_store = (("w", "r"), held) ∷ []

abbrev ended_store : Leases
ended_store = (("w", "r"), record held { status = released }) ∷ []

held_store-IsKeyed : IsKeyed held_store
unfolding insert
held_store-IsKeyed = IsKeyed-single held

ended_store-IsKeyed : IsKeyed ended_store
unfolding insert
ended_store-IsKeyed = IsKeyed-single (record held { status = released })

busy_at_110 : (acquire sha " w " "r" "b" 30 110 "lease_2" held_store).0 ≡ err runtime_busy
unfolding acquire pair_beq stripped lookup
busy_at_110 = refl

abbrev second : RuntimeLeaseGrant
second = record (fresh_grant ("w", "r", "b") 30 130 "lease_2") { fencing_token = 8 }

taken_at_130 : (acquire sha " w " "r" "b" 30 130 "lease_2" held_store).0 ≡ ok second
unfolding acquire pair_beq stripped lookup insert
taken_at_130 = refl

stale_grant_rejected_example :
    (require sha first 150 (
      after_all sha
        (renewing first 30 140 ∷ [])
        (issue sha false " w " "r" "b" 30 130 "lease_2" held_store).1)).0
    ≢ ok held
unfolding issue acquire pair_beq stripped lookup insert grant_key
stale_grant_rejected_example =
    stale_grant_rejected sha false " w " "r" "b" 30 130 "lease_2" held_store {g = second}
      held_store-IsKeyed refl first refl (omega arith) (renewing first 30 140 ∷ []) 150 held

acquire_reply_example : (acquire sha " w " "r" "b" 30 110 "lease_2" held_store).0 ≡ (
    if stands_at 110 (lookup ("w", "r") held_store)
    then err runtime_busy
    else ok (record {
      world_id = "w";
      runtime_instance_id = "r";
      owner_id = "b";
      lease_id = "lease_2";
      issued_at = 110;
      expires_at = 140;
      fencing_token = token ("w", "r") held_store + 1;
    }))
unfolding validate stripped
acquire_reply_example =
    acquire_reply sha " w " "r" "b" 30 110 "lease_2" "lease_2" held_store ("w", "r", "b") refl refl

held_passes : (require sha first 110 held_store).0 ≡ ok held
unfolding require pair_beq stripped lookup
held_passes = refl

release_ends_example :
    (require sha first 120 (release sha first 110 held_store).1).0 ≡ err runtime_lease_released
unfolding release pair_beq stripped lookup
release_ends_example =
    release_ends sha first 110 120 held_store {r = record held { status = released; revision = 1 }}
      held_store-IsKeyed refl

renew_extends_example :
    let g' = record first { expires_at = 170 } in
    ((renew sha first 60 110 held_store).0 ≡ ok g')
    × ((require sha g' 140 (renew sha first 60 110 held_store).1).0
        ≡ ok (record held { expires_at = 170; revision = 1 }))
renew_extends_example =
    renew_extends sha first 60 110 140 held_store held_store-IsKeyed (omega arith) held_passes

prune_exact_example :
    Left 130 (lookup ("w", "r") ended_store) (lookup ("w", "r") (prune 130 ended_store).1)
    × ((prune 130 ended_store).0 ≡ ok (length ended_store - length (prune 130 ended_store).1))
    × (length (prune 130 ended_store).1 ≤ length ended_store)
unfolding lookup
prune_exact_example = prune_exact 130 ("w", "r") ended_store (refl, tt)

prune_restarts_tokens_example :
    (acquire sha "w" "r" "b" 30 140 "lease_2" (prune 130 ended_store).1).0
    ≡ ok (record (fresh_grant ("w", "r", "b") 30 140 "lease_2") { fencing_token = 1 })
unfolding lookup pair_beq validate stripped
prune_restarts_tokens_example =
    prune_restarts_tokens sha 130 ended_store (record held { status = released }) "w" "r" "b" 30 140
      "lease_2" "lease_2" ("w", "r", "b") (refl, tt) refl refl refl refl

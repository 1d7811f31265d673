-- ===== src/Coordination/Ownership/Life.antt =====
-- One lease from its issue to its end.
use compilableworld_runtime.Base.{
  ℕ, ◌+◌, ◌<◌, String, ◌≡◌, refl, ◌∙◌, Bool, false, ◌&&◌, Option, none, some, ok, err, arith,
  lt→ltb, leb, if◌then◌else◌, string_eq, pair_eq,
}
use compilableworld_runtime.Base.Text.{stripped}
use compilableworld_runtime.Base.Dict.{lookup, lookup-insert_self}
use compilableworld_runtime.Coordination.Lease.{
  RuntimeLeaseGrant, RuntimeOwnershipRecord, Key, active, released, runtime_busy,
  runtime_lease_expired, runtime_lease_released, assert_active, record_key, validate, grant_key,
  is_active, is_live,
}
use compilableworld_runtime.Coordination.Ownership.{Leases, acquire, require, renew, release, write}
use compilableworld_runtime.Base.Exec.{bind-ok}
use compilableworld_runtime.Base.Raising.{◌>>=◌}
use compilableworld_runtime.Coordination.Ownership.Steps.{
  token, IsKeyed, require-IsHeld, require-Advance,
}

abbrev pub stands_at : ℕ → Option RuntimeOwnershipRecord → Bool
stands_at now none = false
stands_at now (some r) = is_live now r

module _ (sha256 : String → String) where
  -- The reply of `acquire` to valid arguments: it is busy exactly while a live lease stands under the
  -- key, and otherwise a grant to the owner with the new lease id, from `now` until `now + ttl`, whose
  -- fencing token is one above the key's last, and 1 where there is none.
  pub acquire_reply :
      (w i o : String) (ttl now : ℕ) (id id' : String) (s : Leases) (ids : String × String × String)
      → validate w i o ttl ≡ ok ids
      → stripped id ≡ some id'
      → (acquire sha256 w i o ttl now id s).0 ≡ (
          if stands_at now (lookup (ids.0, ids.1) s)
          then err runtime_busy
          else ok (record {
            world_id = ids.0;
            runtime_instance_id = ids.1;
            owner_id = ids.2;
            lease_id = id;
            issued_at = now;
            expires_at = now + ttl;
            fencing_token = token (ids.0, ids.1) s + 1;
          }))
  unfolding acquire
  acquire_reply w i o ttl now id id' s ids valid present = ground arith

  -- `renew` and `release` work exactly when `require` does, and then leave this record.
  write-found :
      (g : RuntimeLeaseGrant) (now : ℕ) (r' : RuntimeOwnershipRecord) (s : Leases)
      {r : RuntimeOwnershipRecord}
      → IsKeyed s
      → (require sha256 g now s).0 ≡ ok r
      → record_key r' ≡ record_key r
      → (key : Key) × (grant_key g ≡ ok key)
        × (lookup key (write r' (require sha256 g now s).1) ≡ some r')
  unfolding write
  write-found g now r' s keyed h same =
      let (key, held) = require-IsHeld sha256 g now s h in
      let own = (require-Advance sha256 g now s).keyed keyed in
      (
        key,
        held.of_key,
        rw (same, own.at_key key _ held.stored)
            (lookup-insert_self key r' (require sha256 g now s).1),
      )

  require-found :
      (g : RuntimeLeaseGrant) (now : ℕ) (s : Leases) {key : Key} {r : RuntimeOwnershipRecord}
      → grant_key g ≡ ok key
      → lookup key s ≡ some r
      → (require sha256 g now s).0 ≡ (
          if is_active r.status && leb r.expires_at now
          then err runtime_lease_expired
          else assert_active sha256 r g >>= λ _. ok r)
  unfolding require
  require-found g now s of_key found = ground arith

  assert_renewed :
      (g : RuntimeLeaseGrant) (r : RuntimeOwnershipRecord) (end : ℕ)
      → assert_active sha256
          (record r { expires_at = end; revision = r.revision + 1 })
          (record g { issued_at = r.issued_at; expires_at = end })
        ≡ assert_active sha256 r g
  unfolding assert_active
  assert_renewed g r end = refl

  -- The check of a record does not look at its end, nor at the times of the grant.
  renewed_check :
      (g : RuntimeLeaseGrant) (r : RuntimeOwnershipRecord) (now ttl later : ℕ)
      → r.status ≡ active
      → assert_active sha256 r g ≡ ok tt
      → let r' = record r { expires_at = now + ttl; revision = r.revision + 1 } in
        (if is_active r'.status && leb r'.expires_at later
          then err runtime_lease_expired
          else assert_active sha256 r'
              (record g { issued_at = r.issued_at; expires_at = now + ttl })
            >>= λ _. ok r')
        ≡ (if leb (now + ttl) later then err runtime_lease_expired else ok r')
  renewed_check g r now ttl later is checked = rw (assert_renewed g r (now + ttl), checked, is)

  -- In a store where each record stands under its own key, a lease that was released is refused as
  -- released at whatever time.
  pub release_ends :
      (g : RuntimeLeaseGrant) (now later : ℕ) (s : Leases) {r : RuntimeOwnershipRecord}
      → IsKeyed s
      → (release sha256 g now s).0 ≡ ok r
      → (require sha256 g later (release sha256 g now s).1).0 ≡ err runtime_lease_released
  unfolding release
  release_ends g now later s keyed h =
      let (r, passed, done) = bind-ok (require sha256 g now) _ s h in
      let r' = record r { status = released; revision = r.revision + 1 } in
      let (key, of_key, found) = write-found g now r' s keyed passed refl in
      rw passed (
        require-found g later (write r' (require sha256 g now s).1) of_key found
        ∙ (unfold assert_active in refl))

  -- In a store where each record stands under its own key, where `require` passes and `ttl` is
  -- positive, `renew` returns the grant with the end `now + ttl`, and that grant passes at every
  -- time before this end, whatever the old end was, and is expired from then on.
  pub renew_extends :
      (g : RuntimeLeaseGrant) (ttl now later : ℕ) (s : Leases) {r : RuntimeOwnershipRecord}
      → IsKeyed s
      → 0 < ttl
      → (require sha256 g now s).0 ≡ ok r
      → let g' = record g { issued_at = r.issued_at; expires_at = now + ttl } in
        ((renew sha256 g ttl now s).0 ≡ ok g')
        × ((require sha256 g' later (renew sha256 g ttl now s).1).0 ≡ (
            if leb (now + ttl) later
            then err runtime_lease_expired
            else ok (record r { expires_at = now + ttl; revision = r.revision + 1 })))
  unfolding renew
  renew_extends g ttl now later s {r} keyed pos passed =
      let (_, held) = require-IsHeld sha256 g now s passed in
      let r' = record r { expires_at = now + ttl; revision = r.revision + 1 } in
      let g' = record g { issued_at = r.issued_at; expires_at = now + ttl } in
      let (key, of_key, found) = write-found g now r' s keyed passed refl in
      (
        rw (lt→ltb 0 ttl pos, passed),
        rw (lt→ltb 0 ttl pos, passed)
            (require-found g' later (write r' (require sha256 g now s).1)
                (unfold grant_key in of_key) found
              ∙ renewed_check g r now ttl later held.is_active held.checked),
      )

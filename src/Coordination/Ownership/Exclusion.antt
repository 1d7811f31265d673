-- ===== src/Coordination/Ownership/Exclusion.antt =====
-- Exclusion: who may take a lease, and that a lease which was taken over is dead for good.
use compilableworld_runtime.Base.{
  ℕ, ◌≤◌, ◌<◌, String, ◌≡◌, ◌≢◌, refl, Bool, true, false, not, ◌&&◌, Option, none, some, List,
  Outcome, ok, arith, ◌==◌, leb, if◌then◌else◌, string_eq, pair_eq, if_rule,
}
use compilableworld_runtime.Base.Dict.{lookup, insert, lookup-insert_self}
use compilableworld_runtime.Base.Exec.{continue-ok}
use compilableworld_runtime.Coordination.Lease.{
  RuntimeLeaseGrant, RuntimeOwnershipRecord, Key, OwnershipError, expire, next_token, next_revision,
  validate, record_from_grant, grant_key, granted_key, fresh_grant, is_active, is_live,
}
use compilableworld_runtime.Coordination.Ownership.{
  Leases, Op, install, acquire_over, acquire, recover_over, recover, require,
}
use compilableworld_runtime.Coordination.Ownership.Steps.{
  Advance, require-IsHeld, token-stored, require-Advance, IsKeyed, token, record_from_grant_lem,
}
use compilableworld_runtime.Coordination.Ownership.Fencing.{
  Call, after_all, after_all-tokens_grow, acquire-Advance, recover-Advance,
}

-- A lease that was issued over the token `n`: the new token is larger, and stands in the store.
pub record IsIssued (n : ℕ) (key : Key) (x : Outcome OwnershipError RuntimeLeaseGrant × Leases)
    (g : RuntimeLeaseGrant) : Type 0 where
  pub stands : token key x.1 ≡ g.fencing_token
  pub grew : n < g.fencing_token
  pub named : (g.world_id, g.runtime_instance_id) ≡ key

module _ (sha256 : String → String) where
  -- The choice that the gateway makes: `self.store.recover if recover else self.store.acquire`.
  unfoldable pub issue : Bool → String → String → String → ℕ → ℕ → String → Op RuntimeLeaseGrant
  issue recovery w i o ttl now id =
      if recovery then recover sha256 w i o ttl now id else acquire sha256 w i o ttl now id

  install-IsIssued :
      (n : ℕ) (key : Key) (g : RuntimeLeaseGrant) (o : Option RuntimeOwnershipRecord) (s : Leases)
      {g' : RuntimeLeaseGrant}
      → (g.world_id, g.runtime_instance_id) ≡ key
      → n < next_token o
      → (install sha256 key g o s).0 ≡ ok g'
      → IsIssued n key (install sha256 key g o s) g'
  unfolding install
  install-IsIssued n key g o s own lt h =
      let gt = record g { fencing_token = next_token o } in
      let (r, e, done) =
        continue-ok (record_from_grant sha256 gt (next_revision o))
          (λ r s'. (ok gt, insert key r s')) s h in
      let (t, k) = record_from_grant_lem sha256 gt (next_revision o) e in
      rw e (record {
        stands = rw (lookup-insert_self key r s) (ground (arith));
        grew = ground arith;
        named = ground arith;
      })

  acquire_over-IsIssued :
      (key : Key) (g : RuntimeLeaseGrant) (now : ℕ) (o : Option RuntimeOwnershipRecord) (s : Leases)
      {g' : RuntimeLeaseGrant}
      → (g.world_id, g.runtime_instance_id) ≡ key
      → lookup key s ≡ o
      → (acquire_over sha256 key g now o s).0 ≡ ok g'
      → IsIssued (token key s) key (acquire_over sha256 key g now o s) g'
  unfolding acquire_over
  acquire_over-IsIssued key g now none s own found h =
      install-IsIssued (token key s) key g none s own (rw found (omega arith)) h
  acquire_over-IsIssued key g now (some r) s {g'} own found h =
      let P : Outcome OwnershipError RuntimeLeaseGrant × Leases → Type 0 =
        λ x. x.0 ≡ ok g' → IsIssued (token key s) key x g' in
      if_rule P (is_active r.status)
        (λ _.
          if_rule P (leb r.expires_at now)
            (λ _.
              install-IsIssued (token key s) key g (some (expire r)) (insert key (expire r) s) own
                (rw found (omega arith)))
            (λ _ bad. cc))
        (λ _. install-IsIssued (token key s) key g (some r) s own (rw found (omega arith))) h

  recover_over-IsIssued :
      (key : Key) (g : RuntimeLeaseGrant) (now : ℕ) (o : Option RuntimeOwnershipRecord) (s : Leases)
      {g' : RuntimeLeaseGrant}
      → (g.world_id, g.runtime_instance_id) ≡ key
      → lookup key s ≡ o
      → (recover_over sha256 key g now o s).0 ≡ ok g'
      → IsIssued (token key s) key (recover_over sha256 key g now o s) g'
  unfolding recover_over
  recover_over-IsIssued key g now none s own found h =
      install-IsIssued (token key s) key g none s own (rw found (omega arith)) h
  recover_over-IsIssued key g now (some r) s {g'} own found h =
      if_rule
        (λ (x : Outcome OwnershipError RuntimeLeaseGrant × Leases).
          x.0 ≡ ok g' → IsIssued (token key s) key x g')
        (is_live now r && not (r.owner_id == g.owner_id)) (λ _ bad. cc)
        (λ _. install-IsIssued (token key s) key g (some r) s own (rw found (omega arith))) h

  -- A new lease takes a token above the one that stood under its key, and leaves it in the store.
  issue-IsIssued :
      (recovery : Bool) (w i o : String) (ttl now : ℕ) (id : String) (s : Leases)
      {g : RuntimeLeaseGrant}
      → (issue recovery w i o ttl now id s).0 ≡ ok g
      → IsIssued (token (granted_key g) s) (granted_key g) (issue recovery w i o ttl now id s) g
  unfolding issue acquire recover
  issue-IsIssued true w i o ttl now id s h =
      let (a, e, done) =
        continue-ok (validate w i o ttl)
          (λ a t.
            recover_over sha256 (a.0, a.1) (fresh_grant a ttl now id) now (lookup (a.0, a.1) t) t)
          s h in
      let x =
        recover_over-IsIssued (a.0, a.1) (fresh_grant a ttl now id) now (lookup (a.0, a.1) s) s refl
          refl done in
      rw e (rw x.named x)
  issue-IsIssued false w i o ttl now id s h =
      let (a, e, done) =
        continue-ok (validate w i o ttl)
          (λ a t.
            acquire_over sha256 (a.0, a.1) (fresh_grant a ttl now id) now (lookup (a.0, a.1) t) t)
          s h in
      let x =
        acquire_over-IsIssued (a.0, a.1) (fresh_grant a ttl now id) now (lookup (a.0, a.1) s) s refl
          refl done in
      rw e (rw x.named x)

  issue-Advance :
      (recovery : Bool) (w i o : String) (ttl now : ℕ) (id : String) (s : Leases)
      → Advance s (issue recovery w i o ttl now id s).1
  unfolding issue
  issue-Advance true w i o ttl now id s = recover-Advance sha256 w i o ttl now id s
  issue-Advance false w i o ttl now id s = acquire-Advance sha256 w i o ttl now id s

  -- From a store where each record stands under its own key, once a lease is issued over a token, a
  -- grant with that token or a smaller one never passes `require` again, whatever hosts call
  -- afterwards and at whatever times, as long as nobody prunes.
  pub stale_grant_rejected :
      (recovery : Bool) (w i o : String) (ttl now : ℕ) (id : String) (s : Leases)
      {g : RuntimeLeaseGrant}
      → IsKeyed s
      → (issue recovery w i o ttl now id s).0 ≡ ok g
      → (old : RuntimeLeaseGrant) → grant_key old ≡ ok (granted_key g)
      → old.fencing_token ≤ token (granted_key g) s
      → (cs : List Call) (later : ℕ) (r : RuntimeOwnershipRecord)
      → (require sha256 old later (after_all sha256 cs (issue recovery w i o ttl now id s).1)).0
        ≢ ok r
  stale_grant_rejected recovery w i o ttl now id s {g} keyed h old same le cs later r passed =
      let t = (issue recovery w i o ttl now id s).1 in
      let u = after_all sha256 cs t in
      let (key, held) = require-IsHeld sha256 old later u passed in
      let k : key ≡ granted_key g = cc (held.of_key, same) in
      let x = issue-IsIssued recovery w i o ttl now id s h in
      let (keyed', grows) =
        after_all-tokens_grow sha256 cs t
          ((issue-Advance recovery w i o ttl now id s).keyed keyed) in
      let u' = (require sha256 old later u).1 in
      let v = require-Advance sha256 old later u in
      omega (
        arith,
        x.stands,
        x.grew,
        grows (granted_key g),
        v.grows keyed' (granted_key g),
        rw k at (token-stored key u' held.stored),
        held.fenced,
      )

-- ===== src/Coordination/Ownership/Steps.antt =====
-- What each operation of the lease store does to the dictionary: no record leaves its key, and no
-- fencing token falls.
use compilableworld_runtime.Base.{
  ℕ, ◌≤◌, ◌<◌, String, ◌≡◌, refl, Option, none, some, [], ok, err, arith, ◌==◌, pair_eq, string_eq,
  Outcome, ap, sym, ◌∙◌, inl, inr, leb, not, ◌&&◌,
}
use compilableworld_runtime.Base.Dict.{
  lookup, insert, insert-cases, lookup-empty, lookup-insert_self,
}
use compilableworld_runtime.Base.Exec.{after_lift, after_if, pure, continue}
use native.Mathlib.Nat.{le_refl}
use compilableworld_runtime.Coordination.Lease.{
  RuntimeLeaseGrant, RuntimeOwnershipRecord, Key, OwnershipError, record_key, expire, next_token,
  next_revision, is_active, is_live, active, record_from_grant, assert_active, grant_key,
}
use compilableworld_runtime.Coordination.Ownership.{
  Leases, install, acquire_over, recover_over, require_over, require,
}

abbrev token_of : Option RuntimeOwnershipRecord → ℕ
token_of none = 0
token_of (some r) = r.fencing_token

-- The fencing token that stands under a key; 0 where there is no record.
abbrev pub token : Key → Leases → ℕ
token key s = token_of (lookup key s)

pub token-stored :
    (key : Key) (s : Leases) {r : RuntimeOwnershipRecord}
    → lookup key s ≡ some r
    → token key s ≡ r.fencing_token
token-stored key s found = ap token_of found

-- Every record stands under its own key.
pub record IsKeyed (s : Leases) : Type 0 where
  pub at_key : (key : Key) (r : RuntimeOwnershipRecord) → lookup key s ≡ some r → record_key r ≡ key

-- What a step of the store leaves in place.
pub record Advance (s t : Leases) : Type 0 where
  pub keyed : IsKeyed s → IsKeyed t
  pub grows : IsKeyed s → (key : Key) → token key s ≤ token key t

pub Advance-refl : (s : Leases) → Advance s s
Advance-refl s = record { keyed = λ h. h; grows = λ h key. omega arith }

pub Advance-trans : (s t u : Leases) → Advance s t → Advance t u → Advance s u
Advance-trans s t u a b = record {
  keyed = λ h. b.keyed (a.keyed h);
  grows = λ h key. omega (arith, a.grows h key, b.grows (a.keyed h) key);
}

-- Writing a record under its own key, with no smaller token.
pub Advance-insert :
    (key : Key) (r : RuntimeOwnershipRecord) (s : Leases)
    → (IsKeyed s → record_key r ≡ key)
    → (IsKeyed s → token key s ≤ r.fencing_token)
    → Advance s (insert key r s)
Advance-insert key r s own le = record {
  keyed = λ h. record {
    at_key = λ j x found. elim (insert-cases key j r s) [
      | inl (same, new) ↦ cc (own h)
      | inr before ↦ h.at_key j x (sym before ∙ found)
    ];
  };
  grows = λ h j. elim (insert-cases key j r s) [
    | inl (same, new) ↦ rw (new, ← same) (le h)
    | inr before ↦ rw before (le_refl (token j s))
  ];
}

-- A record that `require` returned stands in the store that it left, and fits the grant.
pub record IsHeld (sha256 : String → String) (g : RuntimeLeaseGrant) (now : ℕ)
    (r : RuntimeOwnershipRecord) (key : Key) (s : Leases) : Type 0 where
  pub of_key : grant_key g ≡ ok key
  pub stored : lookup key s ≡ some r
  pub checked : assert_active sha256 r g ≡ ok tt
  pub is_active : r.status ≡ active
  pub in_time : now < r.expires_at
  pub owner : r.owner_id ≡ g.owner_id
  pub fenced : r.fencing_token ≡ g.fencing_token

module _ (sha256 : String → String) where
  pub record_from_grant_lem :
      (g : RuntimeLeaseGrant) (n : ℕ) {r : RuntimeOwnershipRecord}
      → record_from_grant sha256 g n ≡ ok r
      → (r.fencing_token ≡ g.fencing_token) × (record_key r ≡ (g.world_id, g.runtime_instance_id))
  unfolding record_from_grant
  record_from_grant_lem g n h = ground arith

  install-Advance :
      (key : Key) (g : RuntimeLeaseGrant) (o : Option RuntimeOwnershipRecord) (s : Leases)
      → (g.world_id, g.runtime_instance_id) ≡ key
      → token key s < next_token o
      → Advance s (install sha256 key g o s).1
  unfolding install
  install-Advance key g o s own lt =
      let g' = record g { fencing_token = next_token o } in
      after_lift Advance (record_from_grant sha256 g' (next_revision o))
        (λ r s'. (ok g', insert key r s')) s (Advance-refl s)
        λ r e.
          let (t, k) = record_from_grant_lem g' (next_revision o) e in
          Advance-insert key r s (λ _. k ∙ own) (λ _. rw t (omega arith))

  -- Marking a record that was found as expired.
  expire-Advance :
      (key : Key) (r : RuntimeOwnershipRecord) (s : Leases)
      → lookup key s ≡ some r
      → Advance s (insert key (expire r) s)
  expire-Advance key r s found =
      Advance-insert key (expire r) s (λ h. h.at_key key r found)
        (λ _. rw found (le_refl r.fencing_token))

  pub acquire_over-Advance :
      (key : Key) (g : RuntimeLeaseGrant) (now : ℕ) (o : Option RuntimeOwnershipRecord) (s : Leases)
      → (g.world_id, g.runtime_instance_id) ≡ key
      → lookup key s ≡ o
      → Advance s (acquire_over sha256 key g now o s).1
  unfolding acquire_over
  acquire_over-Advance key g now none s own found =
      install-Advance key g none s own (rw found (omega arith))
  acquire_over-Advance key g now (some r) s own found =
      after_if Advance (is_active r.status) _ _ s
        (λ _.
          after_if Advance (leb r.expires_at now) _ _ s
            (λ _.
              let t = insert key (expire r) s in
              Advance-trans s t (install sha256 key g (some (expire r)) t).1
                (expire-Advance key r s found)
                (install-Advance key g (some (expire r)) t own
                  (rw (lookup-insert_self key (expire r) s) (omega arith))))
            (λ _. Advance-refl s))
        (λ _. install-Advance key g (some r) s own (rw found (omega arith)))

  pub recover_over-Advance :
      (key : Key) (g : RuntimeLeaseGrant) (now : ℕ) (o : Option RuntimeOwnershipRecord) (s : Leases)
      → (g.world_id, g.runtime_instance_id) ≡ key
      → lookup key s ≡ o
      → Advance s (recover_over sha256 key g now o s).1
  unfolding recover_over
  recover_over-Advance key g now none s own found =
      install-Advance key g none s own (rw found (omega arith))
  recover_over-Advance key g now (some r) s own found =
      after_if Advance (is_live now r && not (r.owner_id == g.owner_id)) _ _ s (λ _. Advance-refl s)
        (λ _. install-Advance key g (some r) s own (rw found (omega arith)))

  require_over-Advance :
      (key : Key) (g : RuntimeLeaseGrant) (now : ℕ) (o : Option RuntimeOwnershipRecord) (s : Leases)
      → lookup key s ≡ o
      → Advance s (require_over sha256 key g now o s).1
  unfolding require_over
  require_over-Advance key g now none s found = Advance-refl s
  require_over-Advance key g now (some r) s found =
      after_if Advance (is_active r.status && leb r.expires_at now) _ _ s
        (λ _.
          let t = insert key (expire r) s in
          after_lift (λ _ u. Advance s u) (assert_active sha256 (expire r) g) (λ _. pure (expire r))
            t (expire-Advance key r s found) (λ _ _. expire-Advance key r s found))
        (λ _.
          after_lift Advance (assert_active sha256 r g) (λ _. pure r) s (Advance-refl s)
            (λ _ _. Advance-refl s))

  assert_active_lem :
      (r : RuntimeOwnershipRecord) (g : RuntimeLeaseGrant) {u : Unit {0}}
      → assert_active sha256 r g ≡ ok u
      → (r.status ≡ active) × (r.owner_id ≡ g.owner_id) × (r.fencing_token ≡ g.fencing_token)
  unfolding assert_active
  assert_active_lem r g h = ground (arith, string_eq.beq_iff r.owner_id g.owner_id)

  require_over-IsHeld :
      (key : Key) (g : RuntimeLeaseGrant) (now : ℕ) (o : Option RuntimeOwnershipRecord) (s : Leases)
      {r : RuntimeOwnershipRecord}
      → grant_key g ≡ ok key
      → lookup key s ≡ o
      → (require_over sha256 key g now o s).0 ≡ ok r
      → IsHeld sha256 g now r key (require_over sha256 key g now o s).1
  unfolding require_over
  require_over-IsHeld key g now none s own found h = cc
  require_over-IsHeld key g now (some x) s own found h =
      ground (arith, string_eq.beq_iff x.owner_id g.owner_id)

  pub require-Advance :
      (g : RuntimeLeaseGrant) (now : ℕ) (s : Leases) → Advance s (require sha256 g now s).1
  unfolding require
  require-Advance g now s =
      after_lift Advance (grant_key g) (λ key s'. require_over sha256 key g now (lookup key s') s')
        s (Advance-refl s) λ key _. require_over-Advance key g now (lookup key s) s refl

  pub require-IsHeld :
      (g : RuntimeLeaseGrant) (now : ℕ) (s : Leases) {r : RuntimeOwnershipRecord}
      → (require sha256 g now s).0 ≡ ok r
      → (key : Key) × IsHeld sha256 g now r key (require sha256 g now s).1
  unfolding require
  require-IsHeld g now s h = go (grant_key g) refl h
    where
      go :
          (o : Outcome OwnershipError Key)
          → grant_key g ≡ o
          → {r : RuntimeOwnershipRecord}
          → (continue o (λ key s'. require_over sha256 key g now (lookup key s') s') s).0 ≡ ok r
          → (key : Key) × IsHeld sha256 g now r key
              (continue o (λ key s'. require_over sha256 key g now (lookup key s') s') s).1
      go (ok key) e h = (key, require_over-IsHeld key g now (lookup key s) s e refl h)
      go (err x) e h = cc

-- The empty store, and one record under its key.
pub IsKeyed-single : (r : RuntimeOwnershipRecord) → IsKeyed (insert (record_key r) r [])
IsKeyed-single r =
    (Advance-insert (record_key r) r [] (λ _. refl) (λ _. rw lookup-empty (omega arith))).keyed
      (record { at_key = λ key x found. cc (lookup-empty {V = RuntimeOwnershipRecord} key) })

-- ===== src/Coordination/Ownership/Prune.antt =====
-- `prune` drops the records of ended leases, and their fencing tokens with them.
use compilableworld_runtime.Base.{
  ℕ, ◌-◌, ◌≤◌, ◌<◌, String, ◌≡◌, ◌≢◌, refl, ◌∙◌, true, false, not, Option, some, none, ok, pair_eq,
  string_eq, arith,
}
use compilableworld_runtime.Base.Text.{stripped}
use compilableworld_runtime.Base.Dict.{lookup, Distinct, only_if, lookup-keep}
use compilableworld_runtime.Base.Lists.{length}
use compilableworld_runtime.Base.Dict.Entries.{length-keep}
use compilableworld_runtime.Coordination.Lease.{
  LeaseStatus, active, expired, released, is_active, RuntimeOwnershipRecord, Key, validate,
  fresh_grant,
}
use compilableworld_runtime.Coordination.Ownership.{Leases, acquire, prune, is_stale}
use compilableworld_runtime.Coordination.Ownership.Life.{acquire_reply}

lookup-prune :
    (cutoff : ℕ) (key : Key) (s : Leases)
    → Distinct s
    → lookup key (prune cutoff s).1 ≡ only_if (λ r. not (is_stale cutoff r)) (lookup key s)
unfolding prune
lookup-prune cutoff key s distinct = lookup-keep (λ _ r. not (is_stale cutoff r)) key s distinct

-- What is left of a record after `prune`.
pub record LeftOf (cutoff : ℕ) (r : RuntimeOwnershipRecord) (left : Option RuntimeOwnershipRecord)
    : Type 0 where
  pub active_kept : r.status ≡ active → left ≡ some r
  pub later_kept : cutoff < r.expires_at → left ≡ some r
  pub ended_dropped : r.status ≢ active → r.expires_at ≤ cutoff → left ≡ none

abbrev pub Left : ℕ → Option RuntimeOwnershipRecord → Option RuntimeOwnershipRecord → Type 0
Left cutoff none left = left ≡ none
Left cutoff (some r) left = LeftOf cutoff r left

is_active-not : (t : LeaseStatus) → t ≢ active → is_active t ≡ false
is_active-not active ne = absurd (ne refl)
is_active-not expired ne = refl
is_active-not released ne = refl

only_if-Left :
    (cutoff : ℕ) (o : Option RuntimeOwnershipRecord)
    → Left cutoff o (only_if (λ r. not (is_stale cutoff r)) o)
only_if-Left cutoff none = refl
only_if-Left cutoff (some r) = record {
  active_kept = λ is. rw is refl;
  later_kept = λ late. ground arith;
  ended_dropped = λ ended past.
      let off : is_active r.status ≡ false = is_active-not r.status ended in ground arith;
}

-- In a store that holds each key once: `prune` keeps an active record, whatever its end, and a record
-- whose end is after the cutoff; it removes every other record; no key is added; and it returns the
-- number of the records that it removed.
pub prune_exact :
    (cutoff : ℕ) (key : Key) (s : Leases)
    → Distinct s
    → Left cutoff (lookup key s) (lookup key (prune cutoff s).1)
      × ((prune cutoff s).0 ≡ ok (length s - length (prune cutoff s).1))
      × (length (prune cutoff s).1 ≤ length s)
unfolding prune
prune_exact cutoff key s distinct = (
  rw (lookup-prune cutoff key s distinct) (only_if-Left cutoff (lookup key s)),
  refl,
  length-keep (λ _ r. not (is_stale cutoff r)) s,
)

-- After `prune` has dropped a record from a store that holds each key once, the next lease that is
-- acquired for its key, with valid arguments, takes the fencing token 1, however
-- many tokens the key had used: the tokens of a key do not always grow.
pub prune_restarts_tokens :
    (sha256 : String → String) (cutoff : ℕ) (s : Leases) (r : RuntimeOwnershipRecord)
    (w i o : String) (ttl now : ℕ) (id id' : String) (ids : String × String × String)
    → Distinct s
    → lookup (ids.0, ids.1) s ≡ some r
    → is_stale cutoff r ≡ true
    → validate w i o ttl ≡ ok ids
    → stripped id ≡ some id'
    → (acquire sha256 w i o ttl now id (prune cutoff s).1).0
      ≡ ok (record (fresh_grant ids ttl now id) { fencing_token = 1 })
prune_restarts_tokens sha256 cutoff s r w i o ttl now id id' ids distinct found stale valid
      present =
    let gone : lookup (ids.0, ids.1) (prune cutoff s).1 ≡ none =
      lookup-prune cutoff (ids.0, ids.1) s distinct ∙ rw (found, stale) in
    acquire_reply sha256 w i o ttl now id id' (prune cutoff s).1 ids valid present ∙ rw gone

-- ===== src/Delivery/Outbox.antt =====
-- compilableworld_mcp/outbox.py: `TransactionalOutbox` with `db_path is None`. `roundtrip` is what
-- json reads back from its own text of a payload; a new id and the time are arguments.
pub mod Claims
pub mod Dedupe
mod Tests
use Prim.Native.String.{compare}
use text.Mathlib.Text.{is_lt}
use compilableworld_runtime.Base.{
  ℕ, ◌+◌, String, Bool, true, false, not, ◌&&◌, ◌||◌, Option, none, some, List, [], ◌∷◌, Outcome,
  ok, err, guard, ltb, leb, ◌==◌, string_eq, nat_eq, option_eq, if◌then◌else◌,
}
use compilableworld_runtime.Base.Int.{ℤ, pos, negsuc, pos_part}
use compilableworld_runtime.Base.Lists.{take}
use compilableworld_runtime.Base.Text.{stripped}
use compilableworld_runtime.Base.Dict.{Dict, lookup, insert}
use compilableworld_runtime.Base.Exec.{Exec, lift, pure, ◌>>=◌, ◌>>◌}
use compilableworld_runtime.Kernel.Value.{Fields}

pub data OutboxStatus : Type 0 where
  pending claimed acked : OutboxStatus

-- The `code` of an `OutboxError`.
pub data OutboxError : Type 0 where
  invalid_outbox outbox_missing outbox_claim_mismatch : OutboxError

pub record OutboxRecord : Type 0 where
  pub outbox_id : String
  pub event_type : String
  pub aggregate_id : String
  pub payload : Fields
  pub status : OutboxStatus
  pub available_at : ℕ
  pub created_at : ℕ
  pub attempts : ℕ
  pub claimed_by : Option String
  pub dedupe_key : Option String

abbrev pub Outbox : Type 0
Outbox = Dict String OutboxRecord

abbrev pub Op : Type 0 → Type 0
Op A = Exec Outbox OutboxError A

abbrev pub required : String → Outcome OutboxError String
required value = elim (stripped value) [ none ↦ err invalid_outbox | some s ↦ ok s ]

abbrev pub optional : Option String → Outcome OutboxError (Option String)
optional none = ok none
optional (some value) = elim (stripped value) [ none ↦ err invalid_outbox | some s ↦ ok (some s) ]

-- The record of a dedupe key, the first in the order of the dictionary.
unfoldable pub find_by_dedupe : String → Outbox → Option OutboxRecord
find_by_dedupe key [] = none
find_by_dedupe key ((id, r) ∷ rest) =
    if r.dedupe_key == some key then some r else find_by_dedupe key rest

abbrev pub add_new : OutboxRecord → Option OutboxRecord → Op OutboxRecord
add_new r none s = (ok r, insert r.outbox_id r s)
add_new r (some existing) s = (ok existing, s)

unfoldable pub add : OutboxRecord → Option String → Op OutboxRecord
unfolding find_by_dedupe
add r none s = add_new r none s
add r (some key) s = add_new r (find_by_dedupe key s) s

abbrev pub or_now : Option ℕ → ℕ → ℕ
or_now none current = current
or_now (some t) current = t

abbrev pub new_record :
    Outcome OutboxError String
    → Outcome OutboxError String
    → Outcome OutboxError (Option String)
    → Fields
    → ℕ
    → ℕ
    → String
    → Outcome OutboxError OutboxRecord
new_record (ok event) (ok aggregate) (ok dedupe) payload current available_at fresh_id =
    ok (record {
      outbox_id = fresh_id;
      event_type = event;
      aggregate_id = aggregate;
      payload = payload;
      status = pending;
      available_at = available_at;
      created_at = current;
      attempts = 0;
      claimed_by = none;
      dedupe_key = dedupe;
    })
new_record (ok event) (ok aggregate) (err e) payload current available_at fresh_id = err e
new_record (ok event) (err e) dedupe payload current available_at fresh_id = err e
new_record (err e) aggregate dedupe payload current available_at fresh_id = err e

module _ (roundtrip : Fields → Fields) where
  unfoldable pub enqueue :
      String → String → Fields → ℕ → Option ℕ → Option String → String → Op OutboxRecord
  enqueue event_type aggregate_id payload current available_at dedupe_key fresh_id =
      lift (
        new_record (required event_type) (required aggregate_id) (optional dedupe_key)
          (roundtrip payload) current (or_now available_at current) fresh_id)
      >>= λ r. add r r.dedupe_key

-- The order of the keys `(created_at, outbox_id)`.
abbrev pub before : OutboxRecord → OutboxRecord → Bool
before a b =
    ltb a.created_at b.created_at
    || ((a.created_at == b.created_at) && is_lt (compare a.outbox_id b.outbox_id))

-- `sorted`, which keeps the order of equal keys.
unfoldable pub place : OutboxRecord → List OutboxRecord → List OutboxRecord
place r [] = r ∷ []
place r (x ∷ xs) = let rest = place r xs in if before x r then x ∷ rest else r ∷ x ∷ xs

abbrev pub is_pending : OutboxStatus → Bool
is_pending pending = true
is_pending _ = false

abbrev pub is_due : ℕ → OutboxRecord → Bool
is_due current r = is_pending r.status && leb r.available_at current

unfoldable pub candidates : ℕ → Outbox → List OutboxRecord
unfolding place
candidates current [] = []
candidates current ((id, r) ∷ rest) =
    let others = candidates current rest in if is_due current r then place r others else others

abbrev pub claim_by : String → OutboxRecord → OutboxRecord
claim_by worker r = record r {
  status = claimed;
  attempts = r.attempts + 1;
  claimed_by = some worker;
}

unfoldable pub claim_all : String → List OutboxRecord → List OutboxRecord
claim_all worker [] = []
claim_all worker (r ∷ rs) = claim_by worker r ∷ claim_all worker rs

unfoldable pub write_each : List OutboxRecord → Outbox → Outbox
write_each [] s = s
write_each (r ∷ rs) s = write_each rs (insert r.outbox_id r s)

abbrev pub within : Bool → Outcome OutboxError String → Outcome OutboxError String
within bounds (err e) = err e
within true (ok worker) = ok worker
within false (ok worker) = err invalid_outbox

unfoldable pub claim : String → ℤ → ℕ → Op (List OutboxRecord)
unfolding candidates claim_all write_each
claim worker_id limit current =
    lift (within (ltb 0 (pos_part limit) && leb (pos_part limit) 100) (required worker_id))
    >>= λ worker s.
        let taken = claim_all worker (take (pos_part limit) (candidates current s)) in
        (ok taken, write_each taken s)

abbrev pub is_claimed : OutboxStatus → Bool
is_claimed claimed = true
is_claimed _ = false

abbrev same_worker : OutboxRecord → Outcome OutboxError String → Outcome OutboxError OutboxRecord
same_worker r (err e) = err e
same_worker r (ok worker) = if r.claimed_by == some worker then ok r else err outbox_claim_mismatch

-- `or` reads the worker's id only where the record is claimed.
unfoldable pub assert_claim : Option OutboxRecord → String → Outcome OutboxError OutboxRecord
assert_claim none worker_id = err outbox_missing
assert_claim (some r) worker_id =
    if is_claimed r.status then same_worker r (required worker_id) else err outbox_claim_mismatch

abbrev finish_on : String → String → Op OutboxRecord
unfolding assert_claim
finish_on id worker_id s =
    (lift (assert_claim (lookup id s) worker_id) >>= λ r s.
    let updated = record r { status = acked; claimed_by = none } in
    (ok updated, insert updated.outbox_id updated s))
      s

unfoldable pub ack : String → String → Op OutboxRecord
unfolding finish_on
ack outbox_id worker_id = lift (required outbox_id) >>= λ id. finish_on id worker_id

abbrev non_negative : ℤ → Bool
non_negative (pos n) = true
non_negative (negsuc n) = false

unfoldable pub retry : String → String → ℤ → ℕ → Op OutboxRecord
unfolding assert_claim
retry outbox_id worker_id retry_after current = do
  lift (guard (non_negative retry_after) invalid_outbox)
  id ← lift (required outbox_id)
  r ← λ s. lift (assert_claim (lookup id s) worker_id) s
  λ s.
      let updated = record r {
        status = pending;
        available_at = current + pos_part retry_after;
        claimed_by = none;
      } in
      (ok updated, insert updated.outbox_id updated s)

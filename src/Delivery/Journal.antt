-- ===== src/Delivery/Journal.antt =====
-- compilableworld_mcp/action_journal.py: `ActionCommitJournalStore` with `db_path is None`.
-- `roundtrip` is what json reads back from its own text of a result; a new id and the time are
-- arguments.
pub mod Status
mod Pending
pub mod Moves
mod Tests
use Prim.Native.String.{compare}
use text.Mathlib.Text.{is_lt}
use compilableworld_runtime.Base.{
  ℕ, String, Bool, true, false, ◌&&◌, ◌||◌, Option, none, some, List, [], ◌∷◌, Outcome, ok, err,
  ltb, ◌==◌, nat_eq, string_eq, pair_eq, if◌then◌else◌,
}
use compilableworld_runtime.Base.Dict.{Dict, lookup, insert}
use compilableworld_runtime.Base.Exec.{Exec, lift, pure, ◌>>=◌, ◌>>◌}
use compilableworld_runtime.Kernel.Value.{Fields}
use compilableworld_runtime.Delivery.Entry.{
  JournalStatus, prepared, runtime_committed, outbox_enqueued, failed, JournalError,
  ActionCommitJournalRecord, Key, is_committed, required, read_key, identity, assert_identity,
  assert_transition,
}

abbrev pub Journal : Type 0
Journal = Dict Key ActionCommitJournalRecord

abbrev pub Op : Type 0 → Type 0
Op A = Exec Journal JournalError A

abbrev pub prepare_over :
    ActionCommitJournalRecord → Option ActionCommitJournalRecord → Op ActionCommitJournalRecord
prepare_over candidate none s =
    (ok candidate, insert (candidate.session_id, candidate.idempotency_key) candidate s)
prepare_over candidate (some existing) s =
    (assert_identity existing candidate.action_id candidate.runtime_instance_id, s)

abbrev pub candidate_of : Key × String → String → ℕ → String → ActionCommitJournalRecord
candidate_of (key, action) runtime current fresh_id = record {
  commit_id = fresh_id;
  session_id = key.0;
  idempotency_key = key.1;
  action_id = action;
  runtime_instance_id = runtime;
  status = prepared;
  result = none;
  outbox_id = none;
  created_at = current;
  updated_at = current;
  error_code = none;
}

unfoldable pub prepare :
    String → String → String → String → ℕ → String → Op ActionCommitJournalRecord
prepare session_id idempotency_key action_id runtime_instance_id current fresh_id = do
  ids ← lift (identity session_id idempotency_key action_id)
  runtime ← lift (required runtime_instance_id none)
  λ s. prepare_over (candidate_of ids runtime current fresh_id) (lookup ids.0 s) s

-- The end of the three operations that move an entry on: the entry that passed, changed.
abbrev pub move :
    Key
    → (ActionCommitJournalRecord → ActionCommitJournalRecord)
    → Outcome JournalError ActionCommitJournalRecord
    → Op ActionCommitJournalRecord
move key change (err e) s = (err e, s)
move key change (ok r) s = (ok (change r), insert key (change r) s)

abbrev pub commit_entry : Fields → ℕ → ActionCommitJournalRecord → ActionCommitJournalRecord
commit_entry result current r = record r {
  status = runtime_committed;
  result = some result;
  updated_at = current;
}

abbrev pub enqueue_entry : String → ℕ → ActionCommitJournalRecord → ActionCommitJournalRecord
enqueue_entry outbox_id current r = record r {
  status = outbox_enqueued;
  outbox_id = some outbox_id;
  updated_at = current;
}

abbrev pub fail_entry : String → ℕ → ActionCommitJournalRecord → ActionCommitJournalRecord
fail_entry error current r = record r {
  status = failed;
  error_code = some error;
  updated_at = current;
}

module _ (roundtrip : Fields → Fields) where
  unfoldable pub record_runtime_committed :
      String → String → String → Fields → ℕ → Op ActionCommitJournalRecord
  record_runtime_committed session_id idempotency_key action_id result current = do
    ids ← lift (identity session_id idempotency_key action_id)
    λ s.
        move ids.0 (commit_entry (roundtrip result) current)
          (assert_transition (lookup ids.0 s) ids.1 runtime_committed) s

unfoldable pub mark_outbox_enqueued :
    String → String → String → String → ℕ → Op ActionCommitJournalRecord
mark_outbox_enqueued session_id idempotency_key action_id outbox_id current = do
  ids ← lift (identity session_id idempotency_key action_id)
  outbox ← lift (required outbox_id none)
  λ s.
      move ids.0 (enqueue_entry outbox current)
        (assert_transition (lookup ids.0 s) ids.1 outbox_enqueued) s

unfoldable pub mark_failed : String → String → String → String → ℕ → Op ActionCommitJournalRecord
mark_failed session_id idempotency_key action_id error_code current = do
  ids ← lift (identity session_id idempotency_key action_id)
  error ← lift (required error_code none)
  λ s. move ids.0 (fail_entry error current) (assert_transition (lookup ids.0 s) ids.1 failed) s

pub get : String → String → Op (Option ActionCommitJournalRecord)
get session_id idempotency_key =
    lift (read_key session_id idempotency_key) >>= λ key s. (ok (lookup key s), s)

abbrev before : ActionCommitJournalRecord → ActionCommitJournalRecord → Bool
before a b =
    ltb a.created_at b.created_at
    || ((a.created_at == b.created_at) && is_lt (compare a.commit_id b.commit_id))

place : ActionCommitJournalRecord → List ActionCommitJournalRecord → List ActionCommitJournalRecord
place r [] = r ∷ []
place r (x ∷ xs) = let rest = place r xs in if before x r then x ∷ rest else r ∷ x ∷ xs

-- The entries whose receipt has still to be delivered, by their creation and then by their ids.
unfoldable pub pending_delivery : Journal → List ActionCommitJournalRecord
unfolding place
pending_delivery [] = []
pending_delivery ((key, r) ∷ rest) =
    let others = pending_delivery rest in if is_committed r.status then place r others else others

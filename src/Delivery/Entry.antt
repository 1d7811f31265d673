-- ===== src/Delivery/Entry.antt =====
-- compilableworld_mcp/action_journal.py: journal entries, and the checks that read no store.
use Prim.Native.String.{count}
use compilableworld_runtime.Base.{
  ℕ, String, Bool, true, false, ◌&&◌, Option, none, some, Outcome, ok, err, leb, ◌==◌, string_eq,
  if◌then◌else◌,
}
use compilableworld_runtime.Base.Raising.{◌>>=◌}
use compilableworld_runtime.Base.Text.{stripped}
use compilableworld_runtime.Kernel.Value.{Fields}

pub data JournalStatus : Type 0 where
  prepared runtime_committed outbox_enqueued failed : JournalStatus

-- The `code` of an `ActionCommitJournalError`.
pub data JournalError : Type 0 where
  invalid_action_journal journal_conflict journal_missing journal_transition result_missing :
      JournalError

pub record ActionCommitJournalRecord : Type 0 where
  pub commit_id : String
  pub session_id : String
  pub idempotency_key : String
  pub action_id : String
  pub runtime_instance_id : String
  pub status : JournalStatus
  pub result : Option Fields
  pub outbox_id : Option String
  pub created_at : ℕ
  pub updated_at : ℕ
  pub error_code : Option String

abbrev pub Key : Type 0
Key = String × String

abbrev pub is_prepared : JournalStatus → Bool
is_prepared prepared = true
is_prepared _ = false

abbrev pub is_committed : JournalStatus → Bool
is_committed runtime_committed = true
is_committed _ = false

abbrev fits : Option ℕ → String → Bool
fits none s = true
fits (some limit) s = leb (count s) limit

abbrev bounded : Option ℕ → Option String → Outcome JournalError String
bounded limit none = err invalid_action_journal
bounded limit (some s) = if fits limit s then ok s else err invalid_action_journal

unfoldable pub required : String → Option ℕ → Outcome JournalError String
required value limit = bounded limit (stripped value)

unfoldable pub read_key : String → String → Outcome JournalError Key
unfolding required
read_key session_id idempotency_key = do
  session ← required session_id none
  key ← required idempotency_key (some 160)
  ok (session, key)

-- `_identity`.
unfoldable pub identity : String → String → String → Outcome JournalError (Key × String)
unfolding read_key
identity session_id idempotency_key action_id = do
  key ← read_key session_id idempotency_key
  action ← required action_id none
  ok (key, action)

abbrev pub assert_identity :
    ActionCommitJournalRecord → String → String → Outcome JournalError ActionCommitJournalRecord
assert_identity r action runtime =
    if (r.action_id == action) && (r.runtime_instance_id == runtime)
    then ok r
    else err journal_conflict

-- The statuses from which `_assert_transition` lets an entry go to its target.
abbrev pub may_move : JournalStatus → JournalStatus → Bool
may_move prepared runtime_committed = true
may_move runtime_committed runtime_committed = true
may_move outbox_enqueued runtime_committed = true
may_move runtime_committed outbox_enqueued = true
may_move outbox_enqueued outbox_enqueued = true
may_move prepared failed = true
may_move failed failed = true
may_move _ _ = false

abbrev pub assert_transition :
    Option ActionCommitJournalRecord
    → String
    → JournalStatus
    → Outcome JournalError ActionCommitJournalRecord
assert_transition none action target = err journal_missing
assert_transition (some r) action target =
    if r.action_id == action
    then (if may_move r.status target then ok r else err journal_transition)
    else err journal_conflict

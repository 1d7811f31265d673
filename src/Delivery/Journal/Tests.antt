-- ===== src/Delivery/Journal/Tests.antt =====
-- The journal at concrete inputs.
use compilableworld_runtime.Base.{◌≡◌, refl, none, some, [], ◌∷◌, ok, string_eq, pair_eq}
use compilableworld_runtime.Base.Compare.{pair_beq}
use compilableworld_runtime.Base.Lists.{Has}
use compilableworld_runtime.Base.Text.{stripped}
use compilableworld_runtime.Base.Dict.{lookup}
use compilableworld_runtime.Kernel.Value.{Fields, end}
use compilableworld_runtime.Delivery.Entry.{
  ActionCommitJournalRecord, outbox_enqueued, identity, read_key, required,
}
use compilableworld_runtime.Delivery.Journal.{Journal, record_runtime_committed, pending_delivery}
use compilableworld_runtime.Delivery.Journal.Moves.{
  AllLater, entries_kept, after_all, committing, failing, delivered_waits_again,
}

abbrev same : Fields → Fields
same f = f

abbrev delivered : ActionCommitJournalRecord
delivered = record {
  commit_id = "commit_1";
  session_id = "s";
  idempotency_key = "k";
  action_id = "a";
  runtime_instance_id = "r";
  status = outbox_enqueued;
  result = some end;
  outbox_id = some "o";
  created_at = 1;
  updated_at = 2;
  error_code = none;
}

abbrev one : Journal
one = (("s", "k"), delivered) ∷ []

entries_kept_example :
    AllLater one
      (after_all same (failing "s" "k" "a" "E" 3 ∷ committing "s" "k" "a" end 4 ∷ []) one)
entries_kept_example =
    entries_kept same (failing "s" "k" "a" "E" 3 ∷ committing "s" "k" "a" end 4 ∷ []) one

delivered_waits_again_example :
    let done = record_runtime_committed same "s" "k" " a" end 5 one in
    (u : ActionCommitJournalRecord) × (done.0 ≡ ok u)
    × (u.outbox_id ≡ some "o")
    × Has u (pending_delivery done.1)
    × ¬ Has delivered (pending_delivery one)
unfolding identity read_key required stripped lookup pair_beq
delivered_waits_again_example =
    delivered_waits_again same "s" "k" " a" end 5 one {ids = (("s", "k"), "a")} {r = delivered} refl
      refl refl refl

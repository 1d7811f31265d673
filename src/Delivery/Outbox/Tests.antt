-- ===== src/Delivery/Outbox/Tests.antt =====
-- The outbox at concrete inputs.
use compilableworld_runtime.Base.{
  ℕ, String, ◌≡◌, ◌≢◌, refl, none, some, [], ◌∷◌, ok, string_eq, option_eq,
}
use compilableworld_runtime.Base.Int.{pos}
use compilableworld_runtime.Base.Lists.{All}
use compilableworld_runtime.Base.Text.{stripped}
use compilableworld_runtime.Base.Dict.{lookup, insert}
use compilableworld_runtime.Kernel.Value.{Fields, end}
use compilableworld_runtime.Delivery.Outbox.{
  Outbox, OutboxRecord, pending, claimed, claim, enqueue, add, find_by_dedupe, candidates, place,
  claim_all, write_each,
}
use compilableworld_runtime.Delivery.Outbox.Claims.{claims_apart, IsFiled}
use compilableworld_runtime.Delivery.Outbox.Dedupe.{enqueue_once}

abbrev same : Fields → Fields
same f = f

abbrev receipt : String → ℕ → OutboxRecord
receipt id now = record {
  outbox_id = id;
  event_type = "mcp.action.receipt";
  aggregate_id = "s";
  payload = end;
  status = pending;
  available_at = now;
  created_at = now;
  attempts = 0;
  claimed_by = none;
  dedupe_key = some "action:a";
}

abbrev two : Outbox
two = ("o1", receipt "o1" 3) ∷ ("o2", receipt "o2" 4) ∷ []

two-IsFiled : IsFiled two
unfolding lookup
two-IsFiled = ((refl, (refl, tt)), (refl, (refl, tt)))

abbrev taken : String → String → ℕ → OutboxRecord
taken worker id now = record (receipt id now) {
  status = claimed;
  attempts = 1;
  claimed_by = some worker;
}

claims_apart_example :
    All
      (λ r. All (λ t. r.outbox_id ≢ t.outbox_id) (taken "w2" "o2" 4 ∷ []))
      (taken "w1" "o1" 3 ∷ [])
unfolding claim candidates place claim_all write_each insert stripped
claims_apart_example = claims_apart "w1" "w2" (pos 1) (pos 5) 9 9 two two-IsFiled refl refl

enqueue_once_example :
    enqueue same "again" "t" end 8 none
      (some "action:a")
      "o9"
      (enqueue same "mcp.action.receipt" "s" end 3 none (some "action:a") "o1" []).1
    ≡ (
      ok (receipt "o1" 3),
      (enqueue same "mcp.action.receipt" "s" end 3 none (some "action:a") "o1" []).1,
    )
unfolding enqueue add find_by_dedupe insert stripped
enqueue_once_example =
    enqueue_once same "mcp.action.receipt" "s" end 3 none "action:a" "o1" [] refl "again" "t" end 8
      none "o9" refl

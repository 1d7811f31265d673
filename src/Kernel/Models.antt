-- ===== src/Kernel/Models.antt =====
-- compilableworld/models.py: the data that the kernel and its modules exchange.
use compilableworld_runtime.Base.{ℕ, String, Bool, Option, none, some, List}
use compilableworld_runtime.Kernel.Value.{Value, Fields, null, int, text, object, end, field}
use compilableworld_runtime.Base.Int.{pos}
use compilableworld_runtime.Kernel.State.{StateDelta}

pub data ActionStatus : Type 0 where
  proposed parsed validated scheduled executing completed failed interrupted cancelled :
      ActionStatus

pub record Entity : Type 0 where
  pub entity_id : String
  pub entity_type : String
  pub name : String
  pub components : List String
  pub metadata : Fields

pub record EntityDelta : Type 0 where
  pub operation : String
  pub entity : Entity
  pub expected_absent : Bool
  pub source_module : String

pub record ActionIr : Type 0 where
  pub actor_id : String
  pub verb : String
  pub target_id : Option String
  pub args : Fields
  pub action_id : String
  pub correlation_id : String
  pub status : ActionStatus
  pub authority : String
  pub proposed_at_tick : ℕ

pub record EventIr : Type 0 where
  pub event_type : String
  pub source : String
  pub payload : Fields
  pub target : Option String
  pub event_id : String
  pub causation_id : Option String
  pub correlation_id : Option String
  pub timestamp_tick : ℕ
  pub visibility : String
  pub authority : String

pub record TransitionResult : Type 0 where
  pub accepted : Bool
  pub deltas : List StateDelta
  pub events : List EventIr
  pub message : String
  pub entity_deltas : List EntityDelta

pub record ActionReceipt : Type 0 where
  pub action_id : String
  pub status : ActionStatus
  pub message : String
  pub event_ids : List String
  pub changed_paths : List String
  pub changed_entities : List String

pub record ModuleContract : Type 0 where
  pub module_id : String
  pub actions : List String
  pub write : List String
  pub requires_kernel : List String

pub status_text : ActionStatus → String
status_text proposed = "proposed"
status_text parsed = "parsed"
status_text validated = "validated"
status_text scheduled = "scheduled"
status_text executing = "executing"
status_text completed = "completed"
status_text failed = "failed"
status_text interrupted = "interrupted"
status_text cancelled = "cancelled"

abbrev pub optional_text : Option String → Value
optional_text none = null
optional_text (some s) = text s

abbrev pub number : ℕ → Value
number n = int (pos n)

-- `ActionIR.to_dict`.
pub action_fields : ActionIr → Fields
unfolding status_text
action_fields a = field "actor_id" (text a.actor_id) (
    field "verb" (text a.verb) (
      field "target_id" (optional_text a.target_id) (
        field "args" (object a.args) (
          field "action_id" (text a.action_id) (
            field "correlation_id" (text a.correlation_id) (
              field "status" (text (status_text a.status)) (
                field "authority" (text a.authority)
                  (field "proposed_at_tick" (number a.proposed_at_tick) end))))))))

-- ===== src/Kernel/Behavior.antt =====
-- action_behavior.py, and the behaviors of a compiled package with the runtime records of kernel.py.
-- The package is compiled, so that a field has its type; a negative number, which every check
-- refuses, is left out.
use compilableworld_runtime.Base.{ℕ, String, Bool, Option, List, [], ◌∷◌}
use compilableworld_runtime.Base.Dict.{Dict}
use compilableworld_runtime.Kernel.Value.{Value, Fields}

pub record Condition : Type 0 where
  pub condition_id : String
  pub subject : String
  pub namespace : String
  pub key : String
  pub operator : String
  pub value : Value

-- The shapes of a child's `target` that the kernel tells apart.
pub data TargetSpec : Type 0 where
  parent_target : TargetSpec
  entity_target : String → TargetSpec
  other_target : TargetSpec

pub record ChildSpec : Type 0 where
  pub step_id : String
  pub verb : String
  pub module_id : String
  pub target : Option TargetSpec
  pub args : Fields

pub record Branch : Type 0 where
  pub branch_id : String
  pub priority : ℕ
  pub when : List Condition
  pub child_action : Option ChildSpec
  pub next_phase_id : Option String

pub record RetryPolicy : Type 0 where
  pub max_attempts : ℕ
  pub interval_ticks : ℕ
  pub timeout_ticks : ℕ

pub record Phase : Type 0 where
  pub phase_id : String
  pub title : String
  pub duration_ticks : ℕ
  pub when : List Condition
  pub retry : Option RetryPolicy
  pub child_action : Option ChildSpec
  pub branches : List Branch

pub record Behavior : Type 0 where
  pub verb : String
  pub behavior_id : String
  pub title : String
  pub duration_ticks : ℕ
  pub completion_module : String
  pub interrupt_on : List String
  pub static_route : Bool
  pub entry_phase_id : String
  pub terminal_phase_id : Option String
  pub phases : List Phase

pub record Route : Type 0 where
  pub current_phase_id : String
  pub phase_started_tick : ℕ
  pub phase_due_tick : ℕ
  pub elapsed_duration_ticks : ℕ
  pub visited_phase_ids : List String

pub record RetryState : Type 0 where
  pub attempts : ℕ
  pub first_failure_tick : ℕ
  pub timeout_at_tick : ℕ
  pub next_retry_tick : ℕ
  pub condition_id : String

pub record ActionRuntime : Type 0 where
  pub retries : Dict String RetryState
  pub completed_steps : List String
  pub selected_branches : Dict String String
  pub route : Option Route

abbrev pub duration_limit : ℕ
duration_limit = 1000000

abbrev pub condition_limit : ℕ
condition_limit = 16

abbrev pub retry_attempt_limit : ℕ
retry_attempt_limit = 16

abbrev pub child_arg_limit : ℕ
child_arg_limit = 16

abbrev pub branch_limit : ℕ
branch_limit = 16

abbrev pub branch_priority_limit : ℕ
branch_priority_limit = 1000000

abbrev pub condition_subjects : List String
condition_subjects = "actor" ∷ "target" ∷ []

abbrev pub condition_operators : List String
condition_operators =
    "equals" ∷ "not_equals" ∷ "less_than" ∷ "less_or_equal" ∷ "greater_than" ∷ "greater_or_equal"
    ∷ []

abbrev pub condition_namespaces : List String
condition_namespaces =
    "combat" ∷ "door" ∷ "exploration" ∷ "fsm" ∷ "health" ∷ "inventory" ∷ "magic" ∷ "position"
    ∷ "quest" ∷ "status" ∷ "wallet" ∷ []

abbrev pub child_modules : Dict String String
child_modules =
    ("attack", "combat.basic")
    ∷ ("cast", "magic.core")
    ∷ ("drop", "inventory.core")
    ∷ ("give", "inventory.core")
    ∷ ("inventory", "inventory.core")
    ∷ ("look", "room.core")
    ∷ ("move", "movement.core")
    ∷ ("open", "door.core")
    ∷ ("quests", "quest.core")
    ∷ ("say", "dialogue.core")
    ∷ ("status", "health.core")
    ∷ ("take", "inventory.core")
    ∷ ("talk", "dialogue.core")
    ∷ ("unlock", "door.core")
    ∷ []

abbrev pub child_arg_fields : Dict String (List String)
child_arg_fields =
    ("attack", [])
    ∷ ("cast", "spell" ∷ [])
    ∷ ("drop", [])
    ∷ ("give", "recipient" ∷ [])
    ∷ ("inventory", [])
    ∷ ("look", [])
    ∷ ("move", "direction" ∷ [])
    ∷ ("open", [])
    ∷ ("quests", [])
    ∷ ("say", "text" ∷ [])
    ∷ ("status", [])
    ∷ ("take", [])
    ∷ ("talk", "topic" ∷ [])
    ∷ ("unlock", [])
    ∷ []

abbrev pub child_required_args : Dict String (List String)
child_required_args =
    ("cast", "spell" ∷ [])
    ∷ ("give", "recipient" ∷ [])
    ∷ ("move", "direction" ∷ [])
    ∷ ("say", "text" ∷ [])
    ∷ []

abbrev pub child_target_verbs : List String
child_target_verbs = "attack" ∷ "drop" ∷ "give" ∷ "open" ∷ "take" ∷ "talk" ∷ "unlock" ∷ []

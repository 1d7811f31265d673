-- ===== src/Kernel/Child.antt =====
-- kernel.py: `_execute_action_child` and `_child_lifecycle_event`: the child action of a phase.
pub mod Contract
use Prim.Native.String.{◌++◌ as append_text}
use compilableworld_runtime.Base.{
  ℕ, ◌+◌, String, Bool, true, false, Option, none, some, List, [], ◌∷◌, ◌++◌, Outcome, ok, err,
  guard, ◌==◌, if◌then◌else◌, string_eq,
}
use compilableworld_runtime.Base.Dict.{insert}
use compilableworld_runtime.Base.Exec.{pure, lift, ◌>>=◌, ◌>>◌}
use compilableworld_runtime.Kernel.Value.{
  Fields, text, list, end, field, KernelError, module_error, type_error,
}
use compilableworld_runtime.Kernel.State.{Cells, Applied}
use compilableworld_runtime.Kernel.Models.{
  ActionStatus, proposed, executing, completed, failed, ActionIr, EventIr, TransitionResult,
  ModuleContract, optional_text,
}
use compilableworld_runtime.Kernel.Behavior.{ChildSpec}
use compilableworld_runtime.Kernel.World.{Phase, Behavior, World, Op, modify, mark}
use compilableworld_runtime.Kernel.Runtime.{module_for, stamp_all, applied_values}
use compilableworld_runtime.Kernel.Execution.{kernel_event, commit_deltas, restore_cells}
use compilableworld_runtime.Kernel.Child.Contract.{child_contract}

-- What `_execute_action_child` returns.
pub record ChildResult : Type 0 where
  pub events : List EventIr
  pub succeeded : Bool
  pub message : String
  pub child : Option ActionIr

abbrev pub child_of : ActionIr → ChildSpec → Option String → String → ℕ → ActionIr
child_of parent spec target_id action_id tick = record {
  actor_id = parent.actor_id;
  verb = spec.verb;
  target_id = target_id;
  args = spec.args;
  action_id = action_id;
  correlation_id = parent.correlation_id;
  status = proposed;
  authority = "runtime";
  proposed_at_tick = tick;
}

abbrev reason_field : Option String → Fields
reason_field none = end
reason_field (some reason) = field "reason" (text reason) end

abbrev child_payload : ActionIr → Behavior → Phase → ChildSpec → ActionIr → Option String → Fields
child_payload parent b phase spec child reason = field "parent_action_id" (text parent.action_id) (
    field "behavior_id" (text b.behavior_id) (
      field "actor" (text parent.actor_id) (
        field "phase_id" (text phase.phase_id) (
          field "step_id" (text spec.step_id) (
            field "child_action_id" (text child.action_id) (
              field "child_verb" (text child.verb)
                (field "child_target" (optional_text child.target_id) (reason_field reason))))))))

module _ (fnmatch : String → String → Bool) (callback : String → EventIr → Op (Unit {0}))
    (evaluate : String → ActionIr → World → Outcome KernelError TransitionResult)
    (new_id : ℕ → String) (message_of : KernelError → String) where
  -- `_child_lifecycle_event`.
  abbrev pub child_lifecycle_event :
      String → ActionIr → Behavior → Phase → ChildSpec → ActionIr → Option String → Op EventIr
  child_lifecycle_event event_type parent b phase spec child reason =
      kernel_event new_id event_type parent "kernel" "private"
        (child_payload parent b phase spec child reason)

  abbrev pub child_failed :
      ActionIr → Behavior → Phase → ChildSpec → ActionIr → EventIr → String → Op ChildResult
  child_failed parent b phase spec child started message = do
    modify (mark child.action_id failed)
    event ← child_lifecycle_event "action.child_failed" parent b phase spec child (some message)
    pure (record {
      events = started ∷ event ∷ [];
      succeeded = false;
      message = message;
      child = some child;
    })

  abbrev pub child_completed :
      ActionIr
      → Behavior
      → Phase
      → ChildSpec
      → ActionIr
      → EventIr
      → ModuleContract
      → TransitionResult
      → Op ChildResult
  child_completed parent b phase spec child started m result = do
    applied ← commit_deltas fnmatch callback evaluate new_id message_of m result
    committed ←
        kernel_event new_id "state.committed" child m.module_id "audit"
          (field "applied" (list (applied_values applied)) end)
    modify (mark child.action_id completed)
    event ← child_lifecycle_event "action.child_completed" parent b phase spec child none
    pure (record {
      events =
          (started ∷ committed ∷ stamp_all child child.proposed_at_tick result.events)
          ++ (event ∷ []);
      succeeded = true;
      message = result.message;
      child = some child;
    })

  abbrev pub judge_child :
      ActionIr
      → Behavior
      → Phase
      → ChildSpec
      → ActionIr
      → EventIr
      → ModuleContract
      → TransitionResult
      → Op ChildResult
  judge_child parent b phase spec child started m result =
      if result.accepted
      then child_completed parent b phase spec child started m result
      else child_failed parent b phase spec child started result.message

  -- The `try` block.
  unfoldable pub attempt_child :
      ActionIr → Behavior → Phase → ChildSpec → ActionIr → EventIr → Op ChildResult
  attempt_child parent b phase spec child started = do
    m ← λ w. lift (module_for child.verb w) w
    lift (guard (m.module_id == spec.module_id) module_error)
    modify (mark child.action_id executing)
    result ← λ w. lift (evaluate m.module_id child w) w
    judge_child parent b phase spec child started m result

  -- The `except` clause; a `TypeError` passes it by.
  unfoldable pub settle_child :
      ActionIr
      → Behavior
      → Phase
      → ChildSpec
      → ActionIr
      → EventIr
      → Cells
      → Outcome KernelError ChildResult
      → Op ChildResult
  settle_child parent b phase spec child started before (ok r) w = (ok r, w)
  settle_child parent b phase spec child started before (err type_error) w = (err type_error, w)
  settle_child parent b phase spec child started before (err e) w =
      (modify (restore_cells before)
          >> child_failed parent b phase spec child started (message_of e))
        w

  abbrev pub with_child : ActionIr → World → World
  with_child child w = record w {
    ids = w.ids + 1;
    actions = insert child.action_id child w.actions;
  }

  -- The `try` block and its `except` clause.
  unfoldable pub tried_child :
      ActionIr → Behavior → Phase → ChildSpec → ActionIr → EventIr → Op ChildResult
  tried_child parent b phase spec child started w =
      let tried = attempt_child parent b phase spec child started w in
      settle_child parent b phase spec child started w.cells tried.0 tried.1

  unfoldable pub run_child : ActionIr → Behavior → Phase → ChildSpec → ActionIr → Op ChildResult
  run_child parent b phase spec child = do
    modify (with_child child)
    started ← child_lifecycle_event "action.child_started" parent b phase spec child none
    tried_child parent b phase spec child started

  abbrev pub admitted_child :
      ActionIr → Behavior → Phase → ChildSpec → Outcome String (Option String) → Op ChildResult
  admitted_child parent b phase spec (err message) w =
      (ok (record { events = []; succeeded = false; message = message; child = none }), w)
  admitted_child parent b phase spec (ok target_id) w =
      run_child parent b phase spec (child_of parent spec target_id (new_id w.ids) w.scheduler.tick)
        w

  -- `_execute_action_child`.
  unfoldable pub execute_action_child : ActionIr → Behavior → Phase → ChildSpec → Op ChildResult
  execute_action_child parent b phase spec w =
      admitted_child parent b phase spec (child_contract parent spec w) w

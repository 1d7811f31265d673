-- ===== src/Kernel/Checkpoint.antt =====
-- kernel.py: the decisions of `_action_checkpoint_decisions`, what
-- `advance` reads back from the payload of a decision's last event is carried by its `Verdict`.
-- `decimal` is `str` of an integer.
pub mod Gate
pub mod Phases
pub mod Static
pub mod Entries
use Prim.Native.String.{◌++◌ as append_text}
use compilableworld_runtime.Base.{
  ℕ, ◌+◌, String, Bool, true, false, not, ◌&&◌, ◌||◌, Option, none, some, List, [], ◌∷◌, ◌++◌,
  Outcome, ok, err, ◌==◌, leb, ltb, if◌then◌else◌, string_eq, nat_eq,
}
use compilableworld_runtime.Base.Lists.{length}
use compilableworld_runtime.Base.Dict.{Dict, lookup, insert, is_in}
use compilableworld_runtime.Base.Exec.{pure, lift, ◌>>=◌, ◌>>◌}
use compilableworld_runtime.Kernel.Value.{
  Value, Fields, null, text, end, field, KernelError, action_missing,
}
use compilableworld_runtime.Kernel.Models.{
  ActionIr, EventIr, TransitionResult, number, optional_text,
}
use compilableworld_runtime.Kernel.Scheduler.{Entry}
use compilableworld_runtime.Kernel.Behavior.{ChildSpec, Branch, Condition, RetryPolicy}
use compilableworld_runtime.Kernel.World.{
  Phase, Behavior, RetryState, ActionRuntime, World, Op, modify,
}
use compilableworld_runtime.Kernel.Runtime.{
  contains_text, action_behavior, behavior_of, new_action_runtime_record,
}
use compilableworld_runtime.Kernel.Execution.{kernel_event}
use compilableworld_runtime.Kernel.Conditions.{
  action_condition_matches, failed_condition, bounded_action_retry_policy, bounded_action_branches,
  first_matching, branch_of,
}
use compilableworld_runtime.Kernel.Child.{ChildResult, execute_action_child}

-- An action moves on to its next phase, at a new due tick when it is routed to its last; or it waits
-- for its condition until a later due tick; or it ends.
pub data Verdict : Type 0 where
  progress : String → Option ℕ → Verdict
  retry : ℕ → String → RetryState → String → Verdict
  failure : String → Verdict

pub record Decision : Type 0 where
  pub events : List EventIr
  pub entry : Entry
  pub verdict : Verdict

unfoldable pub concat : List String → String
concat [] = ""
concat (s ∷ ss) = append_text s (concat ss)

abbrev pub with_runtime : String → ActionRuntime → World → World
with_runtime action_id r w = record w { action_runtime = insert action_id r w.action_runtime }

abbrev pub runtime_or : Option ActionRuntime → ActionRuntime → ActionRuntime
runtime_or none fresh = fresh
runtime_or (some r) fresh = r

-- `self.action_runtime.setdefault(action_id, ...)`, whose default is computed in any case.
unfoldable pub ensure_runtime : ActionIr → Option Behavior → Op ActionRuntime
ensure_runtime a b = do
  fresh ← lift (new_action_runtime_record a b)
  λ w.
      let r = runtime_or (lookup a.action_id w.action_runtime) fresh in
      (ok r, with_runtime a.action_id r w)

-- `self.action_runtime.get(action_id, {}).get("retries", {})`.
abbrev pub retries_of : Option ActionRuntime → Dict String RetryState
retries_of none = []
retries_of (some r) = r.retries

abbrev pub steps_of : Option ActionRuntime → List String
steps_of none = []
steps_of (some r) = r.completed_steps

abbrev pub retried_at : ℕ → Dict String RetryState → Bool
retried_at tick [] = false
retried_at tick ((k, s) ∷ rest) = (s.next_retry_tick == tick) || retried_at tick rest

-- While an action is retried, only the ticks of its retries are checkpoints.
abbrev pub retry_passes : ℕ → Dict String RetryState → Bool
retry_passes tick [] = true
retry_passes tick (x ∷ xs) = retried_at tick (x ∷ xs)

abbrev pub action_fields_with : ActionIr → Behavior → Fields → Fields
action_fields_with a b rest = field "action_id" (text a.action_id) (
    field "behavior_id" (text b.behavior_id)
      (field "actor" (text a.actor_id) (field "verb" (text a.verb) rest)))

abbrev pub phase_payload : ActionIr → Behavior → String → Fields → Fields
phase_payload a b phase_id rest =
    action_fields_with a b
      (field "duration_ticks" (number b.duration_ticks) (field "phase_id" (text phase_id) rest))

abbrev pub code_and_reason : String → String → Fields
code_and_reason code message = field "failure_code" (text code) (field "reason" (text message) end)

abbrev attempts_of : Option RetryState → ℕ
attempts_of none = 0
attempts_of (some s) = s.attempts

abbrev first_failure : Option RetryState → ℕ → ℕ
first_failure none tick = tick
first_failure (some s) tick = s.first_failure_tick

-- The state of the retry that would follow a failure at `tick`.
abbrev pub next_retry : ℕ → String → RetryPolicy → Option RetryState → RetryState
next_retry tick condition_id p previous = record {
  attempts = attempts_of previous + 1;
  first_failure_tick = first_failure previous tick;
  timeout_at_tick = first_failure previous tick + p.timeout_ticks;
  next_retry_tick = tick + p.interval_ticks;
  condition_id = condition_id;
}

abbrev pub may_retry : RetryPolicy → RetryState → Bool
may_retry p s = leb s.attempts p.max_attempts && leb s.next_retry_tick s.timeout_at_tick

abbrev pub condition_name : Condition → String
condition_name c = if c.condition_id == "" then "invalid_condition" else c.condition_id

abbrev pub condition_message : Behavior → Phase → String → String
condition_message b next condition_id =
    concat ("行為 " ∷ b.title ∷ " 無法進入 phase " ∷ next.title ∷ "：條件 " ∷ condition_id ∷ " 未滿足" ∷ [])

abbrev pub branch_child : Option ChildSpec → Value
branch_child none = null
branch_child (some c) = text c.step_id

abbrev pub branch_payload : ActionIr → Behavior → Phase → Branch → Phase → Fields
branch_payload a b phase branch next = action_fields_with a b (
    field "phase_id" (text phase.phase_id) (
      field "branch_id" (text branch.branch_id) (
        field "priority" (number branch.priority) (
          field "next_phase_id" (text next.phase_id)
            (field "child_step_id" (branch_child branch.child_action) end)))))

abbrev pub child_id : Option ActionIr → Value
child_id none = null
child_id (some c) = text c.action_id

abbrev pub child_failure_payload :
    ActionIr → Behavior → Phase → ChildSpec → Option ActionIr → String → Fields
child_failure_payload a b phase spec child message = phase_payload a b phase.phase_id (
    field "step_id" (text spec.step_id) (
      field "child_action_id" (child_id child)
        (field "child_verb" (text spec.verb) (code_and_reason "child_action_failed" message))))

-- The policy of the retries that ran out, in the payload of the failure.
abbrev pub exhausted_fields : Option (RetryPolicy × RetryState) → Fields
exhausted_fields none = end
exhausted_fields (some (p, s)) = field "attempt" (number s.attempts) (
    field "max_attempts" (number p.max_attempts)
      (field "timeout_at_tick" (number s.timeout_at_tick) end))

abbrev pub condition_payload :
    ActionIr
    → Behavior
    → Phase
    → String
    → String
    → String
    → Option (RetryPolicy × RetryState)
    → Fields
condition_payload a b next condition_id code message exhausted = phase_payload a b next.phase_id (
    field "condition_id" (text condition_id) (
      field "failure_code" (text code)
        (field "reason" (text message) (exhausted_fields exhausted))))

abbrev pub retry_payload :
    ActionIr → Behavior → Phase → RetryPolicy → RetryState → ℕ → String → Fields
retry_payload a b next p s due message = phase_payload a b next.phase_id (
    field "condition_id" (text s.condition_id) (
      field "attempt" (number s.attempts) (
        field "max_attempts" (number p.max_attempts) (
          field "interval_ticks" (number p.interval_ticks) (
            field "first_failure_tick" (number s.first_failure_tick) (
              field "retry_at_tick" (number s.next_retry_tick) (
                field "timeout_at_tick" (number s.timeout_at_tick)
                  (field "due_tick" (number due) (field "reason" (text message) end)))))))))

abbrev pub progress_payload : ActionIr → Behavior → Phase → Phase → ℕ → ℕ → ℕ → Fields → Fields
progress_payload a b phase next index total cumulative rest = action_fields_with a b (
    field "phase_id" (text phase.phase_id) (
      field "phase_title" (text phase.title) (
        field "phase_index" (number index) (
          field "completed_phases" (number index) (
            field "total_phases" (number total) (
              field "next_phase_id" (text next.phase_id) (
                field "progress_ticks" (number cumulative)
                  (field "duration_ticks" (number b.duration_ticks) rest))))))))

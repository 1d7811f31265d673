-- ===== src/Kernel/Checkpoint/Gate.antt =====
-- kernel.py: the steps of a checkpoint that a sequence of phases and a static route share, which the
-- source writes twice: the child of a phase, and the conditions under which the next one is entered.
pub mod Bounds
use Prim.Native.String.{◌++◌ as append_text}
use compilableworld_runtime.Base.{
  ℕ, ◌+◌, String, Bool, true, false, Option, none, some, List, [], ◌∷◌, ◌++◌, Outcome, ok, err,
  if◌then◌else◌, string_eq,
}
use compilableworld_runtime.Base.Dict.{lookup}
use compilableworld_runtime.Base.Exec.{pure, ◌>>=◌, ◌>>◌}
use compilableworld_runtime.Kernel.Value.{Fields, KernelError}
use compilableworld_runtime.Kernel.Models.{ActionIr, EventIr, TransitionResult}
use compilableworld_runtime.Kernel.Scheduler.{Entry}
use compilableworld_runtime.Kernel.Behavior.{ChildSpec, Condition, RetryPolicy}
use compilableworld_runtime.Kernel.World.{
  Phase, Behavior, RetryState, ActionRuntime, World, Op, modify,
}
use compilableworld_runtime.Kernel.Runtime.{contains_text}
use compilableworld_runtime.Kernel.Execution.{kernel_event}
use compilableworld_runtime.Kernel.Conditions.{
  action_condition_matches, failed_condition, bounded_action_retry_policy,
}
use compilableworld_runtime.Kernel.Child.{ChildResult, execute_action_child}
use compilableworld_runtime.Kernel.Checkpoint.{
  Verdict, progress, retry, failure, Decision, concat, with_runtime, steps_of, retries_of,
  next_retry, may_retry, condition_name, condition_message, condition_payload, retry_payload,
  child_failure_payload, exhausted_fields,
}

-- How the child of a phase ends.
pub data ChildStep : Type 0 where
  stepped : List EventIr → ChildStep
  child_failure : ChildSpec → ChildResult → ChildStep

abbrev pub add_step : String → ActionRuntime → ActionRuntime
add_step step_id r = record r { completed_steps = r.completed_steps ++ (step_id ∷ []) }

abbrev complete_in : String → String → Option ActionRuntime → World → World
complete_in action_id step_id none w = w
complete_in action_id step_id (some r) w = with_runtime action_id (add_step step_id r) w

abbrev pub complete_step : String → String → World → World
complete_step action_id step_id w =
    complete_in action_id step_id (lookup action_id w.action_runtime) w

-- What the policy says of a failed condition: to try again, or how the action fails.
pub data Gate : Type 0 where
  again : RetryPolicy → RetryState → Gate
  shut : String → Option (RetryPolicy × RetryState) → Gate

abbrev pub judge_retry : RetryPolicy → RetryState → Gate
judge_retry p s = if may_retry p s then again p s else shut "retry_exhausted" (some (p, s))

abbrev pub gate_with :
    Option RetryPolicy → Option RetryPolicy → ℕ → String → Option RetryState → Gate
gate_with none bounded tick condition_id previous = shut "condition_failed" none
gate_with (some raw) none tick condition_id previous = shut "invalid_retry_policy" none
gate_with (some raw) (some p) tick condition_id previous =
    judge_retry p (next_retry tick condition_id p previous)

unfoldable pub gate_of : Phase → ℕ → String → Option RetryState → Gate
gate_of next tick condition_id previous =
    gate_with next.retry (bounded_action_retry_policy next.retry) tick condition_id previous

module _ (fnmatch : String → String → Bool) (callback : String → EventIr → Op (Unit {0}))
    (evaluate : String → ActionIr → World → Outcome KernelError TransitionResult)
    (new_id : ℕ → String) (message_of : KernelError → String) (decimal : ℕ → String) where
  abbrev pub after_child : ActionIr → ChildSpec → ChildResult → Op ChildStep
  after_child a spec r =
      if r.succeeded
      then (modify (complete_step a.action_id spec.step_id) >> pure (stepped r.events))
      else pure (child_failure spec r)

  -- A step that was completed is not run again.
  unfoldable pub child_step : ActionIr → Behavior → Phase → Option ChildSpec → Op ChildStep
  child_step a b phase none w = (ok (stepped []), w)
  child_step a b phase (some spec) w =
      if contains_text spec.step_id (steps_of (lookup a.action_id w.action_runtime))
      then (ok (stepped []), w)
      else (execute_action_child fnmatch callback evaluate new_id message_of a b phase spec >>= λ r.
            after_child a spec r)
          w

  unfoldable pub failed_decision : ActionIr → Entry → List EventIr → Fields → String → Op Decision
  failed_decision a entry events payload message = do
    event ← kernel_event new_id "action.failed" a "kernel" "private" payload
    pure (record { events = events ++ (event ∷ []); entry = entry; verdict = failure message })

  unfoldable pub child_failed_decision :
      ActionIr → Behavior → Phase → Entry → List EventIr → ChildSpec → ChildResult → Op Decision
  child_failed_decision a b phase entry events spec r =
      let message : String =
        concat ("child Action " ∷ spec.step_id ∷ " failed: " ∷ r.message ∷ []) in
      failed_decision a entry (events ++ r.events)
        (child_failure_payload a b phase spec r.child message) message

  abbrev pub retry_message : String → RetryPolicy → RetryState → String
  retry_message message p s = concat (
      message
      ∷ "; retry "
      ∷ decimal s.attempts
      ∷ "/"
      ∷ decimal p.max_attempts
      ∷ " scheduled for tick "
      ∷ decimal s.next_retry_tick
      ∷ [])

  abbrev pub gate_decision :
      ActionIr → Behavior → Phase → Entry → List EventIr → String → String → Gate → Op Decision
  gate_decision a b next entry events condition_id message (again p s) = do
    let due : ℕ = entry.due_tick + p.interval_ticks
    event ←
        kernel_event new_id "action.retry_scheduled" a "kernel" "private"
          (retry_payload a b next p s due (retry_message message p s))
    pure (record {
      events = events ++ (event ∷ []);
      entry = entry;
      verdict = retry due next.phase_id s (retry_message message p s);
    })
  gate_decision a b next entry events condition_id message (shut code exhausted) =
      failed_decision a entry events
        (condition_payload a b next condition_id code message exhausted) message

  abbrev pub previous_retry : ActionIr → Phase → World → Option RetryState
  previous_retry a next w = lookup next.phase_id (retries_of (lookup a.action_id w.action_runtime))

  -- The end of a checkpoint: the action stays out of a phase whose condition fails.
  abbrev pub gated :
      ActionIr
      → Behavior
      → Phase
      → Entry
      → List EventIr
      → Option Condition
      → Op Decision
      → Op Decision
  gated a b next entry events none onward w = onward w
  gated a b next entry events (some c) onward w =
      gate_decision a b next entry events (condition_name c)
        (condition_message b next (condition_name c))
        (gate_of next w.scheduler.tick (condition_name c) (previous_retry a next w)) w

  unfoldable pub enter_phase :
      ActionIr → Behavior → Phase → Entry → List EventIr → Op Decision → Op Decision
  enter_phase a b next entry events onward w =
      gated a b next entry events (failed_condition (λ c. action_condition_matches a w c) next.when)
        onward w

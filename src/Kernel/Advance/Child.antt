-- ===== src/Kernel/Advance/Child.antt =====
-- kernel.py: the child of a phase and the gate of the next one write neither the log nor the counters.
use compilableworld_runtime.Base.{
  arith, ℕ, String, Bool, ◌≡◌, ◌∙◌, refl, Option, none, some, List, Outcome, ok, err, string_eq,
}
use compilableworld_runtime.Kernel.Value.{KernelError}
use compilableworld_runtime.Kernel.State.{Cells}
use compilableworld_runtime.Kernel.Models.{ActionIr, EventIr, TransitionResult}
use compilableworld_runtime.Kernel.Scheduler.{Entry}
use compilableworld_runtime.Kernel.Behavior.{ChildSpec}
use compilableworld_runtime.Kernel.World.{Phase, Behavior, World, Op}
use compilableworld_runtime.Kernel.Execution.{commit_deltas}
use compilableworld_runtime.Kernel.Child.{
  ChildResult, attempt_child, settle_child, tried_child, run_child, execute_action_child,
  admitted_child, with_child, child_lifecycle_event,
}
use compilableworld_runtime.Kernel.Child.Contract.{child_contract}
use compilableworld_runtime.Kernel.Checkpoint.{Decision}
use compilableworld_runtime.Kernel.Checkpoint.Gate.{
  after_child, child_step, failed_decision, enter_phase,
}
use compilableworld_runtime.Kernel.Advance.Frame.{logged_part, unlogged_bind}

module _ (fnmatch : String → String → Bool) (callback : String → EventIr → Op (Unit {0}))
    (evaluate : String → ActionIr → World → Outcome KernelError TransitionResult)
    (new_id : ℕ → String) (message_of : KernelError → String) where
  attempt_child-unlogged :
      (parent : ActionIr) (b : Behavior) (phase : Phase) (spec : ChildSpec) (child : ActionIr)
      (started : EventIr) (w : World)
      → logged_part
          (attempt_child fnmatch callback evaluate new_id message_of parent b phase spec child
            started w).1
        ≡ logged_part w
  unfolding attempt_child commit_deltas
  attempt_child-unlogged parent b phase spec child started w = ground arith

  settle_child-unlogged :
      (parent : ActionIr) (b : Behavior) (phase : Phase) (spec : ChildSpec) (child : ActionIr)
      (started : EventIr) (before : Cells) (o : Outcome KernelError ChildResult) (w : World)
      → logged_part
          (settle_child fnmatch callback evaluate new_id message_of parent b phase spec child
            started before o w).1
        ≡ logged_part w
  unfolding settle_child
  settle_child-unlogged parent b phase spec child started before o w = ground arith

  tried_child-unlogged :
      (parent : ActionIr) (b : Behavior) (phase : Phase) (spec : ChildSpec) (child : ActionIr)
      (started : EventIr) (w : World)
      → logged_part
          (tried_child fnmatch callback evaluate new_id message_of parent b phase spec child started
            w).1
        ≡ logged_part w
  unfolding tried_child
  tried_child-unlogged parent b phase spec child started w =
      let tried =
        attempt_child fnmatch callback evaluate new_id message_of parent b phase spec child started
          w in
      settle_child-unlogged parent b phase spec child started w.cells tried.0 tried.1
      ∙ attempt_child-unlogged parent b phase spec child started w

  run_child-unlogged :
      (parent : ActionIr) (b : Behavior) (phase : Phase) (spec : ChildSpec) (child : ActionIr)
      (w : World)
      → logged_part
          (run_child fnmatch callback evaluate new_id message_of parent b phase spec child w).1
        ≡ logged_part w
  unfolding run_child
  run_child-unlogged parent b phase spec child w =
      unlogged_bind
        (child_lifecycle_event fnmatch callback evaluate new_id message_of "action.child_started"
          parent b phase spec child none)
        (tried_child fnmatch callback evaluate new_id message_of parent b phase spec child)
        (with_child fnmatch callback evaluate new_id message_of child w) refl
        (tried_child-unlogged parent b phase spec child)

  -- The child of a phase writes none of the four.
  pub execute_action_child-unlogged :
      (parent : ActionIr) (b : Behavior) (phase : Phase) (spec : ChildSpec) (w : World)
      → logged_part
          (execute_action_child fnmatch callback evaluate new_id message_of parent b phase spec w).1
        ≡ logged_part w
  unfolding execute_action_child
  execute_action_child-unlogged parent b phase spec w = go (child_contract parent spec w)
    where
      go :
          (o : Outcome String (Option String))
          → logged_part
              (admitted_child fnmatch callback evaluate new_id message_of parent b phase spec o w).1
            ≡ logged_part w
      go (err message) = refl
      go (ok target_id) = run_child-unlogged parent b phase spec _ w

module _ (fnmatch : String → String → Bool) (callback : String → EventIr → Op (Unit {0}))
    (evaluate : String → ActionIr → World → Outcome KernelError TransitionResult)
    (new_id : ℕ → String) (message_of : KernelError → String) (decimal : ℕ → String) where
  after_child-unlogged :
      (a : ActionIr) (spec : ChildSpec) (r : ChildResult) (w : World)
      → logged_part (after_child fnmatch callback evaluate new_id message_of decimal a spec r w).1
        ≡ logged_part w
  after_child-unlogged a spec r w = ground arith

  pub child_step-unlogged :
      (a : ActionIr) (b : Behavior) (phase : Phase) (spec : Option ChildSpec) (w : World)
      → logged_part
          (child_step fnmatch callback evaluate new_id message_of decimal a b phase spec w).1
        ≡ logged_part w
  unfolding child_step
  child_step-unlogged a b phase none w = refl
  child_step-unlogged a b phase (some spec) w =
      let run =
        unlogged_bind
          (execute_action_child fnmatch callback evaluate new_id message_of a b phase spec)
          (after_child fnmatch callback evaluate new_id message_of decimal a spec) w
          (execute_action_child-unlogged fnmatch callback evaluate new_id message_of a b phase spec
            w)
          (after_child-unlogged a spec) in
      ground (arith, run)

  pub enter_phase-unlogged :
      (a : ActionIr) (b : Behavior) (next : Phase) (entry : Entry) (events : List EventIr)
      (onward : Op Decision) (w : World)
      → logged_part (onward w).1 ≡ logged_part w
      → logged_part
          (enter_phase fnmatch callback evaluate new_id message_of decimal a b next entry events
            onward w).1
        ≡ logged_part w
  unfolding enter_phase failed_decision
  enter_phase-unlogged a b next entry events onward w h = ground arith

-- ===== src/Kernel/Execution/Atomic.antt =====
-- kernel.py: what `_execute` does to the cells.
use compilableworld_runtime.Base.{
  ℕ, ◌+◌, String, Bool, ◌≡◌, ◌∙◌, refl, ap, ◌⊎◌, inl, inr, Option, none, some, [], Outcome, ok, err,
}
use compilableworld_runtime.Base.Exec.{pure, continue, ◌>>=◌}
use compilableworld_runtime.Kernel.Value.{KernelError, transaction_failed, type_error}
use compilableworld_runtime.Kernel.Models.{
  ActionIr, EventIr, TransitionResult, ActionReceipt, completed,
}
use compilableworld_runtime.Kernel.World.{Behavior, World, Op, emit, mark, bump}
use compilableworld_runtime.Kernel.Runtime.{action_behavior, applied_paths}
use compilableworld_runtime.Kernel.Execution.{
  Attempt, answered, logged, boundary_event, attempt, settle, execute, receipt, is_some,
  restore_cells, drop_runtime, scheduled_behavior, action_lifecycle_event,
}
use compilableworld_runtime.Kernel.Execution.Receipts.{IsFailed, fail-IsFailed}
use compilableworld_runtime.Kernel.Execution.Frame.{Quiet, emit-Same, fail-Same}
use compilableworld_runtime.Kernel.Execution.Ends.{Ends, Committed, Obstacle, attempt-Ends}

then_pure-state :
    {A : Type 0} (o : Outcome KernelError (Unit {0})) (x : A) (w : World)
    → (continue {S = World} o (λ _. pure x) w).1 ≡ w
then_pure-state (ok u) x w = refl
then_pure-state (err e) x w = refl

module _ (fnmatch : String → String → Bool) (callback : String → EventIr → Op (Unit {0}))
    (evaluate : String → ActionIr → World → Outcome KernelError TransitionResult)
    (new_id : ℕ → String) (message_of : KernelError → String) where
  -- The world in which the `try` block begins: a long action's start event has taken its id.
  abbrev pub begun : ActionIr → World → World
  begun a w =
      (boundary_event new_id "action.started" a
        (scheduled_behavior a.status (action_behavior a.verb w)) w).1

  -- A receipt of completion with the cells of the commit; or an obstacle, the cells as they were, and
  -- no receipt but that of a failed action.
  abbrev pub AllOrNothing : ActionIr → World → Outcome KernelError ActionReceipt × World → Type 0
  AllOrNothing a u r =
      ((done : ActionReceipt) × (r.0 ≡ ok done)
        × (done.status ≡ completed)
        × Committed fnmatch callback evaluate new_id message_of a u r.1)
      ⊎ (Obstacle fnmatch callback evaluate new_id message_of a u
          × (r.1.cells ≡ u.cells)
          × IsFailed r.0)

  settle-AllOrNothing :
      (a : ActionIr) (b : Option Behavior) (u : World) (o : Outcome KernelError Attempt) (v : World)
      → Ends fnmatch callback evaluate new_id message_of a u o v
      → AllOrNothing a u (settle fnmatch callback evaluate new_id message_of a b u.cells o v)
  unfolding settle
  settle-AllOrNothing a b u (ok (answered r)) v (same, why, status) = inr (why, same, status)
  settle-AllOrNothing a b u (ok (logged message emitted applied)) v
        ((m, result, decided, accepted, whole, written, cells), q) =
      let v1 : World =
        bump "actions_completed" (drop_runtime a.action_id (mark a.action_id completed v)) in
      let (kept, fine) = emit-Same fnmatch callback emitted v1 q in
      let done : ActionReceipt =
        receipt a.action_id completed message emitted (applied_paths applied) in
      inl (
        done,
        ap (λ o. (continue {S = World} o (λ _. pure done) (emit fnmatch callback emitted v1).1).0)
            fine,
        refl,
        (
          m,
          result,
          decided,
          accepted,
          whole,
          written,
          ap (λ (x : World). x.cells)
                (then_pure-state (emit fnmatch callback emitted v1).0 done
                  (emit fnmatch callback emitted v1).1)
              ∙ kept.cells
              ∙ cells,
        ),
      )
  settle-AllOrNothing a b u (err transaction_failed) v (q, why) = inr (why, refl, tt)
  settle-AllOrNothing a b u (err type_error) v (same, why) = inr (why, same, tt)
  settle-AllOrNothing a b u (err e) v (q, why) =
      let v1 : World = restore_cells u.cells v in
      inr (
        why,
        (fail-Same fnmatch callback evaluate new_id message_of a (message_of e) (is_some b) v1
            q).cells,
        fail-IsFailed fnmatch callback evaluate new_id message_of a (message_of e) (is_some b) v1,
      )

  begun-AllOrNothing :
      (a : ActionIr) (b : Option Behavior) (w : World)
      → Quiet w
      → AllOrNothing a (boundary_event new_id "action.started" a b w).1 (
          (boundary_event new_id "action.started" a b >>= λ started w1.
          let tried = attempt fnmatch callback evaluate new_id message_of a started b w1 in
          settle fnmatch callback evaluate new_id message_of a b w.cells tried.0 tried.1)
            w)
  unfolding action_lifecycle_event
  begun-AllOrNothing a none w q =
      settle-AllOrNothing a none w _ _
        (attempt-Ends fnmatch callback evaluate new_id message_of a [] none w q)
  begun-AllOrNothing a (some b) w q =
      let u : World = record w { ids = w.ids + 1 } in
      settle-AllOrNothing a (some b) u _ _
        (attempt-Ends fnmatch callback evaluate new_id message_of a _ (some b) u q)

  begun-cells :
      (a : ActionIr) (b : Option Behavior) (w : World)
      → (boundary_event new_id "action.started" a b w).1.cells ≡ w.cells
  unfolding action_lifecycle_event
  begun-cells a none w = refl
  begun-cells a (some b) w = refl

  -- When no one subscribes to events, executing an action does one of two things. Where the module of
  -- its verb accepts it, the commit of the module's deltas succeeds on the cells before, and the next
  -- write to the log succeeds, it returns a receipt of completion and leaves the cells of that commit.
  -- Otherwise a step of this went wrong: no module claims the verb, the module raises or refuses, the
  -- commit raises, or the log cannot be written; then every cell is as before, and a receipt, if one
  -- is returned, says that the action failed. The world that the module sees differs from the one
  -- before in the action's status and in the id that a long action's start event has taken.
  pub execute-AllOrNothing :
      (a : ActionIr) (w : World)
      → Quiet w
      → AllOrNothing a (begun a w) (execute fnmatch callback evaluate new_id message_of a w)
        × ((begun a w).cells ≡ w.cells)
  unfolding execute
  execute-AllOrNothing a w q =
      let b = scheduled_behavior a.status (action_behavior a.verb w) in
      (begun-AllOrNothing a b w q, begun-cells a b w)

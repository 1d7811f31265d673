-- ===== src/Kernel/Control.antt =====
-- kernel.py: `WorldRuntime.submit`, `cancel_action`, the interruption of scheduled actions, and
-- `commit_reaction`. The parameters are those of the execution of an action.
pub mod Rollback
mod Tests
use Prim.Native.String.{◌++◌ as append_text}
use compilableworld_runtime.Base.{
  ℕ, ◌+◌, String, Bool, true, false, not, ◌&&◌, ◌||◌, Option, none, some, List, [], ◌∷◌, ◌++◌,
  Outcome, ok, err, guard, ◌==◌, if◌then◌else◌, string_eq, nat_eq,
}
use compilableworld_runtime.Kernel.Admission.{admit}
use compilableworld_runtime.Base.Int.{ℤ, pos, pos_part, beq_ℤ}
use compilableworld_runtime.Base.Dict.{Dict, lookup, insert, remove, is_in}
use compilableworld_runtime.Base.Exec.{pure, raise, lift, ◌>>=◌, ◌>>◌}
use compilableworld_runtime.Kernel.Value.{
  Fields, list, end, field, KernelError, unknown_actor, completion_mismatch, duration_fixed,
  actor_is_busy, action_missing, not_owner, transaction_failed,
}
use compilableworld_runtime.Kernel.State.{StateDelta, commit, Applied, Cells}
use compilableworld_runtime.Kernel.Models.{
  ActionStatus, parsed, scheduled, interrupted, cancelled, ActionIr, EventIr, TransitionResult,
  ActionReceipt, ModuleContract, status_text,
}
use compilableworld_runtime.Kernel.Scheduler as Queue
use compilableworld_runtime.Kernel.Scheduler.{Entry, Scheduler, schedule, find_entry}
use compilableworld_runtime.Kernel.World.{
  Behavior, ActionRuntime, World, Op, modify, append_batch, bump, mark, emit,
}
use compilableworld_runtime.Kernel.Runtime.{
  contains_text, action_behavior, module_for, new_action_runtime_record, applied_values,
}
use compilableworld_runtime.Kernel.Execution.{
  action_lifecycle_event, receipt, fail, execute, drop_runtime, is_some, restore_cells,
}

abbrev pub is_positive : ℤ → Bool
is_positive delay = not (pos_part delay == 0)

abbrev pub title_of : Option Behavior → ActionIr → String
title_of none a = a.verb
title_of (some b) a = b.title

module _ (fnmatch : String → String → Bool) (callback : String → EventIr → Op (Unit {0}))
    (evaluate : String → ActionIr → World → Outcome KernelError TransitionResult)
    (new_id : ℕ → String) (message_of : KernelError → String) where
  -- `submit` after the append of the event of a scheduled action, whose outcome is the argument.
  abbrev pub finish_schedule :
      ActionIr → String → EventIr → Outcome KernelError (Unit {0}) → Op ActionReceipt
  unfolding emit
  finish_schedule a title event (err e) w = (
    err e,
    record w {
      scheduler = (Queue.remove a.action_id w.scheduler).1;
      actions = remove a.action_id w.actions;
      action_runtime = remove a.action_id w.action_runtime;
    },
  )
  finish_schedule a title event (ok u) w =
      (modify (bump "actions_scheduled")
          >> emit fnmatch callback (event ∷ [])
          >> pure (receipt a.action_id scheduled title (event ∷ []) []))
        w

  unfoldable pub enqueue : ActionIr → ℤ → Option Behavior → Op ActionReceipt
  unfolding action_lifecycle_event append_batch schedule
  enqueue a delay b = do
    runtime ← lift (new_action_runtime_record a b)
    entry ← λ w.
        let (entry, queued) = schedule a.action_id delay w.scheduler in
        (
          ok entry,
          record w {
            scheduler = queued;
            action_runtime = insert a.action_id runtime w.action_runtime;
          },
        )
    modify (mark a.action_id scheduled)
    event ←
        action_lifecycle_event new_id "action.scheduled" (record a { status = scheduled }) b
          (some entry.due_tick) none ""
    λ w.
        let logged = append_batch (event ∷ []) w in
        finish_schedule a (title_of b a) event logged.0 logged.1

  abbrev pub submit_admitted : ActionIr → Outcome KernelError ℤ → Op ActionReceipt
  unfolding enqueue
  submit_admitted a (err e) w =
      fail fnmatch callback evaluate new_id message_of a (message_of e) false w
  submit_admitted a (ok delay) w =
      if is_positive delay
      then enqueue a delay (action_behavior a.verb w) w
      else execute fnmatch callback evaluate new_id message_of a w

  abbrev pub taken : ActionIr → World → ActionIr
  taken a w = record a { proposed_at_tick = w.scheduler.tick; status = parsed }

  abbrev pub with_action : ActionIr → World → World
  with_action a w = record w { actions = insert a.action_id a w.actions }

  -- The counter of published events is raised after that of scheduled actions in the source; the
  -- two are different keys.
  unfoldable pub submit : ActionIr → ℤ → Op ActionReceipt
  unfolding admit
  submit a delay w =
      let a1 = taken a w in let w1 = with_action a1 w in submit_admitted a1 (admit a1 delay w1) w1

  -- `_terminate_scheduled_action` after its append: a failed one puts everything back.
  abbrev pub finish_termination :
      ActionIr
      → ActionStatus
      → String
      → Entry
      → EventIr
      → Outcome KernelError (Unit {0})
      → Op ActionReceipt
  unfolding emit
  finish_termination a status reason removed event (err e) w = (
    err e,
    mark a.action_id a.status (record w { scheduler = Queue.restore removed w.scheduler }),
  )
  finish_termination a status reason removed event (ok u) w =
      (modify (drop_runtime a.action_id)
          >> emit fnmatch callback (event ∷ [])
          >> modify (bump (append_text "actions_" (status_text status)))
          >> pure (receipt a.action_id status reason (event ∷ []) []))
        w

  abbrev pub termination_event : ActionStatus → String
  termination_event cancelled = "action.cancelled"
  termination_event _ = "action.interrupted"

  abbrev pub terminate_entry :
      Entry → ActionStatus → String → String → Option Entry → Option ActionIr → Op ActionReceipt
  unfolding action_lifecycle_event append_batch
  terminate_entry entry status reason cause (some removed) (some a) w =
      (modify (mark a.action_id status)
          >> action_lifecycle_event new_id (termination_event status) (record a { status = status })
              (action_behavior a.verb w) (some entry.due_tick) (some reason) cause
          >>= λ event w1.
              let logged = append_batch (event ∷ []) w1 in
              finish_termination a status reason removed event logged.0 logged.1)
        w
  terminate_entry entry status reason cause _ _ w = (err action_missing, w)

  -- `_terminate_scheduled_action`, with the id of the event that caused it.
  unfoldable pub terminate_scheduled_action :
      Entry → ActionStatus → String → String → Op ActionReceipt
  terminate_scheduled_action entry status reason cause w =
      let (removed, rest) = Queue.remove entry.action_id w.scheduler in
      terminate_entry entry status reason cause removed (lookup entry.action_id w.actions)
        (record w { scheduler = rest })

  abbrev pub cancel_known : String → Entry → Option ActionIr → Op ActionReceipt
  unfolding terminate_scheduled_action
  cancel_known actor_id entry none w = (err action_missing, w)
  cancel_known actor_id entry (some a) w =
      if a.actor_id == actor_id
      then terminate_scheduled_action entry cancelled "由 actor 取消" "" w
      else (err not_owner, w)

  abbrev pub cancel_entry : String → Option Entry → Op ActionReceipt
  cancel_entry actor_id none w = (err action_missing, w)
  cancel_entry actor_id (some entry) w =
      cancel_known actor_id entry (lookup entry.action_id w.actions) w

  unfoldable pub cancel_action : String → String → Op ActionReceipt
  unfolding find_entry
  cancel_action actor_id action_id w =
      if is_in actor_id w.entities
      then cancel_entry actor_id (find_entry action_id w.scheduler.queue) w
      else (err unknown_actor, w)

  abbrev same_correlation : Option ActionIr → ActionIr → Bool
  same_correlation none a = false
  same_correlation (some cause) a = cause.correlation_id == a.correlation_id

  abbrev listens : EventIr → Option Behavior → Bool
  listens event none = false
  listens event (some b) = contains_text event.event_type b.interrupt_on

  -- The test that decides whether an event interrupts a queued action.
  abbrev pub interrupts : EventIr → String → Option ActionIr → World → Option ActionIr → Bool
  interrupts event actor_id cause w none = false
  interrupts event actor_id cause w (some a) =
      (a.actor_id == actor_id)
      && listens event (action_behavior a.verb w)
      && not (same_correlation cause a)

  interrupt_entries : EventIr → String → Option ActionIr → List Entry → Op (Unit {0})
  unfolding terminate_scheduled_action
  interrupt_entries event actor_id cause [] w = (ok tt, w)
  interrupt_entries event actor_id cause (e ∷ es) w =
      let rest = interrupt_entries event actor_id cause es in
      if interrupts event actor_id cause w (lookup e.action_id w.actions)
      then (terminate_scheduled_action e interrupted
              (append_text "被 " (append_text event.event_type " 中斷")) event.event_id
            >> rest)
          w
      else rest w

  abbrev cause_key : Option String → String
  cause_key none = ""
  cause_key (some s) = s

  -- The loop runs over the entries that stood in the queue when the event came.
  pub on_action_interrupt_event : EventIr → Op (Unit {0})
  unfolding interrupt_entries
  on_action_interrupt_event event w = elim event.target [
    | none ↦ (ok tt, w)
    | some actor_id ↦
        interrupt_entries event actor_id (lookup (cause_key event.causation_id) w.actions)
          w.scheduler.queue w
  ]

  abbrev stamped : ℕ → List EventIr → List EventIr
  stamped tick [] = []
  stamped tick (e ∷ es) = record e { timestamp_tick = tick } ∷ stamped tick es

  abbrev finish_reaction :
      Cells → List EventIr → List Applied → Outcome KernelError (Unit {0}) → Op (List Applied)
  unfolding emit
  finish_reaction before emitted applied (err e) w = (err e, restore_cells before w)
  finish_reaction before emitted applied (ok u) w =
      (emit fnmatch callback emitted >> pure applied) w

  abbrev react_with :
      ModuleContract → Cells → List EventIr → Outcome KernelError (List Applied) → Op (List Applied)
  unfolding append_batch
  react_with m before events (err e) w = (err e, restore_cells before w)
  react_with m before events (ok applied) w =
      let commit_event : EventIr = record {
        event_type = "state.committed";
        source = m.module_id;
        payload = field "applied" (list (applied_values applied)) end;
        target = none;
        event_id = new_id w.ids;
        causation_id = none;
        correlation_id = none;
        timestamp_tick = w.scheduler.tick;
        visibility = "audit";
        authority = "runtime";
      } in
      let emitted = stamped w.scheduler.tick (commit_event ∷ events) in
      let logged = append_batch emitted (record w { ids = w.ids + 1 }) in
      finish_reaction before emitted applied logged.0 logged.1

  -- An error that is not the runtime's own leaves `commit` with nothing written, so that putting the
  -- cells back changes nothing.
  pub commit_reaction : ModuleContract → List StateDelta → List EventIr → Op (List Applied)
  unfolding commit
  commit_reaction m deltas events w =
      let done = commit fnmatch deltas m.write w.cells in
      react_with m w.cells events done.0 (record w { cells = done.1 })

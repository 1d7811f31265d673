-- ===== src/Kernel/Execution.antt =====
-- kernel.py: the operations of `WorldRuntime` on actions. Parameters are the modules' `evaluate`, the
-- subscribers' callbacks, `fnmatch`, the supply of event ids, and `str` of an error. A reply's text
-- is the one of the error it reports, or the reason.
pub mod Frame
pub mod Receipts
pub mod Ends
pub mod Atomic
pub mod Tests
use Prim.Native.String.{◌++◌ as append_text}
use compilableworld_runtime.Base.{
  ℕ, ◌+◌, String, Bool, true, false, not, ◌&&◌, ◌||◌, Option, none, some, List, [], ◌∷◌, ◌++◌,
  Outcome, ok, err, ◌==◌, ltb, if◌then◌else◌, string_eq, nat_eq,
}
use compilableworld_runtime.Base.Int.{ℤ, pos, pos_part, beq_ℤ}
use compilableworld_runtime.Base.Dict.{Dict, lookup, insert, remove, is_in}
use compilableworld_runtime.Base.Exec.{pure, raise, lift, ◌>>=◌, ◌>>◌}
use compilableworld_runtime.Kernel.Value.{
  Fields, text, list, end, field, KernelError, unknown_actor, completion_mismatch, duration_fixed,
  actor_is_busy, action_missing, not_owner, type_error, transaction_failed,
}
use compilableworld_runtime.Kernel.State.{commit, Applied, Cells}
use compilableworld_runtime.Kernel.Models.{
  ActionStatus, parsed, scheduled, executing, completed, failed, interrupted, cancelled, ActionIr,
  EventIr, TransitionResult, ActionReceipt, ModuleContract, status_text,
}
use compilableworld_runtime.Kernel.Scheduler as Queue
use compilableworld_runtime.Kernel.Scheduler.{Entry, Scheduler, schedule, find_entry}
use compilableworld_runtime.Kernel.World.{
  Behavior, World, Op, modify, append_batch, bump, mark, emit,
}
use compilableworld_runtime.Kernel.Runtime.{
  contains_text, action_behavior, module_for, new_action_runtime_record, lifecycle_payload,
  applied_values, applied_paths, event_ids, stamp_all,
}

abbrev failed_payload : ActionIr → String → Option Behavior → Fields
failed_payload a message none = field "verb" (text a.verb) (field "reason" (text message) end)
failed_payload a message (some b) = field "verb" (text a.verb) (
    field "reason" (text message) (
      field "action_id" (text a.action_id)
        (field "behavior_id" (text b.behavior_id) (field "actor" (text a.actor_id) end))))

abbrev pub drop_runtime : String → World → World
drop_runtime action_id w = record w { action_runtime = remove action_id w.action_runtime }

abbrev pub receipt : String → ActionStatus → String → List EventIr → List String → ActionReceipt
receipt action_id status message emitted changed = record {
  action_id = action_id;
  status = status;
  message = message;
  event_ids = event_ids emitted;
  changed_paths = changed;
  changed_entities = [];
}

abbrev when_started : Bool → Option Behavior → Option Behavior
when_started true b = b
when_started false b = none

-- How the `try` block ends: with the receipt of a refused action, whose `_fail` runs inside it and
-- whose errors the `except` clauses catch too, or at its end.
pub data Attempt : Type 0 where
  answered : ActionReceipt → Attempt
  logged : String → List EventIr → List Applied → Attempt

abbrev pub is_some {ℓ} : {A : Type ℓ} → Option A → Bool
is_some none = false
is_some (some x) = true

abbrev pub restore_cells : Cells → World → World
restore_cells before w = record w { cells = before }

abbrev pub scheduled_behavior : ActionStatus → Option Behavior → Option Behavior
scheduled_behavior scheduled b = b
scheduled_behavior _ b = none

-- `append_batch` at the end of the `try` block, which leaves the events and what was applied.
unfoldable pub log_emitted : List EventIr → List Applied → Op (List EventIr × List Applied)
unfolding append_batch
log_emitted emitted applied = do append_batch emitted; pure (emitted, applied)

module _ (new_id : ℕ → String) where
  abbrev pub lifecycle_event :
      String → ActionIr → Option Behavior → Option ℕ → Option String → String → World → EventIr
  lifecycle_event event_type a b due reason cause w = record {
    event_type = event_type;
    source = "kernel";
    payload = lifecycle_payload event_type a b due reason w.scheduler.tick;
    target = some a.actor_id;
    event_id = new_id w.ids;
    causation_id = some (if cause == "" then a.action_id else cause);
    correlation_id = some a.correlation_id;
    timestamp_tick = w.scheduler.tick;
    visibility = "private";
    authority = "runtime";
  }

  -- `_action_lifecycle_event`, which takes the next event id.
  unfoldable pub action_lifecycle_event :
      String → ActionIr → Option Behavior → Option ℕ → Option String → String → Op EventIr
  action_lifecycle_event event_type a b due reason cause w =
      (ok (lifecycle_event event_type a b due reason cause w), record w { ids = w.ids + 1 })

  -- The event of a long action's start or end; there is none for an immediate action.
  abbrev pub boundary_event : String → ActionIr → Option Behavior → Op (List EventIr)
  boundary_event event_type a none w = (ok [], w)
  boundary_event event_type a (some b) w =
      (action_lifecycle_event event_type a (some b) none none a.action_id >>= λ e. pure (e ∷ [])) w

  abbrev pub kernel_event : String → ActionIr → String → String → Fields → Op EventIr
  kernel_event event_type a source visibility payload w = (
    ok (record {
      event_type = event_type;
      source = source;
      payload = payload;
      target = some a.actor_id;
      event_id = new_id w.ids;
      causation_id = some a.action_id;
      correlation_id = some a.correlation_id;
      timestamp_tick = w.scheduler.tick;
      visibility = visibility;
      authority = "runtime";
    }),
    record w { ids = w.ids + 1 },
  )

module _ (fnmatch : String → String → Bool) (callback : String → EventIr → Op (Unit {0}))
    (evaluate : String → ActionIr → World → Outcome KernelError TransitionResult)
    (new_id : ℕ → String) (message_of : KernelError → String) where
  -- The end of `_fail`, with the outcome of the append: the runtime record goes either way.
  abbrev pub fail_with :
      ActionIr → String → List EventIr → Outcome KernelError (Unit {0}) → Op ActionReceipt
  unfolding emit
  fail_with a message emitted (err e) w = (err e, drop_runtime a.action_id w)
  fail_with a message emitted (ok u) w =
      (modify (drop_runtime a.action_id)
          >> emit fnmatch callback emitted
          >> pure (receipt a.action_id failed message emitted []))
        w

  unfoldable pub fail : ActionIr → String → Bool → Op ActionReceipt
  unfolding append_batch
  fail a message lifecycle_started = do
    modify (mark a.action_id failed)
    modify (bump "actions_failed")
    b ← λ w. pure (action_behavior a.verb w) w
    started ← boundary_event new_id "action.started" a (when_started lifecycle_started b)
    event ← kernel_event new_id "action.failed" a "kernel" "private" (failed_payload a message b)
    let emitted : List EventIr = started ++ (event ∷ [])
    λ w. let logged = append_batch emitted w in fail_with a message emitted logged.0 logged.1

  -- The `try` block of `_execute` after the commit: the events, which are logged as one batch.
  abbrev pub log_commit :
      ActionIr
      → ModuleContract
      → TransitionResult
      → List EventIr
      → Option Behavior
      → List Applied
      → Op (List EventIr × List Applied)
  log_commit a m result started b applied = do
    commit_event ←
        kernel_event new_id "state.committed" a m.module_id "audit"
          (field "applied" (list (applied_values applied)) end)
    ended ← boundary_event new_id "action.completed" a b
    λ w.
        log_emitted
          (stamp_all a w.scheduler.tick (started ++ (commit_event ∷ result.events) ++ ended))
          applied w

  -- `state.commit`, for a module.
  unfoldable pub commit_deltas : ModuleContract → TransitionResult → Op (List Applied)
  unfolding commit
  commit_deltas m result w =
      let done = commit fnmatch result.deltas m.write w.cells in (done.0, restore_cells done.1 w)

  abbrev pub judge :
      ActionIr → ModuleContract → TransitionResult → List EventIr → Option Behavior → Op Attempt
  judge a m result started b =
      if result.accepted
      then (commit_deltas m result >>= λ applied.
          log_commit a m result started b applied >>= λ r. pure (logged result.message r.0 r.1))
      else (fail a result.message (is_some b) >>= λ r. pure (answered r))

  unfoldable pub attempt : ActionIr → List EventIr → Option Behavior → Op Attempt
  unfolding module_for
  attempt a started b = do
    m ← λ w. lift (module_for a.verb w) w
    modify (mark a.action_id executing)
    result ← λ w. lift (evaluate m.module_id a w) w
    judge a m result started b

  -- The `except` clauses of `_execute` and what follows the `try`. A `TypeError` is not caught.
  unfoldable pub settle :
      ActionIr → Option Behavior → Cells → Outcome KernelError Attempt → Op ActionReceipt
  unfolding fail emit
  settle a b before (ok (answered r)) w = (ok r, w)
  settle a b before (ok (logged message emitted applied)) w =
      (modify (mark a.action_id completed)
          >> modify (drop_runtime a.action_id)
          >> modify (bump "actions_completed")
          >> emit fnmatch callback emitted
          >> pure (receipt a.action_id completed message emitted (applied_paths applied)))
        w
  settle a b before (err transaction_failed) w =
      (modify (restore_cells before)
          >> modify (mark a.action_id failed)
          >> modify (drop_runtime a.action_id)
          >> modify (bump "actions_failed")
          >> raise transaction_failed)
        w
  settle a b before (err type_error) w = (err type_error, w)
  settle a b before (err e) w =
      (modify (restore_cells before) >> fail a (message_of e) (is_some b)) w

  -- `_execute`.
  unfoldable pub execute : ActionIr → Op ActionReceipt
  unfolding attempt settle
  execute a w =
      let b = scheduled_behavior a.status (action_behavior a.verb w) in
      (boundary_event new_id "action.started" a b >>= λ started w1.
      let tried = attempt a started b w1 in settle a b w.cells tried.0 tried.1)
        w

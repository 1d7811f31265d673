-- ===== src/Kernel/Advance.antt =====
-- kernel.py: `WorldRuntime.advance`. The `except` clauses put back what the tick changed: of the
-- actions, these are the statuses of the queued ones, and the children, which leave `actions`.
pub mod Frame
pub mod Child
pub mod Phases
pub mod Routes
pub mod Tick
mod Tests
use Prim.Native.String.{◌++◌ as append_text}
use compilableworld_runtime.Base.{
  ℕ, ◌+◌, zero, suc, String, Bool, true, false, Option, none, some, List, [], ◌∷◌, ◌++◌, Outcome,
  ok, err, ◌==◌, if◌then◌else◌, string_eq, nat_eq,
}
use compilableworld_runtime.Base.Int.{ℤ, pos_part}
use compilableworld_runtime.Base.Dict.{Dict, lookup, insert, remove}
use compilableworld_runtime.Base.Exec.{pure, raise, lift, ◌>>=◌, ◌>>◌}
use compilableworld_runtime.Kernel.Value.{KernelError, action_missing}
use compilableworld_runtime.Kernel.Models.{
  ActionStatus, failed, ActionIr, EventIr, TransitionResult, ActionReceipt,
}
use compilableworld_runtime.Kernel.Scheduler as Queue
use compilableworld_runtime.Kernel.Scheduler.{Entry, Scheduler}
use compilableworld_runtime.Kernel.World.{
  RetryState, ActionRuntime, World, Op, modify, append_batch, bump, mark, publish,
}
use compilableworld_runtime.Kernel.Runtime.{action_behavior, behavior_of}
use compilableworld_runtime.Kernel.Execution.{receipt, drop_runtime, execute}
use compilableworld_runtime.Kernel.Checkpoint.{
  Verdict, progress, retry, failure, Decision, with_runtime, ensure_runtime,
}
use compilableworld_runtime.Kernel.Checkpoint.Entries.{action_checkpoint_decisions}

abbrev pub put_retry : String → RetryState → ActionRuntime → ActionRuntime
put_retry phase_id s r = record r { retries = insert phase_id s r.retries }

abbrev pub pop_retry : String → ActionRuntime → ActionRuntime
pop_retry phase_id r = record r { retries = remove phase_id r.retries }

abbrev pub pop_retry_of : String → String → Option ActionRuntime → World → World
pop_retry_of action_id phase_id none w = w
pop_retry_of action_id phase_id (some r) w = with_runtime action_id (pop_retry phase_id r) w

-- The entry is in the queue again, due at another tick.
abbrev pub requeue : ℕ → Option Entry → Op (Unit {0})
requeue due none w = (err action_missing, w)
requeue due (some removed) w =
    (ok tt, record w { scheduler = Queue.restore (record removed { due_tick = due }) w.scheduler })

abbrev pub take_entry : String → Op (Option Entry)
take_entry action_id w =
    let (removed, rest) = Queue.remove action_id w.scheduler in
    (ok removed, record w { scheduler = rest })

abbrev pub reroute : Entry → Option ℕ → Op (Unit {0})
reroute entry none w = (ok tt, w)
reroute entry (some due) w =
    if due == entry.due_tick
    then (ok tt, w)
    else (take_entry entry.action_id >>= λ removed. requeue due removed) w

abbrev pub require_entry : Option Entry → Op (Unit {0})
require_entry none w = (err action_missing, w)
require_entry (some e) w = (ok tt, w)

abbrev pub store_retry : String → RetryState → Option ActionIr → Op (Unit {0})
store_retry phase_id s none w = (err action_missing, w)
store_retry phase_id s (some a) w =
    (ensure_runtime a (action_behavior a.verb w) >>= λ r.
    modify (with_runtime a.action_id (put_retry phase_id s r)))
      w

-- What a decision does to the queue, to the runtime records and to the action.
unfoldable pub apply_verdict : Entry → Verdict → Op (Unit {0})
apply_verdict entry (progress phase_id due) = do
  λ w. (ok tt, pop_retry_of entry.action_id phase_id (lookup entry.action_id w.action_runtime) w)
  reroute entry due
apply_verdict entry (retry due phase_id s message) = do
  removed ← take_entry entry.action_id
  requeue due removed
  λ w. store_retry phase_id s (lookup entry.action_id w.actions) w
apply_verdict entry (failure message) = do
  removed ← take_entry entry.action_id
  require_entry removed
  modify (mark entry.action_id failed)
  modify (drop_runtime entry.action_id)

unfoldable pub apply_decisions : List Decision → Op (Unit {0})
apply_decisions [] w = (ok tt, w)
apply_decisions (d ∷ ds) w = (apply_verdict d.entry d.verdict >> apply_decisions ds) w

abbrev pub events_of : List Decision → List EventIr
events_of [] = []
events_of (d ∷ ds) = d.events ++ events_of ds

is_queued : String → List Entry → Bool
is_queued action_id [] = false
is_queued action_id (e ∷ es) =
    let rest = is_queued action_id es in if e.action_id == action_id then true else rest

-- An action object of the dictionary `before`, as it is in `w`; the status that it had before where it
-- was queued.
restored_action : World → World → String → ActionIr → ActionIr
unfolding is_queued
restored_action before w action_id a =
    let now : ActionIr = elim (lookup action_id w.actions) [ none ↦ a | some b ↦ b ] in
    if is_queued action_id before.scheduler.queue then record now { status = a.status } else now

restored_actions : World → World → Dict String ActionIr → Dict String ActionIr
unfolding restored_action
restored_actions before w [] = []
restored_actions before w ((k, a) ∷ m) =
    (k, restored_action before w k a) ∷ restored_actions before w m

-- The `except` clauses of a tick: the statuses of the actions that were queued, and the dictionary of
-- the actions as it was.
unfoldable pub put_back : World → World → World
unfolding restored_actions
put_back before w = record w {
  cells = before.cells;
  scheduler = before.scheduler;
  actions = restored_actions before w before.actions;
  action_runtime = before.action_runtime;
}

abbrev pub at_tick : ℕ → World → World
at_tick tick w = record w { scheduler = record w.scheduler { tick = tick } }

abbrev pub status_of : String → Option ActionIr → ActionStatus
status_of action_id none = failed
status_of action_id (some a) = a.status

-- The counter and the receipt of a decision that is not progress.
abbrev pub receipt_of : Decision → ActionStatus → List ActionReceipt
receipt_of d status = elim d.verdict [
  | progress phase_id due ↦ []
  | retry due phase_id s message ↦ receipt d.entry.action_id status message d.events [] ∷ []
  | failure message ↦ receipt d.entry.action_id status message d.events [] ∷ []
]

abbrev pub count_verdict : Verdict → World → World
count_verdict (progress phase_id due) w = w
count_verdict (retry due phase_id s message) w = bump "actions_retried" w
count_verdict (failure message) w = bump "actions_failed" w

abbrev pub count_child : EventIr → World → World
count_child e w =
    if e.event_type == "action.child_completed"
    then bump "child_actions_completed" w
    else if e.event_type == "action.child_failed"
    then bump "child_actions_failed" w
    else w

module _ (fnmatch : String → String → Bool) (callback : String → EventIr → Op (Unit {0}))
    (evaluate : String → ActionIr → World → Outcome KernelError TransitionResult)
    (new_id : ℕ → String) (message_of : KernelError → String) (decimal : ℕ → String) where
  unfoldable pub announce : List EventIr → Op (Unit {0})
  announce [] w = (ok tt, w)
  announce (e ∷ es) w =
      (modify (count_child e)
          >> publish fnmatch callback e
          >> modify (bump (append_text "event:" e.event_type))
          >> announce es)
        w

  -- The loop after the append: counters, receipts and subscribers.
  unfoldable pub report : List Decision → Op (List ActionReceipt)
  report [] w = (ok [], w)
  report (d ∷ ds) w =
      let status = status_of d.entry.action_id (lookup d.entry.action_id w.actions) in
      (modify (count_verdict d.verdict) >> announce d.events >> report ds >>= λ receipts.
      pure (receipt_of d status ++ receipts))
        w

  abbrev pub execute_known : Option ActionIr → Op ActionReceipt
  execute_known none w = (err action_missing, w)
  execute_known (some a) w = execute fnmatch callback evaluate new_id message_of a w

  unfoldable pub execute_ready : List Entry → Op (List ActionReceipt)
  execute_ready [] w = (ok [], w)
  execute_ready (e ∷ es) w =
      ((λ v. execute_known (lookup e.action_id v.actions) v) >>= λ r.
      execute_ready es >>= λ receipts. pure (r ∷ receipts))
        w

  abbrev pub take_ready : Op (List Entry)
  take_ready w =
      let (ready, rest) = Queue.pop_ready w.scheduler in (ok ready, record w { scheduler = rest })

  -- The `try` block of a tick.
  unfoldable pub attempt_tick : Op (List Decision)
  attempt_tick =
      action_checkpoint_decisions fnmatch callback evaluate new_id message_of decimal
      >>= λ decisions.
          apply_decisions decisions >> (append_batch (events_of decisions) >> pure decisions)

  unfoldable pub settle_tick : World → Outcome KernelError (List Decision) → Op (List ActionReceipt)
  settle_tick before (err e) w = (err e, put_back before w)
  settle_tick before (ok decisions) w =
      (report decisions >>= λ receipts.
      take_ready >>= λ ready. execute_ready ready >>= λ more. pure (receipts ++ more))
        w

  unfoldable pub advance_tick : Op (List ActionReceipt)
  advance_tick w =
      let tried = attempt_tick (at_tick (w.scheduler.tick + 1) w) in settle_tick w tried.0 tried.1

  unfoldable pub advance_ticks : ℕ → Op (List ActionReceipt)
  advance_ticks zero w = (ok [], w)
  advance_ticks (suc n) w =
      (advance_tick >>= λ receipts. advance_ticks n >>= λ more. pure (receipts ++ more)) w

  -- `advance`.
  unfoldable pub advance : ℤ → Op (List ActionReceipt)
  advance ticks w = advance_ticks (pos_part ticks) w

-- ===== src/Kernel/Advance/Tests.antt =====
-- A world in which an action of two phases waits, and its second phase has a condition that may fail.
use compilableworld_runtime.Base.{
  ℕ, ◌+◌, ◌≤◌, String, true, false, ◌≡◌, refl, none, some, List, [], ◌∷◌, map, err, string_eq,
  nat_eq, option_eq,
}
use compilableworld_runtime.Base.Lists.{All}
use compilableworld_runtime.Base.Dict.{lookup, insert}
use compilableworld_runtime.Kernel.Value.{transaction_failed, bool}
use compilableworld_runtime.Kernel.Scheduler as Scheduler
use compilableworld_runtime.Kernel.Behavior.{Condition, Branch, RetryPolicy}
use compilableworld_runtime.Kernel.World.{Phase, Behavior, RetryState, World}
use compilableworld_runtime.Kernel.Runtime.{behavior_of, new_action_runtime_record, find_phase}
use compilableworld_runtime.Kernel.Conditions.{
  action_condition_matches, failed_condition, finite_condition_scalar, bounded_action_retry_policy,
  bounded_action_branches, priorities_of, first_matching,
}
use compilableworld_runtime.Kernel.Conditions.Branches.{bounded_selection, NotAbove}
use compilableworld_runtime.Kernel.Checkpoint.{ensure_runtime, concat}
use compilableworld_runtime.Kernel.Checkpoint.Gate.{
  gate_of, again, enter_phase, child_step, failed_decision,
}
use compilableworld_runtime.Kernel.Checkpoint.Gate.Bounds.{Retries, first, later, retries_end}
use compilableworld_runtime.Kernel.Checkpoint.Phases.{
  choose, progressed, decide_phase, decide_phases,
}
use compilableworld_runtime.Kernel.Checkpoint.Entries.{decisions_of, action_checkpoint_decisions}
use compilableworld_runtime.Kernel.Advance.{attempt_tick, at_tick, apply_decisions, apply_verdict}
use compilableworld_runtime.Kernel.Advance.Tick.{LoggedOrNot, attempt_tick-LoggedOrNot}
use compilableworld_runtime.Kernel.World.{append_batch}
use compilableworld_runtime.Kernel.Execution.Tests.{
  matches, no_callback, message, event_name, open_door, small_world,
}

abbrev decimal : ℕ → String
decimal n = "n"

abbrev unlocked : Condition
unlocked = record {
  condition_id = "unlocked";
  subject = "target";
  namespace = "door";
  key = "open";
  operator = "equals";
  value = bool true;
}

abbrev twice : RetryPolicy
twice = record { max_attempts = 2; interval_ticks = 1; timeout_ticks = 5 }

abbrev prepare : Phase
prepare = record {
  phase_id = "prepare";
  title = "Prepare";
  duration_ticks = 1;
  when = [];
  retry = none;
  child_action = none;
  branches = [];
}

abbrev finish : Phase
finish = record prepare {
  phase_id = "finish";
  title = "Finish";
  duration_ticks = 2;
  when = unlocked ∷ [];
  retry = some twice;
}

abbrev long_open : Behavior
long_open = record {
  verb = "open";
  behavior_id = "long_open";
  title = "Open";
  duration_ticks = 3;
  completion_module = "doors";
  interrupt_on = [];
  static_route = false;
  entry_phase_id = "prepare";
  terminal_phase_id = none;
  phases = prepare ∷ finish ∷ [];
}

abbrev waiting_world : World
waiting_world = record small_world { behaviors = long_open ∷ [] }

-- The disk refuses the event of the first checkpoint.
abbrev full_disk : World
full_disk = record waiting_world { disk = false ∷ [] }

full_disk_fails :
    (attempt_tick matches no_callback open_door event_name message decimal (at_tick 1 full_disk)).0
    ≡ err transaction_failed
unfolding attempt_tick action_checkpoint_decisions decisions_of behavior_of decide_phases
    decide_phase ensure_runtime new_action_runtime_record find_phase choose child_step enter_phase
    failed_condition action_condition_matches failed_decision concat gate_of
    bounded_action_retry_policy progressed apply_decisions apply_verdict append_batch lookup insert
    Scheduler.remove
full_disk_fails = refl

-- The failed condition leaves the action in the queue for another tick, with a retry on record.
abbrev waits_until : World → List ℕ
waits_until w = map (λ e. e.due_tick) w.scheduler.queue

retry_waits :
    waits_until
      (attempt_tick matches no_callback open_door event_name message decimal
        (at_tick 1 waiting_world)).1
    ≡ 4 ∷ []
unfolding attempt_tick action_checkpoint_decisions decisions_of behavior_of decide_phases
    decide_phase ensure_runtime new_action_runtime_record find_phase choose child_step enter_phase
    failed_condition action_condition_matches failed_decision concat gate_of
    bounded_action_retry_policy progressed apply_decisions apply_verdict append_batch lookup insert
    Scheduler.remove Scheduler.restore
retry_waits = refl

attempt_tick-LoggedOrNot_example :
    LoggedOrNot waiting_world
      (attempt_tick matches no_callback open_door event_name message decimal waiting_world).0
      (attempt_tick matches no_callback open_door event_name message decimal waiting_world).1
attempt_tick-LoggedOrNot_example =
    attempt_tick-LoggedOrNot matches no_callback open_door event_name message decimal waiting_world

abbrev retry_state : RetryState
retry_state = record {
  attempts = 1;
  first_failure_tick = 1;
  timeout_at_tick = 6;
  next_retry_tick = 2;
  condition_id = "unlocked";
}

abbrev second_state : RetryState
second_state = record retry_state { attempts = 2; next_retry_tick = 3 }

gate_first : gate_of finish 1 "unlocked" none ≡ again twice retry_state
unfolding gate_of bounded_action_retry_policy
gate_first = refl

gate_second : gate_of finish 2 "unlocked" (some retry_state) ≡ again twice second_state
unfolding gate_of bounded_action_retry_policy
gate_second = refl

abbrev two_retries : Retries finish 2 1 twice second_state
two_retries =
    later 1 1 2 "unlocked" twice twice retry_state second_state
      (first 1 "unlocked" twice retry_state gate_first) gate_second

retries_end_example :
    (finish.retry ≡ some twice) × (second_state.attempts ≡ 2) × (2 ≤ 2) × (2 ≤ 16) × (3 ≤ 1 + 5)
retries_end_example = retries_end finish 2 1 twice second_state two_retries

abbrev knock : Branch
knock = record {
  branch_id = "knock";
  priority = 5;
  when = unlocked ∷ [];
  child_action = none;
  next_phase_id = none;
}

abbrev otherwise : Branch
otherwise = record knock { branch_id = "otherwise"; priority = 1; when = [] }

two_bounded : bounded_action_branches (knock ∷ otherwise ∷ []) ≡ some (knock ∷ otherwise ∷ [])
unfolding bounded_action_branches finite_condition_scalar priorities_of
two_bounded = refl

bounded_selection_example :
    (x : Branch) × (first_matching (λ c. false) (knock ∷ otherwise ∷ []) ≡ some x)
    × All (NotAbove (λ c. false) x.priority) (knock ∷ otherwise ∷ [])
bounded_selection_example =
    bounded_selection (λ c. false) (knock ∷ otherwise ∷ []) (knock ∷ otherwise ∷ []) two_bounded

-- ===== src/Kernel/Checkpoint/Static.antt =====
-- kernel.py: `_static_action_checkpoint_decision`, for a behavior whose branches route it through its
-- phases. The phases of a compiled behavior have distinct ids.
use compilableworld_runtime.Base.{
  ℕ, ◌+◌, String, Bool, true, false, ◌&&◌, Option, none, some, List, [], ◌∷◌, ◌++◌, Outcome, ok,
  err, ◌==◌, if◌then◌else◌, nat_eq, string_eq, option_eq,
}
use compilableworld_runtime.Base.Lists.{length}
use compilableworld_runtime.Base.Dict.{lookup}
use compilableworld_runtime.Base.Exec.{pure, lift, ◌>>=◌, ◌>>◌}
use compilableworld_runtime.Kernel.Value.{Fields, KernelError, module_error, end, field}
use compilableworld_runtime.Kernel.Models.{ActionIr, EventIr, TransitionResult, number}
use compilableworld_runtime.Kernel.Scheduler.{Entry}
use compilableworld_runtime.Kernel.Behavior.{Branch}
use compilableworld_runtime.Kernel.World.{
  Phase, Behavior, Route, RetryState, ActionRuntime, World, Op, modify,
}
use compilableworld_runtime.Kernel.Runtime.{find_phase}
use compilableworld_runtime.Kernel.Execution.{kernel_event}
use compilableworld_runtime.Kernel.Conditions.{
  action_condition_matches, bounded_action_branches, first_matching, branch_of,
}
use compilableworld_runtime.Kernel.Checkpoint.{
  progress, Decision, with_runtime, retried_at, concat, progress_payload, phase_payload,
  code_and_reason,
}
use compilableworld_runtime.Kernel.Checkpoint.Gate.{
  ChildStep, stepped, child_failure, child_step, child_failed_decision, failed_decision,
  enter_phase,
}
use compilableworld_runtime.Kernel.Checkpoint.Phases.{action_branch_event, select_branch}

-- A phase's branch and the phase that it leads to.
pub data Way : Type 0 where
  no_way : Way
  way : Branch → Phase → Way

abbrev pub routed_branches : List Branch → Bool
routed_branches [] = true
routed_branches (b ∷ bs) =
    (elim b.next_phase_id [ none ↦ false | some _ ↦ true ]) && routed_branches bs

abbrev pub all_routed : Option (List Branch) → Outcome KernelError (List Branch)
all_routed none = err module_error
all_routed (some branches) = if routed_branches branches then ok branches else err module_error

-- The ticks at which the route is looked at.
abbrev pub due_at : ℕ → Route → List (String × RetryState) → Bool
due_at tick route [] = route.phase_due_tick == tick
due_at tick route (x ∷ xs) = retried_at tick (x ∷ xs)

abbrev pub phase_named : Option String → List Phase → Option Phase
phase_named none phases = none
phase_named (some phase_id) phases = find_phase phase_id phases

abbrev pub way_with : Branch → Option Phase → Way
way_with branch none = no_way
way_with branch (some next) = way branch next

abbrev pub way_of : Behavior → Option Branch → Way
way_of b none = no_way
way_of b (some branch) = way_with branch (phase_named branch.next_phase_id b.phases)

abbrev pub with_choice : ActionIr → Phase → ActionRuntime → Option Branch → World → World
with_choice a phase r none w = w
with_choice a phase r (some branch) w =
    with_runtime a.action_id (select_branch phase.phase_id branch.branch_id r) w

-- The route after the phase, and the ticks that were spent on it.
abbrev pub advance_route : Route → Phase → Phase → ℕ → Route
advance_route route phase next tick = record {
  current_phase_id = next.phase_id;
  phase_started_tick = tick;
  phase_due_tick = tick + next.duration_ticks;
  elapsed_duration_ticks = route.elapsed_duration_ticks + phase.duration_ticks;
  visited_phase_ids = route.visited_phase_ids ++ (next.phase_id ∷ []);
}

abbrev put_route_in : String → Route → Option ActionRuntime → World → World
put_route_in action_id route none w = w
put_route_in action_id route (some r) w = with_runtime action_id (record r { route = some route }) w

-- The record is looked up again: the child's step may have been added to it.
abbrev pub put_route : String → Route → World → World
put_route action_id route w = put_route_in action_id route (lookup action_id w.action_runtime) w

abbrev pub is_terminal : Behavior → Phase → Bool
is_terminal b next = some next.phase_id == b.terminal_phase_id

abbrev pub due_fields : Bool → ℕ → Fields
due_fields terminal due =
    field "phase_due_tick" (number due)
      (if terminal then field "due_tick" (number due) end else end)

module _ (fnmatch : String → String → Bool) (callback : String → EventIr → Op (Unit {0}))
    (evaluate : String → ActionIr → World → Outcome KernelError TransitionResult)
    (new_id : ℕ → String) (message_of : KernelError → String) (decimal : ℕ → String) where
  -- The choice of the branch: the one that was kept, or the first that matches.
  abbrev pub choose_way :
      ActionIr → Behavior → Phase → ActionRuntime → List Branch → Option String → Op Way
  choose_way a b phase r branches (some branch_id) w =
      (ok (way_of b (branch_of branch_id branches)), w)
  choose_way a b phase r branches none w =
      let first = first_matching (λ c. action_condition_matches a w c) branches in
      (ok (way_of b first), with_choice a phase r first w)

  -- The event of a branch that is chosen now.
  abbrev pub branch_events :
      ActionIr → Behavior → Phase → Branch → Phase → Option String → Op (List EventIr)
  branch_events a b phase branch next (some kept) w = (ok [], w)
  branch_events a b phase branch next none w =
      (action_branch_event fnmatch callback evaluate new_id message_of decimal a b phase branch next
          >>= λ event. pure (event ∷ []))
        w

  unfoldable pub route_onward :
      ActionIr → Behavior → Phase → Phase → Entry → Route → List EventIr → Op Decision
  route_onward a b phase next entry route events w =
      let tick = w.scheduler.tick in
      let moved = advance_route route phase next tick in
      (modify (put_route a.action_id moved)
          >> kernel_event new_id "action.progressed" a "kernel" "private" (
              progress_payload a b phase next (length route.visited_phase_ids) (length b.phases)
                moved.elapsed_duration_ticks (due_fields (is_terminal b next) moved.phase_due_tick))
          >>= λ event. pure (record {
            events = events ++ (event ∷ []);
            entry = entry;
            verdict =
                progress next.phase_id
                  (if is_terminal b next then some moved.phase_due_tick else none);
          }))
        w

  abbrev pub after_route_step :
      ActionIr → Behavior → Phase → Phase → Entry → Route → List EventIr → ChildStep → Op Decision
  after_route_step a b phase next entry route events (child_failure spec r) =
      child_failed_decision fnmatch callback evaluate new_id message_of decimal a b phase entry
        events spec r
  after_route_step a b phase next entry route events (stepped more) =
      enter_phase fnmatch callback evaluate new_id message_of decimal a b next entry
        (events ++ more) (route_onward a b phase next entry route (events ++ more))

  abbrev pub route_message : Behavior → Phase → String
  route_message b phase =
      concat ("Action " ∷ b.title ∷ " has no valid static route at phase " ∷ phase.title ∷ [])

  abbrev pub take_way :
      ActionIr → Behavior → Phase → Entry → Route → Option String → Way → Op Decision
  take_way a b phase entry route kept no_way =
      failed_decision fnmatch callback evaluate new_id message_of decimal a entry []
        (phase_payload a b phase.phase_id
          (code_and_reason "route_unresolved" (route_message b phase)))
        (route_message b phase)
  take_way a b phase entry route kept (way branch next) = do
    events ← branch_events a b phase branch next kept
    step ←
        child_step fnmatch callback evaluate new_id message_of decimal a b phase branch.child_action
    after_route_step a b phase next entry route events step

  abbrev pub decide_route :
      ActionIr
      → Behavior
      → Phase
      → Entry
      → ActionRuntime
      → Route
      → List Branch
      → Op (Option Decision)
  decide_route a b phase entry r route branches w =
      let kept = lookup phase.phase_id r.selected_branches in
      if due_at w.scheduler.tick route r.retries
      then (choose_way a b phase r branches kept >>= λ chosen.
            take_way a b phase entry route kept chosen >>= λ d. pure (some d))
          w
      else (ok none, w)

  -- A phase without branches is the last one.
  abbrev pub decide_at :
      ActionIr
      → Behavior
      → Phase
      → Entry
      → ActionRuntime
      → Route
      → List Branch
      → Op (Option Decision)
  decide_at a b phase entry r route [] w = (ok none, w)
  decide_at a b phase entry r route (x ∷ xs) w =
      (lift (all_routed (bounded_action_branches (x ∷ xs))) >>= λ branches.
      decide_route a b phase entry r route branches)
        w

  abbrev pub decide_phase_of :
      ActionIr → Behavior → Entry → ActionRuntime → Route → Option Phase → Op (Option Decision)
  decide_phase_of a b entry r route none w = (err module_error, w)
  decide_phase_of a b entry r route (some phase) w =
      decide_at a b phase entry r route phase.branches w

  abbrev pub decide_routed :
      ActionIr → Behavior → Entry → ActionRuntime → Option Route → Op (Option Decision)
  decide_routed a b entry r none w = (err module_error, w)
  decide_routed a b entry r (some route) w =
      decide_phase_of a b entry r route (find_phase route.current_phase_id b.phases) w

  abbrev pub decide_record :
      ActionIr → Behavior → Entry → Option ActionRuntime → Op (Option Decision)
  decide_record a b entry none w = (err module_error, w)
  decide_record a b entry (some r) w = decide_routed a b entry r r.route w

  -- `_static_action_checkpoint_decision`.
  unfoldable pub static_decision : ActionIr → Behavior → Entry → Op (Option Decision)
  static_decision a b entry w = decide_record a b entry (lookup a.action_id w.action_runtime) w

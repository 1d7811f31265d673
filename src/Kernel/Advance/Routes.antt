-- ===== src/Kernel/Advance/Routes.antt =====
-- kernel.py: the checkpoints of a static route, and those of all queued actions, write neither the log
-- nor the counters.
use compilableworld_runtime.Base.{
  arith, ℕ, String, Bool, ◌≡◌, refl, Option, none, some, List, [], ◌∷◌, ◌++◌, Outcome, string_eq,
  nat_eq,
}
use compilableworld_runtime.Base.Dict.{lookup}
use compilableworld_runtime.Base.Exec.{pure, lift, ◌>>=◌}
use compilableworld_runtime.Kernel.Value.{KernelError}
use compilableworld_runtime.Kernel.Models.{ActionIr, EventIr, TransitionResult}
use compilableworld_runtime.Kernel.Scheduler.{Entry}
use compilableworld_runtime.Kernel.Behavior.{Branch}
use compilableworld_runtime.Kernel.World.{Phase, Behavior, Route, ActionRuntime, World, Op}
use compilableworld_runtime.Kernel.Runtime.{action_behavior, find_phase}
use compilableworld_runtime.Kernel.Conditions.{bounded_action_branches}
use compilableworld_runtime.Kernel.Checkpoint.Gate.{
  ChildStep, stepped, child_failure, child_step, failed_decision, child_failed_decision,
}
use compilableworld_runtime.Kernel.Checkpoint.Static.{
  Way, no_way, way, choose_way, branch_events, after_route_step, route_onward, take_way,
  decide_route, decide_at, decide_phase_of, decide_routed, decide_record, static_decision,
  all_routed,
}
use compilableworld_runtime.Kernel.Checkpoint.Entries.{
  as_list, behavior_decisions, entry_decisions, decisions_of,
}
use compilableworld_runtime.Kernel.Advance.Frame.{logged_part, unlogged_bind}
use compilableworld_runtime.Kernel.Advance.Child.{child_step-unlogged, enter_phase-unlogged}
use compilableworld_runtime.Kernel.Advance.Phases.{decide_phases-unlogged}

module _ (fnmatch : String → String → Bool) (callback : String → EventIr → Op (Unit {0}))
    (evaluate : String → ActionIr → World → Outcome KernelError TransitionResult)
    (new_id : ℕ → String) (message_of : KernelError → String) (decimal : ℕ → String) where
  after_route_step-unlogged :
      (a : ActionIr) (b : Behavior) (phase next : Phase) (entry : Entry) (route : Route)
      (events : List EventIr) (step : ChildStep) (w : World)
      → logged_part
          (after_route_step fnmatch callback evaluate new_id message_of decimal a b phase next entry
            route events step w).1
        ≡ logged_part w
  unfolding child_failed_decision failed_decision route_onward
  after_route_step-unlogged a b phase next entry route events (child_failure spec r) w = refl
  after_route_step-unlogged a b phase next entry route events (stepped more) w =
      enter_phase-unlogged fnmatch callback evaluate new_id message_of decimal a b next entry
        (events ++ more)
        (route_onward fnmatch callback evaluate new_id message_of decimal a b phase next entry route
          (events ++ more))
        w (ground arith)

  take_way-unlogged :
      (a : ActionIr) (b : Behavior) (phase : Phase) (entry : Entry) (route : Route)
      (kept : Option String) (x : Way) (w : World)
      → logged_part
          (take_way fnmatch callback evaluate new_id message_of decimal a b phase entry route kept x
            w).1
        ≡ logged_part w
  unfolding failed_decision
  take_way-unlogged a b phase entry route kept no_way w = refl
  take_way-unlogged a b phase entry route kept (way branch next) w =
      unlogged_bind
        (branch_events fnmatch callback evaluate new_id message_of decimal a b phase branch next
          kept)
        (λ events.
          child_step fnmatch callback evaluate new_id message_of decimal a b phase
            branch.child_action
          >>= λ step.
              after_route_step fnmatch callback evaluate new_id message_of decimal a b phase next
                entry route events step)
        w (ground arith)
        (λ events v.
          unlogged_bind
            (child_step fnmatch callback evaluate new_id message_of decimal a b phase
              branch.child_action)
            (after_route_step fnmatch callback evaluate new_id message_of decimal a b phase next
              entry route events)
            v
            (child_step-unlogged fnmatch callback evaluate new_id message_of decimal a b phase
              branch.child_action v)
            (after_route_step-unlogged a b phase next entry route events))

  choose_way-unlogged :
      (a : ActionIr) (b : Behavior) (phase : Phase) (r : ActionRuntime) (branches : List Branch)
      (kept : Option String) (w : World)
      → logged_part
          (choose_way fnmatch callback evaluate new_id message_of decimal a b phase r branches kept
            w).1
        ≡ logged_part w
  choose_way-unlogged a b phase r branches kept w = ground arith

  decide_route-unlogged :
      (a : ActionIr) (b : Behavior) (phase : Phase) (entry : Entry) (r : ActionRuntime)
      (route : Route) (branches : List Branch) (w : World)
      → logged_part
          (decide_route fnmatch callback evaluate new_id message_of decimal a b phase entry r route
            branches w).1
        ≡ logged_part w
  decide_route-unlogged a b phase entry r route branches w =
      let kept = lookup phase.phase_id r.selected_branches in
      let taken =
        unlogged_bind
          (choose_way fnmatch callback evaluate new_id message_of decimal a b phase r branches kept)
          (λ x.
            take_way fnmatch callback evaluate new_id message_of decimal a b phase entry route kept
              x
            >>= λ d. pure (some d))
          w (choose_way-unlogged a b phase r branches kept w)
          (λ x v.
            unlogged_bind
              (take_way fnmatch callback evaluate new_id message_of decimal a b phase entry route
                kept x)
              (λ d. pure (some d)) v (take_way-unlogged a b phase entry route kept x v)
              (λ d u. refl)) in
      ground (arith, taken)

  decide_at-unlogged :
      (a : ActionIr) (b : Behavior) (phase : Phase) (entry : Entry) (r : ActionRuntime)
      (route : Route) (branches : List Branch) (w : World)
      → logged_part
          (decide_at fnmatch callback evaluate new_id message_of decimal a b phase entry r route
            branches w).1
        ≡ logged_part w
  decide_at-unlogged a b phase entry r route [] w = refl
  decide_at-unlogged a b phase entry r route (x ∷ xs) w =
      unlogged_bind (lift (all_routed (bounded_action_branches (x ∷ xs))))
        (decide_route fnmatch callback evaluate new_id message_of decimal a b phase entry r route) w
        refl (decide_route-unlogged a b phase entry r route)

  decide_phase_of-unlogged :
      (a : ActionIr) (b : Behavior) (entry : Entry) (r : ActionRuntime) (route : Route)
      (phase : Option Phase) (w : World)
      → logged_part
          (decide_phase_of fnmatch callback evaluate new_id message_of decimal a b entry r route
            phase w).1
        ≡ logged_part w
  decide_phase_of-unlogged a b entry r route none w = refl
  decide_phase_of-unlogged a b entry r route (some phase) w =
      decide_at-unlogged a b phase entry r route phase.branches w

  decide_routed-unlogged :
      (a : ActionIr) (b : Behavior) (entry : Entry) (r : ActionRuntime) (route : Option Route)
      (w : World)
      → logged_part
          (decide_routed fnmatch callback evaluate new_id message_of decimal a b entry r route w).1
        ≡ logged_part w
  decide_routed-unlogged a b entry r none w = refl
  decide_routed-unlogged a b entry r (some route) w =
      decide_phase_of-unlogged a b entry r route (find_phase route.current_phase_id b.phases) w

  decide_record-unlogged :
      (a : ActionIr) (b : Behavior) (entry : Entry) (r : Option ActionRuntime) (w : World)
      → logged_part
          (decide_record fnmatch callback evaluate new_id message_of decimal a b entry r w).1
        ≡ logged_part w
  decide_record-unlogged a b entry none w = refl
  decide_record-unlogged a b entry (some r) w = decide_routed-unlogged a b entry r r.route w

  static_decision-unlogged :
      (a : ActionIr) (b : Behavior) (entry : Entry) (w : World)
      → logged_part
          (static_decision fnmatch callback evaluate new_id message_of decimal a b entry w).1
        ≡ logged_part w
  unfolding static_decision
  static_decision-unlogged a b entry w =
      decide_record-unlogged a b entry (lookup a.action_id w.action_runtime) w

  behavior_decisions-unlogged :
      (a : ActionIr) (entry : Entry) (b : Option Behavior) (w : World)
      → logged_part
          (behavior_decisions fnmatch callback evaluate new_id message_of decimal a entry b w).1
        ≡ logged_part w
  behavior_decisions-unlogged a entry none w = refl
  behavior_decisions-unlogged a entry (some b) w =
      let routed =
        unlogged_bind
          (static_decision fnmatch callback evaluate new_id message_of decimal a b entry)
          (λ d. pure (as_list d)) w (static_decision-unlogged a b entry w) (λ d v. refl) in
      let sequenced =
        decide_phases-unlogged fnmatch callback evaluate new_id message_of decimal a b entry 0 0
          b.phases w in
      ground (arith, routed, sequenced)

  entry_decisions-unlogged :
      (entry : Entry) (a : Option ActionIr) (w : World)
      → logged_part
          (entry_decisions fnmatch callback evaluate new_id message_of decimal entry a w).1
        ≡ logged_part w
  entry_decisions-unlogged entry none w = refl
  entry_decisions-unlogged entry (some a) w =
      behavior_decisions-unlogged a entry (action_behavior a.verb w) w

  pub decisions_of-unlogged :
      (entries : List Entry) (w : World)
      → logged_part (decisions_of fnmatch callback evaluate new_id message_of decimal entries w).1
        ≡ logged_part w
  unfolding decisions_of
  decisions_of-unlogged [] w = refl
  decisions_of-unlogged (entry ∷ rest) w =
      let later = decisions_of fnmatch callback evaluate new_id message_of decimal rest in
      unlogged_bind
        (λ v.
          entry_decisions fnmatch callback evaluate new_id message_of decimal entry
            (lookup entry.action_id v.actions) v)
        (λ ds. later >>= λ more. pure (ds ++ more)) w
        (entry_decisions-unlogged entry (lookup entry.action_id w.actions) w)
        (λ ds v.
          unlogged_bind later (λ more. pure (ds ++ more)) v (decisions_of-unlogged rest v)
            (λ more u. refl))

-- ===== src/Kernel/Checkpoint/Phases.antt =====
-- kernel.py: `_action_checkpoint_decisions` for a behavior whose phases follow each other.
use compilableworld_runtime.Base.{
  ℕ, ◌+◌, String, Bool, Option, none, some, List, [], ◌∷◌, ◌++◌, Outcome, ok, ◌==◌, if◌then◌else◌,
  nat_eq, string_eq,
}
use compilableworld_runtime.Base.Lists.{length}
use compilableworld_runtime.Base.Dict.{lookup, insert}
use compilableworld_runtime.Base.Exec.{pure, ◌>>=◌, ◌>>◌}
use compilableworld_runtime.Kernel.Value.{KernelError, end}
use compilableworld_runtime.Kernel.Models.{ActionIr, EventIr, TransitionResult}
use compilableworld_runtime.Kernel.Scheduler.{Entry}
use compilableworld_runtime.Kernel.Behavior.{ChildSpec, Branch}
use compilableworld_runtime.Kernel.World.{Phase, Behavior, ActionRuntime, World, Op, modify}
use compilableworld_runtime.Kernel.Execution.{kernel_event}
use compilableworld_runtime.Kernel.Conditions.{
  action_condition_matches, bounded_action_branches, first_matching, branch_of,
}
use compilableworld_runtime.Kernel.Checkpoint.{
  progress, Decision, with_runtime, ensure_runtime, concat, branch_payload, progress_payload,
  phase_payload, code_and_reason,
}
use compilableworld_runtime.Kernel.Checkpoint.Gate.{
  ChildStep, stepped, child_failure, child_step, child_failed_decision, failed_decision,
  enter_phase,
}

-- The child to run, and the events so far; there is none where no branch can be chosen.
pub data Chosen : Type 0 where
  unresolved : Chosen
  chosen : Option ChildSpec → List EventIr → Chosen

abbrev pub choose_of : Option Branch → Chosen
choose_of none = unresolved
choose_of (some branch) = chosen branch.child_action []

abbrev pub branch_in : String → Option (List Branch) → Option Branch
branch_in branch_id none = none
branch_in branch_id (some branches) = branch_of branch_id branches

-- The choice sticks: it is kept for the later ticks.
abbrev pub select_branch : String → String → ActionRuntime → ActionRuntime
select_branch phase_id branch_id r = record r {
  selected_branches = insert phase_id branch_id r.selected_branches;
}

module _ (fnmatch : String → String → Bool) (callback : String → EventIr → Op (Unit {0}))
    (evaluate : String → ActionIr → World → Outcome KernelError TransitionResult)
    (new_id : ℕ → String) (message_of : KernelError → String) (decimal : ℕ → String) where
  -- `_action_branch_event`.
  abbrev pub action_branch_event : ActionIr → Behavior → Phase → Branch → Phase → Op EventIr
  action_branch_event a b phase branch next =
      kernel_event new_id "action.branch_selected" a "kernel" "private"
        (branch_payload a b phase branch next)

  abbrev pub choose_first :
      ActionIr → Behavior → Phase → Phase → ActionRuntime → Option Branch → Op Chosen
  choose_first a b phase next r none w = (ok unresolved, w)
  choose_first a b phase next r (some branch) w =
      (modify (with_runtime a.action_id (select_branch phase.phase_id branch.branch_id r))
          >> action_branch_event a b phase branch next
          >>= λ event. pure (chosen branch.child_action (event ∷ [])))
        w

  abbrev pub choose_new :
      ActionIr → Behavior → Phase → Phase → ActionRuntime → Option (List Branch) → Op Chosen
  choose_new a b phase next r none w = (ok unresolved, w)
  choose_new a b phase next r (some branches) w =
      choose_first a b phase next r (first_matching (λ c. action_condition_matches a w c) branches)
        w

  abbrev pub choose_bounded :
      ActionIr
      → Behavior
      → Phase
      → Phase
      → ActionRuntime
      → Option String
      → Option (List Branch)
      → Op Chosen
  choose_bounded a b phase next r none branches w = choose_new a b phase next r branches w
  choose_bounded a b phase next r (some branch_id) branches w =
      (ok (choose_of (branch_in branch_id branches)), w)

  abbrev pub choose_with :
      ActionIr → Behavior → Phase → Phase → ActionRuntime → List Branch → Op Chosen
  choose_with a b phase next r [] w = (ok (chosen phase.child_action []), w)
  choose_with a b phase next r (x ∷ xs) w =
      choose_bounded a b phase next r (lookup phase.phase_id r.selected_branches)
        (bounded_action_branches (x ∷ xs)) w

  unfoldable pub choose : ActionIr → Behavior → Phase → Phase → ActionRuntime → Op Chosen
  choose a b phase next r w = choose_with a b phase next r phase.branches w

  -- The event that ends a checkpoint which the action passes.
  unfoldable pub progressed :
      ActionIr → Behavior → Phase → Phase → Entry → ℕ → ℕ → List EventIr → Op Decision
  progressed a b phase next entry index cumulative events = do
    event ←
        kernel_event new_id "action.progressed" a "kernel" "private"
          (progress_payload a b phase next index (length b.phases) cumulative end)
    pure (record {
      events = events ++ (event ∷ []);
      entry = entry;
      verdict = progress next.phase_id none;
    })

  abbrev pub after_step :
      ActionIr → Behavior → Phase → Phase → Entry → ℕ → ℕ → List EventIr → ChildStep → Op Decision
  after_step a b phase next entry index cumulative events (child_failure spec r) =
      child_failed_decision fnmatch callback evaluate new_id message_of decimal a b phase entry
        events spec r
  after_step a b phase next entry index cumulative events (stepped more) =
      enter_phase fnmatch callback evaluate new_id message_of decimal a b next entry
        (events ++ more) (progressed a b phase next entry index cumulative (events ++ more))

  abbrev pub branch_message : Behavior → Phase → String
  branch_message b phase =
      concat ("Action " ∷ b.title ∷ " has no valid branch at phase " ∷ phase.title ∷ [])

  abbrev pub after_choice :
      ActionIr → Behavior → Phase → Phase → Entry → ℕ → ℕ → Chosen → Op Decision
  after_choice a b phase next entry index cumulative unresolved =
      failed_decision fnmatch callback evaluate new_id message_of decimal a entry []
        (phase_payload a b phase.phase_id
          (code_and_reason "branch_unresolved" (branch_message b phase)))
        (branch_message b phase)
  after_choice a b phase next entry index cumulative (chosen spec events) =
      child_step fnmatch callback evaluate new_id message_of decimal a b phase spec >>= λ step.
      after_step a b phase next entry index cumulative events step

  -- The body of the loop over the phases, at the tick at which the phase `index - 1` ends.
  unfoldable pub decide_phase : ActionIr → Behavior → Phase → Phase → Entry → ℕ → ℕ → Op Decision
  decide_phase a b phase next entry index cumulative = do
    r ← ensure_runtime a (some b)
    c ← choose a b phase next r
    after_choice a b phase next entry index cumulative c

  -- The loop over the phases but the last. `elapsed == cumulative`, where the elapsed ticks are those
  -- since `due_tick - duration_ticks`.
  unfoldable pub decide_phases :
      ActionIr → Behavior → Entry → ℕ → ℕ → List Phase → Op (List Decision)
  decide_phases a b entry index cumulative [] w = (ok [], w)
  decide_phases a b entry index cumulative (phase ∷ []) w = (ok [], w)
  decide_phases a b entry index cumulative (phase ∷ next ∷ rest) w =
      let reached : ℕ = cumulative + phase.duration_ticks in
      let others = decide_phases a b entry (index + 1) reached (next ∷ rest) in
      if (w.scheduler.tick + b.duration_ticks) == (entry.due_tick + reached)
      then (decide_phase a b phase next entry (index + 1) reached >>= λ d.
            others >>= λ ds. pure (d ∷ ds))
          w
      else others w

-- ===== src/Kernel/Checkpoint/Entries.antt =====
-- kernel.py: the loop of `_action_checkpoint_decisions` over the queued actions.
use compilableworld_runtime.Base.{
  ℕ, String, Bool, Option, none, some, List, [], ◌∷◌, ◌++◌, Outcome, ok, err, leb, if◌then◌else◌,
  string_eq,
}
use compilableworld_runtime.Base.Lists.{length}
use compilableworld_runtime.Base.Dict.{lookup}
use compilableworld_runtime.Base.Exec.{pure, ◌>>=◌}
use compilableworld_runtime.Kernel.Value.{KernelError, action_missing}
use compilableworld_runtime.Kernel.Models.{ActionIr, EventIr, TransitionResult}
use compilableworld_runtime.Kernel.Scheduler.{Entry}
use compilableworld_runtime.Kernel.World.{Behavior, World, Op}
use compilableworld_runtime.Kernel.Runtime.{action_behavior}
use compilableworld_runtime.Kernel.Checkpoint.{Decision, retries_of, retry_passes}
use compilableworld_runtime.Kernel.Checkpoint.Phases.{decide_phases}
use compilableworld_runtime.Kernel.Checkpoint.Static.{static_decision}

abbrev pub as_list : Option Decision → List Decision
as_list none = []
as_list (some d) = d ∷ []

module _ (fnmatch : String → String → Bool) (callback : String → EventIr → Op (Unit {0}))
    (evaluate : String → ActionIr → World → Outcome KernelError TransitionResult)
    (new_id : ℕ → String) (message_of : KernelError → String) (decimal : ℕ → String) where
  abbrev pub sequence_decisions : ActionIr → Behavior → Entry → Op (List Decision)
  sequence_decisions a b entry w =
      if retry_passes w.scheduler.tick (retries_of (lookup a.action_id w.action_runtime))
      then decide_phases fnmatch callback evaluate new_id message_of decimal a b entry 0 0 b.phases
          w
      else (ok [], w)

  abbrev pub behavior_decisions : ActionIr → Entry → Option Behavior → Op (List Decision)
  behavior_decisions a entry none w = (ok [], w)
  behavior_decisions a entry (some b) w =
      if leb 2 (length b.phases)
      then (if b.static_route
          then (static_decision fnmatch callback evaluate new_id message_of decimal a b entry
                >>= λ d. pure (as_list d))
              w
          else sequence_decisions a b entry w)
      else (ok [], w)

  -- The queue holds the action objects; here they are those of `actions`.
  abbrev pub entry_decisions : Entry → Option ActionIr → Op (List Decision)
  entry_decisions entry none w = (err action_missing, w)
  entry_decisions entry (some a) w = behavior_decisions a entry (action_behavior a.verb w) w

  unfoldable pub decisions_of : List Entry → Op (List Decision)
  decisions_of [] w = (ok [], w)
  decisions_of (entry ∷ rest) w =
      ((λ v. entry_decisions entry (lookup entry.action_id v.actions) v) >>= λ ds.
      decisions_of rest >>= λ more. pure (ds ++ more))
        w

  -- `_action_checkpoint_decisions`, over `scheduler.entries()` as they stand at its start.
  unfoldable pub action_checkpoint_decisions : Op (List Decision)
  action_checkpoint_decisions w = decisions_of w.scheduler.queue w

-- ===== src/Kernel/Admission.antt =====
-- kernel.py: what `WorldRuntime.submit` checks before it takes an action.
use compilableworld_runtime.Base.{
  String, Bool, false, not, ◌&&◌, ◌||◌, Option, none, some, List, [], ◌∷◌, Outcome, ok, guard, ◌==◌,
  string_eq, nat_eq,
}
use compilableworld_runtime.Base.Raising.{◌>>=◌, ◌>>◌}
use compilableworld_runtime.Base.Int.{ℤ, pos, beq_ℤ}
use compilableworld_runtime.Base.Dict.{lookup, is_in}
use compilableworld_runtime.Kernel.Value.{
  KernelError, unknown_actor, completion_mismatch, duration_fixed, actor_is_busy,
}
use compilableworld_runtime.Kernel.Models.{ActionIr, ModuleContract}
use compilableworld_runtime.Kernel.Scheduler.{Entry}
use compilableworld_runtime.Kernel.World.{Behavior, World}
use compilableworld_runtime.Kernel.Runtime.{action_behavior, module_for}
use compilableworld_runtime.Kernel.Execution.{is_some}

-- Whether a long action of the actor waits in the queue.
pub has_long_action : String → World → List Entry → Bool
has_long_action actor_id w [] = false
has_long_action actor_id w (e ∷ es) = elim (lookup e.action_id w.actions) [
  | none ↦ has_long_action actor_id w es
  | some a ↦
      ((a.actor_id == actor_id) && is_some (action_behavior a.verb w))
      || has_long_action actor_id w es
]

abbrev pub check_behavior :
    ActionIr → ModuleContract → ℤ → World → Option Behavior → Outcome KernelError ℤ
unfolding has_long_action
check_behavior a m delay w none = ok delay
check_behavior a m delay w (some b) = do
  guard (m.module_id == b.completion_module) completion_mismatch
  guard (beq_ℤ delay (pos 0) || beq_ℤ delay (pos b.duration_ticks)) duration_fixed
  guard (not (has_long_action a.actor_id w w.scheduler.queue)) actor_is_busy
  ok (pos b.duration_ticks)

-- The checks of `submit`, each of which fails the action, and the delay that they settle on.
unfoldable pub admit : ActionIr → ℤ → World → Outcome KernelError ℤ
unfolding module_for
admit a delay w = do
  guard (is_in a.actor_id w.entities) unknown_actor
  m ← module_for a.verb w
  check_behavior a m delay w (action_behavior a.verb w)

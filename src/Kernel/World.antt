-- ===== src/Kernel/World.antt =====
-- kernel.py: the state of a `WorldRuntime`, `EntityRegistry`, `EventLog` and `EventBus`. The disk
-- under the log is `disk`, a list that says of each coming write whether it succeeds; a log without a
-- file has an empty one. An event takes its id from `new_id`, of a counter.
use Prim.Native.String.{◌++◌ as append_text}
use compilableworld_runtime.Base.{
  ℕ, ◌+◌, String, Bool, true, false, Option, none, some, List, [], ◌∷◌, ◌++◌, ok, err,
  if◌then◌else◌, string_eq,
}
use compilableworld_runtime.Base.Dict.{Dict, lookup, insert, is_in}
use compilableworld_runtime.Base.Exec.{Exec, pure, ◌>>◌}
use compilableworld_runtime.Kernel.Value.{KernelError, transaction_failed, duplicate_entity}
use compilableworld_runtime.Kernel.State.{Cells}
use compilableworld_runtime.Kernel.Models.{Entity, ActionIr, ActionStatus, EventIr, ModuleContract}
use compilableworld_runtime.Kernel.Scheduler.{Scheduler}
pub use compilableworld_runtime.Kernel.Behavior.{Phase, Behavior, Route, RetryState, ActionRuntime}

-- The values of `actions` are the action objects; the queue names them by their ids.
pub record World : Type 0 where
  pub behaviors : List Behavior
  pub entities : Dict String Entity
  pub dynamic_entities : List String
  pub cells : Cells
  pub subscribers : Dict String (List String)
  pub events : List EventIr
  pub disk : List Bool
  pub ids : ℕ
  pub scheduler : Scheduler
  pub modules : List ModuleContract
  pub actions : Dict String ActionIr
  pub action_runtime : Dict String ActionRuntime
  pub metrics : Dict String ℕ

abbrev pub Op : Type 0 → Type 0
Op A = Exec World KernelError A

abbrev pub modify : (World → World) → Op (Unit {0})
modify f w = (ok tt, f w)

-- `EntityRegistry.add`.
unfoldable pub add_entity : Entity → Op (Unit {0})
add_entity e w =
    if is_in e.entity_id w.entities
    then (err duplicate_entity, w)
    else (ok tt, record w { entities = insert e.entity_id e w.entities })

-- `EventLog.append_batch`: a failed write is cut off the file again.
abbrev pub write_batch : List EventIr → List Bool → Op (Unit {0})
write_batch batch [] w = (ok tt, record w { events = w.events ++ batch })
write_batch batch (true ∷ rest) w = (ok tt, record w { events = w.events ++ batch; disk = rest })
write_batch batch (false ∷ rest) w = (err transaction_failed, record w { disk = rest })

unfoldable pub append_batch : List EventIr → Op (Unit {0})
append_batch [] w = (ok tt, w)
append_batch (e ∷ es) w = write_batch (e ∷ es) w.disk w

-- `metrics[name] += 1`.
abbrev or_none : Option ℕ → ℕ
or_none none = 0
or_none (some n) = n

abbrev pub bump : String → World → World
bump name w = record w { metrics = insert name (or_none (lookup name w.metrics) + 1) w.metrics }

abbrev pub set_status : ActionStatus → Option ActionIr → Dict String ActionIr → Dict String ActionIr
set_status status none actions = actions
set_status status (some a) actions = insert a.action_id (record a { status = status }) actions

-- `action.status = status`.
abbrev pub mark : String → ActionStatus → World → World
mark action_id status w = record w {
  actions = set_status status (lookup action_id w.actions) w.actions;
}

module _ (fnmatch : String → String → Bool) (callback : String → EventIr → Op (Unit {0})) where
  unfoldable pub callbacks_of : String → Dict String (List String) → List String
  callbacks_of event_type [] = []
  callbacks_of event_type ((pattern', names) ∷ rest) =
      let others = callbacks_of event_type rest in
      if fnmatch event_type pattern' then names ++ others else others

  unfoldable pub run_callbacks : List String → EventIr → Op (Unit {0})
  run_callbacks [] e = pure tt
  run_callbacks (c ∷ cs) e = callback c e >> run_callbacks cs e

  -- `EventBus.publish`: what a callback raises goes on to the caller.
  unfoldable pub publish : EventIr → Op (Unit {0})
  unfolding callbacks_of run_callbacks
  publish e w = run_callbacks (callbacks_of e.event_type w.subscribers) e w

  -- The loop that publishes the events that were logged, and counts them.
  unfoldable pub emit : List EventIr → Op (Unit {0})
  unfolding publish
  emit [] = pure tt
  emit (e ∷ es) = publish e >> modify (bump (append_text "event:" e.event_type)) >> emit es

-- ===== src/Kernel/EntityTransaction/Tests.antt =====
-- A module that creates an entity, on a disk that refuses the write and on one that takes it.
use compilableworld_runtime.Base.{
  String, Bool, true, false, ◌≡◌, refl, [], ◌∷◌, Outcome, ok, string_eq,
}
use compilableworld_runtime.Base.Dict.{is_in, lookup, insert}
use compilableworld_runtime.Kernel.Value.{KernelError, end}
use compilableworld_runtime.Kernel.State.{commit}
use compilableworld_runtime.Kernel.Models.{ActionIr, TransitionResult}
use compilableworld_runtime.Kernel.World.{World, append_batch, add_entity, emit, publish}
use compilableworld_runtime.Kernel.Runtime.{behavior_of, module_for}
use compilableworld_runtime.Kernel.Execution.{commit_deltas, action_lifecycle_event}
use compilableworld_runtime.Kernel.Execution.Tests.{
  matches, no_callback, message, event_name, open_action, small_world,
}
use compilableworld_runtime.Kernel.Execution.Atomic.{begun}
use compilableworld_runtime.Kernel.EntityTransaction.{
  execute_transaction, attempt, settle, validate_entity_deltas, apply_entity_deltas, log_all,
}
use compilableworld_runtime.Kernel.EntityTransaction.Ends.{Unchanged}
use compilableworld_runtime.Kernel.EntityTransaction.Atomic.{
  CreatedOrNot, execute_transaction-CreatedOrNot,
}

abbrev spawn : String → ActionIr → World → Outcome KernelError TransitionResult
spawn module_id a w = ok (record {
  accepted = true;
  deltas = [];
  events = [];
  message = "spawned";
  entity_deltas =
      record {
        operation = "create";
        entity = record {
          entity_id = "rat";
          entity_type = "creature";
          name = "Rat";
          components = [];
          metadata = end;
        };
        expected_absent = true;
        source_module = module_id;
      }
      ∷ [];
})

abbrev spawning_world : World
spawning_world = record small_world {
  modules =
      record {
        module_id = "spawner";
        actions = "open" ∷ [];
        write = [];
        requires_kernel = "entity_transaction/v0.1" ∷ [];
      }
      ∷ [];
}

execute_transaction-CreatedOrNot_example :
    let u = begun matches no_callback spawn event_name message open_action spawning_world in
    CreatedOrNot matches no_callback spawn event_name message open_action u
      (execute_transaction matches no_callback spawn event_name message open_action spawning_world)
    × Unchanged matches no_callback spawn event_name message spawning_world u
execute_transaction-CreatedOrNot_example =
    execute_transaction-CreatedOrNot matches no_callback spawn event_name message open_action
      spawning_world refl

abbrev has_rat : World → Bool
has_rat w = is_in "rat" w.entities

rat_created :
    has_rat
      (execute_transaction matches no_callback spawn event_name message open_action
        spawning_world).1
    ≡ true
unfolding execute_transaction attempt settle module_for behavior_of commit_deltas commit
    validate_entity_deltas apply_entity_deltas add_entity log_all append_batch emit publish
    action_lifecycle_event lookup insert
rat_created = refl

no_rat_without_disk :
    has_rat
      (execute_transaction matches no_callback spawn event_name message open_action
        (record spawning_world { disk = false ∷ [] })).1
    ≡ false
unfolding execute_transaction attempt settle module_for behavior_of commit_deltas commit
    validate_entity_deltas apply_entity_deltas add_entity log_all append_batch emit publish
    action_lifecycle_event lookup insert
no_rat_without_disk = refl

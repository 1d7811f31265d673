-- ===== src/Kernel/Execution/Tests.antt =====
-- A world with one module, whose rule sets a cell.
use compilableworld_runtime.Base.{
  ◌≡◌, ℕ, String, Bool, true, refl, none, some, [], ◌∷◌, Outcome, ok, ◌==◌, string_eq, nat_eq,
}
use compilableworld_runtime.Kernel.Value.{KernelError, bool, end}
use compilableworld_runtime.Kernel.Models.{ActionIr, EventIr, TransitionResult, parsed, scheduled}
use compilableworld_runtime.Kernel.World.{World, Op}
use compilableworld_runtime.Kernel.Execution.{execute}
use compilableworld_runtime.Kernel.Execution.Atomic.{AllOrNothing, begun, execute-AllOrNothing}

abbrev pub matches : String → String → Bool
matches name pattern' = name == pattern'

abbrev pub no_callback : String → EventIr → Op (Unit {0})
no_callback name e w = (ok tt, w)

abbrev pub message : KernelError → String
message e = "error"

abbrev pub event_name : ℕ → String
event_name n = "event"

abbrev pub open_door : String → ActionIr → World → Outcome KernelError TransitionResult
open_door module_id a w = ok (record {
  accepted = true;
  deltas =
      record {
        owner = "door";
        namespace = "door";
        key = "open";
        operation = "set";
        value = bool true;
        expected_version = none;
        source_module = module_id;
      }
      ∷ [];
  events = [];
  message = "opened";
  entity_deltas = [];
})

abbrev pub open_action : ActionIr
open_action = record {
  actor_id = "hero";
  verb = "open";
  target_id = some "door";
  args = end;
  action_id = "action_1";
  correlation_id = "c";
  status = parsed;
  authority = "player";
  proposed_at_tick = 0;
}

abbrev pub small_world : World
small_world = record {
  behaviors = [];
  entities =
      (
        "hero",
        record {
          entity_id = "hero";
          entity_type = "character";
          name = "Hero";
          components = [];
          metadata = end;
        },
      )
      ∷ [];
  dynamic_entities = [];
  cells = [];
  subscribers = [];
  events = [];
  disk = [];
  ids = 0;
  scheduler = record {
    tick = 0;
    counter = 1;
    queue = record { due_tick = 3; order = 1; action_id = "action_1" } ∷ [];
  };
  modules =
      record {
        module_id = "doors";
        actions = "open" ∷ [];
        write = "door.open" ∷ [];
        requires_kernel = [];
      }
      ∷ [];
  actions = ("action_1", record open_action { status = scheduled }) ∷ [];
  action_runtime = [];
  metrics = [];
}

execute-AllOrNothing_example :
    let u = begun matches no_callback open_door event_name message open_action small_world in
    AllOrNothing matches no_callback open_door event_name message open_action u
      (execute matches no_callback open_door event_name message open_action small_world)
    × (u.cells ≡ small_world.cells)
execute-AllOrNothing_example =
    execute-AllOrNothing matches no_callback open_door event_name message open_action small_world
      refl

-- ===== src/Kernel/Runtime.antt =====
-- kernel.py: what `WorldRuntime` reads of its package and modules, and the records and payloads that
-- it makes for an action.
use compilableworld_runtime.Base.{
  ℕ, ◌+◌, ◌-◌, String, Option, none, some, List, [], ◌∷◌, Outcome, ok, err, ◌==◌, if◌then◌else◌,
  string_eq, nat_eq,
}
pub use compilableworld_runtime.Base.Text.{contains_text}
use compilableworld_runtime.Kernel.Value.{
  Value, Values, Fields, null, int, text, object, nil, cons, end, field, KernelError,
  provider_count, module_error,
}
use compilableworld_runtime.Kernel.State.{Applied}
use compilableworld_runtime.Kernel.Models.{ActionIr, EventIr, ModuleContract, number, action_fields}
use compilableworld_runtime.Kernel.World.{Phase, Behavior, Route, ActionRuntime, World}

-- `_action_behavior`.
unfoldable pub behavior_of : String → List Behavior → Option Behavior
behavior_of verb [] = none
behavior_of verb (b ∷ bs) = if b.verb == verb then some b else behavior_of verb bs

abbrev pub action_behavior : String → World → Option Behavior
unfolding behavior_of
action_behavior verb w = behavior_of verb w.behaviors

providers : String → List ModuleContract → List ModuleContract
providers verb [] = []
providers verb (m ∷ ms) =
    let rest = providers verb ms in if contains_text verb m.actions then m ∷ rest else rest

abbrev the_only : List ModuleContract → Outcome KernelError ModuleContract
the_only (m ∷ []) = ok m
the_only _ = err provider_count

unfoldable pub module_for : String → World → Outcome KernelError ModuleContract
unfolding providers
module_for verb w = the_only (providers verb w.modules)

unfoldable pub find_phase : String → List Phase → Option Phase
find_phase phase_id [] = none
find_phase phase_id (p ∷ ps) = if p.phase_id == phase_id then some p else find_phase phase_id ps

abbrev entered : ActionIr → Phase → Route
entered a p = record {
  current_phase_id = p.phase_id;
  phase_started_tick = a.proposed_at_tick;
  phase_due_tick = a.proposed_at_tick + p.duration_ticks;
  elapsed_duration_ticks = 0;
  visited_phase_ids = p.phase_id ∷ [];
}

abbrev entry_route : ActionIr → Option Phase → Outcome KernelError (Option Route)
entry_route a none = err module_error
entry_route a (some p) = ok (some (entered a p))

abbrev fresh_runtime : Outcome KernelError (Option Route) → Outcome KernelError ActionRuntime
fresh_runtime (err e) = err e
fresh_runtime (ok r) =
    ok (record { retries = []; completed_steps = []; selected_branches = []; route = r })

unfoldable pub new_action_runtime_record :
    ActionIr → Option Behavior → Outcome KernelError ActionRuntime
unfolding find_phase
new_action_runtime_record a none = fresh_runtime (ok none)
new_action_runtime_record a (some b) =
    fresh_runtime
      (if b.static_route then entry_route a (find_phase b.entry_phase_id b.phases) else ok none)

abbrev pub or_text : Option String → String → Option String
or_text none d = some d
or_text (some s) d = if s == "" then some d else some s

abbrev due_or : Option ℕ → ℕ → ℕ
due_or none tick = tick
due_or (some d) tick = if d == 0 then tick else d

abbrev duration_of : Option Behavior → ActionIr → Option ℕ → ℕ → ℕ
duration_of (some b) a due tick = b.duration_ticks
duration_of none a due tick = due_or due tick - a.proposed_at_tick

abbrev behavior_id_of : Option Behavior → Value
behavior_id_of none = null
behavior_id_of (some b) = text b.behavior_id

abbrev due_field : Option ℕ → Fields → Fields
due_field none rest = rest
due_field (some d) rest = field "due_tick" (number d) rest

abbrev reason_field : Option String → Fields
reason_field none = end
reason_field (some r) = field "reason" (text r) end

-- The payload of `_action_lifecycle_event`.
pub lifecycle_payload : String → ActionIr → Option Behavior → Option ℕ → Option String → ℕ → Fields
lifecycle_payload event_type a b due reason tick = field "action_id" (text a.action_id) (
    field "behavior_id" (behavior_id_of b) (
      field "actor" (text a.actor_id) (
        field "verb" (text a.verb) (
          field "duration_ticks" (number (duration_of b a due tick)) (
            due_field due (
              if event_type == "action.scheduled"
              then field "action" (object (action_fields a)) (reason_field reason)
              else reason_field reason))))))

abbrev applied_value : Applied → Value
applied_value x = object (
    field "path" (text x.path) (
      field "owner" (text x.owner) (
        field "namespace" (text x.namespace) (
          field "key" (text x.key) (field "value" x.value (field "version" (int x.version) end))))))

pub applied_values : List Applied → Values
applied_values [] = nil
applied_values (x ∷ xs) = cons (applied_value x) (applied_values xs)

abbrev pub applied_paths : List Applied → List String
applied_paths [] = []
applied_paths (x ∷ xs) = x.path ∷ applied_paths xs

abbrev pub event_ids : List EventIr → List String
event_ids [] = []
event_ids (e ∷ es) = e.event_id ∷ event_ids es

-- The stamp that `_execute` puts on each emitted event.
abbrev stamp : ActionIr → ℕ → EventIr → EventIr
stamp a tick e = record e {
  causation_id = or_text e.causation_id a.action_id;
  correlation_id = or_text e.correlation_id a.correlation_id;
  timestamp_tick = tick;
}

abbrev pub stamp_all : ActionIr → ℕ → List EventIr → List EventIr
stamp_all a tick [] = []
stamp_all a tick (e ∷ es) = stamp a tick e ∷ stamp_all a tick es

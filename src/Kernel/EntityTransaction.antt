-- ===== src/Kernel/EntityTransaction.antt =====
-- entity_transaction.py: `EntityTransactionRuntime`, whose `_execute` also creates entities. The
-- deltas are typed, so the test that each is an `EntityDelta` always holds.
pub mod Supported
pub mod Created
pub mod Ends
pub mod Atomic
mod Tests
use compilableworld_runtime.Base.{
  ℕ, String, Bool, not, ◌||◌, Option, List, [], ◌∷◌, ◌++◌, Outcome, ok, err, ◌==◌, string_eq,
  if◌then◌else◌,
}
use compilableworld_runtime.Base.Dict.{is_in}
use compilableworld_runtime.Base.Exec.{pure, raise, lift, ◌>>=◌, ◌>>◌}
use compilableworld_runtime.Kernel.Value.{
  Values, Fields, text, list, object, nil, cons, end, field, KernelError, duplicate_entity,
  missing_capability, unsupported_entity_delta, transaction_failed, type_error,
}
use compilableworld_runtime.Kernel.State.{Applied}
use compilableworld_runtime.Kernel.Models.{
  executing, completed, failed, Entity, EntityDelta, ActionIr, EventIr, TransitionResult,
  ActionReceipt, ModuleContract,
}
use compilableworld_runtime.Kernel.World.{
  Behavior, World, Op, modify, add_entity, append_batch, bump, mark, emit,
}
use compilableworld_runtime.Kernel.Runtime.{
  contains_text, action_behavior, module_for, applied_values, applied_paths, stamp_all,
}
use compilableworld_runtime.Kernel.Execution.{
  boundary_event, kernel_event, commit_deltas, fail, drop_runtime, receipt, is_some,
  scheduled_behavior,
}

-- The loop of `_validate_entity_deltas`, with the ids that were seen.
validate_each : List EntityDelta → List String → World → Outcome KernelError (Unit {0})
validate_each [] seen w = ok tt
validate_each (d ∷ ds) seen w =
    let id = d.entity.entity_id in
    let rest = validate_each ds (id ∷ seen) w in
    if not (d.operation == "create") || (not d.expected_absent || (id == ""))
    then err unsupported_entity_delta
    else if contains_text id seen || is_in id w.entities
    then err duplicate_entity
    else rest

pub validate_entity_deltas :
    TransitionResult → ModuleContract → World → Outcome KernelError (Unit {0})
unfolding validate_each
validate_entity_deltas result m w = elim result.entity_deltas [
  | [] ↦ ok tt
  | d ∷ ds ↦
      if contains_text "entity_transaction/v0.1" m.requires_kernel
      then validate_each (d ∷ ds) [] w
      else err missing_capability
]

abbrev with_dynamic : String → World → World
with_dynamic id w = record w {
  dynamic_entities =
      if contains_text id w.dynamic_entities then w.dynamic_entities else id ∷ w.dynamic_entities;
}

abbrev apply_delta : EntityDelta → Op (Unit {0})
apply_delta d = add_entity d.entity >> modify (with_dynamic d.entity.entity_id)

pub apply_entity_deltas : List EntityDelta → Op (List Entity)
unfolding add_entity
apply_entity_deltas [] = pure []
apply_entity_deltas (d ∷ ds) =
    apply_delta d >> (apply_entity_deltas ds >>= λ rest. pure (d.entity ∷ rest))

texts : List String → Values
texts [] = nil
texts (s ∷ ss) = cons (text s) (texts ss)

abbrev entity_fields : Entity → Fields
entity_fields e = field "entity_id" (text e.entity_id) (
    field "entity_type" (text e.entity_type) (
      field "name" (text e.name) (
        field "components" (list (texts e.components)) (field "metadata" (object e.metadata) end))))

created_values : List Entity → Values
created_values [] = nil
created_values (e ∷ es) =
    cons
      (object (field "operation" (text "create") (field "entity" (object (entity_fields e)) end)))
      (created_values es)

created_ids : List Entity → List String
created_ids [] = []
created_ids (e ∷ es) = e.entity_id ∷ created_ids es

-- `_restore_entity_transaction`.
abbrev restore_entity_transaction : World → World → World
restore_entity_transaction before w = record w {
  cells = before.cells;
  entities = before.entities;
  dynamic_entities = before.dynamic_entities;
}

pub data Attempt : Type 0 where
  answered : ActionReceipt → Attempt
  logged : String → List EventIr → List Applied → List Entity → Attempt

-- `append_batch` at the end of the `try` block.
log_all : String → List EventIr → List Applied → List Entity → Op Attempt
log_all message emitted applied created =
    append_batch emitted >> pure (logged message emitted applied created)

module _ (fnmatch : String → String → Bool) (callback : String → EventIr → Op (Unit {0}))
    (evaluate : String → ActionIr → World → Outcome KernelError TransitionResult)
    (new_id : ℕ → String) (message_of : KernelError → String) where
  abbrev created_event : ActionIr → ModuleContract → List Entity → Op (List EventIr)
  created_event a m [] w = (ok [], w)
  created_event a m (e ∷ es) w =
      (kernel_event new_id "entity.committed" a m.module_id "audit"
            (field "applied" (list (created_values (e ∷ es))) end)
          >>= λ x. pure (x ∷ []))
        w

  -- The events of a commit, which are logged as one batch.
  abbrev log_created :
      ActionIr
      → ModuleContract
      → TransitionResult
      → List EventIr
      → Option Behavior
      → List Applied
      → List Entity
      → Op Attempt
  log_created a m result started b applied created = do
    commit_event ←
        kernel_event new_id "state.committed" a m.module_id "audit"
          (field "applied" (list (applied_values applied)) end)
    created_events ← created_event a m created
    ended ← boundary_event new_id "action.completed" a b
    λ w.
        let emitted =
          stamp_all a w.scheduler.tick
            (started ++ (commit_event ∷ created_events) ++ result.events ++ ended) in
        log_all result.message emitted applied created w

  abbrev transact :
      ActionIr → ModuleContract → TransitionResult → List EventIr → Option Behavior → Op Attempt
  transact a m result started b =
      (λ w. lift (validate_entity_deltas result m w) w)
      >> (commit_deltas fnmatch callback evaluate new_id message_of m result >>= λ applied.
          apply_entity_deltas result.entity_deltas >>= λ created.
          log_created a m result started b applied created)

  abbrev judge :
      ActionIr → ModuleContract → TransitionResult → List EventIr → Option Behavior → Op Attempt
  judge a m result started b w =
      if result.accepted
      then transact a m result started b w
      else (fail fnmatch callback evaluate new_id message_of a result.message (is_some b) >>= λ r.
            pure (answered r))
          w

  pub attempt : ActionIr → List EventIr → Option Behavior → Op Attempt
  attempt a started b = do
    m ← λ w. lift (module_for a.verb w) w
    modify (mark a.action_id executing)
    result ← λ w. lift (evaluate m.module_id a w) w
    judge a m result started b

  settle : ActionIr → Option Behavior → World → Outcome KernelError Attempt → Op ActionReceipt
  unfolding emit created_ids
  settle a b before (ok (answered r)) w = (ok r, w)
  settle a b before (ok (logged message emitted applied created)) w =
      (modify (mark a.action_id completed)
          >> modify (drop_runtime a.action_id)
          >> modify (bump "actions_completed")
          >> emit fnmatch callback emitted
          >> pure (record (receipt a.action_id completed message emitted (applied_paths applied)) {
            changed_entities = created_ids created;
          }))
        w
  settle a b before (err transaction_failed) w =
      (modify (restore_entity_transaction before)
          >> modify (mark a.action_id failed)
          >> modify (drop_runtime a.action_id)
          >> modify (bump "actions_failed")
          >> raise transaction_failed)
        w
  settle a b before (err type_error) w = (err type_error, w)
  settle a b before (err e) w =
      (modify (restore_entity_transaction before)
          >> fail fnmatch callback evaluate new_id message_of a (message_of e) (is_some b))
        w

  -- `_execute`.
  pub execute_transaction : ActionIr → Op ActionReceipt
  unfolding attempt settle
  execute_transaction a w =
      let b = scheduled_behavior a.status (action_behavior a.verb w) in
      (boundary_event new_id "action.started" a b >>= λ started w1.
      let tried = attempt a started b w1 in settle a b w tried.0 tried.1)
        w

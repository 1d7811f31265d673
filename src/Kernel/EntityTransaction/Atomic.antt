-- ===== src/Kernel/EntityTransaction/Atomic.antt =====
-- entity_transaction.py: an action that creates entities, or changes nothing.
use compilableworld_runtime.Base.{
  ℕ, ◌+◌, String, Bool, ◌≡◌, ◌⊎◌, ◌∙◌, refl, ap, Option, none, some, List, [], ◌∷◌, map, Outcome,
  ok, err, inl, inr,
}
use compilableworld_runtime.Base.Exec.{pure, ◌>>=◌, continue}
use compilableworld_runtime.Kernel.Value.{KernelError, type_error, transaction_failed}
use compilableworld_runtime.Kernel.Models.{
  ActionIr, EventIr, TransitionResult, ActionReceipt, Entity, completed,
}
use compilableworld_runtime.Kernel.World.{Behavior, World, Op, emit, bump, mark}
use compilableworld_runtime.Kernel.Runtime.{action_behavior, applied_paths}
use compilableworld_runtime.Kernel.Execution.{
  boundary_event, action_lifecycle_event, drop_runtime, is_some, receipt, scheduled_behavior,
}
use compilableworld_runtime.Kernel.Execution.Frame.{Quiet, emit-Same, fail-Same}
use compilableworld_runtime.Kernel.Execution.Receipts.{IsFailed, fail-IsFailed}
use compilableworld_runtime.Kernel.Execution.Atomic.{begun}
use compilableworld_runtime.Kernel.EntityTransaction.{
  Attempt, answered, logged, created_ids, attempt, settle, execute_transaction,
  restore_entity_transaction,
}
use compilableworld_runtime.Kernel.EntityTransaction.Ends.{
  Ends, Made, Hindrance, Unchanged, attempt-Ends,
}

created_ids-map : (es : List Entity) → created_ids es ≡ map (λ e. e.entity_id) es
unfolding created_ids
created_ids-map [] = refl
created_ids-map (e ∷ es) = ap (λ xs. e.entity_id ∷ xs) (created_ids-map es)

module _ (fnmatch : String → String → Bool) (callback : String → EventIr → Op (Unit {0}))
    (evaluate : String → ActionIr → World → Outcome KernelError TransitionResult)
    (new_id : ℕ → String) (message_of : KernelError → String) where
  -- A receipt of completion that names the entities of the deltas, with all that was made; or a
  -- hindrance, nothing changed, and no receipt but that of a failed action.
  abbrev pub CreatedOrNot : ActionIr → World → Outcome KernelError ActionReceipt × World → Type 0
  CreatedOrNot a u r =
      ((done : ActionReceipt) × (created : List Entity) × (r.0 ≡ ok done)
        × (done.status ≡ completed)
        × (done.changed_entities ≡ map (λ e. e.entity_id) created)
        × Made fnmatch callback evaluate new_id message_of a u created r.1)
      ⊎ (Hindrance fnmatch callback evaluate new_id message_of a u
          × Unchanged fnmatch callback evaluate new_id message_of u r.1
          × IsFailed r.0)

  settle-CreatedOrNot :
      (a : ActionIr) (b : Option Behavior) (u : World) (o : Outcome KernelError Attempt) (v : World)
      → Ends fnmatch callback evaluate new_id message_of a u o v
      → Quiet v
      → CreatedOrNot a u (settle fnmatch callback evaluate new_id message_of a b u o v)
  unfolding settle
  settle-CreatedOrNot a b u (ok (answered r)) v (same, why, status) q = inr (why, same, status)
  settle-CreatedOrNot a b u (ok (logged message emitted applied created)) v
        (m, result, passed, written, own, cells, grown) q =
      let v1 : World =
        bump "actions_completed" (drop_runtime a.action_id (mark a.action_id completed v)) in
      let (kept, fine) = emit-Same fnmatch callback emitted v1 q in
      let done : ActionReceipt =
        record (receipt a.action_id completed message emitted (applied_paths applied)) {
          changed_entities = created_ids created;
        } in
      let last = (emit fnmatch callback emitted v1).1 in
      let end : (continue {S = World} (emit fnmatch callback emitted v1).0 (λ _. pure done) last)
          ≡ (ok done, last) =
        ap (λ o. continue {S = World} o (λ _. pure done) last) fine in
      inl (
        done,
        created,
        ap (λ r. r.0) end,
        refl,
        created_ids-map created,
        (
          m,
          result,
          passed,
          written,
          own,
          ap (λ r. r.1.cells) end ∙ kept.cells ∙ cells,
          ap (λ r. r.1.entities) end ∙ ap (λ p. p.0) kept.registry ∙ grown,
        ),
      )
  settle-CreatedOrNot a b u (err transaction_failed) v why q = inr (why, (refl, refl), tt)
  settle-CreatedOrNot a b u (err type_error) v (same, why) q = inr (why, same, tt)
  settle-CreatedOrNot a b u (err e) v why q =
      let v1 = restore_entity_transaction u v in
      let same =
        fail-Same fnmatch callback evaluate new_id message_of a (message_of e) (is_some b) v1 q in
      inr (
        why,
        (same.cells, same.registry),
        fail-IsFailed fnmatch callback evaluate new_id message_of a (message_of e) (is_some b) v1,
      )

  begun-CreatedOrNot :
      (a : ActionIr) (b : Option Behavior) (w : World)
      → Quiet w
      → CreatedOrNot a (boundary_event new_id "action.started" a b w).1 (
          (boundary_event new_id "action.started" a b >>= λ started w1.
          let tried = attempt fnmatch callback evaluate new_id message_of a started b w1 in
          settle fnmatch callback evaluate new_id message_of a b w tried.0 tried.1)
            w)
  unfolding action_lifecycle_event settle
  begun-CreatedOrNot a none w q =
      let (ends, quiet) = attempt-Ends fnmatch callback evaluate new_id message_of a [] none w q in
      settle-CreatedOrNot a none w _ _ ends quiet
  begun-CreatedOrNot a (some b) w q =
      let u : World = record w { ids = w.ids + 1 } in
      let (ends, quiet) =
        attempt-Ends fnmatch callback evaluate new_id message_of a _ (some b) u q in
      settle-CreatedOrNot a (some b) u _ _ ends quiet

  begun-Unchanged :
      (a : ActionIr) (b : Option Behavior) (w : World)
      → Unchanged fnmatch callback evaluate new_id message_of w
          (boundary_event new_id "action.started" a b w).1
  unfolding action_lifecycle_event
  begun-Unchanged a none w = (refl, refl)
  begun-Unchanged a (some b) w = (refl, refl)

  -- When no one subscribes to events, an action whose module may create entities does one of two
  -- things. Where the module of its verb accepts it, the module's entity deltas are supported (each
  -- creates an entity with an id that is not there, no id comes twice, and the module declares the
  -- capability if there are any), the commit of its other deltas succeeds, and the next write to the log
  -- succeeds, it returns a receipt of completion that names exactly the entities of the deltas, and
  -- leaves the cells of that commit and the entities of before followed by those, in order. Otherwise a
  -- step of this went wrong: no module claims the verb, the module raises or refuses, its entity deltas
  -- are not supported, the commit raises, or the log cannot be written; then the cells, the entities and
  -- the ids of those that were created at run time are as before, and a receipt, if one is returned, says
  -- that the action failed. The world that the module sees differs from the one before in the action's
  -- status and in the id that a long action's start event has taken.
  pub execute_transaction-CreatedOrNot :
      (a : ActionIr) (w : World)
      → Quiet w
      → let u = begun fnmatch callback evaluate new_id message_of a w in
        CreatedOrNot a u (execute_transaction fnmatch callback evaluate new_id message_of a w)
        × Unchanged fnmatch callback evaluate new_id message_of w u
  unfolding execute_transaction
  execute_transaction-CreatedOrNot a w q =
      let b = scheduled_behavior a.status (action_behavior a.verb w) in
      (begun-CreatedOrNot a b w q, begun-Unchanged a b w)

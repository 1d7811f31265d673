-- ===== src/Kernel/Execution/Frame.antt =====
-- kernel.py: the steps of `WorldRuntime` that leave the cells alone when nobody subscribes.
use Prim.Native.String.{◌++◌ as append_text}
use compilableworld_runtime.Base.{
  ℕ, ◌+◌, String, Bool, true, false, ◌≡◌, ◌∙◌, refl, ap, Option, none, some, List, [], ◌∷◌, ◌++◌,
  Outcome, ok, err,
}
use compilableworld_runtime.Base.Exec.{pure, ◌>>=◌, after_bind}
use compilableworld_runtime.Kernel.Value.{list, field, end, KernelError}
use compilableworld_runtime.Base.Dict.{Dict}
use compilableworld_runtime.Kernel.Models.{
  Entity, ActionIr, EventIr, TransitionResult, ActionReceipt, ModuleContract, failed,
}
use compilableworld_runtime.Kernel.State.{Applied}
use compilableworld_runtime.Kernel.World.{
  Behavior, World, Op, append_batch, emit, publish, callbacks_of, run_callbacks, bump, write_batch,
  mark,
}
use compilableworld_runtime.Kernel.Execution.{
  fail, fail_with, boundary_event, log_commit, log_emitted, action_lifecycle_event, kernel_event,
  receipt, drop_runtime, when_started, failed_payload,
}
use compilableworld_runtime.Kernel.Runtime.{action_behavior, applied_values, stamp_all}

abbrev pub registry_part : World → Dict String Entity × List String
registry_part w = (w.entities, w.dynamic_entities)

-- The cells, the subscribers and the entities are as before.
pub record Same (w v : World) : Type 0 where
  pub cells : v.cells ≡ w.cells
  pub subscribers : v.subscribers ≡ w.subscribers
  pub registry : registry_part v ≡ registry_part w

pub Same-refl : (w : World) → Same w w
Same-refl w = record { cells = refl; subscribers = refl; registry = refl }

pub Same-trans : (u v w : World) → Same u v → Same v w → Same u w
Same-trans u v w a b = record {
  cells = b.cells ∙ a.cells;
  subscribers = b.subscribers ∙ a.subscribers;
  registry = b.registry ∙ a.registry;
}

-- A step that changes none of these.
pub Same-then :
    (u v w : World)
    → v.cells ≡ u.cells
    → v.subscribers ≡ u.subscribers
    → registry_part v ≡ registry_part u
    → Same v w
    → Same u w
Same-then u v w c d e s = Same-trans u v w (record { cells = c; subscribers = d; registry = e }) s

abbrev pub Quiet : World → Type 0
Quiet w = w.subscribers ≡ []

pub Same-Quiet : (w v : World) → Same w v → Quiet w → Quiet v
Same-Quiet w v s q = s.subscribers ∙ q

pub append_batch-Same : (es : List EventIr) (w : World) → Same w (append_batch es w).1
unfolding append_batch
append_batch-Same [] w = Same-refl w
append_batch-Same (e ∷ es) w = go w.disk
  where
    go : (disk : List Bool) → Same w (write_batch (e ∷ es) disk w).1
    go [] = record { cells = refl; subscribers = refl; registry = refl }
    go (true ∷ rest) = record { cells = refl; subscribers = refl; registry = refl }
    go (false ∷ rest) = record { cells = refl; subscribers = refl; registry = refl }

pub log_emitted-Same :
    (es : List EventIr) (applied : List Applied) (w : World) → Same w (log_emitted es applied w).1
unfolding log_emitted
log_emitted-Same es applied w =
    after_bind Same Same-trans (append_batch es) (λ _. pure (es, applied)) w
      (append_batch-Same es w) (λ _ _. Same-refl (append_batch es w).1)

module _ (fnmatch : String → String → Bool) (callback : String → EventIr → Op (Unit {0})) where
  pub publish-Quiet :
      (e : EventIr) (w : World) → Quiet w → publish fnmatch callback e w ≡ (ok tt, w)
  unfolding publish callbacks_of run_callbacks
  publish-Quiet e w q =
      ap (λ s. run_callbacks fnmatch callback (callbacks_of fnmatch callback e.event_type s) e w) q

  -- Without subscribers, events are published without effect but for the counters.
  pub emit-Same :
      (es : List EventIr) (w : World)
      → Quiet w
      → Same w (emit fnmatch callback es w).1 × ((emit fnmatch callback es w).0 ≡ ok tt)
  unfolding emit
  emit-Same [] w q = (Same-refl w, refl)
  emit-Same (e ∷ es) w q =
      let rest = emit-Same es (bump (append_text "event:" e.event_type) w) q in
      rw (publish-Quiet e w q) (
        Same-then w (bump (append_text "event:" e.event_type) w)
            (emit fnmatch callback es (bump (append_text "event:" e.event_type) w)).1 refl refl refl
            rest.0,
        rest.1,
      )

module _ (new_id : ℕ → String) where
  pub boundary_event-Same :
      (event_type : String) (a : ActionIr) (b : Option Behavior) (w : World)
      → Same w (boundary_event new_id event_type a b w).1
  unfolding action_lifecycle_event
  boundary_event-Same event_type a none w = Same-refl w
  boundary_event-Same event_type a (some b) w = record {
    cells = refl;
    subscribers = refl;
    registry = refl;
  }

module _ (fnmatch : String → String → Bool) (callback : String → EventIr → Op (Unit {0}))
    (evaluate : String → ActionIr → World → Outcome KernelError TransitionResult)
    (new_id : ℕ → String) (message_of : KernelError → String) where
  fail_with-Same :
      (a : ActionIr) (message : String) (es : List EventIr) (o : Outcome KernelError (Unit {0}))
      (w : World)
      → Quiet w
      → Same w (fail_with fnmatch callback evaluate new_id message_of a message es o w).1
  unfolding fail_with
  fail_with-Same a message es (err e) w q = record {
    cells = refl;
    subscribers = refl;
    registry = refl;
  }
  fail_with-Same a message es (ok u) w q =
      Same-then w (drop_runtime a.action_id w)
        (fail_with fnmatch callback evaluate new_id message_of a message es (ok u) w).1 refl refl
        refl
        (after_bind Same Same-trans (emit fnmatch callback es)
          (λ _. pure (receipt a.action_id failed message es [])) (drop_runtime a.action_id w)
          (emit-Same fnmatch callback es (drop_runtime a.action_id w) q).0
          (λ _ _. Same-refl (emit fnmatch callback es (drop_runtime a.action_id w)).1))

  abbrev ending : ActionIr → String → List EventIr → Option Behavior → Op ActionReceipt
  unfolding append_batch
  ending a message es b = do
    event ← kernel_event new_id "action.failed" a "kernel" "private" (failed_payload a message b)
    λ w.
        let logged = append_batch (es ++ (event ∷ [])) w in
        fail_with fnmatch callback evaluate new_id message_of a message (es ++ (event ∷ []))
          logged.0 logged.1

  ending-Same :
      (a : ActionIr) (message : String) (es : List EventIr) (b : Option Behavior) (w : World)
      → Quiet w
      → Same w (ending a message es b w).1
  unfolding ending
  ending-Same a message es b w q =
      let event : EventIr = record {
        event_type = "action.failed";
        source = "kernel";
        payload = failed_payload a message b;
        target = some a.actor_id;
        event_id = new_id w.ids;
        causation_id = some a.action_id;
        correlation_id = some a.correlation_id;
        timestamp_tick = w.scheduler.tick;
        visibility = "private";
        authority = "runtime";
      } in
      let w1 : World = record w { ids = w.ids + 1 } in
      let s : Same w1 (append_batch (es ++ (event ∷ [])) w1).1 =
        append_batch-Same (es ++ (event ∷ [])) w1 in
      let done : Outcome KernelError (Unit {0}) × World = append_batch (es ++ (event ∷ [])) w1 in
      Same-then w w1 (ending a message es b w).1 refl refl refl (
        Same-trans w1 done.1
          (fail_with fnmatch callback evaluate new_id message_of a message (es ++ (event ∷ []))
            done.0 done.1).1
          s
          (fail_with-Same a message (es ++ (event ∷ [])) done.0 done.1 (Same-Quiet w1 done.1 s q)))

  pub fail-Same :
      (a : ActionIr) (message : String) (started : Bool) (w : World)
      → Quiet w
      → Same w (fail fnmatch callback evaluate new_id message_of a message started w).1
  unfolding fail
  fail-Same a message started w q =
      let w2 : World = bump "actions_failed" (mark a.action_id failed w) in
      let b : Option Behavior = action_behavior a.verb w2 in
      let begun : Same w2 (boundary_event new_id "action.started" a (when_started started b) w2).1 =
        boundary_event-Same new_id "action.started" a (when_started started b) w2 in
      Same-then w w2 (fail fnmatch callback evaluate new_id message_of a message started w).1 refl
        refl refl
        (after_bind Same Same-trans
          (boundary_event new_id "action.started" a (when_started started b))
          (λ es. ending a message es b) w2 begun
          (λ es _.
            ending-Same a message es b
              (boundary_event new_id "action.started" a (when_started started b) w2).1
              (Same-Quiet w2
                (boundary_event new_id "action.started" a (when_started started b) w2).1 begun q)))

  pub log_commit-Same :
      (a : ActionIr) (m : ModuleContract) (result : TransitionResult) (started : List EventIr)
      (b : Option Behavior) (applied : List Applied) (w : World)
      → Same w
          (log_commit fnmatch callback evaluate new_id message_of a m result started b applied w).1
  log_commit-Same a m result started b applied w =
      let w1 : World = record w { ids = w.ids + 1 } in
      let ended : Same w1 (boundary_event new_id "action.completed" a b w1).1 =
        boundary_event-Same new_id "action.completed" a b w1 in
      Same-then w w1
        (log_commit fnmatch callback evaluate new_id message_of a m result started b applied w).1
        refl refl refl
        (after_bind Same Same-trans (boundary_event new_id "action.completed" a b)
          (λ es. logging es) w1 ended
          (λ es _. logging-Same es (boundary_event new_id "action.completed" a b w1).1))
    where
      commit_event : EventIr
      commit_event = record {
        event_type = "state.committed";
        source = m.module_id;
        payload = field "applied" (list (applied_values applied)) end;
        target = some a.actor_id;
        event_id = new_id w.ids;
        causation_id = some a.action_id;
        correlation_id = some a.correlation_id;
        timestamp_tick = w.scheduler.tick;
        visibility = "audit";
        authority = "runtime";
      }

      logging : List EventIr → Op (List EventIr × List Applied)
      logging es v =
          log_emitted
            (stamp_all a v.scheduler.tick (started ++ (commit_event ∷ result.events) ++ es)) applied
            v

      logging-Same : (es : List EventIr) (v : World) → Same v (logging es v).1
      logging-Same es v =
          log_emitted-Same
            (stamp_all a v.scheduler.tick (started ++ (commit_event ∷ result.events) ++ es)) applied
            v

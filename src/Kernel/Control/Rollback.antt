-- ===== src/Kernel/Control/Rollback.antt =====
-- kernel.py: cancelling an action, and scheduling one, when the event log cannot be written.
use compilableworld_runtime.Base.{
  ℕ, String, Bool, false, ◌≡◌, ◌∙◌, refl, sym, ap, inl, inr, Option, none, some, List, [], ◌∷◌,
  ◌==◌, Outcome, err, Bool-cases, string_eq, arith,
}
use compilableworld_runtime.Base.Dict.{lookup, insert, is_in, lookup-insert, lookup-insert_self}
use compilableworld_runtime.Kernel.Value.{
  KernelError, transaction_failed, action_missing, not_owner, unknown_actor,
}
use compilableworld_runtime.Kernel.Models.{
  ActionStatus, cancelled, ActionIr, EventIr, TransitionResult, ActionReceipt,
}
use compilableworld_runtime.Kernel.Scheduler as Queue
use compilableworld_runtime.Kernel.Scheduler.{Entry, Scheduler, find_entry, drop_entry}
use compilableworld_runtime.Kernel.Scheduler.Order.{IsValid, restore-remove}
use compilableworld_runtime.Kernel.World.{World, Op, append_batch, mark}
use compilableworld_runtime.Kernel.Execution.{action_lifecycle_event}
use compilableworld_runtime.Kernel.Control.{
  cancel_action, finish_termination, cancel_known, cancel_entry, terminate_scheduled_action,
}

-- The action objects are filed under their own ids.
abbrev pub IsFiled : World → Type 0
IsFiled w = (id : String) (a : ActionIr) → lookup id w.actions ≡ some a → a.action_id ≡ id

-- The call raised, and the world is as before, except that an event id and a write may be used up.
pub record RolledBack {A : Type 0} (w : World) (r : Outcome KernelError A × World) : Type 0 where
  pub raised : (e : KernelError) × (r.0 ≡ err e)
  pub scheduler : r.1.scheduler ≡ w.scheduler
  pub actions : (id : String) → lookup id r.1.actions ≡ lookup id w.actions
  pub action_runtime : r.1.action_runtime ≡ w.action_runtime
  pub cells : r.1.cells ≡ w.cells
  pub events : r.1.events ≡ w.events

module _ (fnmatch : String → String → Bool) (callback : String → EventIr → Op (Unit {0}))
    (evaluate : String → ActionIr → World → Outcome KernelError TransitionResult)
    (new_id : ℕ → String) (message_of : KernelError → String) where
  raise-RolledBack : (e : KernelError) (w : World) → RolledBack {A = ActionReceipt} w (err e, w)
  raise-RolledBack e w = record {
    raised = (e, refl);
    scheduler = refl;
    actions = λ id. refl;
    action_runtime = refl;
    cells = refl;
    events = refl;
  }

  -- A status that is set and set back.
  mark-mark :
      (a : ActionIr) (status : ActionStatus) (w : World)
      → lookup a.action_id w.actions ≡ some a
      → (id : String)
      → lookup id (mark a.action_id a.status (mark a.action_id status w)).actions
        ≡ lookup id w.actions
  mark-mark a status w filed id =
      let marked : ActionIr = record a { status = status } in
      rw (filed, lookup-insert_self a.action_id marked w.actions)
        (elim (Bool-cases (a.action_id == id)) [
          | inl same ↦
              let e : a.action_id ≡ id = (string_eq.beq_iff a.action_id id).0 same in
              rw
                (
                  sym e,
                  filed,
                  lookup-insert_self a.action_id a (insert a.action_id marked w.actions),
                )
                refl
          | inr other ↦ ground (
            arith,
            lookup-insert a.action_id id a (insert a.action_id marked w.actions),
            lookup-insert a.action_id id marked w.actions,
          )
        ])

  terminate-RolledBack :
      (entry removed : Entry) (a : ActionIr) (status : ActionStatus) (reason cause : String)
      (w : World) {rest : List Bool}
      → w.disk ≡ false ∷ rest
      → IsValid w.scheduler
      → IsFiled w
      → (Queue.remove entry.action_id w.scheduler).0 ≡ some removed
      → lookup entry.action_id w.actions ≡ some a
      → RolledBack w (
          terminate_scheduled_action fnmatch callback evaluate new_id message_of entry status reason
            cause w)
  unfolding terminate_scheduled_action append_batch action_lifecycle_event finish_termination
  terminate-RolledBack entry removed a status reason cause w {rest} disk v filed found known =
      rw (found, known, disk)
        record {
          raised = (transaction_failed, refl);
          scheduler = restore-remove entry.action_id w.scheduler removed v found;
          actions =
              mark-mark a status (record w { disk = rest })
                (ap (λ id. lookup id w.actions) (filed entry.action_id a known) ∙ known);
          action_runtime = refl;
          cells = refl;
          events = refl;
        }

  found_id :
      (id : String) (xs : List Entry) {e : Entry} → find_entry id xs ≡ some e → e.action_id ≡ id
  unfolding find_entry
  found_id id [] {e} h = cc
  found_id id (x ∷ xs) {e} h = elim (Bool-cases (x.action_id == id)) [
    | inl same ↦
        let e1 : x ≡ e = cc (rw same at h) in
        ap (λ (y : Entry). y.action_id) (sym e1) ∙ (string_eq.beq_iff x.action_id id).0 same
    | inr other ↦ found_id id xs (rw other at h)
  ]

  removed_entry :
      (e : Entry) (s : Scheduler)
      → find_entry e.action_id s.queue ≡ some e
      → (Queue.remove e.action_id s).0 ≡ some e
  unfolding Queue.remove
  removed_entry e s h = h

  cancel_known-RolledBack :
      (actor_id : String) (w : World) (entry : Entry) (o : Option ActionIr) {rest : List Bool}
      → w.disk ≡ false ∷ rest
      → IsValid w.scheduler
      → IsFiled w
      → find_entry entry.action_id w.scheduler.queue ≡ some entry
      → lookup entry.action_id w.actions ≡ o
      → RolledBack w (cancel_known fnmatch callback evaluate new_id message_of actor_id entry o w)
  unfolding cancel_known
  cancel_known-RolledBack actor_id w entry none disk v filed found known =
      raise-RolledBack action_missing w
  cancel_known-RolledBack actor_id w entry (some a) disk v filed found known =
      elim (Bool-cases (a.actor_id == actor_id)) [
        | inl own ↦ rw own (
            terminate-RolledBack entry entry a cancelled "由 actor 取消" "" w disk v filed
              (removed_entry entry w.scheduler found) known)
        | inr other ↦ rw other (raise-RolledBack not_owner w)
      ]

  cancel_entry-RolledBack :
      (actor_id action_id : String) (w : World) (o : Option Entry) {rest : List Bool}
      → w.disk ≡ false ∷ rest
      → IsValid w.scheduler
      → IsFiled w
      → find_entry action_id w.scheduler.queue ≡ o
      → RolledBack w (cancel_entry fnmatch callback evaluate new_id message_of actor_id o w)
  cancel_entry-RolledBack actor_id action_id w none disk v filed found =
      raise-RolledBack action_missing w
  cancel_entry-RolledBack actor_id action_id w (some e) disk v filed found =
      cancel_known-RolledBack actor_id w e (lookup e.action_id w.actions) disk v filed
        (ap (λ id. find_entry id w.scheduler.queue) (found_id action_id w.scheduler.queue found)
          ∙ found)
        refl

  -- Where the scheduler is valid and each action object is filed under its own id, while the event
  -- log cannot be written, `cancel_action` raises, whatever it is asked, and puts back
  -- the scheduler, the statuses and the runtime records of the actions, the cells and the log.
  pub cancel-RolledBack :
      (actor_id action_id : String) (w : World) {rest : List Bool}
      → w.disk ≡ false ∷ rest
      → IsValid w.scheduler
      → IsFiled w
      → RolledBack w
          (cancel_action fnmatch callback evaluate new_id message_of actor_id action_id w)
  unfolding cancel_action
  cancel-RolledBack actor_id action_id w disk v filed =
      elim (Bool-cases (is_in actor_id w.entities)) [
        | inl here ↦ rw here (
            cancel_entry-RolledBack actor_id action_id w (find_entry action_id w.scheduler.queue)
              disk v filed refl)
        | inr unknown ↦ rw unknown (raise-RolledBack unknown_actor w)
      ]

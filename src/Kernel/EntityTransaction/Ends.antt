-- ===== src/Kernel/EntityTransaction/Ends.antt =====
-- entity_transaction.py: how the `try` block of `_execute` ends, and what it leaves.
use compilableworld_runtime.Base.{
  ℕ, String, Bool, true, false, ◌≡◌, ◌≢◌, ◌∙◌, refl, sym, ap, IsOk, Option, List, [], ◌++◌, Outcome,
  ok, err,
}
use compilableworld_runtime.Base.Exec.{pure, ◌>>=◌, continue}
use compilableworld_runtime.Kernel.Value.{KernelError, type_error}
use compilableworld_runtime.Kernel.Models.{
  ActionIr, EventIr, TransitionResult, ActionReceipt, ModuleContract, Entity, ActionStatus,
}
use compilableworld_runtime.Kernel.World.{Behavior, World, Op, mark}
use compilableworld_runtime.Kernel.Runtime.{module_for}
use compilableworld_runtime.Kernel.Execution.{fail, is_some}
use compilableworld_runtime.Kernel.Execution.Frame.{Quiet, registry_part, fail-Same}
use compilableworld_runtime.Kernel.State.{Applied, Cells, commit}
use compilableworld_runtime.Kernel.State.Commit.{commit_atomic}
use compilableworld_runtime.Kernel.Execution.{restore_cells, commit_deltas}
use compilableworld_runtime.Kernel.Execution.Receipts.{IsFailed, fail-IsFailed}
use compilableworld_runtime.Kernel.Execution.Ends.{
  next_write, Decision, Obstacle, unclaimed, raised, refused, forbidden, not_logged,
}
use compilableworld_runtime.Kernel.EntityTransaction.Supported.{
  Supported, validate-Supported, refused-Supported,
}
use compilableworld_runtime.Kernel.EntityTransaction.Created.{
  entries, entities_of, Added, Logs, kept_part, apply_entity_deltas-IsOk, apply_entity_deltas-kept,
  apply_entity_deltas-Added, log_created-Logs, transact-listeners,
}
use compilableworld_runtime.Kernel.EntityTransaction.{
  validate_entity_deltas, apply_entity_deltas, log_created, judge, Attempt, answered, logged,
  attempt,
}

answered-Quiet :
    (o : Outcome KernelError ActionReceipt) (v : World)
    → Quiet v
    → Quiet (continue {S = World} o (λ x. pure (answered x)) v).1
answered-Quiet (ok x) v q = q
answered-Quiet (err e) v q = q

module _ (fnmatch : String → String → Bool) (callback : String → EventIr → Op (Unit {0}))
    (evaluate : String → ActionIr → World → Outcome KernelError TransitionResult)
    (new_id : ℕ → String) (message_of : KernelError → String) where
  -- The world in which the module of an action decides.
  abbrev pub executed : ActionIr → World → World
  executed a u = mark a.action_id ActionStatus.executing u

  -- The module accepts, and its deltas on entities and cells can be applied.
  pub record Passed (a : ActionIr) (u : World) (m : ModuleContract) (result : TransitionResult)
      : Type 0 where
    pub decided : Decision fnmatch callback evaluate new_id message_of a u m result
    pub accepted : result.accepted ≡ true
    pub supported : Supported m u.entities result.entity_deltas
    pub whole : IsOk (commit fnmatch result.deltas m.write u.cells).0

  -- All of it works, the log included: the cells of `v` are those of `u` after the commit, and its
  -- entities those of `u` and then those of the deltas.
  abbrev pub Made : ActionIr → World → List Entity → World → Type 0
  Made a u created v =
      (m : ModuleContract) × (result : TransitionResult) × Passed a u m result
      × (next_write u.disk ≡ true)
      × (created ≡ entities_of result.entity_deltas)
      × (v.cells ≡ (commit fnmatch result.deltas m.write u.cells).1)
      × (v.entities ≡ u.entities ++ entries created)

  -- What went wrong of it.
  pub data Hindrance (a : ActionIr) (u : World) : Type 0 where
    ordinary : Obstacle fnmatch callback evaluate new_id message_of a u → Hindrance a u
    unsupported :
        (m : ModuleContract) (result : TransitionResult) (e : KernelError)
        → Decision fnmatch callback evaluate new_id message_of a u m result
        → result.accepted ≡ true
        → ¬ Supported m u.entities result.entity_deltas
        → validate_entity_deltas result m (executed a u) ≡ err e
        → Hindrance a u

  abbrev pub Unchanged : World → World → Type 0
  Unchanged w v = (v.cells ≡ w.cells) × (registry_part v ≡ registry_part w)

  -- How a `try` block that began with the world `u` may end.
  abbrev pub Ends : ActionIr → World → Outcome KernelError Attempt → World → Type 0
  Ends a u (ok (answered r)) v = Unchanged u v × Hindrance a u × (r.status ≡ ActionStatus.failed)
  Ends a u (ok (logged message emitted applied created)) v = Made a u created v
  Ends a u (err type_error) v = Unchanged u v × Hindrance a u
  Ends a u (err e) v = Hindrance a u

  stopped-Ends :
      (a : ActionIr) (u v : World) (e : KernelError)
      → Unchanged u v
      → Hindrance a u
      → Ends a u (err e) v
  stopped-Ends a u v type_error c h = (c, h)
  stopped-Ends a u v e c h = h

  expected-Ends :
      (a : ActionIr) (u v : World) (e : KernelError)
      → e ≢ type_error
      → Hindrance a u
      → Ends a u (err e) v
  expected-Ends a u v type_error n h = absurd (n refl)
  expected-Ends a u v e n h = h

  logged-Ends :
      (a : ActionIr) (m : ModuleContract) (result : TransitionResult) (created : List Entity)
      (u x v : World) (o : Outcome KernelError Attempt)
      → Passed a u m result
      → created ≡ entities_of result.entity_deltas
      → x.cells ≡ (commit fnmatch result.deltas m.write u.cells).1
      → x.entities ≡ u.entities ++ entries created
      → x.disk ≡ u.disk
      → Logs created x x.disk o v
      → Ends a u o v
  logged-Ends a m result created u x v (ok (answered r)) passed own cells entities disk l = absurd l
  logged-Ends a m result created u x v (ok (logged message emitted applied es)) passed own cells
        entities disk (same, held, stored, written) =
      (
        m,
        result,
        passed,
        ap next_write (sym disk) ∙ written,
        same ∙ own,
        stored ∙ cells,
        held ∙ entities ∙ ap (λ xs. u.entities ++ entries xs) (sym same),
      )
  logged-Ends a m result created u x v (err e) passed own cells entities disk (n, lost) =
      expected-Ends a u v e n (
        ordinary
          (not_logged m result passed.decided passed.accepted (ap next_write (sym disk) ∙ lost)))

  -- The rest of the `try` block, after the entities, with the outcome `o` of their creation.
  applied-Ends :
      (a : ActionIr) (m : ModuleContract) (result : TransitionResult) (started : List EventIr)
      (b : Option Behavior) (applied : List Applied) (u x v : World)
      (o : Outcome KernelError (List Entity))
      → Passed a u m result
      → x.cells ≡ (commit fnmatch result.deltas m.write u.cells).1
      → x.entities ≡ u.entities
      → x.disk ≡ u.disk
      → kept_part v ≡ kept_part x
      → (apply_entity_deltas result.entity_deltas x).0 ≡ o
      → Added result.entity_deltas x.entities o v
      → let r =
          continue {S = World} o
            (λ created.
              log_created fnmatch callback evaluate new_id message_of a m result started b applied
                created)
            v in
        Ends a u r.0 r.1
  applied-Ends a m result started b applied u x v (ok created) passed cells entities disk kept e
        (own, grown) =
      let l =
        log_created fnmatch callback evaluate new_id message_of a m result started b applied created
          v in
      logged-Ends a m result created u v l.1 l.0 passed own (ap (λ p. p.1) kept ∙ cells)
        (grown ∙ ap (λ x. x ++ entries created) entities) (ap (λ p. p.2) kept ∙ disk)
        (log_created-Logs fnmatch callback evaluate new_id message_of a m result started b applied
          created v)
  applied-Ends a m result started b applied u x v (err e) passed cells entities disk kept fails n =
      let (fit, new, capable) = passed.supported in
      let works = apply_entity_deltas-IsOk result.entity_deltas [] x (rw entities fit) new in
      absurd (rw fails at works)

  committed-Ends :
      (a : ActionIr) (m : ModuleContract) (result : TransitionResult) (started : List EventIr)
      (b : Option Behavior) (u : World) (o : Outcome KernelError (List Applied)) (c : Cells)
      → Decision fnmatch callback evaluate new_id message_of a u m result
      → result.accepted ≡ true
      → Supported m u.entities result.entity_deltas
      → commit fnmatch result.deltas m.write u.cells ≡ (o, c)
      → let r =
          continue {S = World} o
            (λ applied. apply_entity_deltas result.entity_deltas >>= λ created.
              log_created fnmatch callback evaluate new_id message_of a m result started b applied
                created)
            (restore_cells c (executed a u)) in
        Ends a u r.0 r.1
  committed-Ends a m result started b u (ok applied) c decided accepted supported done =
      let x : World = restore_cells c (executed a u) in
      let added = apply_entity_deltas result.entity_deltas x in
      applied-Ends a m result started b applied u x added.1 added.0
        (record {
          decided = decided;
          accepted = accepted;
          supported = supported;
          whole = rw done tt;
        })
        (ap (λ r. r.1) (sym done)) refl refl (apply_entity_deltas-kept result.entity_deltas x) refl
        (apply_entity_deltas-Added result.entity_deltas x)
  committed-Ends a m result started b u (err e) c decided accepted supported done =
      stopped-Ends a u (restore_cells c (executed a u)) e
        (
          ap (λ r. r.1) (sym done)
              ∙ commit_atomic fnmatch m.write u.cells result.deltas (ap (λ r. r.0) done),
          refl,
        )
        (ordinary (forbidden m result e decided accepted (ap (λ r. r.0) done)))

  validated-Ends :
      (a : ActionIr) (m : ModuleContract) (result : TransitionResult) (started : List EventIr)
      (b : Option Behavior) (u : World) (o : Outcome KernelError (Unit {0}))
      → Decision fnmatch callback evaluate new_id message_of a u m result
      → result.accepted ≡ true
      → validate_entity_deltas result m (executed a u) ≡ o
      → let r =
          continue {S = World} o
            (λ _. commit_deltas fnmatch callback evaluate new_id message_of m result >>= λ applied.
              apply_entity_deltas result.entity_deltas >>= λ created.
              log_created fnmatch callback evaluate new_id message_of a m result started b applied
                created)
            (executed a u) in
        Ends a u r.0 r.1
  unfolding commit_deltas
  validated-Ends a m result started b u (ok tt) decided accepted valid =
      let done = commit fnmatch result.deltas m.write u.cells in
      committed-Ends a m result started b u done.0 done.1 decided accepted
        (validate-Supported result m (executed a u) valid) refl
  validated-Ends a m result started b u (err e) decided accepted invalid =
      stopped-Ends a u (executed a u) e (refl, refl)
        (unsupported m result e decided accepted
          (refused-Supported result m (executed a u) e invalid) invalid)

  answered-Ends :
      (a : ActionIr) (u v : World) (o : Outcome KernelError ActionReceipt)
      → Unchanged u v
      → Hindrance a u
      → IsFailed o
      → let r = continue {S = World} o (λ x. pure (answered x)) v in Ends a u r.0 r.1
  answered-Ends a u v (ok x) c h status = (c, h, status)
  answered-Ends a u v (err e) c h status = stopped-Ends a u v e c h

  judge-Ends :
      (a : ActionIr) (m : ModuleContract) (result : TransitionResult) (started : List EventIr)
      (b : Option Behavior) (u : World) (accepted : Bool)
      → Quiet u
      → Decision fnmatch callback evaluate new_id message_of a u m result
      → result.accepted ≡ accepted
      → let r =
          judge fnmatch callback evaluate new_id message_of a m result started b (executed a u) in
        Ends a u r.0 r.1 × Quiet r.1
  unfolding validate_entity_deltas commit_deltas
  judge-Ends a m result started b u true q decided accepted =
      let x = executed a u in
      rw accepted (
        validated-Ends a m result started b u (validate_entity_deltas result m x) decided accepted
            refl,
        transact-listeners fnmatch callback evaluate new_id message_of a m result started b x ∙ q,
      )
  judge-Ends a m result started b u false q decided accepted =
      let x = executed a u in
      let failing =
        fail fnmatch callback evaluate new_id message_of a result.message (is_some b) x in
      let kept =
        fail-Same fnmatch callback evaluate new_id message_of a result.message (is_some b) x q in
      rw accepted (
        answered-Ends a u failing.1 failing.0 (kept.cells, kept.registry)
            (ordinary (refused m result decided accepted))
            (fail-IsFailed fnmatch callback evaluate new_id message_of a result.message (is_some b)
              x),
        answered-Quiet failing.0 failing.1 (kept.subscribers ∙ q),
      )

  decided-Ends :
      (a : ActionIr) (m : ModuleContract) (started : List EventIr) (b : Option Behavior) (u : World)
      (o : Outcome KernelError TransitionResult)
      → Quiet u
      → module_for a.verb u ≡ ok m
      → evaluate m.module_id a (executed a u) ≡ o
      → let r =
          continue {S = World} o
            (λ result. judge fnmatch callback evaluate new_id message_of a m result started b)
            (executed a u) in
        Ends a u r.0 r.1 × Quiet r.1
  decided-Ends a m started b u (ok result) q known e =
      judge-Ends a m result started b u result.accepted q (known, e) refl
  decided-Ends a m started b u (err x) q known e =
      (stopped-Ends a u (executed a u) x (refl, refl) (ordinary (raised m x known e)), q)

  provided-Ends :
      (a : ActionIr) (started : List EventIr) (b : Option Behavior) (u : World)
      (o : Outcome KernelError ModuleContract)
      → Quiet u
      → module_for a.verb u ≡ o
      → let r =
          continue {S = World} o
            (λ m v.
              continue {S = World}
                (evaluate m.module_id a (executed a v))
                (λ result. judge fnmatch callback evaluate new_id message_of a m result started b)
                (executed a v))
            u in
        Ends a u r.0 r.1 × Quiet r.1
  provided-Ends a started b u (ok m) q known =
      decided-Ends a m started b u (evaluate m.module_id a (executed a u)) q known refl
  provided-Ends a started b u (err x) q known =
      (stopped-Ends a u u x (refl, refl) (ordinary (unclaimed x known)), q)

  pub attempt-Ends :
      (a : ActionIr) (started : List EventIr) (b : Option Behavior) (u : World)
      → Quiet u
      → let r = attempt fnmatch callback evaluate new_id message_of a started b u in
        Ends a u r.0 r.1 × Quiet r.1
  unfolding attempt
  attempt-Ends a started b u q = provided-Ends a started b u (module_for a.verb u) q refl

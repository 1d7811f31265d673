-- ===== src/Kernel/EntityTransaction/Created.antt =====
-- entity_transaction.py: the creation of the entities in the `try` block, and the log of its events.
use compilableworld_runtime.Base.{
  arith, ℕ, String, Bool, true, false, ◌≡◌, ◌≢◌, ◌∙◌, refl, sym, ap, Option, none, some, List, [],
  ◌∷◌, ◌++◌, map, Outcome, ok, err, inl, inr, Bool-cases, string_eq, IsOk,
}
use compilableworld_runtime.Base.Lists.{All}
use compilableworld_runtime.Base.Dict.{Dict, insert, is_in}
use compilableworld_runtime.Base.Dict.Entries.{insert-absent, is_in-insert_ne}
use mathlib.Core.List.{append-nil, append_assoc}
use compilableworld_runtime.Base.Exec.{pure, lift, ◌>>=◌, continue, part_bind}
use compilableworld_runtime.Kernel.Value.{KernelError, type_error}
use compilableworld_runtime.Kernel.State.{Applied, Cells}
use compilableworld_runtime.Kernel.Models.{
  ActionIr, EventIr, TransitionResult, ModuleContract, Entity, EntityDelta,
}
use compilableworld_runtime.Kernel.World.{
  Behavior, World, Op, add_entity, append_batch, write_batch,
}
use compilableworld_runtime.Kernel.Runtime.{contains_text}
use compilableworld_runtime.Kernel.Execution.{action_lifecycle_event, commit_deltas}
use compilableworld_runtime.Kernel.Execution.Ends.{next_write}
use compilableworld_runtime.Kernel.EntityTransaction.{
  validate_entity_deltas, apply_delta, with_dynamic, log_created, log_all, apply_entity_deltas,
  Attempt, answered, logged, transact,
}
use compilableworld_runtime.Kernel.EntityTransaction.Supported.{Fits, New}

-- What the creation of entities and the making of events leave alone.
abbrev pub kept_part : World → Dict String (List String) × Cells × List Bool
kept_part w = (w.subscribers, w.cells, w.disk)

pub apply_entity_deltas-kept :
    (ds : List EntityDelta) (w : World) → kept_part (apply_entity_deltas ds w).1 ≡ kept_part w
unfolding apply_entity_deltas add_entity
apply_entity_deltas-kept [] w = refl
apply_entity_deltas-kept (d ∷ ds) w =
    part_bind kept_part (apply_delta d)
      (λ _. apply_entity_deltas ds >>= λ rest. pure (d.entity ∷ rest)) w (ground arith)
      (λ _ v.
        part_bind kept_part (apply_entity_deltas ds) (λ rest. pure (d.entity ∷ rest)) v
          (apply_entity_deltas-kept ds v) (λ _ _. refl))

abbrev listeners : World → Dict String (List String)
listeners w = w.subscribers

-- The entities of a list, each under its id.
abbrev pub entries : List Entity → Dict String Entity
entries es = map (λ e. (e.entity_id, e)) es

abbrev pub entities_of : List EntityDelta → List Entity
entities_of ds = map (λ d. d.entity) ds

-- The created entities are those of the deltas, and come after those that were there.
abbrev pub Added :
    List EntityDelta → Dict String Entity → Outcome KernelError (List Entity) → World → Type 0
Added ds m (ok created) v = (created ≡ entities_of ds) × (v.entities ≡ m ++ entries created)
Added ds m (err e) v = e ≢ type_error

abbrev entered : EntityDelta → World → World
entered d w =
    with_dynamic d.entity.entity_id
      (record w { entities = insert d.entity.entity_id d.entity w.entities })

Added-first :
    (d : EntityDelta) (ds : List EntityDelta) (m n : Dict String Entity)
    (o : Outcome KernelError (List Entity)) (v : World)
    → n ≡ m ++ ((d.entity.entity_id, d.entity) ∷ [])
    → Added ds n o v
    → let r = continue {S = World} o (λ rest. pure (d.entity ∷ rest)) v in Added (d ∷ ds) m r.0 r.1
Added-first d ds m n (ok es) v e (same, h) = (
  ap (λ xs. d.entity ∷ xs) same,
  h
      ∙ ap (λ x. x ++ entries es) e
      ∙ append_assoc m ((d.entity.entity_id, d.entity) ∷ []) (entries es),
)
Added-first d ds m n (err x) v e h = h

pub apply_entity_deltas-Added :
    (ds : List EntityDelta) (w : World)
    → Added ds w.entities (apply_entity_deltas ds w).0 (apply_entity_deltas ds w).1
unfolding apply_entity_deltas add_entity
apply_entity_deltas-Added [] w = (refl, sym (append-nil w.entities))
apply_entity_deltas-Added (d ∷ ds) w = elim (Bool-cases (is_in d.entity.entity_id w.entities)) [
  | inl taken ↦ rw taken (λ e. cc e)
  | inr free ↦ rw free (
      Added-first d ds w.entities (entered d w).entities (apply_entity_deltas ds (entered d w)).0
        (apply_entity_deltas ds (entered d w)).1
        (insert-absent d.entity.entity_id d.entity w.entities free)
        (apply_entity_deltas-Added ds (entered d w)))
]

-- The creation of one entity leaves the other deltas as fit as they were.
inserted-Fits :
    (id : String) (x : Entity) (m : Dict String Entity) (seen : List String) (ds : List EntityDelta)
    → contains_text id seen ≡ true
    → All (Fits m) ds
    → New seen ds
    → All (Fits (insert id x m)) ds
inserted-Fits id x m seen [] h fit new = tt
inserted-Fits id x m seen (d ∷ ds) h ((created, absent, named, free), fit) (first, new) =
    let other : id ≢ d.entity.entity_id = λ e. cc (h, first, ap (λ i. contains_text i seen) e) in
    (
      (created, absent, named, is_in-insert_ne id d.entity.entity_id x m other ∙ free),
      inserted-Fits id x m (d.entity.entity_id ∷ seen) ds (ground (arith, h)) fit new,
    )

first-IsOk :
    (d : EntityDelta) (o : Outcome KernelError (List Entity)) (v : World)
    → IsOk o
    → IsOk (continue {S = World} o (λ rest. pure (d.entity ∷ rest)) v).0
first-IsOk d (ok es) v h = tt
first-IsOk d (err e) v h = h

pub apply_entity_deltas-IsOk :
    (ds : List EntityDelta) (seen : List String) (w : World)
    → All (Fits w.entities) ds
    → New seen ds
    → IsOk (apply_entity_deltas ds w).0
unfolding apply_entity_deltas add_entity
apply_entity_deltas-IsOk [] seen w fit new = tt
apply_entity_deltas-IsOk (d ∷ ds) seen w ((created, absent, named, free), fit) (first, new) =
    let id = d.entity.entity_id in
    let own : contains_text id (id ∷ seen) ≡ true =
      let same = string_eq.beq_iff id id in ground (arith, same) in
    rw free (
      first-IsOk d (apply_entity_deltas ds (entered d w)).0 (apply_entity_deltas ds (entered d w)).1
        (apply_entity_deltas-IsOk ds (id ∷ seen) (entered d w)
          (inserted-Fits id d.entity w.entities (id ∷ seen) ds own fit new) new))

-- How the log ends a `try` block that created these entities in the world `w`.
abbrev pub Logs : List Entity → World → List Bool → Outcome KernelError Attempt → World → Type 0
Logs created w disk (ok (answered r)) v = ⊥
Logs created w disk (ok (logged message emitted applied es)) v =
    (es ≡ created) × (v.entities ≡ w.entities) × (v.cells ≡ w.cells) × (next_write disk ≡ true)
Logs created w disk (err e) v = (e ≢ type_error) × (next_write disk ≡ false)

log_all-Logs :
    (message : String) (e : EventIr) (es : List EventIr) (applied : List Applied)
    (created : List Entity) (w : World)
    → let r = log_all message (e ∷ es) applied created w in Logs created w w.disk r.0 r.1
unfolding log_all append_batch
log_all-Logs message e es applied created w = go w.disk
  where
    go :
        (disk : List Bool)
        → let r = write_batch (e ∷ es) disk w in
          let done : Outcome KernelError Attempt × World =
            continue {S = World} r.0 (λ _. pure (logged message (e ∷ es) applied created)) r.1 in
          Logs created w disk done.0 done.1
    go [] = (refl, refl, refl, refl)
    go (true ∷ rest) = (refl, refl, refl, refl)
    go (false ∷ rest) = (λ x. cc x, refl)

module _ (fnmatch : String → String → Bool) (callback : String → EventIr → Op (Unit {0}))
    (evaluate : String → ActionIr → World → Outcome KernelError TransitionResult)
    (new_id : ℕ → String) (message_of : KernelError → String) where
  log_created-listeners :
      (a : ActionIr) (m : ModuleContract) (result : TransitionResult) (started : List EventIr)
      (b : Option Behavior) (applied : List Applied) (created : List Entity) (w : World)
      → listeners
          (log_created fnmatch callback evaluate new_id message_of a m result started b applied
            created w).1
        ≡ listeners w
  unfolding action_lifecycle_event append_batch log_all
  log_created-listeners a m result started b applied created w = ground arith

  pub transact-listeners :
      (a : ActionIr) (m : ModuleContract) (result : TransitionResult) (started : List EventIr)
      (b : Option Behavior) (w : World)
      → listeners (transact fnmatch callback evaluate new_id message_of a m result started b w).1
        ≡ listeners w
  unfolding commit_deltas
  transact-listeners a m result started b w =
      let commits = commit_deltas fnmatch callback evaluate new_id message_of m result in
      let logs = log_created fnmatch callback evaluate new_id message_of a m result started b in
      part_bind listeners (λ v. lift (validate_entity_deltas result m v) v)
        (λ _. commits >>= λ applied.
          apply_entity_deltas result.entity_deltas >>= λ created. logs applied created)
        w refl
        (λ _ v.
          part_bind listeners commits
            (λ applied.
              apply_entity_deltas result.entity_deltas >>= λ created. logs applied created)
            v refl
            (λ applied u.
              part_bind listeners (apply_entity_deltas result.entity_deltas) (logs applied) u
                (ap (λ p. p.0) (apply_entity_deltas-kept result.entity_deltas u))
                (log_created-listeners a m result started b applied)))

  pub log_created-Logs :
      (a : ActionIr) (m : ModuleContract) (result : TransitionResult) (started : List EventIr)
      (b : Option Behavior) (applied : List Applied) (created : List Entity) (w : World)
      → let r =
          log_created fnmatch callback evaluate new_id message_of a m result started b applied
            created w in
        Logs created w w.disk r.0 r.1
  unfolding action_lifecycle_event
  log_created-Logs a m result [] none applied [] w = log_all-Logs _ _ _ _ _ _
  log_created-Logs a m result [] none applied (e ∷ es) w = log_all-Logs _ _ _ _ _ _
  log_created-Logs a m result [] (some b) applied [] w = log_all-Logs _ _ _ _ _ _
  log_created-Logs a m result [] (some b) applied (e ∷ es) w = log_all-Logs _ _ _ _ _ _
  log_created-Logs a m result (x ∷ xs) none applied [] w = log_all-Logs _ _ _ _ _ _
  log_created-Logs a m result (x ∷ xs) none applied (e ∷ es) w = log_all-Logs _ _ _ _ _ _
  log_created-Logs a m result (x ∷ xs) (some b) applied [] w = log_all-Logs _ _ _ _ _ _
  log_created-Logs a m result (x ∷ xs) (some b) applied (e ∷ es) w = log_all-Logs _ _ _ _ _ _

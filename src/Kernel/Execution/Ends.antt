-- ===== src/Kernel/Execution/Ends.antt =====
-- kernel.py: how the `try` block of `_execute` ends, and what it leaves of the cells.
use compilableworld_runtime.Base.{
  ℕ, String, Bool, true, false, ◌≡◌, ◌≢◌, ◌∙◌, refl, sym, ap, Option, none, some, List, [], ◌∷◌,
  Outcome, ok, err, IsOk,
}
use compilableworld_runtime.Base.Exec.{pure, continue, ◌>>=◌}
use compilableworld_runtime.Kernel.Value.{KernelError, type_error}
use compilableworld_runtime.Kernel.Models.{
  ActionIr, EventIr, TransitionResult, ActionReceipt, ModuleContract, executing, failed,
}
use compilableworld_runtime.Kernel.State.{Applied, Cells, commit}
use compilableworld_runtime.Kernel.State.Commit.{commit_atomic}
use compilableworld_runtime.Kernel.World.{Behavior, World, Op, append_batch, write_batch, mark}
use compilableworld_runtime.Kernel.Runtime.{module_for}
use compilableworld_runtime.Kernel.Execution.{
  Attempt, answered, logged, fail, log_commit, log_emitted, commit_deltas, judge, attempt, is_some,
  restore_cells, action_lifecycle_event,
}
use compilableworld_runtime.Kernel.Execution.Receipts.{IsFailed, fail-IsFailed}
use compilableworld_runtime.Kernel.Execution.Frame.{Same, Quiet, fail-Same, log_commit-Same}

append_batch-expected : (es : List EventIr) (w : World) → (append_batch es w).0 ≢ err type_error
unfolding append_batch
append_batch-expected [] w h = cc
append_batch-expected (e ∷ es) w h = go w.disk h
  where
    go : (disk : List Bool) → (write_batch (e ∷ es) disk w).0 ≢ err type_error
    go [] h = cc
    go (true ∷ rest) h = cc
    go (false ∷ rest) h = cc

then_pure-expected :
    {A : Type 0} (o : Outcome KernelError (Unit {0})) (x : A) (w : World)
    → o ≢ err type_error
    → (continue {S = World} o (λ _. pure x) w).0 ≢ err type_error
then_pure-expected (ok u) x w n h = cc
then_pure-expected (err e) x w n h = n (cc)

log_emitted-expected :
    (es : List EventIr) (applied : List Applied) (w : World)
    → (log_emitted es applied w).0 ≢ err type_error
unfolding log_emitted
log_emitted-expected es applied w =
    then_pure-expected (append_batch es w).0 (es, applied) (append_batch es w).1
      (append_batch-expected es w)

-- Whether the next write to the disk succeeds.
abbrev pub next_write : List Bool → Bool
next_write [] = true
next_write (b ∷ bs) = b

-- A batch of events is logged exactly where the next write succeeds.
abbrev Written : {A : Type 0} → Outcome KernelError A → List Bool → Type 0
Written (ok x) disk = next_write disk ≡ true
Written (err e) disk = next_write disk ≡ false

log_emitted-Written :
    (e : EventIr) (es : List EventIr) (applied : List Applied) (w : World)
    → Written (log_emitted (e ∷ es) applied w).0 w.disk
unfolding log_emitted append_batch
log_emitted-Written e es applied w = go w.disk
  where
    go :
        (disk : List Bool)
        → let r = write_batch (e ∷ es) disk w in
          let logged : Outcome KernelError (List EventIr × List Applied) × World =
            continue {S = World} r.0 (λ _. pure (e ∷ es, applied)) r.1 in
          Written logged.0 disk
    go [] = refl
    go (true ∷ rest) = refl
    go (false ∷ rest) = refl

module _ (fnmatch : String → String → Bool) (callback : String → EventIr → Op (Unit {0}))
    (evaluate : String → ActionIr → World → Outcome KernelError TransitionResult)
    (new_id : ℕ → String) (message_of : KernelError → String) where
  -- The module of the action, and what it decides where the action is executing, in the world `u`.
  abbrev pub Decision : ActionIr → World → ModuleContract → TransitionResult → Type 0
  Decision a u m result =
      (module_for a.verb u ≡ ok m)
      × (evaluate m.module_id a (mark a.action_id executing u) ≡ ok result)

  -- All of it works: the module accepts, its deltas can be committed, and the log can be written. The
  -- cells of `v` are those of `u` after the commit.
  abbrev pub Committed : ActionIr → World → World → Type 0
  Committed a u v =
      (m : ModuleContract) × (result : TransitionResult) × Decision a u m result
      × (result.accepted ≡ true)
      × IsOk (commit fnmatch result.deltas m.write u.cells).0
      × (next_write u.disk ≡ true)
      × (v.cells ≡ (commit fnmatch result.deltas m.write u.cells).1)

  -- What went wrong of it.
  pub data Obstacle (a : ActionIr) (u : World) : Type 0 where
    unclaimed : (e : KernelError) → module_for a.verb u ≡ err e → Obstacle a u
    raised :
        (m : ModuleContract) (e : KernelError)
        → module_for a.verb u ≡ ok m
        → evaluate m.module_id a (mark a.action_id executing u) ≡ err e
        → Obstacle a u
    refused :
        (m : ModuleContract) (result : TransitionResult)
        → Decision a u m result
        → result.accepted ≡ false
        → Obstacle a u
    forbidden :
        (m : ModuleContract) (result : TransitionResult) (e : KernelError)
        → Decision a u m result
        → result.accepted ≡ true
        → (commit fnmatch result.deltas m.write u.cells).0 ≡ err e
        → Obstacle a u
    not_logged :
        (m : ModuleContract) (result : TransitionResult)
        → Decision a u m result
        → result.accepted ≡ true
        → next_write u.disk ≡ false
        → Obstacle a u

  -- How a `try` block that began with the world `u` may end.
  abbrev pub Ends : ActionIr → World → Outcome KernelError Attempt → World → Type 0
  Ends a u (ok (answered r)) v = (v.cells ≡ u.cells) × Obstacle a u × (r.status ≡ failed)
  Ends a u (ok (logged message emitted applied)) v = Committed a u v × Quiet v
  Ends a u (err type_error) v = (v.cells ≡ u.cells) × Obstacle a u
  Ends a u (err e) v = Quiet v × Obstacle a u

  unchanged-Ends :
      (a : ActionIr) (u v : World) (e : KernelError)
      → v.cells ≡ u.cells
      → Quiet v
      → Obstacle a u
      → Ends a u (err e) v
  unchanged-Ends a u v type_error c q o = (c, o)
  unchanged-Ends a u v e c q o = (q, o)

  raised-Ends :
      (a : ActionIr) (u v : World) (e : KernelError)
      → e ≢ type_error
      → Quiet v
      → Obstacle a u
      → Ends a u (err e) v
  raised-Ends a u v type_error n q o = absurd (n refl)
  raised-Ends a u v e n q o = (q, o)

  answered-Ends :
      (a : ActionIr) (u v : World) (o : Outcome KernelError ActionReceipt)
      → v.cells ≡ u.cells
      → Quiet v
      → Obstacle a u
      → IsFailed o
      → let r = continue {S = World} o (λ x. pure (answered x)) v in Ends a u r.0 r.1
  answered-Ends a u v (ok x) c q k s = (c, k, s)
  answered-Ends a u v (err e) c q k s = unchanged-Ends a u v e c q k

  logged-Ends :
      (a : ActionIr) (u v x : World) (message : String)
      (o : Outcome KernelError (List EventIr × List Applied))
      → o ≢ err type_error
      → Written o x.disk
      → (next_write x.disk ≡ true → Committed a u v)
      → (next_write x.disk ≡ false → Obstacle a u)
      → Quiet v
      → let r = continue {S = World} o (λ y. pure (logged message y.0 y.1)) v in Ends a u r.0 r.1
  logged-Ends a u v x message (ok y) n written c k q = (c written, q)
  logged-Ends a u v x message (err e) n written c k q =
      raised-Ends a u v e (λ h. n (ap (λ (x : KernelError). err x) h)) q (k written)

  log_commit-Written :
      (a : ActionIr) (m : ModuleContract) (result : TransitionResult) (started : List EventIr)
      (b : Option Behavior) (applied : List Applied) (w : World)
      → Written
          (log_commit fnmatch callback evaluate new_id message_of a m result started b applied w).0
          w.disk
  unfolding action_lifecycle_event
  log_commit-Written a m result [] none applied w = log_emitted-Written _ _ _ _
  log_commit-Written a m result [] (some b) applied w = log_emitted-Written _ _ _ _
  log_commit-Written a m result (x ∷ xs) none applied w = log_emitted-Written _ _ _ _
  log_commit-Written a m result (x ∷ xs) (some b) applied w = log_emitted-Written _ _ _ _

  log_commit-expected :
      (a : ActionIr) (m : ModuleContract) (result : TransitionResult) (started : List EventIr)
      (b : Option Behavior) (applied : List Applied) (w : World)
      → (log_commit fnmatch callback evaluate new_id message_of a m result started b applied w).0
        ≢ err type_error
  unfolding action_lifecycle_event
  log_commit-expected a m result started none applied w = log_emitted-expected _ _ _
  log_commit-expected a m result started (some b) applied w = log_emitted-expected _ _ _

  -- The rest of the `try` block, after `commit` with the outcome `o` and the cells `c`.
  committed-Ends :
      (a : ActionIr) (m : ModuleContract) (result : TransitionResult) (started : List EventIr)
      (b : Option Behavior) (u : World) (o : Outcome KernelError (List Applied)) (c : Cells)
      → Quiet u
      → Decision a u m result
      → result.accepted ≡ true
      → commit fnmatch result.deltas m.write u.cells ≡ (o, c)
      → let r =
          continue {S = World} o
            (λ applied.
              log_commit fnmatch callback evaluate new_id message_of a m result started b applied
              >>= λ r. pure (logged result.message r.0 r.1))
            (restore_cells c (mark a.action_id executing u)) in
        Ends a u r.0 r.1
  committed-Ends a m result started b u (ok applied) c q decided accepted done =
      let u1 : World = restore_cells c (mark a.action_id executing u) in
      let logging : Outcome KernelError (List EventIr × List Applied) × World =
        log_commit fnmatch callback evaluate new_id message_of a m result started b applied u1 in
      let kept : Same u1 logging.1 =
        log_commit-Same fnmatch callback evaluate new_id message_of a m result started b applied
          u1 in
      logged-Ends a u logging.1 u1 result.message logging.0
        (log_commit-expected a m result started b applied u1)
        (log_commit-Written a m result started b applied u1)
        (λ written. (
          m,
          result,
          decided,
          accepted,
          rw done tt,
          written,
          kept.cells ∙ ap (λ r. r.1) (sym done),
        ))
        (λ lost. not_logged m result decided accepted lost) (kept.subscribers ∙ q)
  committed-Ends a m result started b u (err e) c q decided accepted done =
      unchanged-Ends a u (restore_cells c (mark a.action_id executing u)) e
        ((ap (λ r. r.1) (sym done))
          ∙ commit_atomic fnmatch m.write u.cells result.deltas (ap (λ r. r.0) done))
        q (forbidden m result e decided accepted (ap (λ r. r.0) done))

  judge-Ends :
      (a : ActionIr) (m : ModuleContract) (result : TransitionResult) (started : List EventIr)
      (b : Option Behavior) (u : World) (accepted : Bool)
      → Quiet u
      → Decision a u m result
      → result.accepted ≡ accepted
      → let r =
          judge fnmatch callback evaluate new_id message_of a m result started b
            (mark a.action_id executing u) in
        Ends a u r.0 r.1
  unfolding commit_deltas commit
  judge-Ends a m result started b u true q decided accepted =
      let done : Outcome KernelError (List Applied) × Cells =
        commit fnmatch result.deltas m.write u.cells in
      rw accepted (committed-Ends a m result started b u done.0 done.1 q decided accepted refl)
  judge-Ends a m result started b u false q decided accepted =
      let x : World = mark a.action_id executing u in
      let failing : Outcome KernelError ActionReceipt × World =
        fail fnmatch callback evaluate new_id message_of a result.message (is_some b) x in
      let kept : Same x failing.1 =
        fail-Same fnmatch callback evaluate new_id message_of a result.message (is_some b) x q in
      rw accepted (
        answered-Ends a u failing.1 failing.0 kept.cells (kept.subscribers ∙ q)
          (refused m result decided accepted)
          (fail-IsFailed fnmatch callback evaluate new_id message_of a result.message (is_some b)
            x))

  decided-Ends :
      (a : ActionIr) (m : ModuleContract) (started : List EventIr) (b : Option Behavior) (u : World)
      (o : Outcome KernelError TransitionResult)
      → Quiet u
      → module_for a.verb u ≡ ok m
      → evaluate m.module_id a (mark a.action_id executing u) ≡ o
      → let r =
          continue {S = World} o
            (λ result. judge fnmatch callback evaluate new_id message_of a m result started b)
            (mark a.action_id executing u) in
        Ends a u r.0 r.1
  decided-Ends a m started b u (ok result) q known e =
      judge-Ends a m result started b u result.accepted q (known, e) refl
  decided-Ends a m started b u (err x) q known e =
      unchanged-Ends a u (mark a.action_id executing u) x refl q (raised m x known e)

  provided-Ends :
      (a : ActionIr) (started : List EventIr) (b : Option Behavior) (u : World)
      (o : Outcome KernelError ModuleContract)
      → Quiet u
      → module_for a.verb u ≡ o
      → let r =
          continue {S = World} o
            (λ m v.
              continue {S = World}
                (evaluate m.module_id a (mark a.action_id executing v))
                (λ result. judge fnmatch callback evaluate new_id message_of a m result started b)
                (mark a.action_id executing v))
            u in
        Ends a u r.0 r.1
  provided-Ends a started b u (ok m) q known =
      decided-Ends a m started b u (evaluate m.module_id a (mark a.action_id executing u)) q known
        refl
  provided-Ends a started b u (err x) q known = unchanged-Ends a u u x refl q (unclaimed x known)

  pub attempt-Ends :
      (a : ActionIr) (started : List EventIr) (b : Option Behavior) (u : World)
      → Quiet u
      → let r = attempt fnmatch callback evaluate new_id message_of a started b u in
        Ends a u r.0 r.1
  unfolding attempt
  attempt-Ends a started b u q = provided-Ends a started b u (module_for a.verb u) q refl

-- ===== src/Kernel/Advance/Tick.antt =====
-- kernel.py: what the `try` block of a tick of `WorldRuntime.advance` leaves in the log.
use compilableworld_runtime.Base.{
  arith, ℕ, String, Bool, true, false, ◌≡◌, ◌∙◌, refl, sym, ap, List, [], ◌∷◌, ◌++◌, Outcome, ok,
  err, string_eq, nat_eq,
}
use mathlib.Core.List.{append-nil}
use compilableworld_runtime.Base.Exec.{pure, ◌>>◌, continue}
use compilableworld_runtime.Kernel.Value.{KernelError}
use compilableworld_runtime.Kernel.Models.{ActionIr, EventIr, TransitionResult}
use compilableworld_runtime.Kernel.Scheduler.{Entry}
use compilableworld_runtime.Kernel.World.{World, Op, append_batch, write_batch}
use compilableworld_runtime.Kernel.Checkpoint.{
  Verdict, progress, retry, failure, Decision, ensure_runtime,
}
use compilableworld_runtime.Kernel.Checkpoint.Entries.{action_checkpoint_decisions, decisions_of}
use compilableworld_runtime.Kernel.Advance.{apply_verdict, apply_decisions, events_of, attempt_tick}
use compilableworld_runtime.Kernel.Advance.Frame.{Logged, logged_part, unlogged_bind}
use compilableworld_runtime.Kernel.Advance.Routes.{decisions_of-unlogged}

apply_verdict-unlogged :
    (entry : Entry) (v : Verdict) (w : World)
    → logged_part (apply_verdict entry v w).1 ≡ logged_part w
unfolding apply_verdict ensure_runtime
apply_verdict-unlogged entry (progress phase_id due) w = ground arith
apply_verdict-unlogged entry (retry due phase_id s message) w = ground arith
apply_verdict-unlogged entry (failure message) w = ground arith

apply_decisions-unlogged :
    (ds : List Decision) (w : World) → logged_part (apply_decisions ds w).1 ≡ logged_part w
unfolding apply_decisions
apply_decisions-unlogged [] w = refl
apply_decisions-unlogged (d ∷ ds) w =
    unlogged_bind (apply_verdict d.entry d.verdict) (λ _. apply_decisions ds) w
      (apply_verdict-unlogged d.entry d.verdict w) (λ _ v. apply_decisions-unlogged ds v)

-- What `append_batch` leaves: all of the events, or none.
abbrev pub AppendedOr : World → List EventIr → Outcome KernelError (Unit {0}) → World → Type 0
AppendedOr w es (ok u) v = v.events ≡ w.events ++ es
AppendedOr w es (err e) v = logged_part v ≡ logged_part w

append_batch-AppendedOr :
    (es : List EventIr) (w : World) → AppendedOr w es (append_batch es w).0 (append_batch es w).1
unfolding append_batch
append_batch-AppendedOr [] w = sym (append-nil w.events)
append_batch-AppendedOr (e ∷ es) w = go w.disk
  where
    go :
        (disk : List Bool)
        → AppendedOr w (e ∷ es) (write_batch (e ∷ es) disk w).0 (write_batch (e ∷ es) disk w).1
    go [] = refl
    go (true ∷ rest) = refl
    go (false ∷ rest) = refl

-- What the `try` block of a tick leaves: the events of all its decisions in the log, or no event.
abbrev pub LoggedOrNot : World → Outcome KernelError (List Decision) → World → Type 0
LoggedOrNot w (ok ds) v = v.events ≡ w.events ++ events_of ds
LoggedOrNot w (err e) v = logged_part v ≡ logged_part w

after_append :
    (w v : World) (ds : List Decision) (o : Outcome KernelError (Unit {0})) (s : World)
    → logged_part v ≡ logged_part w
    → AppendedOr v (events_of ds) o s
    → LoggedOrNot w (continue o (λ _. pure ds) s).0 (continue o (λ _. pure ds) s).1
after_append w v ds (ok u) s g h = h ∙ ap (λ (x : Logged). x.0 ++ events_of ds) g
after_append w v ds (err e) s g h = h ∙ g

-- The rest of the `try` block, from the outcome of the decisions' application.
after_apply :
    (w : World) (ds : List Decision) (o : Outcome KernelError (Unit {0})) (v : World)
    → logged_part v ≡ logged_part w
    → LoggedOrNot w
        (continue o (λ _. append_batch (events_of ds) >> pure ds) v).0
        (continue o (λ _. append_batch (events_of ds) >> pure ds) v).1
after_apply w ds (ok u) v g =
    let logged = append_batch (events_of ds) v in
    after_append w v ds logged.0 logged.1 g (append_batch-AppendedOr (events_of ds) v)
after_apply w ds (err e) v g = g

abbrev commit_decisions : List Decision → Op (List Decision)
commit_decisions ds = apply_decisions ds >> (append_batch (events_of ds) >> pure ds)

after_decisions :
    (w : World) (o : Outcome KernelError (List Decision)) (v : World)
    → logged_part v ≡ logged_part w
    → LoggedOrNot w (continue o commit_decisions v).0 (continue o commit_decisions v).1
after_decisions w (ok ds) v g =
    let applied = apply_decisions ds v in
    after_apply w ds applied.0 applied.1 (apply_decisions-unlogged ds v ∙ g)
after_decisions w (err e) v g = g

module _ (fnmatch : String → String → Bool) (callback : String → EventIr → Op (Unit {0}))
    (evaluate : String → ActionIr → World → Outcome KernelError TransitionResult)
    (new_id : ℕ → String) (message_of : KernelError → String) (decimal : ℕ → String) where
  -- The `try` block of a tick, whatever the modules, callbacks and conditions are: if it ends, the log
  -- holds exactly the events of all its decisions after those that it held; if it raises, the log, the
  -- counters, the subscribers and the entities are as before.
  pub attempt_tick-LoggedOrNot :
      (w : World)
      → let tried = attempt_tick fnmatch callback evaluate new_id message_of decimal w in
        LoggedOrNot w tried.0 tried.1
  unfolding attempt_tick action_checkpoint_decisions
  attempt_tick-LoggedOrNot w =
      let decided =
        decisions_of fnmatch callback evaluate new_id message_of decimal w.scheduler.queue w in
      after_decisions w decided.0 decided.1 (
        decisions_of-unlogged fnmatch callback evaluate new_id message_of decimal w.scheduler.queue
          w)
